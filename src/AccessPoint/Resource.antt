-- ===== src/AccessPoint/Resource.antt =====
-- The views of a AccessPoint that the runtime uses: pkg/resource/access_point/resource.go,
-- identifiers.go and descriptor.go, with the text of the other kinds.
use ack_ws_s3files_controlle.Prelude.{String, Bool, Option, some, List, GoMap}
use ack_ws_s3files_controlle.Ack.{Condition, ObjectMeta, Runtime}
use ack_ws_s3files_controlle.Identifiers
use ack_ws_s3files_controlle.Identifiers.{ResourceIdentifiers}
use ack_ws_s3files_controlle.Objects
use ack_ws_s3files_controlle.Objects.{Object, ControllerUtil}
use ack_ws_s3files_controlle.AccessPoint.Types.{AccessPointStatus, AccessPoint}

abbrev pub access_point_object : Object AccessPoint AccessPointStatus
access_point_object = record {
  finalizer_string = "finalizers.s3files.services.k8s.aws/AccessPoint";
  id_field = "id";
  metadata = λ r. r.metadata;
  with_metadata = λ r meta. record r { metadata = meta };
  status = λ r. r.status;
  with_status = λ r status. record r { status = status };
  with_id = λ r id. record r { status = record (r.status) { id = some id } };
}

abbrev pub identifiers : AccessPoint → ResourceIdentifiers
identifiers r = r.status.ack_resource_metadata

abbrev pub arn : ResourceIdentifiers → Option String
arn = Identifiers.arn

abbrev pub owner_account_id : ResourceIdentifiers → Option String
owner_account_id = Identifiers.owner_account_id

abbrev pub region : ResourceIdentifiers → Option String
region = Identifiers.region

abbrev pub partition : ResourceIdentifiers → Option String
partition = Identifiers.partition

abbrev pub is_being_deleted : AccessPoint → Bool
is_being_deleted = Objects.is_being_deleted access_point_object

abbrev pub replace_conditions : Option (List Condition) → AccessPoint → AccessPoint
replace_conditions cs r = record r { status = record (r.status) { conditions = cs } }

abbrev pub set_object_meta : ObjectMeta → AccessPoint → AccessPoint
set_object_meta = Objects.set_object_meta access_point_object

abbrev pub set_status : AccessPoint → AccessPoint → AccessPoint
set_status = Objects.set_status access_point_object

module _ {E : Type 0} (rt : Runtime E) where
  abbrev pub set_identifiers : String → AccessPoint → AccessPoint × Option E
  set_identifiers = Objects.set_identifiers access_point_object rt

  abbrev pub populate_resource_from_annotation : GoMap → AccessPoint → AccessPoint × Option E
  populate_resource_from_annotation =
      Objects.populate_resource_from_annotation access_point_object rt

abbrev pub finalizer_string : String
finalizer_string = access_point_object.finalizer_string

abbrev pub contains_finalizer : AccessPoint → String → Bool
contains_finalizer = Objects.contains_finalizer access_point_object

abbrev pub is_managed : AccessPoint → Bool
is_managed = Objects.is_managed access_point_object

module _ (util : ControllerUtil) where
  abbrev pub mark_managed : AccessPoint → AccessPoint
  mark_managed = Objects.mark_managed access_point_object util

  abbrev pub mark_unmanaged : AccessPoint → AccessPoint
  mark_unmanaged = Objects.mark_unmanaged access_point_object util

abbrev pub mark_adopted : String → AccessPoint → AccessPoint
mark_adopted = Objects.mark_adopted access_point_object
