-- ===== src/MountTarget/Resource.antt =====
-- The views of a MountTarget that the runtime uses: pkg/resource/mount_target/resource.go,
-- identifiers.go and descriptor.go, with the text of the other kinds.
use ack_ws_s3files_controlle.Prelude.{String, Bool, Option, some, List, GoMap}
use ack_ws_s3files_controlle.Ack.{Condition, ObjectMeta, Runtime}
use ack_ws_s3files_controlle.Identifiers
use ack_ws_s3files_controlle.Identifiers.{ResourceIdentifiers}
use ack_ws_s3files_controlle.Objects
use ack_ws_s3files_controlle.Objects.{Object, ControllerUtil}
use ack_ws_s3files_controlle.MountTarget.Types.{MountTargetStatus, MountTarget}

abbrev pub mount_target_object : Object MountTarget MountTargetStatus
mount_target_object = record {
  finalizer_string = "finalizers.s3files.services.k8s.aws/MountTarget";
  id_field = "id";
  metadata = λ r. r.metadata;
  with_metadata = λ r meta. record r { metadata = meta };
  status = λ r. r.status;
  with_status = λ r status. record r { status = status };
  with_id = λ r id. record r { status = record (r.status) { id = some id } };
}

abbrev pub identifiers : MountTarget → ResourceIdentifiers
identifiers r = r.status.ack_resource_metadata

abbrev pub arn : ResourceIdentifiers → Option String
arn = Identifiers.arn

abbrev pub owner_account_id : ResourceIdentifiers → Option String
owner_account_id = Identifiers.owner_account_id

abbrev pub region : ResourceIdentifiers → Option String
region = Identifiers.region

abbrev pub partition : ResourceIdentifiers → Option String
partition = Identifiers.partition

abbrev pub is_being_deleted : MountTarget → Bool
is_being_deleted = Objects.is_being_deleted mount_target_object

abbrev pub replace_conditions : Option (List Condition) → MountTarget → MountTarget
replace_conditions cs r = record r { status = record (r.status) { conditions = cs } }

abbrev pub set_object_meta : ObjectMeta → MountTarget → MountTarget
set_object_meta = Objects.set_object_meta mount_target_object

abbrev pub set_status : MountTarget → MountTarget → MountTarget
set_status = Objects.set_status mount_target_object

module _ {E : Type 0} (rt : Runtime E) where
  abbrev pub set_identifiers : String → MountTarget → MountTarget × Option E
  set_identifiers = Objects.set_identifiers mount_target_object rt

  abbrev pub populate_resource_from_annotation : GoMap → MountTarget → MountTarget × Option E
  populate_resource_from_annotation =
      Objects.populate_resource_from_annotation mount_target_object rt

abbrev pub finalizer_string : String
finalizer_string = mount_target_object.finalizer_string

abbrev pub contains_finalizer : MountTarget → String → Bool
contains_finalizer = Objects.contains_finalizer mount_target_object

abbrev pub is_managed : MountTarget → Bool
is_managed = Objects.is_managed mount_target_object

module _ (util : ControllerUtil) where
  abbrev pub mark_managed : MountTarget → MountTarget
  mark_managed = Objects.mark_managed mount_target_object util

  abbrev pub mark_unmanaged : MountTarget → MountTarget
  mark_unmanaged = Objects.mark_unmanaged mount_target_object util

abbrev pub mark_adopted : String → MountTarget → MountTarget
mark_adopted = Objects.mark_adopted mount_target_object
