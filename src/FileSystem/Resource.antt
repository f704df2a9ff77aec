-- ===== src/FileSystem/Resource.antt =====
-- The views of a FileSystem that the runtime uses: pkg/resource/file_system/resource.go,
-- identifiers.go and descriptor.go.
use ack_ws_s3files_controlle.Prelude.{String, Bool, Option, some, List, GoMap}
use ack_ws_s3files_controlle.Ack.{Condition, ObjectMeta, Runtime}
use ack_ws_s3files_controlle.Identifiers
use ack_ws_s3files_controlle.Identifiers.{ResourceIdentifiers}
use ack_ws_s3files_controlle.Objects
use ack_ws_s3files_controlle.Objects.{Object, ControllerUtil}
use ack_ws_s3files_controlle.FileSystem.Types.{FileSystemStatus, FileSystem}

abbrev pub file_system_object : Object FileSystem FileSystemStatus
file_system_object = record {
  finalizer_string = "finalizers.s3files.services.k8s.aws/FileSystem";
  id_field = "fileSystemID";
  metadata = λ r. r.metadata;
  with_metadata = λ r meta. record r { metadata = meta };
  status = λ r. r.status;
  with_status = λ r status. record r { status = status };
  with_id = λ r id. record r { status = record (r.status) { file_system_id = some id } };
}

abbrev pub identifiers : FileSystem → ResourceIdentifiers
identifiers r = r.status.ack_resource_metadata

abbrev pub arn : ResourceIdentifiers → Option String
arn = Identifiers.arn

abbrev pub owner_account_id : ResourceIdentifiers → Option String
owner_account_id = Identifiers.owner_account_id

abbrev pub region : ResourceIdentifiers → Option String
region = Identifiers.region

abbrev pub partition : ResourceIdentifiers → Option String
partition = Identifiers.partition

abbrev pub is_being_deleted : FileSystem → Bool
is_being_deleted = Objects.is_being_deleted file_system_object

abbrev pub replace_conditions : Option (List Condition) → FileSystem → FileSystem
replace_conditions cs r = record r { status = record (r.status) { conditions = cs } }

abbrev pub set_object_meta : ObjectMeta → FileSystem → FileSystem
set_object_meta = Objects.set_object_meta file_system_object

abbrev pub set_status : FileSystem → FileSystem → FileSystem
set_status = Objects.set_status file_system_object

module _ {E : Type 0} (rt : Runtime E) where
  abbrev pub set_identifiers : String → FileSystem → FileSystem × Option E
  set_identifiers = Objects.set_identifiers file_system_object rt

  abbrev pub populate_resource_from_annotation : GoMap → FileSystem → FileSystem × Option E
  populate_resource_from_annotation =
      Objects.populate_resource_from_annotation file_system_object rt

abbrev pub finalizer_string : String
finalizer_string = file_system_object.finalizer_string

abbrev pub contains_finalizer : FileSystem → String → Bool
contains_finalizer = Objects.contains_finalizer file_system_object

abbrev pub is_managed : FileSystem → Bool
is_managed = Objects.is_managed file_system_object

module _ (util : ControllerUtil) where
  abbrev pub mark_managed : FileSystem → FileSystem
  mark_managed = Objects.mark_managed file_system_object util

  abbrev pub mark_unmanaged : FileSystem → FileSystem
  mark_unmanaged = Objects.mark_unmanaged file_system_object util

abbrev pub mark_adopted : String → FileSystem → FileSystem
mark_adopted = Objects.mark_adopted file_system_object
