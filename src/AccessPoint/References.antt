-- ===== src/AccessPoint/References.antt =====
-- The reference of an AccessPoint to its file system (pkg/resource/access_point/references.go).
use ack_ws_s3files_controlle.Prelude.{String, false, Option, none, if◌then◌else◌, is_some}
use ack_ws_s3files_controlle.Ack.{Reply}
use ack_ws_s3files_controlle.Manager.{ResourceManager}
use ack_ws_s3files_controlle.References.{
  Getter, get_referenced_resource_state, resolve_reference, Resolution, resolve_field, both_error,
  neither_error,
}
use ack_ws_s3files_controlle.FileSystem.Types.{FileSystem}
use ack_ws_s3files_controlle.FileSystem.References.{file_system_target}
use ack_ws_s3files_controlle.AccessPoint.Types.{AccessPoint}

abbrev pub with_file_system_id : AccessPoint → Option String → AccessPoint
with_file_system_id ko v = record ko { spec = record (ko.spec) { file_system_id = v } }

unfoldable pub clear_resolved_references : AccessPoint → AccessPoint
clear_resolved_references ko = record ko {
  spec = record (ko.spec) {
    file_system_id = if is_some ko.spec.file_system_ref then none else ko.spec.file_system_id;
  };
}

module _ {S E : Type 0} (rm : ResourceManager S E) where
  unfoldable pub validate_reference_fields : AccessPoint → Option E
  validate_reference_fields ko =
      let has_ref = is_some ko.spec.file_system_ref in
      let has_id = is_some ko.spec.file_system_id in
      both_error rm.runtime "FileSystemID" "FileSystemRef" has_ref has_id
        (neither_error rm.runtime "FileSystemID" "FileSystemRef" has_ref has_id none)

  -- `get_file_system` is `client.Reader` at the file systems.
  module _ (get_file_system : Getter E FileSystem) where
    unfoldable pub get_referenced_resource_state_file_system : String → String → Reply E FileSystem
    get_referenced_resource_state_file_system =
        get_referenced_resource_state rm.runtime file_system_target get_file_system

    unfoldable pub resolve_reference_for_file_system_id : AccessPoint → Resolution E AccessPoint
    resolve_reference_for_file_system_id ko =
        resolve_reference rm.runtime rm.enable_cross_namespace ko.metadata.namespace "FileSystemRef"
          get_referenced_resource_state_file_system file_system_target.target with_file_system_id
          ko.spec.file_system_ref ko

    -- The error of the validation is returned at the end, after the field.
    unfoldable pub resolve_references : AccessPoint → Resolution E AccessPoint
    resolve_references ko =
        let err = validate_reference_fields ko in
        resolve_field resolve_reference_for_file_system_id
          (λ r has. record { resource = r; has_references = has; error = err }) ko false
