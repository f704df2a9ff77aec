-- ===== src/FileSystem/References.antt =====
-- The references of a FileSystem to a bucket, a key and a role
-- (pkg/resource/file_system/references.go).
use ack_ws_s3files_controlle.Prelude.{String, false, Option, none, if◌then◌else◌, is_some}
use ack_ws_s3files_controlle.Ack.{Reply}
use ack_ws_s3files_controlle.Manager.{ResourceManager}
use ack_ws_s3files_controlle.References.{
  Target, ArnObject, arn_of, arn_target, Getter, get_referenced_resource_state, resolve_reference,
  Resolution, resolve_field, both_error, neither_error,
}
use ack_ws_s3files_controlle.FileSystem.Types.{FileSystem}
use ack_ws_s3files_controlle.FileSystem.Manager.{conditions_of}

-- `client.Reader` at the three kinds.
pub record ApiReader (E : Type 0) : Type 0 where
  pub get_bucket : Getter E ArnObject
  pub get_key : Getter E ArnObject
  pub get_role : Getter E ArnObject

-- A file system as the target of the references of the other kinds.
abbrev pub file_system_target : Target FileSystem
file_system_target = record {
  kind = "FileSystem";
  path = "Status.FileSystemID";
  conditions = conditions_of;
  target = λ obj. obj.status.file_system_id;
}

abbrev pub with_bucket : FileSystem → Option String → FileSystem
with_bucket ko v = record ko { spec = record (ko.spec) { bucket = v } }

abbrev pub with_kms_key_id : FileSystem → Option String → FileSystem
with_kms_key_id ko v = record ko { spec = record (ko.spec) { kms_key_id = v } }

abbrev pub with_role_arn : FileSystem → Option String → FileSystem
with_role_arn ko v = record ko { spec = record (ko.spec) { role_arn = v } }

unfoldable pub clear_resolved_references : FileSystem → FileSystem
clear_resolved_references ko = record ko {
  spec = record (ko.spec) {
    bucket = if is_some ko.spec.bucket_ref then none else ko.spec.bucket;
    kms_key_id = if is_some ko.spec.kms_key_ref then none else ko.spec.kms_key_id;
    role_arn = if is_some ko.spec.role_ref then none else ko.spec.role_arn;
  };
}

module _ {S E : Type 0} (rm : ResourceManager S E) where
  unfoldable pub validate_reference_fields : FileSystem → Option E
  validate_reference_fields ko =
      let bucket_ref = is_some ko.spec.bucket_ref in
      let role_ref = is_some ko.spec.role_ref in
      both_error rm.runtime "Bucket" "BucketRef" bucket_ref (is_some ko.spec.bucket) (
        neither_error rm.runtime "Bucket" "BucketRef" bucket_ref (is_some ko.spec.bucket) (
          both_error rm.runtime "KMSKeyID" "KMSKeyRef" (is_some ko.spec.kms_key_ref)
            (is_some ko.spec.kms_key_id)
            (both_error rm.runtime "RoleARN" "RoleRef" role_ref (is_some ko.spec.role_arn) (
              neither_error rm.runtime "RoleARN" "RoleRef" role_ref (is_some ko.spec.role_arn)
                none))))

  module _ (reader : ApiReader E) where
    unfoldable pub get_referenced_resource_state_bucket : String → String → Reply E ArnObject
    get_referenced_resource_state_bucket =
        get_referenced_resource_state rm.runtime (arn_target "Bucket") reader.get_bucket

    unfoldable pub get_referenced_resource_state_key : String → String → Reply E ArnObject
    get_referenced_resource_state_key =
        get_referenced_resource_state rm.runtime (arn_target "Key") reader.get_key

    unfoldable pub get_referenced_resource_state_role : String → String → Reply E ArnObject
    get_referenced_resource_state_role =
        get_referenced_resource_state rm.runtime (arn_target "Role") reader.get_role

    unfoldable pub resolve_reference_for_bucket : FileSystem → Resolution E FileSystem
    resolve_reference_for_bucket ko =
        resolve_reference rm.runtime rm.enable_cross_namespace ko.metadata.namespace "BucketRef"
          get_referenced_resource_state_bucket arn_of with_bucket ko.spec.bucket_ref ko

    unfoldable pub resolve_reference_for_kms_key_id : FileSystem → Resolution E FileSystem
    resolve_reference_for_kms_key_id ko =
        resolve_reference rm.runtime rm.enable_cross_namespace ko.metadata.namespace "KMSKeyRef"
          get_referenced_resource_state_key arn_of with_kms_key_id ko.spec.kms_key_ref ko

    unfoldable pub resolve_reference_for_role_arn : FileSystem → Resolution E FileSystem
    resolve_reference_for_role_arn ko =
        resolve_reference rm.runtime rm.enable_cross_namespace ko.metadata.namespace "RoleRef"
          get_referenced_resource_state_role arn_of with_role_arn ko.spec.role_ref ko

    -- The error of the validation is returned at the end, after the fields.
    unfoldable pub resolve_references : FileSystem → Resolution E FileSystem
    resolve_references ko =
        let err = validate_reference_fields ko in
        resolve_field resolve_reference_for_bucket
          (resolve_field resolve_reference_for_kms_key_id (
            resolve_field resolve_reference_for_role_arn
              (λ r has. record { resource = r; has_references = has; error = err })))
          ko false
