-- ===== src/DeepCopy/FileSystem.antt =====
-- The copies of a FileSystem, its spec, its status and a list of them
-- (apis/v1alpha1/zz_generated.deepcopy.go).
use ack_ws_s3files_controlle.Memory.{Pointer, pure, ◌>>=◌, deep_copy_pointer}
use ack_ws_s3files_controlle.DeepCopy.Structs.{
  RuntimeTypes, ListStruct, Copying, FileSystemSpecStruct, FileSystemStatusStruct, FileSystemStruct,
}
use ack_ws_s3files_controlle.DeepCopy.Slots.{
  tag_slot, import_data_rule_slot, expiration_data_rule_slot, file_system_spec_slot,
  file_system_status_slot, file_system_slot, file_systems_slot, file_system_list_slot,
}
use ack_ws_s3files_controlle.DeepCopy.Fields.{
  deep_copy_string, deep_copy_int64, deep_copy_bool, deep_copy_items, RuntimeCopies,
  deep_copy_reference, deep_copy_metadata, deep_copy_time, deep_copy_conditions,
}
use ack_ws_s3files_controlle.DeepCopy.Parts.{
  deep_copy_into_tag, deep_copy_into_import_data_rule, deep_copy_into_expiration_data_rule,
}
use ack_ws_s3files_controlle.DeepCopy.Resources.{
  deep_copy_into_resource, deep_copy_into_list, RuntimeObject, deep_copy_object,
}

module _ {T : RuntimeTypes} (rc : RuntimeCopies T) where
  unfoldable pub deep_copy_into_file_system_spec :
      FileSystemSpecStruct → Copying T FileSystemSpecStruct
  deep_copy_into_file_system_spec s = do
    accept_bucket_warning ← deep_copy_bool s.accept_bucket_warning
    bucket ← deep_copy_string s.bucket
    bucket_ref ← deep_copy_reference rc s.bucket_ref
    expiration_data_rules ←
        deep_copy_items expiration_data_rule_slot deep_copy_into_expiration_data_rule
          s.expiration_data_rules
    import_data_rules ←
        deep_copy_items import_data_rule_slot deep_copy_into_import_data_rule s.import_data_rules
    kms_key_id ← deep_copy_string s.kms_key_id
    kms_key_ref ← deep_copy_reference rc s.kms_key_ref
    policy ← deep_copy_string s.policy
    prefix ← deep_copy_string s.prefix
    role_arn ← deep_copy_string s.role_arn
    role_ref ← deep_copy_reference rc s.role_ref
    tags ← deep_copy_items tag_slot deep_copy_into_tag s.tags
    pure (record {
      accept_bucket_warning = accept_bucket_warning;
      bucket = bucket;
      bucket_ref = bucket_ref;
      expiration_data_rules = expiration_data_rules;
      import_data_rules = import_data_rules;
      kms_key_id = kms_key_id;
      kms_key_ref = kms_key_ref;
      policy = policy;
      prefix = prefix;
      role_arn = role_arn;
      role_ref = role_ref;
      tags = tags;
    })

  abbrev pub deep_copy_file_system_spec : Pointer → Copying T Pointer
  deep_copy_file_system_spec =
      deep_copy_pointer file_system_spec_slot deep_copy_into_file_system_spec

  unfoldable pub deep_copy_into_file_system_status :
      FileSystemStatusStruct → Copying T FileSystemStatusStruct
  deep_copy_into_file_system_status s = do
    ack_resource_metadata ← deep_copy_metadata rc s.ack_resource_metadata
    conditions ← deep_copy_conditions rc s.conditions
    creation_time ← deep_copy_time rc s.creation_time
    file_system_id ← deep_copy_string s.file_system_id
    latest_version_number ← deep_copy_int64 s.latest_version_number
    name ← deep_copy_string s.name
    owner_id ← deep_copy_string s.owner_id
    status ← deep_copy_string s.status
    status_message ← deep_copy_string s.status_message
    pure (record {
      ack_resource_metadata = ack_resource_metadata;
      conditions = conditions;
      creation_time = creation_time;
      file_system_id = file_system_id;
      latest_version_number = latest_version_number;
      name = name;
      owner_id = owner_id;
      status = status;
      status_message = status_message;
    })

  abbrev pub deep_copy_file_system_status : Pointer → Copying T Pointer
  deep_copy_file_system_status =
      deep_copy_pointer file_system_status_slot deep_copy_into_file_system_status

  abbrev pub deep_copy_into_file_system : FileSystemStruct T → Copying T (FileSystemStruct T)
  deep_copy_into_file_system =
      deep_copy_into_resource rc deep_copy_into_file_system_spec deep_copy_into_file_system_status

  abbrev pub deep_copy_file_system : Pointer → Copying T Pointer
  deep_copy_file_system = deep_copy_pointer file_system_slot deep_copy_into_file_system

  abbrev pub deep_copy_object_file_system : Pointer → Copying T RuntimeObject
  deep_copy_object_file_system = deep_copy_object deep_copy_file_system

  abbrev pub deep_copy_into_file_system_list : ListStruct T → Copying T (ListStruct T)
  deep_copy_into_file_system_list =
      deep_copy_into_list rc deep_copy_into_file_system_spec deep_copy_into_file_system_status
        file_systems_slot

  abbrev pub deep_copy_file_system_list : Pointer → Copying T Pointer
  deep_copy_file_system_list =
      deep_copy_pointer file_system_list_slot deep_copy_into_file_system_list

  abbrev pub deep_copy_object_file_system_list : Pointer → Copying T RuntimeObject
  deep_copy_object_file_system_list = deep_copy_object deep_copy_file_system_list
