-- ===== src/DeepCopy/Parts.antt =====
-- The copies of the structures that a spec leads to (apis/v1alpha1/zz_generated.deepcopy.go).
use ack_ws_s3files_controlle.Memory.{Pointer, pure, ◌>>=◌, deep_copy_pointer}
use ack_ws_s3files_controlle.DeepCopy.Structs.{
  RuntimeTypes, Copying, TagStruct, ImportDataRuleStruct, ExpirationDataRuleStruct,
  CreationPermissionsStruct, PosixUserStruct, RootDirectoryStruct,
}
use ack_ws_s3files_controlle.DeepCopy.Slots.{
  tag_slot, import_data_rule_slot, expiration_data_rule_slot, creation_permissions_slot,
  posix_user_slot, root_directory_slot,
}
use ack_ws_s3files_controlle.DeepCopy.Fields.{deep_copy_string, deep_copy_int64, deep_copy_int64s}

module _ {T : RuntimeTypes} where
  unfoldable pub deep_copy_into_tag : TagStruct → Copying T TagStruct
  deep_copy_into_tag s = do
    key ← deep_copy_string s.key
    value ← deep_copy_string s.value
    pure (record { key = key; value = value })

  abbrev pub deep_copy_tag : Pointer → Copying T Pointer
  deep_copy_tag = deep_copy_pointer tag_slot deep_copy_into_tag

  unfoldable pub deep_copy_into_import_data_rule :
      ImportDataRuleStruct → Copying T ImportDataRuleStruct
  deep_copy_into_import_data_rule s = do
    prefix ← deep_copy_string s.prefix
    size_less_than ← deep_copy_int64 s.size_less_than
    trigger ← deep_copy_string s.trigger
    pure (record { prefix = prefix; size_less_than = size_less_than; trigger = trigger })

  abbrev pub deep_copy_import_data_rule : Pointer → Copying T Pointer
  deep_copy_import_data_rule =
      deep_copy_pointer import_data_rule_slot deep_copy_into_import_data_rule

  unfoldable pub deep_copy_into_expiration_data_rule :
      ExpirationDataRuleStruct → Copying T ExpirationDataRuleStruct
  deep_copy_into_expiration_data_rule s = do
    days_after_last_access ← deep_copy_int64 s.days_after_last_access
    pure (record { days_after_last_access = days_after_last_access })

  abbrev pub deep_copy_expiration_data_rule : Pointer → Copying T Pointer
  deep_copy_expiration_data_rule =
      deep_copy_pointer expiration_data_rule_slot deep_copy_into_expiration_data_rule

  unfoldable pub deep_copy_into_creation_permissions :
      CreationPermissionsStruct → Copying T CreationPermissionsStruct
  deep_copy_into_creation_permissions s = do
    owner_gid ← deep_copy_int64 s.owner_gid
    owner_uid ← deep_copy_int64 s.owner_uid
    permissions ← deep_copy_string s.permissions
    pure (record { owner_gid = owner_gid; owner_uid = owner_uid; permissions = permissions })

  abbrev pub deep_copy_creation_permissions : Pointer → Copying T Pointer
  deep_copy_creation_permissions =
      deep_copy_pointer creation_permissions_slot deep_copy_into_creation_permissions

  unfoldable pub deep_copy_into_posix_user : PosixUserStruct → Copying T PosixUserStruct
  deep_copy_into_posix_user s = do
    gid ← deep_copy_int64 s.gid
    secondary_gids ← deep_copy_int64s s.secondary_gids
    uid ← deep_copy_int64 s.uid
    pure (record { gid = gid; secondary_gids = secondary_gids; uid = uid })

  abbrev pub deep_copy_posix_user : Pointer → Copying T Pointer
  deep_copy_posix_user = deep_copy_pointer posix_user_slot deep_copy_into_posix_user

  unfoldable pub deep_copy_into_root_directory : RootDirectoryStruct → Copying T RootDirectoryStruct
  deep_copy_into_root_directory s = do
    creation_permissions ←
        deep_copy_pointer creation_permissions_slot deep_copy_into_creation_permissions
          s.creation_permissions
    path ← deep_copy_string s.path
    pure (record { creation_permissions = creation_permissions; path = path })

  abbrev pub deep_copy_root_directory : Pointer → Copying T Pointer
  deep_copy_root_directory = deep_copy_pointer root_directory_slot deep_copy_into_root_directory
