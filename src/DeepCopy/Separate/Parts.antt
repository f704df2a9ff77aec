-- ===== src/DeepCopy/Separate/Parts.antt =====
-- The copy of a structure that a spec leads to shows what it showed, by new cells only
-- (apis/v1alpha1/zz_generated.deepcopy.go).
use ack_ws_s3files_controlle.Prelude.{List, [], ◌++◌}
use ack_ws_s3files_controlle.Memory.Laws.{Copied, DeepCopies, start, step, finish, Runs-Copied}
use ack_ws_s3files_controlle.Memory.Copies.{pointer-DeepCopies}
use ack_ws_s3files_controlle.DeepCopy.Structs.{
  RuntimeTypes, Cell, TagStruct, ImportDataRuleStruct, ExpirationDataRuleStruct,
  CreationPermissionsStruct, PosixUserStruct, RootDirectoryStruct,
}
use ack_ws_s3files_controlle.DeepCopy.Slots.{creation_permissions_slot}
use ack_ws_s3files_controlle.DeepCopy.Parts.{
  deep_copy_into_tag, deep_copy_into_import_data_rule, deep_copy_into_expiration_data_rule,
  deep_copy_into_creation_permissions, deep_copy_into_posix_user, deep_copy_into_root_directory,
}
use ack_ws_s3files_controlle.DeepCopy.Shows.Structs.{
  ShowsTag, ShowsImportDataRule, ShowsExpirationDataRule, ShowsCreationPermissions, ShowsPosixUser,
  ShowsRootDirectory,
}
use ack_ws_s3files_controlle.DeepCopy.Separate.Fields.{
  string-DeepCopies, int64-DeepCopies, int64s-DeepCopies,
}
use ack_ws_s3files_controlle.Tags.{Tag}
use ack_ws_s3files_controlle.FileSystem.Types.{ImportDataRule, ExpirationDataRule}
use ack_ws_s3files_controlle.AccessPoint.Types.{CreationPermissions, PosixUser, RootDirectory}

module _ {T : RuntimeTypes} where
  tag_stable :
      (h k : List (Cell T)) (s : TagStruct) (v : Tag) → ShowsTag h s v → ShowsTag (h ++ k) s v
  tag_stable h k s v w = record {
    key = string-DeepCopies.stable h k s.key v.key w.key;
    value = string-DeepCopies.stable h k s.value v.value w.value;
  }

  tag_copies :
      (h : List (Cell T)) (s : TagStruct) (v : Tag)
      → ShowsTag h s v
      → Copied (ShowsTag) h v (deep_copy_into_tag s)
  unfolding deep_copy_into_tag
  tag_copies h s v w = Runs-Copied (
      step string-DeepCopies s.key v.key w.key (start []) λ n1 key c1.
        step string-DeepCopies s.value v.value w.value c1 λ n2 value c2.
          finish (ShowsTag) (record { key = key; value = value })
            λ g k e. record { key = c2.holds.0.1 g k e; value = c2.holds.1 g k e })

  pub tag-DeepCopies : DeepCopies {Cell = Cell T} (ShowsTag) (deep_copy_into_tag)
  tag-DeepCopies = record { stable = tag_stable; copies = tag_copies }

  import_data_rule_stable :
      (h k : List (Cell T)) (s : ImportDataRuleStruct) (v : ImportDataRule)
      → ShowsImportDataRule h s v
      → ShowsImportDataRule (h ++ k) s v
  import_data_rule_stable h k s v w = record {
    prefix = string-DeepCopies.stable h k s.prefix v.prefix w.prefix;
    size_less_than = int64-DeepCopies.stable h k s.size_less_than v.size_less_than w.size_less_than;
    trigger = string-DeepCopies.stable h k s.trigger v.trigger w.trigger;
  }

  import_data_rule_copies :
      (h : List (Cell T)) (s : ImportDataRuleStruct) (v : ImportDataRule)
      → ShowsImportDataRule h s v
      → Copied (ShowsImportDataRule) h v (deep_copy_into_import_data_rule s)
  unfolding deep_copy_into_import_data_rule
  import_data_rule_copies h s v w = Runs-Copied (
      step string-DeepCopies s.prefix v.prefix w.prefix (start []) λ n1 prefix c1.
        step int64-DeepCopies s.size_less_than v.size_less_than w.size_less_than c1
          λ n2 size_less_than c2.
            step string-DeepCopies s.trigger v.trigger w.trigger c2 λ n3 trigger c3.
              finish (ShowsImportDataRule)
                (record { prefix = prefix; size_less_than = size_less_than; trigger = trigger })
                λ g k e. record {
                  prefix = c3.holds.0.0.1 g k e;
                  size_less_than = c3.holds.0.1 g k e;
                  trigger = c3.holds.1 g k e;
                })

  pub import_data_rule-DeepCopies :
      DeepCopies {Cell = Cell T} (ShowsImportDataRule) (deep_copy_into_import_data_rule)
  import_data_rule-DeepCopies = record {
    stable = import_data_rule_stable;
    copies = import_data_rule_copies;
  }

  expiration_data_rule_stable :
      (h k : List (Cell T)) (s : ExpirationDataRuleStruct) (v : ExpirationDataRule)
      → ShowsExpirationDataRule h s v
      → ShowsExpirationDataRule (h ++ k) s v
  expiration_data_rule_stable h k s v w = record {
    days_after_last_access =
        int64-DeepCopies.stable h k s.days_after_last_access v.days_after_last_access
          w.days_after_last_access;
  }

  expiration_data_rule_copies :
      (h : List (Cell T)) (s : ExpirationDataRuleStruct) (v : ExpirationDataRule)
      → ShowsExpirationDataRule h s v
      → Copied (ShowsExpirationDataRule) h v (deep_copy_into_expiration_data_rule s)
  unfolding deep_copy_into_expiration_data_rule
  expiration_data_rule_copies h s v w = Runs-Copied (
      step int64-DeepCopies s.days_after_last_access v.days_after_last_access
        w.days_after_last_access (start [])
        λ n1 days_after_last_access c1.
          finish (ShowsExpirationDataRule)
            (record { days_after_last_access = days_after_last_access })
            λ g k e. record { days_after_last_access = c1.holds.1 g k e })

  pub expiration_data_rule-DeepCopies :
      DeepCopies {Cell = Cell T} (ShowsExpirationDataRule) (deep_copy_into_expiration_data_rule)
  expiration_data_rule-DeepCopies = record {
    stable = expiration_data_rule_stable;
    copies = expiration_data_rule_copies;
  }

  creation_permissions_stable :
      (h k : List (Cell T)) (s : CreationPermissionsStruct) (v : CreationPermissions)
      → ShowsCreationPermissions h s v
      → ShowsCreationPermissions (h ++ k) s v
  creation_permissions_stable h k s v w = record {
    owner_gid = int64-DeepCopies.stable h k s.owner_gid v.owner_gid w.owner_gid;
    owner_uid = int64-DeepCopies.stable h k s.owner_uid v.owner_uid w.owner_uid;
    permissions = string-DeepCopies.stable h k s.permissions v.permissions w.permissions;
  }

  creation_permissions_copies :
      (h : List (Cell T)) (s : CreationPermissionsStruct) (v : CreationPermissions)
      → ShowsCreationPermissions h s v
      → Copied (ShowsCreationPermissions) h v (deep_copy_into_creation_permissions s)
  unfolding deep_copy_into_creation_permissions
  creation_permissions_copies h s v w = Runs-Copied (
      step int64-DeepCopies s.owner_gid v.owner_gid w.owner_gid (start []) λ n1 owner_gid c1.
        step int64-DeepCopies s.owner_uid v.owner_uid w.owner_uid c1 λ n2 owner_uid c2.
          step string-DeepCopies s.permissions v.permissions w.permissions c2 λ n3 permissions c3.
            finish (ShowsCreationPermissions)
              (record { owner_gid = owner_gid; owner_uid = owner_uid; permissions = permissions })
              λ g k e. record {
                owner_gid = c3.holds.0.0.1 g k e;
                owner_uid = c3.holds.0.1 g k e;
                permissions = c3.holds.1 g k e;
              })

  pub creation_permissions-DeepCopies :
      DeepCopies {Cell = Cell T} (ShowsCreationPermissions) (deep_copy_into_creation_permissions)
  creation_permissions-DeepCopies = record {
    stable = creation_permissions_stable;
    copies = creation_permissions_copies;
  }

  posix_user_stable :
      (h k : List (Cell T)) (s : PosixUserStruct) (v : PosixUser)
      → ShowsPosixUser h s v
      → ShowsPosixUser (h ++ k) s v
  posix_user_stable h k s v w = record {
    gid = int64-DeepCopies.stable h k s.gid v.gid w.gid;
    secondary_gids =
        int64s-DeepCopies.stable h k s.secondary_gids v.secondary_gids w.secondary_gids;
    uid = int64-DeepCopies.stable h k s.uid v.uid w.uid;
  }

  posix_user_copies :
      (h : List (Cell T)) (s : PosixUserStruct) (v : PosixUser)
      → ShowsPosixUser h s v
      → Copied (ShowsPosixUser) h v (deep_copy_into_posix_user s)
  unfolding deep_copy_into_posix_user
  posix_user_copies h s v w = Runs-Copied (
      step int64-DeepCopies s.gid v.gid w.gid (start []) λ n1 gid c1.
        step int64s-DeepCopies s.secondary_gids v.secondary_gids w.secondary_gids c1
          λ n2 secondary_gids c2. step int64-DeepCopies s.uid v.uid w.uid c2 λ n3 uid c3.
            finish (ShowsPosixUser)
              (record { gid = gid; secondary_gids = secondary_gids; uid = uid })
              λ g k e. record {
                gid = c3.holds.0.0.1 g k e;
                secondary_gids = c3.holds.0.1 g k e;
                uid = c3.holds.1 g k e;
              })

  pub posix_user-DeepCopies :
      DeepCopies {Cell = Cell T} (ShowsPosixUser) (deep_copy_into_posix_user)
  posix_user-DeepCopies = record { stable = posix_user_stable; copies = posix_user_copies }

  root_directory_stable :
      (h k : List (Cell T)) (s : RootDirectoryStruct) (v : RootDirectory)
      → ShowsRootDirectory h s v
      → ShowsRootDirectory (h ++ k) s v
  root_directory_stable h k s v w = record {
    creation_permissions =
        (pointer-DeepCopies creation_permissions_slot creation_permissions-DeepCopies).stable h k
          s.creation_permissions v.creation_permissions w.creation_permissions;
    path = string-DeepCopies.stable h k s.path v.path w.path;
  }

  root_directory_copies :
      (h : List (Cell T)) (s : RootDirectoryStruct) (v : RootDirectory)
      → ShowsRootDirectory h s v
      → Copied (ShowsRootDirectory) h v (deep_copy_into_root_directory s)
  unfolding deep_copy_into_root_directory
  root_directory_copies h s v w = Runs-Copied (
      step (pointer-DeepCopies creation_permissions_slot creation_permissions-DeepCopies)
        s.creation_permissions v.creation_permissions w.creation_permissions (start [])
        λ n1 creation_permissions c1. step string-DeepCopies s.path v.path w.path c1 λ n2 path c2.
          finish (ShowsRootDirectory)
            (record { creation_permissions = creation_permissions; path = path })
            λ g k e. record { creation_permissions = c2.holds.0.1 g k e; path = c2.holds.1 g k e })

  pub root_directory-DeepCopies :
      DeepCopies {Cell = Cell T} (ShowsRootDirectory) (deep_copy_into_root_directory)
  root_directory-DeepCopies = record {
    stable = root_directory_stable;
    copies = root_directory_copies;
  }
