-- ===== src/DeepCopy/Slots/Parts.antt =====
-- The cells of the structures that a spec or a list leads to (apis/v1alpha1/types.go).
use ack_ws_s3files_controlle.Prelude.{refl, Option, none, some}
use ack_ws_s3files_controlle.Memory.{Slot}
use ack_ws_s3files_controlle.DeepCopy.Structs.{
  RuntimeTypes, Cell, TagStruct, ImportDataRuleStruct, ExpirationDataRuleStruct,
  CreationPermissionsStruct, PosixUserStruct, RootDirectoryStruct,
  ListAccessPointsDescriptionStruct, ListFileSystemsDescriptionStruct,
  ListMountTargetsDescriptionStruct,
}

module _ {T : RuntimeTypes} where
  abbrev as_tag : Cell T → Option (TagStruct)
  as_tag (Cell.tag x) = some x
  as_tag _ = none

  abbrev pub tag_slot : Slot (Cell T) (TagStruct)
  tag_slot = record { put = Cell.tag; get = as_tag; get-put = λ x. refl }

  abbrev as_import_data_rule : Cell T → Option (ImportDataRuleStruct)
  as_import_data_rule (Cell.import_data_rule x) = some x
  as_import_data_rule _ = none

  abbrev pub import_data_rule_slot : Slot (Cell T) (ImportDataRuleStruct)
  import_data_rule_slot = record {
    put = Cell.import_data_rule;
    get = as_import_data_rule;
    get-put = λ x. refl;
  }

  abbrev as_expiration_data_rule : Cell T → Option (ExpirationDataRuleStruct)
  as_expiration_data_rule (Cell.expiration_data_rule x) = some x
  as_expiration_data_rule _ = none

  abbrev pub expiration_data_rule_slot : Slot (Cell T) (ExpirationDataRuleStruct)
  expiration_data_rule_slot = record {
    put = Cell.expiration_data_rule;
    get = as_expiration_data_rule;
    get-put = λ x. refl;
  }

  abbrev as_creation_permissions : Cell T → Option (CreationPermissionsStruct)
  as_creation_permissions (Cell.creation_permissions x) = some x
  as_creation_permissions _ = none

  abbrev pub creation_permissions_slot : Slot (Cell T) (CreationPermissionsStruct)
  creation_permissions_slot = record {
    put = Cell.creation_permissions;
    get = as_creation_permissions;
    get-put = λ x. refl;
  }

  abbrev as_posix_user : Cell T → Option (PosixUserStruct)
  as_posix_user (Cell.posix_user x) = some x
  as_posix_user _ = none

  abbrev pub posix_user_slot : Slot (Cell T) (PosixUserStruct)
  posix_user_slot = record { put = Cell.posix_user; get = as_posix_user; get-put = λ x. refl }

  abbrev as_root_directory : Cell T → Option (RootDirectoryStruct)
  as_root_directory (Cell.root_directory x) = some x
  as_root_directory _ = none

  abbrev pub root_directory_slot : Slot (Cell T) (RootDirectoryStruct)
  root_directory_slot = record {
    put = Cell.root_directory;
    get = as_root_directory;
    get-put = λ x. refl;
  }

  abbrev as_list_access_points_description : Cell T → Option (ListAccessPointsDescriptionStruct)
  as_list_access_points_description (Cell.list_access_points_description x) = some x
  as_list_access_points_description _ = none

  abbrev pub list_access_points_description_slot : Slot (Cell T) (ListAccessPointsDescriptionStruct)
  list_access_points_description_slot = record {
    put = Cell.list_access_points_description;
    get = as_list_access_points_description;
    get-put = λ x. refl;
  }

  abbrev as_list_file_systems_description : Cell T → Option (ListFileSystemsDescriptionStruct)
  as_list_file_systems_description (Cell.list_file_systems_description x) = some x
  as_list_file_systems_description _ = none

  abbrev pub list_file_systems_description_slot : Slot (Cell T) (ListFileSystemsDescriptionStruct)
  list_file_systems_description_slot = record {
    put = Cell.list_file_systems_description;
    get = as_list_file_systems_description;
    get-put = λ x. refl;
  }

  abbrev as_list_mount_targets_description : Cell T → Option (ListMountTargetsDescriptionStruct)
  as_list_mount_targets_description (Cell.list_mount_targets_description x) = some x
  as_list_mount_targets_description _ = none

  abbrev pub list_mount_targets_description_slot : Slot (Cell T) (ListMountTargetsDescriptionStruct)
  list_mount_targets_description_slot = record {
    put = Cell.list_mount_targets_description;
    get = as_list_mount_targets_description;
    get-put = λ x. refl;
  }
