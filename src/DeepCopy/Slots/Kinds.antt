-- ===== src/DeepCopy/Slots/Kinds.antt =====
-- The cells of the three kinds, their specs and statuses, and the lists of them (apis/v1alpha1).
use ack_ws_s3files_controlle.Prelude.{refl, Option, none, some, List}
use ack_ws_s3files_controlle.Memory.{Slot}
use ack_ws_s3files_controlle.DeepCopy.Structs.{
  RuntimeTypes, ListStruct, Cell, FileSystemSpecStruct, FileSystemStatusStruct,
  AccessPointSpecStruct, AccessPointStatusStruct, MountTargetSpecStruct, MountTargetStatusStruct,
  FileSystemStruct, AccessPointStruct, MountTargetStruct,
}

module _ {T : RuntimeTypes} where
  abbrev as_file_system_spec : Cell T → Option (FileSystemSpecStruct)
  as_file_system_spec (Cell.file_system_spec x) = some x
  as_file_system_spec _ = none

  abbrev pub file_system_spec_slot : Slot (Cell T) (FileSystemSpecStruct)
  file_system_spec_slot = record {
    put = Cell.file_system_spec;
    get = as_file_system_spec;
    get-put = λ x. refl;
  }

  abbrev as_file_system_status : Cell T → Option (FileSystemStatusStruct)
  as_file_system_status (Cell.file_system_status x) = some x
  as_file_system_status _ = none

  abbrev pub file_system_status_slot : Slot (Cell T) (FileSystemStatusStruct)
  file_system_status_slot = record {
    put = Cell.file_system_status;
    get = as_file_system_status;
    get-put = λ x. refl;
  }

  abbrev as_access_point_spec : Cell T → Option (AccessPointSpecStruct)
  as_access_point_spec (Cell.access_point_spec x) = some x
  as_access_point_spec _ = none

  abbrev pub access_point_spec_slot : Slot (Cell T) (AccessPointSpecStruct)
  access_point_spec_slot = record {
    put = Cell.access_point_spec;
    get = as_access_point_spec;
    get-put = λ x. refl;
  }

  abbrev as_access_point_status : Cell T → Option (AccessPointStatusStruct)
  as_access_point_status (Cell.access_point_status x) = some x
  as_access_point_status _ = none

  abbrev pub access_point_status_slot : Slot (Cell T) (AccessPointStatusStruct)
  access_point_status_slot = record {
    put = Cell.access_point_status;
    get = as_access_point_status;
    get-put = λ x. refl;
  }

  abbrev as_mount_target_spec : Cell T → Option (MountTargetSpecStruct)
  as_mount_target_spec (Cell.mount_target_spec x) = some x
  as_mount_target_spec _ = none

  abbrev pub mount_target_spec_slot : Slot (Cell T) (MountTargetSpecStruct)
  mount_target_spec_slot = record {
    put = Cell.mount_target_spec;
    get = as_mount_target_spec;
    get-put = λ x. refl;
  }

  abbrev as_mount_target_status : Cell T → Option (MountTargetStatusStruct)
  as_mount_target_status (Cell.mount_target_status x) = some x
  as_mount_target_status _ = none

  abbrev pub mount_target_status_slot : Slot (Cell T) (MountTargetStatusStruct)
  mount_target_status_slot = record {
    put = Cell.mount_target_status;
    get = as_mount_target_status;
    get-put = λ x. refl;
  }

  abbrev as_file_system : Cell T → Option (FileSystemStruct T)
  as_file_system (Cell.file_system x) = some x
  as_file_system _ = none

  abbrev pub file_system_slot : Slot (Cell T) (FileSystemStruct T)
  file_system_slot = record { put = Cell.file_system; get = as_file_system; get-put = λ x. refl }

  abbrev as_access_point : Cell T → Option (AccessPointStruct T)
  as_access_point (Cell.access_point x) = some x
  as_access_point _ = none

  abbrev pub access_point_slot : Slot (Cell T) (AccessPointStruct T)
  access_point_slot = record { put = Cell.access_point; get = as_access_point; get-put = λ x. refl }

  abbrev as_mount_target : Cell T → Option (MountTargetStruct T)
  as_mount_target (Cell.mount_target x) = some x
  as_mount_target _ = none

  abbrev pub mount_target_slot : Slot (Cell T) (MountTargetStruct T)
  mount_target_slot = record { put = Cell.mount_target; get = as_mount_target; get-put = λ x. refl }

  abbrev as_file_systems : Cell T → Option (List (FileSystemStruct T))
  as_file_systems (Cell.file_systems x) = some x
  as_file_systems _ = none

  abbrev pub file_systems_slot : Slot (Cell T) (List (FileSystemStruct T))
  file_systems_slot = record { put = Cell.file_systems; get = as_file_systems; get-put = λ x. refl }

  abbrev as_access_points : Cell T → Option (List (AccessPointStruct T))
  as_access_points (Cell.access_points x) = some x
  as_access_points _ = none

  abbrev pub access_points_slot : Slot (Cell T) (List (AccessPointStruct T))
  access_points_slot = record {
    put = Cell.access_points;
    get = as_access_points;
    get-put = λ x. refl;
  }

  abbrev as_mount_targets : Cell T → Option (List (MountTargetStruct T))
  as_mount_targets (Cell.mount_targets x) = some x
  as_mount_targets _ = none

  abbrev pub mount_targets_slot : Slot (Cell T) (List (MountTargetStruct T))
  mount_targets_slot = record {
    put = Cell.mount_targets;
    get = as_mount_targets;
    get-put = λ x. refl;
  }

  abbrev as_file_system_list : Cell T → Option (ListStruct T)
  as_file_system_list (Cell.file_system_list x) = some x
  as_file_system_list _ = none

  abbrev pub file_system_list_slot : Slot (Cell T) (ListStruct T)
  file_system_list_slot = record {
    put = Cell.file_system_list;
    get = as_file_system_list;
    get-put = λ x. refl;
  }

  abbrev as_access_point_list : Cell T → Option (ListStruct T)
  as_access_point_list (Cell.access_point_list x) = some x
  as_access_point_list _ = none

  abbrev pub access_point_list_slot : Slot (Cell T) (ListStruct T)
  access_point_list_slot = record {
    put = Cell.access_point_list;
    get = as_access_point_list;
    get-put = λ x. refl;
  }

  abbrev as_mount_target_list : Cell T → Option (ListStruct T)
  as_mount_target_list (Cell.mount_target_list x) = some x
  as_mount_target_list _ = none

  abbrev pub mount_target_list_slot : Slot (Cell T) (ListStruct T)
  mount_target_list_slot = record {
    put = Cell.mount_target_list;
    get = as_mount_target_list;
    get-put = λ x. refl;
  }
