-- ===== src/DeepCopy/MountTarget.antt =====
-- The copies of a MountTarget, its spec, its status and a list of them
-- (apis/v1alpha1/zz_generated.deepcopy.go).
use ack_ws_s3files_controlle.Memory.{Pointer, pure, ◌>>=◌, deep_copy_pointer}
use ack_ws_s3files_controlle.DeepCopy.Structs.{
  RuntimeTypes, ListStruct, Copying, MountTargetSpecStruct, MountTargetStatusStruct,
  MountTargetStruct,
}
use ack_ws_s3files_controlle.DeepCopy.Slots.{
  mount_target_spec_slot, mount_target_status_slot, mount_target_slot, mount_targets_slot,
  mount_target_list_slot,
}
use ack_ws_s3files_controlle.DeepCopy.Fields.{
  deep_copy_string, deep_copy_strings, RuntimeCopies, deep_copy_reference, deep_copy_metadata,
  deep_copy_conditions, deep_copy_references,
}
use ack_ws_s3files_controlle.DeepCopy.Resources.{
  deep_copy_into_resource, deep_copy_into_list, RuntimeObject, deep_copy_object,
}

module _ {T : RuntimeTypes} (rc : RuntimeCopies T) where
  unfoldable pub deep_copy_into_mount_target_spec :
      MountTargetSpecStruct → Copying T MountTargetSpecStruct
  deep_copy_into_mount_target_spec s = do
    file_system_id ← deep_copy_string s.file_system_id
    file_system_ref ← deep_copy_reference rc s.file_system_ref
    ip_address_type ← deep_copy_string s.ip_address_type
    ipv4_address ← deep_copy_string s.ipv4_address
    ipv6_address ← deep_copy_string s.ipv6_address
    security_group_refs ← deep_copy_references rc s.security_group_refs
    security_groups ← deep_copy_strings s.security_groups
    subnet_id ← deep_copy_string s.subnet_id
    subnet_ref ← deep_copy_reference rc s.subnet_ref
    pure (record {
      file_system_id = file_system_id;
      file_system_ref = file_system_ref;
      ip_address_type = ip_address_type;
      ipv4_address = ipv4_address;
      ipv6_address = ipv6_address;
      security_group_refs = security_group_refs;
      security_groups = security_groups;
      subnet_id = subnet_id;
      subnet_ref = subnet_ref;
    })

  abbrev pub deep_copy_mount_target_spec : Pointer → Copying T Pointer
  deep_copy_mount_target_spec =
      deep_copy_pointer mount_target_spec_slot deep_copy_into_mount_target_spec

  unfoldable pub deep_copy_into_mount_target_status :
      MountTargetStatusStruct → Copying T MountTargetStatusStruct
  deep_copy_into_mount_target_status s = do
    ack_resource_metadata ← deep_copy_metadata rc s.ack_resource_metadata
    conditions ← deep_copy_conditions rc s.conditions
    availability_zone_id ← deep_copy_string s.availability_zone_id
    id ← deep_copy_string s.id
    network_interface_id ← deep_copy_string s.network_interface_id
    owner_id ← deep_copy_string s.owner_id
    status ← deep_copy_string s.status
    status_message ← deep_copy_string s.status_message
    vpc_id ← deep_copy_string s.vpc_id
    pure (record {
      ack_resource_metadata = ack_resource_metadata;
      conditions = conditions;
      availability_zone_id = availability_zone_id;
      id = id;
      network_interface_id = network_interface_id;
      owner_id = owner_id;
      status = status;
      status_message = status_message;
      vpc_id = vpc_id;
    })

  abbrev pub deep_copy_mount_target_status : Pointer → Copying T Pointer
  deep_copy_mount_target_status =
      deep_copy_pointer mount_target_status_slot deep_copy_into_mount_target_status

  abbrev pub deep_copy_into_mount_target : MountTargetStruct T → Copying T (MountTargetStruct T)
  deep_copy_into_mount_target =
      deep_copy_into_resource rc deep_copy_into_mount_target_spec deep_copy_into_mount_target_status

  abbrev pub deep_copy_mount_target : Pointer → Copying T Pointer
  deep_copy_mount_target = deep_copy_pointer mount_target_slot deep_copy_into_mount_target

  abbrev pub deep_copy_object_mount_target : Pointer → Copying T RuntimeObject
  deep_copy_object_mount_target = deep_copy_object deep_copy_mount_target

  abbrev pub deep_copy_into_mount_target_list : ListStruct T → Copying T (ListStruct T)
  deep_copy_into_mount_target_list =
      deep_copy_into_list rc deep_copy_into_mount_target_spec deep_copy_into_mount_target_status
        mount_targets_slot

  abbrev pub deep_copy_mount_target_list : Pointer → Copying T Pointer
  deep_copy_mount_target_list =
      deep_copy_pointer mount_target_list_slot deep_copy_into_mount_target_list

  abbrev pub deep_copy_object_mount_target_list : Pointer → Copying T RuntimeObject
  deep_copy_object_mount_target_list = deep_copy_object deep_copy_mount_target_list
