-- ===== src/DeepCopy/Descriptions.antt =====
-- The copies of the descriptions in a list (apis/v1alpha1/zz_generated.deepcopy.go).
use ack_ws_s3files_controlle.Memory.{Pointer, pure, ◌>>=◌, deep_copy_pointer}
use ack_ws_s3files_controlle.DeepCopy.Structs.{
  RuntimeTypes, Copying, ListAccessPointsDescriptionStruct, ListFileSystemsDescriptionStruct,
  ListMountTargetsDescriptionStruct,
}
use ack_ws_s3files_controlle.DeepCopy.Slots.{
  posix_user_slot, root_directory_slot, list_access_points_description_slot,
  list_file_systems_description_slot, list_mount_targets_description_slot,
}
use ack_ws_s3files_controlle.DeepCopy.Fields.{deep_copy_string, RuntimeCopies, deep_copy_time}
use ack_ws_s3files_controlle.DeepCopy.Parts.{
  deep_copy_into_posix_user, deep_copy_into_root_directory,
}

module _ {T : RuntimeTypes} where
  unfoldable pub deep_copy_into_list_access_points_description :
      ListAccessPointsDescriptionStruct → Copying T ListAccessPointsDescriptionStruct
  deep_copy_into_list_access_points_description s = do
    access_point_arn ← deep_copy_string s.access_point_arn
    access_point_id ← deep_copy_string s.access_point_id
    file_system_id ← deep_copy_string s.file_system_id
    name ← deep_copy_string s.name
    owner_id ← deep_copy_string s.owner_id
    posix_user ← deep_copy_pointer posix_user_slot deep_copy_into_posix_user s.posix_user
    root_directory ←
        deep_copy_pointer root_directory_slot deep_copy_into_root_directory s.root_directory
    status ← deep_copy_string s.status
    pure (record {
      access_point_arn = access_point_arn;
      access_point_id = access_point_id;
      file_system_id = file_system_id;
      name = name;
      owner_id = owner_id;
      posix_user = posix_user;
      root_directory = root_directory;
      status = status;
    })

  abbrev pub deep_copy_list_access_points_description : Pointer → Copying T Pointer
  deep_copy_list_access_points_description =
      deep_copy_pointer list_access_points_description_slot
        deep_copy_into_list_access_points_description

  unfoldable pub deep_copy_into_list_mount_targets_description :
      ListMountTargetsDescriptionStruct → Copying T ListMountTargetsDescriptionStruct
  deep_copy_into_list_mount_targets_description s = do
    availability_zone_id ← deep_copy_string s.availability_zone_id
    file_system_id ← deep_copy_string s.file_system_id
    ipv4_address ← deep_copy_string s.ipv4_address
    ipv6_address ← deep_copy_string s.ipv6_address
    mount_target_id ← deep_copy_string s.mount_target_id
    network_interface_id ← deep_copy_string s.network_interface_id
    owner_id ← deep_copy_string s.owner_id
    status ← deep_copy_string s.status
    status_message ← deep_copy_string s.status_message
    subnet_id ← deep_copy_string s.subnet_id
    vpc_id ← deep_copy_string s.vpc_id
    pure (record {
      availability_zone_id = availability_zone_id;
      file_system_id = file_system_id;
      ipv4_address = ipv4_address;
      ipv6_address = ipv6_address;
      mount_target_id = mount_target_id;
      network_interface_id = network_interface_id;
      owner_id = owner_id;
      status = status;
      status_message = status_message;
      subnet_id = subnet_id;
      vpc_id = vpc_id;
    })

  abbrev pub deep_copy_list_mount_targets_description : Pointer → Copying T Pointer
  deep_copy_list_mount_targets_description =
      deep_copy_pointer list_mount_targets_description_slot
        deep_copy_into_list_mount_targets_description

module _ {T : RuntimeTypes} (rc : RuntimeCopies T) where
  unfoldable pub deep_copy_into_list_file_systems_description :
      ListFileSystemsDescriptionStruct → Copying T ListFileSystemsDescriptionStruct
  deep_copy_into_list_file_systems_description s = do
    bucket ← deep_copy_string s.bucket
    creation_time ← deep_copy_time rc s.creation_time
    file_system_arn ← deep_copy_string s.file_system_arn
    file_system_id ← deep_copy_string s.file_system_id
    name ← deep_copy_string s.name
    owner_id ← deep_copy_string s.owner_id
    role_arn ← deep_copy_string s.role_arn
    status ← deep_copy_string s.status
    status_message ← deep_copy_string s.status_message
    pure (record {
      bucket = bucket;
      creation_time = creation_time;
      file_system_arn = file_system_arn;
      file_system_id = file_system_id;
      name = name;
      owner_id = owner_id;
      role_arn = role_arn;
      status = status;
      status_message = status_message;
    })

  abbrev pub deep_copy_list_file_systems_description : Pointer → Copying T Pointer
  deep_copy_list_file_systems_description =
      deep_copy_pointer list_file_systems_description_slot
        deep_copy_into_list_file_systems_description
