-- ===== src/Tests/Copies.antt =====
-- The deep copies at the resources of a concrete memory (apis/v1alpha1).
use ack_ws_s3files_controlle.Prelude.{refl, none, some, [], ◌∷◌}
use ack_ws_s3files_controlle.DeepCopy.Shows.Structs.{
  ShowsFileSystemSpec, ShowsFileSystemStatus, ShowsAccessPointSpec, ShowsAccessPointStatus,
  ShowsMountTargetSpec, ShowsMountTargetStatus, ShowsResource,
}
use ack_ws_s3files_controlle.FileSystem.Types.{FileSystem}
use ack_ws_s3files_controlle.DeepCopy.FileSystem.{deep_copy_file_system}
use ack_ws_s3files_controlle.AccessPoint.Types.{AccessPoint}
use ack_ws_s3files_controlle.DeepCopy.AccessPoint.{deep_copy_access_point}
use ack_ws_s3files_controlle.MountTarget.Types.{MountTarget}
use ack_ws_s3files_controlle.DeepCopy.MountTarget.{deep_copy_mount_target}
use ack_ws_s3files_controlle.Memory.Writes.{IsSeparate}
use ack_ws_s3files_controlle.DeepCopy.Separate.Kinds.{
  deep_copy-IsSeparate, FileSystemAt, AccessPointAt, MountTargetAt, file_system_view,
  access_point_view, mount_target_view,
}
use ack_ws_s3files_controlle.AccessPoint.Types.{PosixUser}
use ack_ws_s3files_controlle.Tests.Memory.{
  value_copies, value_shows, meta, team, file_system_struct, user_struct, access_point_struct,
  mount_target_struct, memory, value_laws,
}

abbrev file_system_value : FileSystem
file_system_value = record {
  metadata = meta;
  spec = record {
    accept_bucket_warning = none;
    bucket = some "arn:aws:s3:::logs";
    bucket_ref = none;
    expiration_data_rules = none;
    import_data_rules = none;
    kms_key_id = none;
    kms_key_ref = none;
    policy = none;
    prefix = none;
    role_arn = none;
    role_ref = none;
    tags = some (record { key = some "team"; value = none } ∷ []);
  };
  status = record {
    ack_resource_metadata = none;
    conditions = none;
    creation_time = none;
    file_system_id = none;
    latest_version_number = none;
    name = none;
    owner_id = none;
    status = none;
    status_message = none;
  };
}

abbrev user_value : PosixUser
user_value = record { gid = some 1000; secondary_gids = some (some 1000 ∷ none ∷ []); uid = none }

abbrev access_point_value : AccessPoint
access_point_value = record {
  metadata = meta;
  spec = record {
    file_system_id = none;
    file_system_ref = none;
    posix_user = some user_value;
    root_directory = none;
    tags = none;
  };
  status = record {
    ack_resource_metadata = none;
    conditions = none;
    id = none;
    name = none;
    owner_id = none;
    status = none;
  };
}

abbrev mount_target_value : MountTarget
mount_target_value = record {
  metadata = meta;
  spec = record {
    file_system_id = none;
    file_system_ref = none;
    ip_address_type = none;
    ipv4_address = none;
    ipv6_address = none;
    security_group_refs = none;
    security_groups = some (some "team" ∷ []);
    subnet_id = none;
    subnet_ref = none;
  };
  status = record {
    ack_resource_metadata = none;
    conditions = none;
    availability_zone_id = none;
    id = none;
    network_interface_id = none;
    owner_id = none;
    status = none;
    status_message = none;
    vpc_id = none;
  };
}

file_system_shown :
    ShowsResource value_shows
      (ShowsFileSystemSpec value_shows)
      (ShowsFileSystemStatus value_shows)
      memory
      file_system_struct
      (file_system_view "FileSystem" file_system_value)
file_system_shown = record {
  type_meta = refl;
  object_meta = refl;
  spec = record {
    accept_bucket_warning = tt;
    bucket = ("arn:aws:s3:::logs", refl, refl);
    bucket_ref = tt;
    expiration_data_rules = tt;
    import_data_rules = tt;
    kms_key_id = tt;
    kms_key_ref = tt;
    policy = tt;
    prefix = tt;
    role_arn = tt;
    role_ref = tt;
    tags =
        (some 1 ∷ [], refl, ((team, refl, record { key = ("team", refl, refl); value = tt }), tt));
  };
  status = record {
    ack_resource_metadata = tt;
    conditions = tt;
    creation_time = tt;
    file_system_id = tt;
    latest_version_number = tt;
    name = tt;
    owner_id = tt;
    status = tt;
    status_message = tt;
  };
}

access_point_shown :
    ShowsResource value_shows
      (ShowsAccessPointSpec value_shows)
      (ShowsAccessPointStatus value_shows)
      memory
      access_point_struct
      (access_point_view "FileSystem" access_point_value)
access_point_shown = record {
  type_meta = refl;
  object_meta = refl;
  spec = record {
    file_system_id = tt;
    file_system_ref = tt;
    posix_user = (
      user_struct,
      refl,
      record {
        gid = (1000, refl, refl);
        secondary_gids = (some 5 ∷ none ∷ [], refl, ((1000, refl, refl), (tt, tt)));
        uid = tt;
      },
    );
    root_directory = tt;
    tags = tt;
  };
  status = record {
    ack_resource_metadata = tt;
    conditions = tt;
    id = tt;
    name = tt;
    owner_id = tt;
    status = tt;
  };
}

mount_target_shown :
    ShowsResource value_shows
      (ShowsMountTargetSpec value_shows)
      (ShowsMountTargetStatus value_shows)
      memory
      mount_target_struct
      (mount_target_view "FileSystem" mount_target_value)
mount_target_shown = record {
  type_meta = refl;
  object_meta = refl;
  spec = record {
    file_system_id = tt;
    file_system_ref = tt;
    ip_address_type = tt;
    ipv4_address = tt;
    ipv6_address = tt;
    security_group_refs = tt;
    security_groups = (some 2 ∷ [], refl, (("team", refl, refl), tt));
    subnet_id = tt;
    subnet_ref = tt;
  };
  status = record {
    ack_resource_metadata = tt;
    conditions = tt;
    availability_zone_id = tt;
    id = tt;
    network_interface_id = tt;
    owner_id = tt;
    status = tt;
    status_message = tt;
    vpc_id = tt;
  };
}

deep_copy-IsSeparate_example :
    IsSeparate
      (FileSystemAt value_shows)
      memory
      (some 4)
      (some (file_system_view "FileSystem" file_system_value))
      (deep_copy_file_system value_copies (some 4))
    × IsSeparate
        (AccessPointAt value_shows)
        memory
        (some 8)
        (some (access_point_view "FileSystem" access_point_value))
        (deep_copy_access_point value_copies (some 8))
    × IsSeparate
        (MountTargetAt value_shows)
        memory
        (some 10)
        (some (mount_target_view "FileSystem" mount_target_value))
        (deep_copy_mount_target value_copies (some 10))
deep_copy-IsSeparate_example =
    deep_copy-IsSeparate value_shows value_laws memory "FileSystem" (some 4) (some 8) (some 10)
      (some file_system_value) (some access_point_value) (some mount_target_value)
      (file_system_struct, refl, file_system_shown) (access_point_struct, refl, access_point_shown)
      (mount_target_struct, refl, mount_target_shown)
