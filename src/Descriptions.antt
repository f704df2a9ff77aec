-- ===== src/Descriptions.antt =====
-- What the service says of a resource in a list of them (apis/v1alpha1/types.go): types that no other
-- code of the controller uses.
use ack_ws_s3files_controlle.Prelude.{ℕ, String, Option}
use ack_ws_s3files_controlle.AccessPoint.Types.{PosixUser, RootDirectory}

pub record ListAccessPointsDescription : Type 0 where
  pub access_point_arn : Option String
  pub access_point_id : Option String
  pub file_system_id : Option String
  pub name : Option String
  pub owner_id : Option String
  pub posix_user : Option PosixUser
  pub root_directory : Option RootDirectory
  pub status : Option String

pub record ListFileSystemsDescription : Type 0 where
  pub bucket : Option String
  pub creation_time : Option ℕ
  pub file_system_arn : Option String
  pub file_system_id : Option String
  pub name : Option String
  pub owner_id : Option String
  pub role_arn : Option String
  pub status : Option String
  pub status_message : Option String

pub record ListMountTargetsDescription : Type 0 where
  pub availability_zone_id : Option String
  pub file_system_id : Option String
  pub ipv4_address : Option String
  pub ipv6_address : Option String
  pub mount_target_id : Option String
  pub network_interface_id : Option String
  pub owner_id : Option String
  pub status : Option String
  pub status_message : Option String
  pub subnet_id : Option String
  pub vpc_id : Option String
