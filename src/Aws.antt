-- ===== src/Aws.antt =====
-- What the controller takes from the AWS SDK (github.com/aws/aws-sdk-go-v2/service/s3files), which
-- is not part of the repository: the fields that it sets in requests and reads in responses, and
-- the client as the record `Service` over a state of the service. An SDK call returns a response or
-- an error. An int32 or int64 is its two's complement bit pattern.
use ack_ws_s3files_controlle.Prelude.{ℕ, String, Bool, Option, List}
use ack_ws_s3files_controlle.Ack.{Reply}

pub record SdkTag : Type 0 where
  pub key : Option String
  pub value : Option String

pub record SdkImportDataRule : Type 0 where
  pub prefix : Option String
  pub size_less_than : Option ℕ
  pub trigger : String

pub record SdkExpirationDataRule : Type 0 where
  pub days_after_last_access : Option ℕ

-- `CreateFileSystemOutput` and `GetFileSystemOutput`, which have the same fields.
pub record FileSystemOutput : Type 0 where
  pub bucket : Option String
  pub creation_time : Option ℕ
  pub file_system_arn : Option String
  pub file_system_id : Option String
  pub kms_key_id : Option String
  pub name : Option String
  pub owner_id : Option String
  pub prefix : Option String
  pub role_arn : Option String
  pub status : String
  pub status_message : Option String
  pub tags : Option (List SdkTag)

pub record CreateFileSystemInput : Type 0 where
  pub accept_bucket_warning : Option Bool
  pub bucket : Option String
  pub kms_key_id : Option String
  pub prefix : Option String
  pub role_arn : Option String
  pub tags : Option (List SdkTag)

pub record PutSynchronizationConfigurationInput : Type 0 where
  pub file_system_id : Option String
  pub latest_version_number : Option ℕ
  pub import_data_rules : Option (List SdkImportDataRule)
  pub expiration_data_rules : Option (List SdkExpirationDataRule)

pub record GetSynchronizationConfigurationOutput : Type 0 where
  pub import_data_rules : Option (List SdkImportDataRule)
  pub expiration_data_rules : Option (List SdkExpirationDataRule)
  pub latest_version_number : Option ℕ

pub record SdkPosixUser : Type 0 where
  pub gid : Option ℕ
  pub secondary_gids : Option (List ℕ)
  pub uid : Option ℕ

pub record SdkCreationPermissions : Type 0 where
  pub owner_gid : Option ℕ
  pub owner_uid : Option ℕ
  pub permissions : Option String

pub record SdkRootDirectory : Type 0 where
  pub creation_permissions : Option SdkCreationPermissions
  pub path : Option String

-- `CreateAccessPointOutput` and `GetAccessPointOutput`, which have the same fields.
pub record AccessPointOutput : Type 0 where
  pub access_point_arn : Option String
  pub access_point_id : Option String
  pub file_system_id : Option String
  pub name : Option String
  pub owner_id : Option String
  pub posix_user : Option SdkPosixUser
  pub root_directory : Option SdkRootDirectory
  pub status : String
  pub tags : Option (List SdkTag)

pub record CreateAccessPointInput : Type 0 where
  pub file_system_id : Option String
  pub posix_user : Option SdkPosixUser
  pub root_directory : Option SdkRootDirectory
  pub tags : Option (List SdkTag)

-- `CreateMountTargetOutput`, `GetMountTargetOutput` and `UpdateMountTargetOutput`, which have the
-- same fields.
pub record MountTargetOutput : Type 0 where
  pub availability_zone_id : Option String
  pub file_system_id : Option String
  pub ipv4_address : Option String
  pub ipv6_address : Option String
  pub mount_target_id : Option String
  pub network_interface_id : Option String
  pub owner_id : Option String
  pub security_groups : Option (List String)
  pub status : String
  pub status_message : Option String
  pub subnet_id : Option String
  pub vpc_id : Option String

-- An `IpAddressType` that is not set is the empty text.
pub record CreateMountTargetInput : Type 0 where
  pub file_system_id : Option String
  pub ip_address_type : String
  pub ipv4_address : Option String
  pub ipv6_address : Option String
  pub security_groups : Option (List String)
  pub subnet_id : Option String

pub record UpdateMountTargetInput : Type 0 where
  pub mount_target_id : Option String
  pub security_groups : Option (List String)

-- An operation of the service: the response and the new state.
abbrev pub Operation : Type 0 → Type 0 → Type 0 → Type 0
Operation S E A = S → Reply E A × S

-- The operations, each on the fields of its input. A response of which the controller reads nothing
-- is the unit.
pub record Service (S E : Type 0) : Type 0 where
  pub get_file_system : Option String → Operation S E FileSystemOutput
  pub create_file_system : CreateFileSystemInput → Operation S E FileSystemOutput
  pub delete_file_system : Option String → Operation S E Unit
  pub get_file_system_policy : Option String → Operation S E (Option String)
  pub put_file_system_policy : Option String → String → Operation S E Unit
  pub delete_file_system_policy : Option String → Operation S E Unit
  pub get_synchronization_configuration :
      Option String → Operation S E GetSynchronizationConfigurationOutput
  pub put_synchronization_configuration : PutSynchronizationConfigurationInput → Operation S E Unit
  pub tag_resource : Option String → List SdkTag → Operation S E Unit
  pub untag_resource : Option String → List String → Operation S E Unit
  pub get_access_point : Option String → Operation S E AccessPointOutput
  pub create_access_point : CreateAccessPointInput → Operation S E AccessPointOutput
  pub delete_access_point : Option String → Operation S E Unit
  pub get_mount_target : Option String → Operation S E MountTargetOutput
  pub create_mount_target : CreateMountTargetInput → Operation S E MountTargetOutput
  pub update_mount_target : UpdateMountTargetInput → Operation S E MountTargetOutput
  pub delete_mount_target : Option String → Operation S E Unit
