-- ===== src/DeepCopy/Structs.antt =====
-- The structures of the custom resources as they lie in memory (apis/v1alpha1): each pointer and
-- each slice of a structure is an address, and a cell holds what a pointer may lead to. The
-- structures of the ACK runtime and of Kubernetes are types of the parameter.
use ack_ws_s3files_controlle.Prelude.{ℕ, String, Bool, List}
use ack_ws_s3files_controlle.Memory.{Pointer, M}

-- The structures that the repository only refers to.
pub record RuntimeTypes : Type 1 where
  pub Reference : Type 0
  pub ResourceMetadata : Type 0
  pub Condition : Type 0
  pub TypeMeta : Type 0
  pub ObjectMeta : Type 0
  pub ListMeta : Type 0

pub record TagStruct : Type 0 where
  pub key : Pointer
  pub value : Pointer

pub record ImportDataRuleStruct : Type 0 where
  pub prefix : Pointer
  pub size_less_than : Pointer
  pub trigger : Pointer

pub record ExpirationDataRuleStruct : Type 0 where
  pub days_after_last_access : Pointer

pub record CreationPermissionsStruct : Type 0 where
  pub owner_gid : Pointer
  pub owner_uid : Pointer
  pub permissions : Pointer

pub record PosixUserStruct : Type 0 where
  pub gid : Pointer
  pub secondary_gids : Pointer
  pub uid : Pointer

pub record RootDirectoryStruct : Type 0 where
  pub creation_permissions : Pointer
  pub path : Pointer

pub record FileSystemSpecStruct : Type 0 where
  pub accept_bucket_warning : Pointer
  pub bucket : Pointer
  pub bucket_ref : Pointer
  pub expiration_data_rules : Pointer
  pub import_data_rules : Pointer
  pub kms_key_id : Pointer
  pub kms_key_ref : Pointer
  pub policy : Pointer
  pub prefix : Pointer
  pub role_arn : Pointer
  pub role_ref : Pointer
  pub tags : Pointer

pub record FileSystemStatusStruct : Type 0 where
  pub ack_resource_metadata : Pointer
  pub conditions : Pointer
  pub creation_time : Pointer
  pub file_system_id : Pointer
  pub latest_version_number : Pointer
  pub name : Pointer
  pub owner_id : Pointer
  pub status : Pointer
  pub status_message : Pointer

pub record AccessPointSpecStruct : Type 0 where
  pub file_system_id : Pointer
  pub file_system_ref : Pointer
  pub posix_user : Pointer
  pub root_directory : Pointer
  pub tags : Pointer

pub record AccessPointStatusStruct : Type 0 where
  pub ack_resource_metadata : Pointer
  pub conditions : Pointer
  pub id : Pointer
  pub name : Pointer
  pub owner_id : Pointer
  pub status : Pointer

pub record MountTargetSpecStruct : Type 0 where
  pub file_system_id : Pointer
  pub file_system_ref : Pointer
  pub ip_address_type : Pointer
  pub ipv4_address : Pointer
  pub ipv6_address : Pointer
  pub security_group_refs : Pointer
  pub security_groups : Pointer
  pub subnet_id : Pointer
  pub subnet_ref : Pointer

pub record MountTargetStatusStruct : Type 0 where
  pub ack_resource_metadata : Pointer
  pub conditions : Pointer
  pub availability_zone_id : Pointer
  pub id : Pointer
  pub network_interface_id : Pointer
  pub owner_id : Pointer
  pub status : Pointer
  pub status_message : Pointer
  pub vpc_id : Pointer

pub record ListAccessPointsDescriptionStruct : Type 0 where
  pub access_point_arn : Pointer
  pub access_point_id : Pointer
  pub file_system_id : Pointer
  pub name : Pointer
  pub owner_id : Pointer
  pub posix_user : Pointer
  pub root_directory : Pointer
  pub status : Pointer

pub record ListFileSystemsDescriptionStruct : Type 0 where
  pub bucket : Pointer
  pub creation_time : Pointer
  pub file_system_arn : Pointer
  pub file_system_id : Pointer
  pub name : Pointer
  pub owner_id : Pointer
  pub role_arn : Pointer
  pub status : Pointer
  pub status_message : Pointer

pub record ListMountTargetsDescriptionStruct : Type 0 where
  pub availability_zone_id : Pointer
  pub file_system_id : Pointer
  pub ipv4_address : Pointer
  pub ipv6_address : Pointer
  pub mount_target_id : Pointer
  pub network_interface_id : Pointer
  pub owner_id : Pointer
  pub status : Pointer
  pub status_message : Pointer
  pub subnet_id : Pointer
  pub vpc_id : Pointer

-- A custom resource and a list of them, the same for each kind.
pub record ResourceStruct (T : RuntimeTypes) (Spec Status : Type 0) : Type 0 where
  pub type_meta : T.TypeMeta
  pub object_meta : T.ObjectMeta
  pub spec : Spec
  pub status : Status

pub record ListStruct (T : RuntimeTypes) : Type 0 where
  pub type_meta : T.TypeMeta
  pub list_meta : T.ListMeta
  pub items : Pointer

abbrev pub FileSystemStruct : RuntimeTypes → Type 0
FileSystemStruct T = ResourceStruct T FileSystemSpecStruct FileSystemStatusStruct

abbrev pub AccessPointStruct : RuntimeTypes → Type 0
AccessPointStruct T = ResourceStruct T AccessPointSpecStruct AccessPointStatusStruct

abbrev pub MountTargetStruct : RuntimeTypes → Type 0
MountTargetStruct T = ResourceStruct T MountTargetSpecStruct MountTargetStatusStruct

pub data Cell (T : RuntimeTypes) : Type 0 where
  string : String → Cell T
  int64 : ℕ → Cell T
  bool : Bool → Cell T
  time : ℕ → Cell T
  pointers : List Pointer → Cell T
  reference : T.Reference → Cell T
  metadata : T.ResourceMetadata → Cell T
  condition : T.Condition → Cell T
  tag : TagStruct → Cell T
  import_data_rule : ImportDataRuleStruct → Cell T
  expiration_data_rule : ExpirationDataRuleStruct → Cell T
  creation_permissions : CreationPermissionsStruct → Cell T
  posix_user : PosixUserStruct → Cell T
  root_directory : RootDirectoryStruct → Cell T
  file_system_spec : FileSystemSpecStruct → Cell T
  file_system_status : FileSystemStatusStruct → Cell T
  access_point_spec : AccessPointSpecStruct → Cell T
  access_point_status : AccessPointStatusStruct → Cell T
  mount_target_spec : MountTargetSpecStruct → Cell T
  mount_target_status : MountTargetStatusStruct → Cell T
  list_access_points_description : ListAccessPointsDescriptionStruct → Cell T
  list_file_systems_description : ListFileSystemsDescriptionStruct → Cell T
  list_mount_targets_description : ListMountTargetsDescriptionStruct → Cell T
  file_system : FileSystemStruct T → Cell T
  access_point : AccessPointStruct T → Cell T
  mount_target : MountTargetStruct T → Cell T
  file_systems : List (FileSystemStruct T) → Cell T
  access_points : List (AccessPointStruct T) → Cell T
  mount_targets : List (MountTargetStruct T) → Cell T
  file_system_list : ListStruct T → Cell T
  access_point_list : ListStruct T → Cell T
  mount_target_list : ListStruct T → Cell T

-- A computation over such a memory.
abbrev pub Copying : RuntimeTypes → Type 0 → Type 0
Copying T A = M (Cell T) A
