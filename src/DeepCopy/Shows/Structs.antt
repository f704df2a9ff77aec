-- ===== src/DeepCopy/Shows/Structs.antt =====
-- What the structures of the custom resources show, field by field (apis/v1alpha1).
use ack_ws_s3files_controlle.Prelude.{◌≡◌, Option, List}
use ack_ws_s3files_controlle.Ack.{ObjectMeta}
use ack_ws_s3files_controlle.Memory.{Slot, ShowsPointer, ShowsEach}
use ack_ws_s3files_controlle.DeepCopy.Structs.{
  RuntimeTypes, ResourceStruct, ListStruct, Cell, TagStruct, ImportDataRuleStruct,
  ExpirationDataRuleStruct, CreationPermissionsStruct, PosixUserStruct, RootDirectoryStruct,
  FileSystemSpecStruct, FileSystemStatusStruct, AccessPointSpecStruct, AccessPointStatusStruct,
  MountTargetSpecStruct, MountTargetStatusStruct, ListAccessPointsDescriptionStruct,
  ListFileSystemsDescriptionStruct, ListMountTargetsDescriptionStruct,
}
use ack_ws_s3files_controlle.DeepCopy.Slots.{
  tag_slot, import_data_rule_slot, expiration_data_rule_slot, creation_permissions_slot,
  posix_user_slot, root_directory_slot,
}
use ack_ws_s3files_controlle.Tags.{Tag}
use ack_ws_s3files_controlle.FileSystem.Types.{
  ImportDataRule, ExpirationDataRule, FileSystemSpec, FileSystemStatus,
}
use ack_ws_s3files_controlle.AccessPoint.Types.{
  CreationPermissions, PosixUser, RootDirectory, AccessPointSpec, AccessPointStatus,
}
use ack_ws_s3files_controlle.MountTarget.Types.{MountTargetSpec, MountTargetStatus}
use ack_ws_s3files_controlle.Descriptions.{
  ListAccessPointsDescription, ListFileSystemsDescription, ListMountTargetsDescription,
}
use ack_ws_s3files_controlle.DeepCopy.Shows.{
  RuntimeShows, ShowsString, ShowsInt64, ShowsBool, ShowsTime, ShowsItems, ShowsStrings,
  ShowsInt64S, ShowsReference, ShowsMetadata, ShowsConditions, ShowsReferences,
}

module _ {T : RuntimeTypes} where
  pub record ShowsTag (h : List (Cell T)) (s : TagStruct) (v : Tag) : Type 0 where
    pub key : ShowsString h s.key v.key
    pub value : ShowsString h s.value v.value

  pub record ShowsImportDataRule (h : List (Cell T)) (s : ImportDataRuleStruct) (v : ImportDataRule)
      : Type 0 where
    pub prefix : ShowsString h s.prefix v.prefix
    pub size_less_than : ShowsInt64 h s.size_less_than v.size_less_than
    pub trigger : ShowsString h s.trigger v.trigger

  pub record ShowsExpirationDataRule (h : List (Cell T)) (s : ExpirationDataRuleStruct)
      (v : ExpirationDataRule) : Type 0 where
    pub days_after_last_access : ShowsInt64 h s.days_after_last_access v.days_after_last_access

  pub record ShowsCreationPermissions (h : List (Cell T)) (s : CreationPermissionsStruct)
      (v : CreationPermissions) : Type 0 where
    pub owner_gid : ShowsInt64 h s.owner_gid v.owner_gid
    pub owner_uid : ShowsInt64 h s.owner_uid v.owner_uid
    pub permissions : ShowsString h s.permissions v.permissions

  pub record ShowsPosixUser (h : List (Cell T)) (s : PosixUserStruct) (v : PosixUser) : Type 0 where
    pub gid : ShowsInt64 h s.gid v.gid
    pub secondary_gids : ShowsInt64S h s.secondary_gids v.secondary_gids
    pub uid : ShowsInt64 h s.uid v.uid

  pub record ShowsRootDirectory (h : List (Cell T)) (s : RootDirectoryStruct) (v : RootDirectory)
      : Type 0 where
    pub creation_permissions :
        ShowsPointer creation_permissions_slot ShowsCreationPermissions h s.creation_permissions
          v.creation_permissions
    pub path : ShowsString h s.path v.path

  pub record ShowsListAccessPointsDescription (h : List (Cell T))
      (s : ListAccessPointsDescriptionStruct) (v : ListAccessPointsDescription) : Type 0 where
    pub access_point_arn : ShowsString h s.access_point_arn v.access_point_arn
    pub access_point_id : ShowsString h s.access_point_id v.access_point_id
    pub file_system_id : ShowsString h s.file_system_id v.file_system_id
    pub name : ShowsString h s.name v.name
    pub owner_id : ShowsString h s.owner_id v.owner_id
    pub posix_user : ShowsPointer posix_user_slot ShowsPosixUser h s.posix_user v.posix_user
    pub root_directory :
        ShowsPointer root_directory_slot ShowsRootDirectory h s.root_directory v.root_directory
    pub status : ShowsString h s.status v.status

  pub record ShowsListFileSystemsDescription (h : List (Cell T))
      (s : ListFileSystemsDescriptionStruct) (v : ListFileSystemsDescription) : Type 0 where
    pub bucket : ShowsString h s.bucket v.bucket
    pub creation_time : ShowsTime h s.creation_time v.creation_time
    pub file_system_arn : ShowsString h s.file_system_arn v.file_system_arn
    pub file_system_id : ShowsString h s.file_system_id v.file_system_id
    pub name : ShowsString h s.name v.name
    pub owner_id : ShowsString h s.owner_id v.owner_id
    pub role_arn : ShowsString h s.role_arn v.role_arn
    pub status : ShowsString h s.status v.status
    pub status_message : ShowsString h s.status_message v.status_message

  pub record ShowsListMountTargetsDescription (h : List (Cell T))
      (s : ListMountTargetsDescriptionStruct) (v : ListMountTargetsDescription) : Type 0 where
    pub availability_zone_id : ShowsString h s.availability_zone_id v.availability_zone_id
    pub file_system_id : ShowsString h s.file_system_id v.file_system_id
    pub ipv4_address : ShowsString h s.ipv4_address v.ipv4_address
    pub ipv6_address : ShowsString h s.ipv6_address v.ipv6_address
    pub mount_target_id : ShowsString h s.mount_target_id v.mount_target_id
    pub network_interface_id : ShowsString h s.network_interface_id v.network_interface_id
    pub owner_id : ShowsString h s.owner_id v.owner_id
    pub status : ShowsString h s.status v.status
    pub status_message : ShowsString h s.status_message v.status_message
    pub subnet_id : ShowsString h s.subnet_id v.subnet_id
    pub vpc_id : ShowsString h s.vpc_id v.vpc_id

module _ {T : RuntimeTypes} (rs : RuntimeShows T) where
  pub record ShowsFileSystemSpec (h : List (Cell T)) (s : FileSystemSpecStruct) (v : FileSystemSpec)
      : Type 0 where
    pub accept_bucket_warning : ShowsBool h s.accept_bucket_warning v.accept_bucket_warning
    pub bucket : ShowsString h s.bucket v.bucket
    pub bucket_ref : ShowsReference rs h s.bucket_ref v.bucket_ref
    pub expiration_data_rules :
        ShowsItems expiration_data_rule_slot ShowsExpirationDataRule h s.expiration_data_rules
          v.expiration_data_rules
    pub import_data_rules :
        ShowsItems import_data_rule_slot ShowsImportDataRule h s.import_data_rules
          v.import_data_rules
    pub kms_key_id : ShowsString h s.kms_key_id v.kms_key_id
    pub kms_key_ref : ShowsReference rs h s.kms_key_ref v.kms_key_ref
    pub policy : ShowsString h s.policy v.policy
    pub prefix : ShowsString h s.prefix v.prefix
    pub role_arn : ShowsString h s.role_arn v.role_arn
    pub role_ref : ShowsReference rs h s.role_ref v.role_ref
    pub tags : ShowsItems tag_slot ShowsTag h s.tags v.tags

  pub record ShowsFileSystemStatus (h : List (Cell T)) (s : FileSystemStatusStruct)
      (v : FileSystemStatus) : Type 0 where
    pub ack_resource_metadata : ShowsMetadata rs h s.ack_resource_metadata v.ack_resource_metadata
    pub conditions : ShowsConditions rs h s.conditions v.conditions
    pub creation_time : ShowsTime h s.creation_time v.creation_time
    pub file_system_id : ShowsString h s.file_system_id v.file_system_id
    pub latest_version_number : ShowsInt64 h s.latest_version_number v.latest_version_number
    pub name : ShowsString h s.name v.name
    pub owner_id : ShowsString h s.owner_id v.owner_id
    pub status : ShowsString h s.status v.status
    pub status_message : ShowsString h s.status_message v.status_message

  pub record ShowsAccessPointSpec (h : List (Cell T)) (s : AccessPointSpecStruct)
      (v : AccessPointSpec) : Type 0 where
    pub file_system_id : ShowsString h s.file_system_id v.file_system_id
    pub file_system_ref : ShowsReference rs h s.file_system_ref v.file_system_ref
    pub posix_user : ShowsPointer posix_user_slot ShowsPosixUser h s.posix_user v.posix_user
    pub root_directory :
        ShowsPointer root_directory_slot ShowsRootDirectory h s.root_directory v.root_directory
    pub tags : ShowsItems tag_slot ShowsTag h s.tags v.tags

  pub record ShowsAccessPointStatus (h : List (Cell T)) (s : AccessPointStatusStruct)
      (v : AccessPointStatus) : Type 0 where
    pub ack_resource_metadata : ShowsMetadata rs h s.ack_resource_metadata v.ack_resource_metadata
    pub conditions : ShowsConditions rs h s.conditions v.conditions
    pub id : ShowsString h s.id v.id
    pub name : ShowsString h s.name v.name
    pub owner_id : ShowsString h s.owner_id v.owner_id
    pub status : ShowsString h s.status v.status

  pub record ShowsMountTargetSpec (h : List (Cell T)) (s : MountTargetSpecStruct)
      (v : MountTargetSpec) : Type 0 where
    pub file_system_id : ShowsString h s.file_system_id v.file_system_id
    pub file_system_ref : ShowsReference rs h s.file_system_ref v.file_system_ref
    pub ip_address_type : ShowsString h s.ip_address_type v.ip_address_type
    pub ipv4_address : ShowsString h s.ipv4_address v.ipv4_address
    pub ipv6_address : ShowsString h s.ipv6_address v.ipv6_address
    pub security_group_refs : ShowsReferences rs h s.security_group_refs v.security_group_refs
    pub security_groups : ShowsStrings h s.security_groups v.security_groups
    pub subnet_id : ShowsString h s.subnet_id v.subnet_id
    pub subnet_ref : ShowsReference rs h s.subnet_ref v.subnet_ref

  pub record ShowsMountTargetStatus (h : List (Cell T)) (s : MountTargetStatusStruct)
      (v : MountTargetStatus) : Type 0 where
    pub ack_resource_metadata : ShowsMetadata rs h s.ack_resource_metadata v.ack_resource_metadata
    pub conditions : ShowsConditions rs h s.conditions v.conditions
    pub availability_zone_id : ShowsString h s.availability_zone_id v.availability_zone_id
    pub id : ShowsString h s.id v.id
    pub network_interface_id : ShowsString h s.network_interface_id v.network_interface_id
    pub owner_id : ShowsString h s.owner_id v.owner_id
    pub status : ShowsString h s.status v.status
    pub status_message : ShowsString h s.status_message v.status_message
    pub vpc_id : ShowsString h s.vpc_id v.vpc_id

-- A custom resource of any kind, and a list of such.
pub record ResourceView (T : RuntimeTypes) (SpecV StatusV : Type 0) : Type 0 where
  pub type_meta : T.TypeMeta
  pub metadata : ObjectMeta
  pub spec : SpecV
  pub status : StatusV

pub record ListView (T : RuntimeTypes) (ListMetaView V : Type 0) : Type 0 where
  pub type_meta : T.TypeMeta
  pub metadata : ListMetaView
  pub items : Option (List V)

module _ {T : RuntimeTypes} (rs : RuntimeShows T) {Spec SpecV Status StatusV : Type 0}
    (ShowsSpec : List (Cell T) → Spec → SpecV → Type 0)
    (ShowsStatus : List (Cell T) → Status → StatusV → Type 0) where
  pub record ShowsResource (h : List (Cell T)) (s : ResourceStruct T Spec Status)
      (v : ResourceView T SpecV StatusV) : Type 0 where
    pub type_meta : s.type_meta ≡ v.type_meta
    pub object_meta : rs.object_meta h s.object_meta v.metadata
    pub spec : ShowsSpec h s.spec v.spec
    pub status : ShowsStatus h s.status v.status

  pub record ShowsList (slot : Slot (Cell T) (List (ResourceStruct T Spec Status)))
      (h : List (Cell T)) (s : ListStruct T)
      (v : ListView T rs.ListMetaView (ResourceView T SpecV StatusV)) : Type 0 where
    pub type_meta : s.type_meta ≡ v.type_meta
    pub list_meta : rs.list_meta h s.list_meta v.metadata
    pub items : ShowsPointer slot (ShowsEach ShowsResource) h s.items v.items
