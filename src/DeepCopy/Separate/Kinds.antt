-- ===== src/DeepCopy/Separate/Kinds.antt =====
-- The deep copies of the three kinds, and of the lists of them
-- (apis/v1alpha1/zz_generated.deepcopy.go).
use ack_ws_s3files_controlle.Prelude.{Option, List, map_option}
use ack_ws_s3files_controlle.Memory.{Pointer, ShowsPointer}
use ack_ws_s3files_controlle.Memory.Laws.{DeepCopies}
use ack_ws_s3files_controlle.Memory.Copies.{pointer-DeepCopies}
use ack_ws_s3files_controlle.DeepCopy.Structs.{RuntimeTypes, Cell}
use ack_ws_s3files_controlle.DeepCopy.Slots.{
  file_system_slot, access_point_slot, mount_target_slot, file_systems_slot, access_points_slot,
  mount_targets_slot, file_system_list_slot, access_point_list_slot, mount_target_list_slot,
}
use ack_ws_s3files_controlle.DeepCopy.Fields.{RuntimeCopies}
use ack_ws_s3files_controlle.DeepCopy.Shows.{RuntimeShows}
use ack_ws_s3files_controlle.DeepCopy.Shows.Structs.{
  ShowsFileSystemSpec, ShowsFileSystemStatus, ShowsAccessPointSpec, ShowsAccessPointStatus,
  ShowsMountTargetSpec, ShowsMountTargetStatus, ShowsResource, ShowsList, ResourceView, ListView,
}
use ack_ws_s3files_controlle.DeepCopy.Separate.Fields.{RuntimeLaws}
use ack_ws_s3files_controlle.FileSystem.Types.{FileSystem, FileSystemSpec, FileSystemStatus}
use ack_ws_s3files_controlle.DeepCopy.FileSystem.{deep_copy_file_system, deep_copy_file_system_list}
use ack_ws_s3files_controlle.DeepCopy.Separate.FileSystem.{
  file_system_spec-DeepCopies, file_system_status-DeepCopies,
}
use ack_ws_s3files_controlle.AccessPoint.Types.{AccessPoint, AccessPointSpec, AccessPointStatus}
use ack_ws_s3files_controlle.DeepCopy.AccessPoint.{
  deep_copy_access_point, deep_copy_access_point_list,
}
use ack_ws_s3files_controlle.DeepCopy.Separate.AccessPoint.{
  access_point_spec-DeepCopies, access_point_status-DeepCopies,
}
use ack_ws_s3files_controlle.MountTarget.Types.{MountTarget, MountTargetSpec, MountTargetStatus}
use ack_ws_s3files_controlle.DeepCopy.MountTarget.{
  deep_copy_mount_target, deep_copy_mount_target_list,
}
use ack_ws_s3files_controlle.DeepCopy.Separate.MountTarget.{
  mount_target_spec-DeepCopies, mount_target_status-DeepCopies,
}
use ack_ws_s3files_controlle.DeepCopy.Separate.Resources.{resource-DeepCopies, list-DeepCopies}
use ack_ws_s3files_controlle.Memory.Writes.{IsSeparate, DeepCopies-IsSeparate}

module _ {T : RuntimeTypes} (rs : RuntimeShows T) where
  -- What a pointer to a FileSystem leads to.
  abbrev pub FileSystemAt :
      List (Cell T) → Pointer → Option (ResourceView T FileSystemSpec FileSystemStatus) → Type 0
  FileSystemAt =
      ShowsPointer file_system_slot
        (ShowsResource rs (ShowsFileSystemSpec rs) (ShowsFileSystemStatus rs))

  abbrev FileSystemListAt :
      List (Cell T)
      → Pointer
      → Option (ListView T rs.ListMetaView (ResourceView T FileSystemSpec FileSystemStatus))
      → Type 0
  FileSystemListAt =
      ShowsPointer file_system_list_slot
        (ShowsList rs (ShowsFileSystemSpec rs) (ShowsFileSystemStatus rs) file_systems_slot)

  -- What a pointer to an AccessPoint leads to.
  abbrev pub AccessPointAt :
      List (Cell T) → Pointer → Option (ResourceView T AccessPointSpec AccessPointStatus) → Type 0
  AccessPointAt =
      ShowsPointer access_point_slot
        (ShowsResource rs (ShowsAccessPointSpec rs) (ShowsAccessPointStatus rs))

  abbrev AccessPointListAt :
      List (Cell T)
      → Pointer
      → Option (ListView T rs.ListMetaView (ResourceView T AccessPointSpec AccessPointStatus))
      → Type 0
  AccessPointListAt =
      ShowsPointer access_point_list_slot
        (ShowsList rs (ShowsAccessPointSpec rs) (ShowsAccessPointStatus rs) access_points_slot)

  -- What a pointer to a MountTarget leads to.
  abbrev pub MountTargetAt :
      List (Cell T) → Pointer → Option (ResourceView T MountTargetSpec MountTargetStatus) → Type 0
  MountTargetAt =
      ShowsPointer mount_target_slot
        (ShowsResource rs (ShowsMountTargetSpec rs) (ShowsMountTargetStatus rs))

  abbrev MountTargetListAt :
      List (Cell T)
      → Pointer
      → Option (ListView T rs.ListMetaView (ResourceView T MountTargetSpec MountTargetStatus))
      → Type 0
  MountTargetListAt =
      ShowsPointer mount_target_list_slot
        (ShowsList rs (ShowsMountTargetSpec rs) (ShowsMountTargetStatus rs) mount_targets_slot)

module _ {T : RuntimeTypes} where
  -- A FileSystem of the model, with the kind and the version that it is written under.
  abbrev pub file_system_view :
      T.TypeMeta → FileSystem → ResourceView T FileSystemSpec FileSystemStatus
  file_system_view type_meta r = record {
    type_meta = type_meta;
    metadata = r.metadata;
    spec = r.spec;
    status = r.status;
  }

  -- An AccessPoint of the model, with the kind and the version that it is written under.
  abbrev pub access_point_view :
      T.TypeMeta → AccessPoint → ResourceView T AccessPointSpec AccessPointStatus
  access_point_view type_meta r = record {
    type_meta = type_meta;
    metadata = r.metadata;
    spec = r.spec;
    status = r.status;
  }

  -- A MountTarget of the model, with the kind and the version that it is written under.
  abbrev pub mount_target_view :
      T.TypeMeta → MountTarget → ResourceView T MountTargetSpec MountTargetStatus
  mount_target_view type_meta r = record {
    type_meta = type_meta;
    metadata = r.metadata;
    spec = r.spec;
    status = r.status;
  }

module _ {T : RuntimeTypes} {rc : RuntimeCopies T} (rs : RuntimeShows T)
    (laws : RuntimeLaws rc rs) where
  file_system-DeepCopies : DeepCopies (FileSystemAt rs) (deep_copy_file_system rc)
  file_system-DeepCopies = pointer-DeepCopies file_system_slot (
      resource-DeepCopies rs laws (file_system_spec-DeepCopies rs laws)
        (file_system_status-DeepCopies rs laws))

  file_system_list-DeepCopies : DeepCopies (FileSystemListAt rs) (deep_copy_file_system_list rc)
  file_system_list-DeepCopies = pointer-DeepCopies file_system_list_slot (
      list-DeepCopies rs laws (file_system_spec-DeepCopies rs laws)
        (file_system_status-DeepCopies rs laws) file_systems_slot)

  access_point-DeepCopies : DeepCopies (AccessPointAt rs) (deep_copy_access_point rc)
  access_point-DeepCopies = pointer-DeepCopies access_point_slot (
      resource-DeepCopies rs laws (access_point_spec-DeepCopies rs laws)
        (access_point_status-DeepCopies rs laws))

  access_point_list-DeepCopies : DeepCopies (AccessPointListAt rs) (deep_copy_access_point_list rc)
  access_point_list-DeepCopies = pointer-DeepCopies access_point_list_slot (
      list-DeepCopies rs laws (access_point_spec-DeepCopies rs laws)
        (access_point_status-DeepCopies rs laws) access_points_slot)

  mount_target-DeepCopies : DeepCopies (MountTargetAt rs) (deep_copy_mount_target rc)
  mount_target-DeepCopies = pointer-DeepCopies mount_target_slot (
      resource-DeepCopies rs laws (mount_target_spec-DeepCopies rs laws)
        (mount_target_status-DeepCopies rs laws))

  mount_target_list-DeepCopies : DeepCopies (MountTargetListAt rs) (deep_copy_mount_target_list rc)
  mount_target_list-DeepCopies = pointer-DeepCopies mount_target_list_slot (
      list-DeepCopies rs laws (mount_target_spec-DeepCopies rs laws)
        (mount_target_status-DeepCopies rs laws) mount_targets_slot)

  -- Where a pointer to a file system, to an access point and to a mount target leads to a resource
  -- of the model, or is nil, the deep copy ends without a panic, in a pointer that leads to the same
  -- resource, or is nil: whatever is assigned to the cells that were there does not show in the copy,
  -- and whatever is assigned to the cells that the copy made does not show in the original.
  pub deep_copy-IsSeparate :
      (h : List (Cell T)) (tm : T.TypeMeta) (p q o : Pointer) (r : Option FileSystem)
      (a : Option AccessPoint) (t : Option MountTarget)
      → FileSystemAt rs h p (map_option (file_system_view tm) r)
      → AccessPointAt rs h q (map_option (access_point_view tm) a)
      → MountTargetAt rs h o (map_option (mount_target_view tm) t)
      → IsSeparate
          (FileSystemAt rs)
          h
          p
          (map_option (file_system_view tm) r)
          (deep_copy_file_system rc p)
        × IsSeparate
            (AccessPointAt rs)
            h
            q
            (map_option (access_point_view tm) a)
            (deep_copy_access_point rc q)
        × IsSeparate
            (MountTargetAt rs)
            h
            o
            (map_option (mount_target_view tm) t)
            (deep_copy_mount_target rc o)
  deep_copy-IsSeparate h tm p q o r a t x y z = (
    DeepCopies-IsSeparate file_system-DeepCopies h p (map_option (file_system_view tm) r) x,
    DeepCopies-IsSeparate access_point-DeepCopies h q (map_option (access_point_view tm) a) y,
    DeepCopies-IsSeparate mount_target-DeepCopies h o (map_option (mount_target_view tm) t) z,
  )

  -- The same for the lists of the three kinds, whose elements lie in the cell of the slice itself.
  deep_copy_list-IsSeparate :
      (h : List (Cell T)) (p q o : Pointer)
      (r : Option (ListView T rs.ListMetaView (ResourceView T FileSystemSpec FileSystemStatus)))
      (a : Option (ListView T rs.ListMetaView (ResourceView T AccessPointSpec AccessPointStatus)))
      (t : Option (ListView T rs.ListMetaView (ResourceView T MountTargetSpec MountTargetStatus)))
      → FileSystemListAt rs h p r
      → AccessPointListAt rs h q a
      → MountTargetListAt rs h o t
      → IsSeparate (FileSystemListAt rs) h p r (deep_copy_file_system_list rc p)
        × IsSeparate (AccessPointListAt rs) h q a (deep_copy_access_point_list rc q)
        × IsSeparate (MountTargetListAt rs) h o t (deep_copy_mount_target_list rc o)
  deep_copy_list-IsSeparate h p q o r a t x y z = (
    DeepCopies-IsSeparate file_system_list-DeepCopies h p r x,
    DeepCopies-IsSeparate access_point_list-DeepCopies h q a y,
    DeepCopies-IsSeparate mount_target_list-DeepCopies h o t z,
  )
