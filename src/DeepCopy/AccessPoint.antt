-- ===== src/DeepCopy/AccessPoint.antt =====
-- The copies of a AccessPoint, its spec, its status and a list of them
-- (apis/v1alpha1/zz_generated.deepcopy.go).
use ack_ws_s3files_controlle.Memory.{Pointer, pure, ◌>>=◌, deep_copy_pointer}
use ack_ws_s3files_controlle.DeepCopy.Structs.{
  RuntimeTypes, ListStruct, Copying, AccessPointSpecStruct, AccessPointStatusStruct,
  AccessPointStruct,
}
use ack_ws_s3files_controlle.DeepCopy.Slots.{
  tag_slot, posix_user_slot, root_directory_slot, access_point_spec_slot, access_point_status_slot,
  access_point_slot, access_points_slot, access_point_list_slot,
}
use ack_ws_s3files_controlle.DeepCopy.Fields.{
  deep_copy_string, deep_copy_items, RuntimeCopies, deep_copy_reference, deep_copy_metadata,
  deep_copy_conditions,
}
use ack_ws_s3files_controlle.DeepCopy.Parts.{
  deep_copy_into_tag, deep_copy_into_posix_user, deep_copy_into_root_directory,
}
use ack_ws_s3files_controlle.DeepCopy.Resources.{
  deep_copy_into_resource, deep_copy_into_list, RuntimeObject, deep_copy_object,
}

module _ {T : RuntimeTypes} (rc : RuntimeCopies T) where
  unfoldable pub deep_copy_into_access_point_spec :
      AccessPointSpecStruct → Copying T AccessPointSpecStruct
  deep_copy_into_access_point_spec s = do
    file_system_id ← deep_copy_string s.file_system_id
    file_system_ref ← deep_copy_reference rc s.file_system_ref
    posix_user ← deep_copy_pointer posix_user_slot deep_copy_into_posix_user s.posix_user
    root_directory ←
        deep_copy_pointer root_directory_slot deep_copy_into_root_directory s.root_directory
    tags ← deep_copy_items tag_slot deep_copy_into_tag s.tags
    pure (record {
      file_system_id = file_system_id;
      file_system_ref = file_system_ref;
      posix_user = posix_user;
      root_directory = root_directory;
      tags = tags;
    })

  abbrev pub deep_copy_access_point_spec : Pointer → Copying T Pointer
  deep_copy_access_point_spec =
      deep_copy_pointer access_point_spec_slot deep_copy_into_access_point_spec

  unfoldable pub deep_copy_into_access_point_status :
      AccessPointStatusStruct → Copying T AccessPointStatusStruct
  deep_copy_into_access_point_status s = do
    ack_resource_metadata ← deep_copy_metadata rc s.ack_resource_metadata
    conditions ← deep_copy_conditions rc s.conditions
    id ← deep_copy_string s.id
    name ← deep_copy_string s.name
    owner_id ← deep_copy_string s.owner_id
    status ← deep_copy_string s.status
    pure (record {
      ack_resource_metadata = ack_resource_metadata;
      conditions = conditions;
      id = id;
      name = name;
      owner_id = owner_id;
      status = status;
    })

  abbrev pub deep_copy_access_point_status : Pointer → Copying T Pointer
  deep_copy_access_point_status =
      deep_copy_pointer access_point_status_slot deep_copy_into_access_point_status

  abbrev pub deep_copy_into_access_point : AccessPointStruct T → Copying T (AccessPointStruct T)
  deep_copy_into_access_point =
      deep_copy_into_resource rc deep_copy_into_access_point_spec deep_copy_into_access_point_status

  abbrev pub deep_copy_access_point : Pointer → Copying T Pointer
  deep_copy_access_point = deep_copy_pointer access_point_slot deep_copy_into_access_point

  abbrev pub deep_copy_object_access_point : Pointer → Copying T RuntimeObject
  deep_copy_object_access_point = deep_copy_object deep_copy_access_point

  abbrev pub deep_copy_into_access_point_list : ListStruct T → Copying T (ListStruct T)
  deep_copy_into_access_point_list =
      deep_copy_into_list rc deep_copy_into_access_point_spec deep_copy_into_access_point_status
        access_points_slot

  abbrev pub deep_copy_access_point_list : Pointer → Copying T Pointer
  deep_copy_access_point_list =
      deep_copy_pointer access_point_list_slot deep_copy_into_access_point_list

  abbrev pub deep_copy_object_access_point_list : Pointer → Copying T RuntimeObject
  deep_copy_object_access_point_list = deep_copy_object deep_copy_access_point_list
