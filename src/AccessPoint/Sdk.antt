-- ===== src/AccessPoint/Sdk.antt =====
-- The calls of the service for an AccessPoint (pkg/resource/access_point/sdk.go).
use ack_ws_s3files_controlle.Prelude.{
  Bool, not, Option, none, some, map, elements, is_some, ◌==◌, if◌then◌else◌, map_option, text_of,
}
use ack_ws_s3files_controlle.Ack.{
  status_true, done, failed, Returned, World, Exec, pure, fail, ◌>>=◌, call, Runtime,
}
use ack_ws_s3files_controlle.Aws.{
  SdkPosixUser, SdkCreationPermissions, SdkRootDirectory, AccessPointOutput, CreateAccessPointInput,
}
use ack_ws_s3files_controlle.Kinds
use ack_ws_s3files_controlle.Manager.{ResourceManager, ensure_metadata, keep_unless, text_or_nil}
use ack_ws_s3files_controlle.FileSystem.Sdk.{tag_from_sdk, tag_to_sdk, map_error, read_error}
use ack_ws_s3files_controlle.AccessPoint.Types.{
  access_point_kind, CreationPermissions, PosixUser, RootDirectory, AccessPoint,
}

module _ {E : Type 0} (rt : Runtime E) where
  abbrev pub posix_user_from_sdk : SdkPosixUser → PosixUser
  posix_user_from_sdk u = record {
    gid = u.gid;
    secondary_gids = map_option rt.int64_slice u.secondary_gids;
    uid = u.uid;
  }

  abbrev pub posix_user_to_sdk : PosixUser → SdkPosixUser
  posix_user_to_sdk u = record {
    gid = u.gid;
    secondary_gids = map_option rt.to_int64_slice u.secondary_gids;
    uid = u.uid;
  }

abbrev permissions_from_sdk : SdkCreationPermissions → CreationPermissions
permissions_from_sdk p = record {
  owner_gid = p.owner_gid;
  owner_uid = p.owner_uid;
  permissions = p.permissions;
}

abbrev permissions_to_sdk : CreationPermissions → SdkCreationPermissions
permissions_to_sdk p = record {
  owner_gid = p.owner_gid;
  owner_uid = p.owner_uid;
  permissions = p.permissions;
}

abbrev pub root_directory_from_sdk : SdkRootDirectory → RootDirectory
root_directory_from_sdk d = record {
  creation_permissions = map_option permissions_from_sdk d.creation_permissions;
  path = d.path;
}

abbrev pub root_directory_to_sdk : RootDirectory → SdkRootDirectory
root_directory_to_sdk d = record {
  creation_permissions = map_option permissions_to_sdk d.creation_permissions;
  path = d.path;
}

module _ {S E : Type 0} (rm : ResourceManager S E) where
  -- The merge of a response of `GetAccessPoint` or `CreateAccessPoint` into a copy of the resource.
  unfoldable pub set_output : AccessPoint → AccessPointOutput → AccessPoint
  set_output ko resp =
      let md = ensure_metadata ko.status.ack_resource_metadata in
      record ko {
        spec = record (ko.spec) {
          file_system_id = resp.file_system_id;
          posix_user = map_option (posix_user_from_sdk rm.runtime) resp.posix_user;
          root_directory = map_option root_directory_from_sdk resp.root_directory;
          tags = map_option (map tag_from_sdk) resp.tags;
        };
        status = record (ko.status) {
          ack_resource_metadata =
              some (record md { arn = keep_unless resp.access_point_arn md.arn });
          id = resp.access_point_id;
          name = resp.name;
          owner_id = resp.owner_id;
          status = text_or_nil resp.status;
        };
      }

  unfoldable pub required_fields_missing_from_read_one_input : AccessPoint → Bool
  required_fields_missing_from_read_one_input r = not (is_some r.status.id)

  unfoldable pub new_create_request_payload : AccessPoint → CreateAccessPointInput
  new_create_request_payload r = record {
    file_system_id = r.spec.file_system_id;
    posix_user = map_option (posix_user_to_sdk rm.runtime) r.spec.posix_user;
    root_directory = map_option root_directory_to_sdk r.spec.root_directory;
    tags = map_option (map tag_to_sdk) r.spec.tags;
  }

  abbrev pub set_status_defaults : AccessPoint → AccessPoint
  set_status_defaults = Kinds.set_status_defaults access_point_kind rm

  -- The terminal condition of an access point in the error state; no other state changes it.
  unfoldable pub set_terminal_of_state : AccessPoint → AccessPoint
  set_terminal_of_state ko =
      let cs = elements ko.status.conditions in
      let in_error =
        rm.runtime.set_terminal cs status_true (some "AccessPoint is in error state") none in
      if text_of ko.status.status == "error"
      then record ko { status = record (ko.status) { conditions = some in_error } }
      else ko

  unfoldable pub sdk_find : AccessPoint → Exec S E AccessPoint
  sdk_find r =
      if required_fields_missing_from_read_one_input r then fail rm.runtime.not_found else do
        resp ←
            map_error rm (read_error rm)
              (call "READ_ONE" "GetAccessPoint" (rm.sdkapi.get_access_point r.status.id))
        pure (set_terminal_of_state (set_status_defaults (set_output r resp)))

  unfoldable pub sdk_create : AccessPoint → Exec S E AccessPoint
  sdk_create desired = do
    resp ←
        call "CREATE" "CreateAccessPoint"
          (rm.sdkapi.create_access_point (new_create_request_payload desired))
    pure (set_status_defaults (set_output desired resp))

  -- `sdkDelete` returns a nil resource, also where it succeeds.
  unfoldable pub sdk_delete : AccessPoint → World S E → Returned E AccessPoint × World S E
  sdk_delete r w =
      let (reply, w') =
        call "DELETE" "DeleteAccessPoint" (rm.sdkapi.delete_access_point r.status.id) w in
      ((none, elim reply [ done _ ↦ none | failed e ↦ some e ]), w')

  abbrev pub update_conditions : AccessPoint → Option E → Option AccessPoint
  update_conditions = Kinds.update_conditions access_point_kind rm
