-- ===== src/MountTarget/Sdk.antt =====
-- The calls of the service for a MountTarget (pkg/resource/mount_target/sdk.go).
use ack_ws_s3files_controlle.Prelude.{
  String, Bool, not, Option, none, some, elements, is_some, ◌==◌, if◌then◌else◌, map_option,
  text_of,
}
use ack_ws_s3files_controlle.Ack.{
  status_true, done, failed, Returned, World, Exec, pure, fail, ◌>>=◌, call,
}
use ack_ws_s3files_controlle.Aws.{MountTargetOutput, CreateMountTargetInput, UpdateMountTargetInput}
use ack_ws_s3files_controlle.Kinds
use ack_ws_s3files_controlle.Manager.{ResourceManager, text_or_nil}
use ack_ws_s3files_controlle.FileSystem.Sdk.{map_error, read_error}
use ack_ws_s3files_controlle.MountTarget.Types.{mount_target_kind, MountTarget}

-- The message of the error state.
abbrev pub error_message : Option String → String
error_message none = "MountTarget is in error state"
error_message (some message) = message

module _ {S E : Type 0} (rm : ResourceManager S E) where
  -- The merge of a response of `GetMountTarget`, `CreateMountTarget` or `UpdateMountTarget` into a
  -- copy of the resource: the responses say nothing of the type of the addresses.
  unfoldable pub set_output : MountTarget → MountTargetOutput → MountTarget
  set_output ko resp = record ko {
    spec = record (ko.spec) {
      file_system_id = resp.file_system_id;
      ipv4_address = resp.ipv4_address;
      ipv6_address = resp.ipv6_address;
      security_groups = map_option rm.runtime.string_slice resp.security_groups;
      subnet_id = resp.subnet_id;
    };
    status = record (ko.status) {
      availability_zone_id = resp.availability_zone_id;
      id = resp.mount_target_id;
      network_interface_id = resp.network_interface_id;
      owner_id = resp.owner_id;
      status = text_or_nil resp.status;
      status_message = resp.status_message;
      vpc_id = resp.vpc_id;
    };
  }

  unfoldable pub required_fields_missing_from_read_one_input : MountTarget → Bool
  required_fields_missing_from_read_one_input r = not (is_some r.status.id)

  unfoldable pub new_describe_request_payload : MountTarget → Option String
  new_describe_request_payload r = r.status.id

  unfoldable pub new_create_request_payload : MountTarget → CreateMountTargetInput
  new_create_request_payload r = record {
    file_system_id = r.spec.file_system_id;
    ip_address_type = text_of r.spec.ip_address_type;
    ipv4_address = r.spec.ipv4_address;
    ipv6_address = r.spec.ipv6_address;
    security_groups = map_option rm.runtime.to_string_slice r.spec.security_groups;
    subnet_id = r.spec.subnet_id;
  }

  unfoldable pub new_update_request_payload : MountTarget → UpdateMountTargetInput
  new_update_request_payload r = record {
    mount_target_id = r.status.id;
    security_groups = map_option rm.runtime.to_string_slice r.spec.security_groups;
  }

  unfoldable pub new_delete_request_payload : MountTarget → Option String
  new_delete_request_payload r = r.status.id

  abbrev pub set_status_defaults : MountTarget → MountTarget
  set_status_defaults = Kinds.set_status_defaults mount_target_kind rm

  -- The terminal condition of a mount target in the error state; no other state changes it.
  unfoldable pub set_terminal_of_state : MountTarget → MountTarget
  set_terminal_of_state ko =
      let in_error =
        rm.runtime.set_terminal (elements ko.status.conditions) status_true
          (some (error_message ko.status.status_message)) none in
      if text_of ko.status.status == "error"
      then record ko { status = record (ko.status) { conditions = some in_error } }
      else ko

  unfoldable pub sdk_find : MountTarget → Exec S E MountTarget
  sdk_find r =
      if required_fields_missing_from_read_one_input r then fail rm.runtime.not_found else do
        resp ← map_error rm (read_error rm) (
            call "READ_ONE" "GetMountTarget"
              (rm.sdkapi.get_mount_target (new_describe_request_payload r)))
        pure (set_terminal_of_state (set_status_defaults (set_output r resp)))

  unfoldable pub sdk_create : MountTarget → Exec S E MountTarget
  sdk_create desired = do
    resp ←
        call "CREATE" "CreateMountTarget"
          (rm.sdkapi.create_mount_target (new_create_request_payload desired))
    pure (set_status_defaults (set_output desired resp))

  -- Neither the latest resource nor the delta is read.
  unfoldable pub sdk_update : MountTarget → Exec S E MountTarget
  sdk_update desired = do
    resp ←
        call "UPDATE" "UpdateMountTarget"
          (rm.sdkapi.update_mount_target (new_update_request_payload desired))
    pure (set_status_defaults (set_output desired resp))

  -- `sdkDelete` returns a nil resource, also where it succeeds.
  unfoldable pub sdk_delete : MountTarget → World S E → Returned E MountTarget × World S E
  sdk_delete r w =
      let (reply, w') =
        call "DELETE" "DeleteMountTarget"
          (rm.sdkapi.delete_mount_target (new_delete_request_payload r)) w in
      ((none, elim reply [ done _ ↦ none | failed e ↦ some e ]), w')

  abbrev pub update_conditions : MountTarget → Option E → Option MountTarget
  update_conditions = Kinds.update_conditions mount_target_kind rm
