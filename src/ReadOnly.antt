-- ===== src/ReadOnly.antt =====
-- Reads change nothing in the service: `ReadOne` of the three kinds (the `manager.go` and `sdk.go`
-- files of pkg/resource).
use ack_ws_s3files_controlle.Prelude.{String, Bool, ◌≡◌, Option, none, some, if◌then◌else◌}
use ack_ws_s3files_controlle.Ack.{Reply, done, failed, World, Exec, call, pure, fail, ◌>>=◌}
use ack_ws_s3files_controlle.Ack.Keeps.{
  Keeps, pure-Keeps, fail-Keeps, call-Keeps, unless_code-Keeps, bind-Keeps, if-Keeps,
}
use ack_ws_s3files_controlle.Aws.{
  Service, AccessPointOutput, MountTargetOutput, GetSynchronizationConfigurationOutput,
}
use ack_ws_s3files_controlle.Kinds
use ack_ws_s3files_controlle.Manager.{ResourceManager}
use ack_ws_s3files_controlle.FileSystem.Types.{file_system_kind, FileSystem}
use ack_ws_s3files_controlle.AccessPoint.Types.{access_point_kind, AccessPoint}
use ack_ws_s3files_controlle.MountTarget.Types.{mount_target_kind, MountTarget}
use ack_ws_s3files_controlle.FileSystem.Sdk.{
  SyncConfiguration, absent_codes, no_configuration, configuration_from_sdk, map_error, read_error,
  required_fields_missing_from_read_one_input as is_new_file_system, fetch_file_system_policy,
  fetch_synchronization_configuration, read_sub_resources, sdk_find as find_file_system,
  new_describe_request_payload as file_system_id, set_output as file_system_output, finish_read,
}
use ack_ws_s3files_controlle.AccessPoint.Sdk.{
  required_fields_missing_from_read_one_input as is_new_access_point, sdk_find as find_access_point,
  set_output as access_point_output, set_terminal_of_state as access_point_terminal,
}
use ack_ws_s3files_controlle.MountTarget.Sdk.{
  required_fields_missing_from_read_one_input as is_new_mount_target, sdk_find as find_mount_target,
  new_describe_request_payload as mount_target_id, set_output as mount_target_output,
  set_terminal_of_state as mount_target_terminal,
}
use ack_ws_s3files_controlle.FileSystem.Manager.{read_one as read_file_system}
use ack_ws_s3files_controlle.AccessPoint.Manager.{read_one as read_access_point}
use ack_ws_s3files_controlle.MountTarget.Manager.{read_one as read_mount_target}

-- The Get operations of the service leave its state.
pub record IsReadOnly {S E : Type 0} (sdkapi : Service S E) : Type 0 where
  pub get_file_system : (id : Option String) (s : S) → (sdkapi.get_file_system id s).1 ≡ s
  pub get_file_system_policy :
      (id : Option String) (s : S) → (sdkapi.get_file_system_policy id s).1 ≡ s
  pub get_synchronization_configuration :
      (id : Option String) (s : S) → (sdkapi.get_synchronization_configuration id s).1 ≡ s
  pub get_access_point : (id : Option String) (s : S) → (sdkapi.get_access_point id s).1 ≡ s
  pub get_mount_target : (id : Option String) (s : S) → (sdkapi.get_mount_target id s).1 ≡ s

abbrev whole : {S : Type 0} → S → S
whole s = s

module _ {S E : Type 0} (rm : ResourceManager S E) (reading : IsReadOnly rm.sdkapi) where
  map_error_done :
      {A : Type 0} (p : Reply E A × World S E) {s : S}
      → p.1.cloud ≡ s
      → (map_error rm (read_error rm) (λ _. p) p.1).1.cloud ≡ s
  map_error_done (done x, w1) h = h
  map_error_done (failed e, w1) h = h

  map_error-Keeps :
      {A : Type 0} (m : Exec S E A) → Keeps whole m → Keeps whole (map_error rm (read_error rm) m)
  map_error-Keeps m h w = map_error_done (m w) (h w)

  -- The shape of `sdkFind`: a call, unless there is no id yet, and what follows it.
  find-Keeps :
      {O R : Type 0} (is_new : Bool) (op_id : String) (f : S → Reply E O × S)
      (next : O → Exec S E R)
      → ((s : S) → (f s).1 ≡ s)
      → ((o : O) → Keeps whole (next o))
      → Keeps whole (
          if is_new
          then fail rm.runtime.not_found
          else map_error rm (read_error rm) (call "READ_ONE" op_id f) >>= next)
  find-Keeps {O} {R} is_new op_id f next h g =
      let got = map_error rm (read_error rm) (call "READ_ONE" op_id f) in
      if-Keeps whole is_new (fail rm.runtime.not_found) (got >>= next)
        (fail-Keeps whole R rm.runtime.not_found)
        (bind-Keeps whole got next
          (map_error-Keeps (call "READ_ONE" op_id f) (call-Keeps whole "READ_ONE" op_id f h)) g)

  policy-Keeps : (id : Option String) → Keeps whole (fetch_file_system_policy rm id)
  unfolding fetch_file_system_policy
  policy-Keeps none = pure-Keeps whole {A = Option String} none
  policy-Keeps (some id) =
      let f = rm.sdkapi.get_file_system_policy (some id) in
      unless_code-Keeps whole rm.runtime absent_codes none (call "READ_ONE" "GetFileSystemPolicy" f)
        (call-Keeps whole "READ_ONE" "GetFileSystemPolicy" f
          (reading.get_file_system_policy (some id)))

  configuration-Keeps :
      (id : Option String) → Keeps whole (fetch_synchronization_configuration rm id)
  unfolding fetch_synchronization_configuration
  configuration-Keeps none = pure-Keeps whole no_configuration
  configuration-Keeps (some id) =
      let m =
        call "READ_ONE" "GetSynchronizationConfiguration"
          (rm.sdkapi.get_synchronization_configuration (some id)) in
      let f = λ (resp : GetSynchronizationConfigurationOutput).
        pure {S = S} {E = E} (configuration_from_sdk resp) in
      unless_code-Keeps whole rm.runtime absent_codes no_configuration (m >>= f) (
        bind-Keeps whole m f
          (call-Keeps whole "READ_ONE" "GetSynchronizationConfiguration"
            (rm.sdkapi.get_synchronization_configuration (some id))
            (reading.get_synchronization_configuration (some id)))
          λ resp. pure-Keeps whole (configuration_from_sdk resp))

  read_sub_resources-Keeps : (ko : FileSystem) → Keeps whole (read_sub_resources rm ko)
  unfolding read_sub_resources
  read_sub_resources-Keeps ko =
      let id = ko.status.file_system_id in
      let finish = λ (policy : Option String).
        λ (config : SyncConfiguration). pure {S = S} {E = E} (finish_read rm ko policy config) in
      bind-Keeps whole (fetch_file_system_policy rm id)
        (λ policy. fetch_synchronization_configuration rm id >>= finish policy) (policy-Keeps id)
        λ policy.
          bind-Keeps whole (fetch_synchronization_configuration rm id) (finish policy)
            (configuration-Keeps id) λ config. pure-Keeps whole (finish_read rm ko policy config)

  find_file_system-Keeps : (r : FileSystem) → Keeps whole (find_file_system rm r)
  unfolding find_file_system file_system_id
  find_file_system-Keeps r =
      let id = r.status.file_system_id in
      find-Keeps (is_new_file_system r) "GetFileSystem" (rm.sdkapi.get_file_system id)
        (λ resp.
          read_sub_resources rm
            (Kinds.set_status_defaults file_system_kind rm (file_system_output r resp)))
        (reading.get_file_system id) λ resp. read_sub_resources-Keeps _

  find_access_point-Keeps : (r : AccessPoint) → Keeps whole (find_access_point rm r)
  unfolding find_access_point
  find_access_point-Keeps r =
      let observed = λ (resp : AccessPointOutput).
        access_point_terminal rm
          (Kinds.set_status_defaults access_point_kind rm (access_point_output rm r resp)) in
      find-Keeps (is_new_access_point rm r) "GetAccessPoint"
        (rm.sdkapi.get_access_point r.status.id) (λ resp. pure (observed resp))
        (reading.get_access_point r.status.id) λ resp. pure-Keeps whole (observed resp)

  find_mount_target-Keeps : (r : MountTarget) → Keeps whole (find_mount_target rm r)
  unfolding find_mount_target mount_target_id
  find_mount_target-Keeps r =
      let observed = λ (resp : MountTargetOutput).
        mount_target_terminal rm
          (Kinds.set_status_defaults mount_target_kind rm (mount_target_output rm r resp)) in
      find-Keeps (is_new_mount_target rm r) "GetMountTarget"
        (rm.sdkapi.get_mount_target r.status.id) (λ resp. pure (observed resp))
        (reading.get_mount_target r.status.id) λ resp. pure-Keeps whole (observed resp)

  -- A read of a file system, of an access point and of a mount target leaves the service as it is on
  -- every branch, errors included, where the Get operations do.
  pub read_one-Keeps :
      (fs : FileSystem) (ap : AccessPoint) (mt : MountTarget) (w : World S E)
      → ((read_file_system rm fs w).1.cloud ≡ w.cloud)
        × ((read_access_point rm ap w).1.cloud ≡ w.cloud)
        × ((read_mount_target rm mt w).1.cloud ≡ w.cloud)
  unfolding read_file_system read_access_point read_mount_target Kinds.read_one_by
  read_one-Keeps fs ap mt w =
      (find_file_system-Keeps fs w, find_access_point-Keeps ap w, find_mount_target-Keeps mt w)
