-- ===== src/FileSystem/Hooks.antt =====
-- Updates of a FileSystem (pkg/resource/file_system/hooks.go): tags, then the sub-resources.
use ack_ws_s3files_controlle.Prelude.{
  String, Bool, ◌||◌, Option, none, some, [], ◌∷◌, map, is_some, ◌==◌, if◌then◌else◌, map_option,
  to_int32, text_of,
}
use ack_ws_s3files_controlle.Ack.{Delta, Exec, pure, fail, ◌>>◌, when, call, unless_code}
use ack_ws_s3files_controlle.Aws.{
  SdkImportDataRule, SdkExpirationDataRule, PutSynchronizationConfigurationInput,
}
use ack_ws_s3files_controlle.Tags.{convert_to_ordered_ack_tags}
use ack_ws_s3files_controlle.TagSync.{sync_tags}
use ack_ws_s3files_controlle.Manager.{ResourceManager}
use ack_ws_s3files_controlle.FileSystem.Types.{ImportDataRule, ExpirationDataRule, FileSystem}

-- The loops that build the rules of a request.
abbrev pub import_rule_to_sdk : ImportDataRule → SdkImportDataRule
import_rule_to_sdk r = record {
  prefix = r.prefix;
  size_less_than = r.size_less_than;
  trigger = text_of r.trigger;
}

abbrev pub expiration_rule_to_sdk : ExpirationDataRule → SdkExpirationDataRule
expiration_rule_to_sdk r = record {
  days_after_last_access = map_option to_int32 r.days_after_last_access;
}

-- The request of PutSynchronizationConfiguration.
unfoldable pub put_input : FileSystem → FileSystem → PutSynchronizationConfigurationInput
put_input desired latest = record {
  file_system_id = latest.status.file_system_id;
  latest_version_number = map_option to_int32 latest.status.latest_version_number;
  import_data_rules = map_option (map import_rule_to_sdk) desired.spec.import_data_rules;
  expiration_data_rules =
      map_option (map expiration_rule_to_sdk) desired.spec.expiration_data_rules;
}

module _ {S E : Type 0} (rm : ResourceManager S E) where
  -- The error of an update that has to wait.
  abbrev pub not_available : String → E
  not_available state =
      rm.runtime.needed_after
        (rm.runtime.errorf "FileSystem is in state '%s', cannot update sub-resources" (state ∷ []))
        rm.runtime.default_requeue_after_duration

  unfoldable pub sub_resource_changed : Delta → Bool
  sub_resource_changed delta =
      rm.runtime.different_at delta "Spec.Policy"
      || rm.runtime.different_at delta "Spec.ImportDataRules"
      || rm.runtime.different_at delta "Spec.ExpirationDataRules"

  unfoldable pub check_available : Option String → Exec S E Unit
  check_available none = pure tt
  check_available (some state) =
      if state == "available" then pure tt else fail (not_available state)

module _ {S E : Type 0} (rm : ResourceManager S E) (desired latest : FileSystem) where
  unfoldable pub update_policy : Exec S E Unit
  update_policy =
      let desired_policy = text_of desired.spec.policy in
      if desired_policy == ""
      then unless_code rm.runtime ("ResourceNotFoundException" ∷ []) tt (
          call "UPDATE" "DeleteFileSystemPolicy"
            (rm.sdkapi.delete_file_system_policy latest.status.file_system_id))
      else call "UPDATE" "PutFileSystemPolicy"
          (rm.sdkapi.put_file_system_policy latest.status.file_system_id desired_policy)

  -- With both rule lists nil there is nothing to put, and nothing can delete the configuration.
  unfoldable pub update_synchronization : Exec S E Unit
  update_synchronization =
      if is_some desired.spec.import_data_rules || is_some desired.spec.expiration_data_rules
      then call "UPDATE" "PutSynchronizationConfiguration"
          (rm.sdkapi.put_synchronization_configuration (put_input desired latest))
      else pure tt

  unfoldable pub update_tags : Delta → Exec S E Unit
  update_tags delta = when (rm.runtime.different_at delta "Spec.Tags") (
      sync_tags rm.runtime rm.sdkapi convert_to_ordered_ack_tags desired.spec.tags latest.spec.tags
        latest.status.file_system_id)

  unfoldable pub update_sub_resources : Delta → Exec S E Unit
  update_sub_resources delta =
      check_available rm latest.status.status
      >> when (rm.runtime.different_at delta "Spec.Policy") update_policy
      >> when
          (rm.runtime.different_at delta "Spec.ImportDataRules"
            || rm.runtime.different_at delta "Spec.ExpirationDataRules")
          update_synchronization

  unfoldable pub custom_update_file_system : Delta → Exec S E FileSystem
  custom_update_file_system delta =
      update_tags delta
      >> when (sub_resource_changed rm delta) (update_sub_resources delta)
      >> pure desired

  unfoldable pub sdk_update : Delta → Exec S E FileSystem
  sdk_update delta = custom_update_file_system delta
