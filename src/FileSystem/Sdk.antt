-- ===== src/FileSystem/Sdk.antt =====
-- The calls of the service for a FileSystem (pkg/resource/file_system/sdk.go).
use ack_ws_s3files_controlle.Prelude.{
  ℕ, String, Bool, not, Option, none, some, List, [], ◌∷◌, map, elements, is_some, ◌==◌,
  if◌then◌else◌, map_option, to_int64, text_of,
}
use ack_ws_s3files_controlle.Ack.{
  status_true, status_false, done, failed, Returned, World, Exec, pure, fail, ◌>>=◌, call,
  unless_code, has_code,
}
use ack_ws_s3files_controlle.Aws.{
  SdkTag, SdkImportDataRule, SdkExpirationDataRule, FileSystemOutput, CreateFileSystemInput,
  GetSynchronizationConfigurationOutput,
}
use ack_ws_s3files_controlle.Tags.{Tag}
use ack_ws_s3files_controlle.Kinds
use ack_ws_s3files_controlle.Manager.{ResourceManager, ensure_metadata, keep_unless, text_or_nil}
use ack_ws_s3files_controlle.FileSystem.Types.{
  file_system_kind, ImportDataRule, ExpirationDataRule, FileSystem,
}

-- The loops that copy tags from a response, and into a request.
abbrev pub tag_from_sdk : SdkTag → Tag
tag_from_sdk t = record { key = t.key; value = t.value }

abbrev pub tag_to_sdk : Tag → SdkTag
tag_to_sdk t = record { key = t.key; value = t.value }

unfoldable pub required_fields_missing_from_read_one_input : FileSystem → Bool
required_fields_missing_from_read_one_input r = not (is_some r.status.file_system_id)

-- The payloads of the Describe and the Delete call are the file system's id.
unfoldable pub new_describe_request_payload : FileSystem → Option String
new_describe_request_payload r = r.status.file_system_id

unfoldable pub new_delete_request_payload : FileSystem → Option String
new_delete_request_payload r = r.status.file_system_id

unfoldable pub new_create_request_payload : FileSystem → CreateFileSystemInput
new_create_request_payload r = record {
  accept_bucket_warning = r.spec.accept_bucket_warning;
  bucket = r.spec.bucket;
  kms_key_id = r.spec.kms_key_id;
  prefix = r.spec.prefix;
  role_arn = r.spec.role_arn;
  tags = map_option (map tag_to_sdk) r.spec.tags;
}

-- The merge of a response of `GetFileSystem` or `CreateFileSystem` into a copy of the resource.
unfoldable pub set_output : FileSystem → FileSystemOutput → FileSystem
set_output ko resp =
    let md = ensure_metadata ko.status.ack_resource_metadata in
    record ko {
      spec = record (ko.spec) {
        bucket = resp.bucket;
        kms_key_id = resp.kms_key_id;
        prefix = resp.prefix;
        role_arn = resp.role_arn;
        tags = map_option (map tag_from_sdk) resp.tags;
      };
      status = record (ko.status) {
        ack_resource_metadata = some (record md { arn = keep_unless resp.file_system_arn md.arn });
        creation_time = resp.creation_time;
        file_system_id = resp.file_system_id;
        name = resp.name;
        owner_id = resp.owner_id;
        status = text_or_nil resp.status;
        status_message = resp.status_message;
      };
    }

-- The loops of `fetchSynchronizationConfiguration`.
abbrev pub import_rule_from_sdk : SdkImportDataRule → ImportDataRule
import_rule_from_sdk r = record {
  prefix = r.prefix;
  size_less_than = r.size_less_than;
  trigger = text_or_nil r.trigger;
}

abbrev pub expiration_rule_from_sdk : SdkExpirationDataRule → ExpirationDataRule
expiration_rule_from_sdk r = record {
  days_after_last_access = map_option to_int64 r.days_after_last_access;
}

-- The three results of `fetchSynchronizationConfiguration`.
pub record SyncConfiguration : Type 0 where
  pub import_rules : Option (List ImportDataRule)
  pub expiration_rules : Option (List ExpirationDataRule)
  pub latest_version : Option ℕ

abbrev pub no_configuration : SyncConfiguration
no_configuration = record { import_rules = none; expiration_rules = none; latest_version = none }

unfoldable pub configuration_from_sdk : GetSynchronizationConfigurationOutput → SyncConfiguration
configuration_from_sdk resp = record {
  import_rules = map_option (map import_rule_from_sdk) resp.import_data_rules;
  expiration_rules = map_option (map expiration_rule_from_sdk) resp.expiration_data_rules;
  latest_version = map_option to_int64 resp.latest_version_number;
}

-- The codes at which a sub-resource is not there, or not yet.
abbrev pub absent_codes : List String
absent_codes = "ResourceNotFoundException" ∷ "ValidationException" ∷ []

module _ {S E : Type 0} (rm : ResourceManager S E) where
  unfoldable pub fetch_file_system_policy : Option String → Exec S E (Option String)
  fetch_file_system_policy none = pure none
  fetch_file_system_policy (some id) =
      unless_code rm.runtime absent_codes none
        (call "READ_ONE" "GetFileSystemPolicy" (rm.sdkapi.get_file_system_policy (some id)))

  unfoldable pub fetch_synchronization_configuration : Option String → Exec S E SyncConfiguration
  fetch_synchronization_configuration none = pure no_configuration
  fetch_synchronization_configuration (some id) =
      unless_code rm.runtime absent_codes no_configuration (do
        resp ←
            call "READ_ONE" "GetSynchronizationConfiguration"
              (rm.sdkapi.get_synchronization_configuration (some id))
        pure (configuration_from_sdk resp))

  abbrev pub set_status_defaults : FileSystem → FileSystem
  set_status_defaults = Kinds.set_status_defaults file_system_kind rm

  -- The terminal condition of a file system in the error state, and its absence.
  unfoldable pub set_terminal_of_state : FileSystem → FileSystem
  set_terminal_of_state ko =
      let cs = elements ko.status.conditions in
      let in_error =
        rm.runtime.set_terminal cs status_true
          (some (elim ko.status.status_message [
            | none ↦ "FileSystem is in error state"
            | some message ↦ message
          ]))
          none in
      let healthy = rm.runtime.set_terminal cs status_false none none in
      record ko {
        status = record (ko.status) {
          conditions = some (if text_of ko.status.status == "error" then in_error else healthy);
        };
      }

  -- What `sdkFind` does with the merged resource: the policy, the configuration, the condition.
  unfoldable pub finish_read : FileSystem → Option String → SyncConfiguration → FileSystem
  finish_read ko policy config = set_terminal_of_state (record ko {
    spec = record (ko.spec) {
      policy = policy;
      import_data_rules = config.import_rules;
      expiration_data_rules = config.expiration_rules;
    };
    status = record (ko.status) { latest_version_number = config.latest_version };
  })

  unfoldable pub read_sub_resources : FileSystem → Exec S E FileSystem
  read_sub_resources ko = do
    policy ← fetch_file_system_policy ko.status.file_system_id
    config ← fetch_synchronization_configuration ko.status.file_system_id
    pure (finish_read ko policy config)

  -- The error of a failed read: NotFound if the service has no such resource.
  abbrev pub read_error : E → E
  read_error err =
      if has_code rm.runtime ("ResourceNotFoundException" ∷ []) err
      then rm.runtime.not_found
      else err

  abbrev pub map_error : {A : Type 0} → (E → E) → Exec S E A → Exec S E A
  map_error f m w =
      let (r, w') = m w in elim r [ done a ↦ (done a, w') | failed e ↦ (failed (f e), w') ]

  unfoldable pub sdk_find : FileSystem → Exec S E FileSystem
  sdk_find r =
      if required_fields_missing_from_read_one_input r then fail rm.runtime.not_found else do
        resp ← map_error read_error (
            call "READ_ONE" "GetFileSystem"
              (rm.sdkapi.get_file_system (new_describe_request_payload r)))
        read_sub_resources (set_status_defaults (set_output r resp))

  unfoldable pub sdk_create : FileSystem → Exec S E FileSystem
  sdk_create desired = do
    resp ←
        call "CREATE" "CreateFileSystem"
          (rm.sdkapi.create_file_system (new_create_request_payload desired))
    pure (set_status_defaults (set_output desired resp))

  -- `sdkDelete` returns a nil resource, also where it succeeds.
  unfoldable pub sdk_delete : FileSystem → World S E → Returned E FileSystem × World S E
  sdk_delete r w =
      let (reply, w') =
        call "DELETE" "DeleteFileSystem"
          (rm.sdkapi.delete_file_system (new_delete_request_payload r)) w in
      ((none, elim reply [ done _ ↦ none | failed e ↦ some e ]), w')

  abbrev pub update_conditions : FileSystem → Option E → Option FileSystem
  update_conditions = Kinds.update_conditions file_system_kind rm
