-- ===== src/Tests/FileSystems.antt =====
-- The theorems about tags and FileSystems at concrete inputs.
use ack_ws_s3files_controlle.Prelude.{
  String, true, false, ◌≡◌, ◌≢◌, ◌↔◌, refl, Option, none, some, List, [], ◌∷◌, ◌==◌, arith, eq_iff,
  GoMap, lookup, insert, HasUniqueKeys,
}
use ack_ws_s3files_controlle.Ack.{Condition, terminal, resource_synced, status_true, done, World}
use ack_ws_s3files_controlle.Ack.Ends.{Ends, fails_with}
use ack_ws_s3files_controlle.Aws.{FileSystemOutput}
use ack_ws_s3files_controlle.Tags.{Tag, to_tag, convert_to_ordered_ack_tags, from_ack_tags}
use ack_ws_s3files_controlle.Tags.View.{tag_value, lookup-convert_to_ordered_ack_tags}
use ack_ws_s3files_controlle.TagSync.{sync_tags}
use ack_ws_s3files_controlle.TagSync.Converge.{HasTags, sync_tags_converges, sync_tags_idle}
use ack_ws_s3files_controlle.FileSystem.Types.{file_system_kind, FileSystem}
use mathlib.Core.Bool.{false≢true}
use ack_ws_s3files_controlle.Ack.{Delta, is_kind, has_code}
use ack_ws_s3files_controlle.Prelude.{inl, ◌&&◌}
use ack_ws_s3files_controlle.Compare.{any_within, pointer_differs}
use ack_ws_s3files_controlle.Conditions.{holds, mark, with_status, new_condition}
use ack_ws_s3files_controlle.Conditions.Mark.{IsTidy, mark-IsTidy}
use ack_ws_s3files_controlle.Tags.View.{or_else}
use ack_ws_s3files_controlle.Tags.Order.{tags_of, from_ack_tags-convert}
use ack_ws_s3files_controlle.FileSystem.Delta.{field_delta, policy_differs}
use ack_ws_s3files_controlle.FileSystem.Ignored.{with_rules, rules_ignored}
use ack_ws_s3files_controlle.FileSystem.Drift.{
  update_without_rules, rules_never_put, different_at-field_delta,
}
use ack_ws_s3files_controlle.FileSystem.Hooks.{
  update_tags, custom_update_file_system, update_policy, put_input,
}
use ack_ws_s3files_controlle.FileSystem.Manager.{
  create, update, conditions_of, read_one, on_error, filter_system_tags, mirror_aws_tags,
  ensure_tags,
}
use ack_ws_s3files_controlle.Kinds
use ack_ws_s3files_controlle.Kinds.Laws.{IsClean, IsReported}
use ack_ws_s3files_controlle.FileSystem.Outcome.{on_error-IsReported}
use ack_ws_s3files_controlle.FileSystem.Read.{sdk_find_terminal, error_state_lost}
use ack_ws_s3files_controlle.FileSystem.Rules.{
  InOption, AllOf, HasFewDays, echo, put_input-HasFewDays, configuration_round_trip,
}
use ack_ws_s3files_controlle.FileSystem.TagOps.{
  value_in, value_in-filter_system_tags, value_in-mirror_aws_tags, value_in-ensure_tags,
}
use ack_ws_s3files_controlle.FileSystem.Update.{
  policy_or_none, update_policy_converges, and_then, come_back, update_waits,
}
use ack_ws_s3files_controlle.FileSystem.Sdk.{configuration_from_sdk}
use ack_ws_s3files_controlle.FileSystem.Sdk.{
  sdk_find, required_fields_missing_from_read_one_input, new_describe_request_payload, set_output,
  read_sub_resources, fetch_file_system_policy, fetch_synchronization_configuration,
}
use ack_ws_s3files_controlle.Tests.Fixture.{
  Fault, api, runtime, ranging, comparing, tags_difference, setting, merging,
}
use ack_ws_s3files_controlle.Tests.Cloud.{
  Cloud, service, manager, tags_at, holds_tags, holds_policy,
}

abbrev id : Option String
id = some "fs-1"

abbrev pub old_tags : Option (List Tag)
old_tags = some (to_tag ("env", "dev") ∷ to_tag ("team", "a") ∷ [])

abbrev new_tags : Option (List Tag)
new_tags = some (to_tag ("env", "prod") ∷ record { key = some "cost"; value = none } ∷ [])

abbrev output : FileSystemOutput
output = record {
  bucket = some "arn:aws:s3:::data";
  creation_time = some 1700000000;
  file_system_arn = some "arn:aws:s3files:us-west-2:123456789012:file-system/fs-1";
  file_system_id = id;
  kms_key_id = none;
  name = none;
  owner_id = some "123456789012";
  prefix = none;
  role_arn = some "arn:aws:iam::123456789012:role/fs";
  status = "error";
  status_message = some "bucket was deleted";
  tags = none;
}

abbrev cloud : Cloud
cloud = record {
  system = output;
  tags = (convert_to_ordered_ack_tags old_tags).0;
  policy = some "{}";
  config = none;
}

abbrev pub world : World Cloud Fault
world = record { cloud = cloud; calls = [] }

sync_tags_converges_example :
    Ends
      (HasTags tags_at (λ k. tag_value k new_tags) id)
      (sync_tags runtime service convert_to_ordered_ack_tags new_tags old_tags id world)
sync_tags_converges_example =
    sync_tags_converges runtime service ranging tags_difference tags_at holds_tags new_tags old_tags
      id world (λ k. lookup-convert_to_ordered_ack_tags k old_tags)

sync_tags_idle_example :
    sync_tags runtime service convert_to_ordered_ack_tags old_tags old_tags id world
    ≡ (done tt, world)
sync_tags_idle_example =
    sync_tags_idle runtime service ranging tags_difference old_tags old_tags id world (λ k. refl)

abbrev pub resource : FileSystem
resource = record {
  metadata = record {
    name = "fs";
    namespace = "default";
    finalizers = [];
    annotations = none;
    deletion_timestamp = none;
  };
  spec = record {
    accept_bucket_warning = some true;
    bucket = some "arn:aws:s3:::data";
    bucket_ref = none;
    expiration_data_rules = some (record { days_after_last_access = some 30 } ∷ []);
    import_data_rules = some (
        record {
          prefix = some "/imports/";
          size_less_than = some 1073741824;
          trigger = some "ON_FILE_ACCESS";
        }
        ∷ []);
    kms_key_id = none;
    kms_key_ref = none;
    policy = some "{}";
    prefix = none;
    role_arn = some "arn:aws:iam::123456789012:role/fs";
    role_ref = none;
    tags = new_tags;
  };
  status = record {
    ack_resource_metadata = none;
    conditions = none;
    creation_time = none;
    file_system_id = id;
    latest_version_number = some 3;
    name = none;
    owner_id = none;
    status = some "creating";
    status_message = none;
  };
}

record Found : Type 0 where
  shown : FileSystem
  world_after : World Cloud Fault
  proof : sdk_find manager resource world ≡ (done shown, world_after)

abbrev found : Found
unfolding sdk_find required_fields_missing_from_read_one_input new_describe_request_payload
    set_output Kinds.set_status_defaults read_sub_resources fetch_file_system_policy
    fetch_synchronization_configuration
found = record { shown = _; world_after = _; proof = refl }

tidy : IsTidy (conditions_of resource)
tidy = record { terminal_once = tt; recoverable_once = tt }

-- The error state is seen, and is not in what the read returns.
error_state_lost_example :
    (holds terminal (conditions_of found.shown) ≡ true)
    × IsClean file_system_kind manager found.shown (read_one manager resource world).0.1
error_state_lost_example =
    error_state_lost manager resource world setting tidy refl refl found.proof

sdk_find_terminal_example :
    (holds terminal (conditions_of found.shown) ≡ ("error" == "error"))
    × IsTidy (conditions_of found.shown)
sdk_find_terminal_example = sdk_find_terminal manager resource world setting tidy refl found.proof

shown-IsTidy : IsTidy (conditions_of found.shown)
shown-IsTidy = sdk_find_terminal_example.1

abbrev refused : Fault
refused = api "ValidationException" "bad prefix"

on_error-IsReported_example :
    IsReported file_system_kind manager resource refused (on_error manager (some resource) refused)
on_error-IsReported_example = on_error-IsReported manager resource refused tidy

abbrev standing : List Condition
standing = with_status status_true none (new_condition resource_synced) ∷ []

mark-IsTidy_example : IsTidy (mark runtime standing (some refused))
unfolding is_kind
mark-IsTidy_example =
    mark-IsTidy runtime standing (some refused)
      (record { terminal_once = (λ e. cc, tt); recoverable_once = (λ e. cc, tt) })

-- The same file system with no policy wanted.
abbrev without_policy : FileSystem
without_policy = record resource { spec = record (resource.spec) { policy = none } }

update_policy_converges_example :
    Ends
      (λ (c : Cloud). c.policy ≡ policy_or_none none)
      (update_policy manager without_policy resource world)
    × (fails_with
          (λ err. "" == "" && has_code runtime ("ResourceNotFoundException" ∷ []) err)
          (update_policy manager without_policy resource world).0
        ≡ false)
update_policy_converges_example =
    update_policy_converges manager (λ c i. c.policy) holds_policy without_policy resource world

abbrev policy_delta : Delta
policy_delta = "Spec.Policy" ∷ []

update_waits_example :
    (let tags = update_tags manager resource resource policy_delta world in
      custom_update_file_system manager resource resource policy_delta world ≡ (
        and_then manager resource resource
            (come_back manager resource resource policy_delta "creating")
            tags.0,
        tags.1,
      ))
update_waits_example =
    update_waits manager resource resource policy_delta "creating" world refl
      (λ e. false≢true ((eq_iff "creating" "available").1 e))

rules_never_put_example :
    let delta = field_delta runtime resource resource in
    custom_update_file_system manager resource resource delta world
    ≡ update_without_rules manager resource resource delta world
rules_never_put_example = rules_never_put manager resource resource world comparing

different_at-field_delta_example :
    (any_within "Spec.ImportDataRules" (field_delta runtime resource resource) ≡ false)
    × (any_within "Spec.ExpirationDataRules" (field_delta runtime resource resource) ≡ false)
    × (any_within "Spec.Policy" (field_delta runtime resource resource)
        ≡ pointer_differs runtime
            (λ x y. policy_differs (runtime.iam_policy_document_equal x y))
            resource.spec.policy
            resource.spec.policy)
    × (any_within "Spec.Tags" (field_delta runtime resource resource) ≡ false)
unfolding convert_to_ordered_ack_tags insert lookup
different_at-field_delta_example = different_at-field_delta runtime comparing resource resource

configuration_round_trip_example :
    configuration_from_sdk (echo (put_input resource resource)) ≡ record {
      import_rules = resource.spec.import_data_rules;
      expiration_rules = resource.spec.expiration_data_rules;
      latest_version = some 3;
    }
configuration_round_trip_example =
    configuration_round_trip resource resource ((λ e. trigger_there (cc)), tt)
      ((omega arith, inl (omega arith)), tt) (omega arith, inl (omega arith))
  where
    trigger_there : ◌≢◌ {A = String} "ON_FILE_ACCESS" ""
    trigger_there e = false≢true ((eq_iff "ON_FILE_ACCESS" "").1 e)

-- 2 ^ 32 days are sent as 0 days.
abbrev many_days : FileSystem
many_days = record resource {
  spec = record (resource.spec) {
    expiration_data_rules = some (record { days_after_last_access = some 4294967296 } ∷ []);
  };
}

put_input-HasFewDays_example :
    ((configuration_from_sdk (echo (put_input many_days many_days))).expiration_rules
      ≡ many_days.spec.expiration_data_rules)
    ↔ InOption (AllOf HasFewDays) many_days.spec.expiration_data_rules
put_input-HasFewDays_example = put_input-HasFewDays many_days many_days (omega arith, tt)

value_in-filter_system_tags_example :
    value_in (filter_system_tags runtime ("team" ∷ []) resource) "env" ≡ value_in resource "env"
value_in-filter_system_tags_example =
    value_in-filter_system_tags runtime ranging ("team" ∷ []) resource "env"

value_in-mirror_aws_tags_example :
    value_in (mirror_aws_tags runtime resource (some resource)) "env" ≡ value_in resource "env"
value_in-mirror_aws_tags_example = value_in-mirror_aws_tags runtime ranging resource resource "env"

abbrev default_tags : GoMap
default_tags = ("env", "controller") ∷ ("services.k8s.aws/namespace", "default") ∷ []

default_unique : HasUniqueKeys default_tags
unfolding lookup
default_unique = (refl, (refl, tt))

value_in-ensure_tags_example :
    value_in (ensure_tags runtime default_tags resource) "env"
    ≡ or_else (value_in resource "env") (lookup "env" default_tags)
value_in-ensure_tags_example =
    value_in-ensure_tags runtime ranging default_tags resource "env" merging default_unique

from_ack_tags-convert_example :
    (let (tags, order) = convert_to_ordered_ack_tags (some (tags_of default_tags)) in
      from_ack_tags runtime.range tags order)
    ≡ some (tags_of default_tags)
from_ack_tags-convert_example =
    from_ack_tags-convert runtime.range ranging default_tags default_unique

-- Days that the service never hears of.
rules_ignored_example :
    (let other =
        with_rules (some []) (some (record { days_after_last_access = some 30 } ∷ [])) resource in
      ((create manager other world).1 ≡ (create manager resource world).1)
      × ((update manager other resource (field_delta runtime other resource) world).1
          ≡ (update manager resource resource (field_delta runtime resource resource) world).1))
rules_ignored_example =
    rules_ignored manager (some []) (some (record { days_after_last_access = some 30 } ∷ []))
      resource resource world comparing
