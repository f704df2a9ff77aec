-- ===== src/Tests/References.antt =====
-- The theorems about references at concrete inputs.
use ack_ws_s3files_controlle.Prelude.{◌≡◌, ◌↔◌, refl, none, some, [], ◌∷◌}
use ack_ws_s3files_controlle.Ack.{resource_synced, status_true, done, failed, is_kind, is_true}
use ack_ws_s3files_controlle.Conditions.{with_status, new_condition, holds}
use ack_ws_s3files_controlle.References.{
  ArnObject, arn_target, get_referenced_resource_state, referenced_error, read_reference,
  resolve_reference, resolve_field,
}
use ack_ws_s3files_controlle.References.Laws.{IsUsable, get_referenced_resource_state-IsUsable}
use ack_ws_s3files_controlle.FileSystem.Types.{FileSystem}
use ack_ws_s3files_controlle.FileSystem.References.{
  ApiReader, clear_resolved_references, validate_reference_fields,
  get_referenced_resource_state_bucket, resolve_reference_for_bucket,
  resolve_reference_for_kms_key_id, resolve_reference_for_role_arn, resolve_references,
}
use ack_ws_s3files_controlle.FileSystem.Resolve.{
  ResolvesAll, resolve_references-ResolvesAll, clear_resolved_references-resolve_references,
}
use ack_ws_s3files_controlle.Tests.Fixture.{Fault, plain, runtime}
use ack_ws_s3files_controlle.Tests.Cloud.{manager}
use ack_ws_s3files_controlle.Tests.FileSystems.{resource}

abbrev bucket : ArnObject
bucket = record {
  ack_resource_metadata = some (record {
    arn = some "arn:aws:s3:::data";
    owner_account_id = none;
    partition = none;
    region = none;
  });
  conditions = with_status status_true none (new_condition resource_synced) ∷ [];
}

-- Every name is that of a bucket that is synced; there are no keys.
abbrev reader : ApiReader Fault
reader = record {
  get_bucket = λ namespace name. done bucket;
  get_key = λ namespace name. failed (plain "no such key");
  get_role = λ namespace name. failed (plain "no such role");
}

abbrev referring : FileSystem
referring = record resource {
  spec = record (resource.spec) {
    bucket = none;
    bucket_ref = some (record { from = some (record { name = some "data"; namespace = none }) });
  };
}

resolve_references-ResolvesAll_example :
    ResolvesAll manager reader referring (resolve_references manager reader referring)
unfolding resolve_references resolve_field resolve_reference_for_bucket
    resolve_reference_for_kms_key_id resolve_reference_for_role_arn resolve_reference read_reference
    get_referenced_resource_state_bucket get_referenced_resource_state referenced_error
    validate_reference_fields holds is_kind is_true
resolve_references-ResolvesAll_example =
    resolve_references-ResolvesAll manager reader referring refl

clear_resolved_references-resolve_references_example :
    clear_resolved_references (resolve_references manager reader referring).resource
    ≡ clear_resolved_references referring
clear_resolved_references-resolve_references_example =
    clear_resolved_references-resolve_references manager reader referring

get_referenced_resource_state-IsUsable_example :
    (get_referenced_resource_state runtime (arn_target "Bucket") reader.get_bucket "data" "default"
      ≡ done bucket)
    ↔ ((reader.get_bucket "default" "data" ≡ done bucket) × IsUsable (arn_target "Bucket") bucket)
get_referenced_resource_state-IsUsable_example =
    get_referenced_resource_state-IsUsable runtime (arn_target "Bucket") reader.get_bucket "data"
      "default" bucket
