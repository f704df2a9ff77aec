-- ===== src/FileSystem/Ignored.antt =====
-- What of a FileSystem never reaches the service (pkg/resource/file_system/sdk.go, hooks.go and
-- delta.go).
use ack_ws_s3files_controlle.Prelude.{◌≡◌, sym, ap, ◌∙◌, Option, List, arith}
use ack_ws_s3files_controlle.Ack.{Delta, Reply, World, Exec, pure, ◌>>=◌, ◌>>◌, when, call}
use ack_ws_s3files_controlle.Aws.{FileSystemOutput}
use ack_ws_s3files_controlle.Compare.{IsComparing}
use ack_ws_s3files_controlle.Kinds
use ack_ws_s3files_controlle.Manager.{ResourceManager}
use ack_ws_s3files_controlle.FileSystem.Types.{ImportDataRule, ExpirationDataRule, FileSystem}
use ack_ws_s3files_controlle.FileSystem.Sdk.{
  new_create_request_payload, set_output, set_status_defaults, sdk_create,
}
use ack_ws_s3files_controlle.FileSystem.Hooks.{
  check_available, update_tags, update_policy, sdk_update,
}
use ack_ws_s3files_controlle.FileSystem.Delta.{field_delta}
use ack_ws_s3files_controlle.FileSystem.Drift.{rules_never_put}
use ack_ws_s3files_controlle.FileSystem.Manager.{create, update}

-- The file system with other rules.
abbrev pub with_rules :
    Option (List ImportDataRule) → Option (List ExpirationDataRule) → FileSystem → FileSystem
with_rules imports expirations r = record r {
  spec = record (r.spec) { import_data_rules = imports; expiration_data_rules = expirations };
}

module _ {S E : Type 0} where
  -- What a computation returns in the end does not change what it did.
  world->>=-pure :
      {A B : Type 0} (m : Exec S E A) (f : A → B) (w : World S E)
      → ((m >>= λ a. pure (f a)) w).1 ≡ (m w).1
  world->>=-pure m f w = ground arith

  world->>-pure :
      {B : Type 0} (m : Exec S E Unit) (b : B) (w : World S E) → ((m >> pure b) w).1 ≡ (m w).1
  world->>-pure m b w = ground arith

module _ {S E : Type 0} (rm : ResourceManager S E) where
  world-create :
      (r : FileSystem) (w : World S E)
      → (create rm r w).1
        ≡ (call "CREATE" "CreateFileSystem"
            (rm.sdkapi.create_file_system (new_create_request_payload r))
            w).1
  unfolding create Kinds.report_by sdk_create
  world-create r w =
      world->>=-pure
        (call "CREATE" "CreateFileSystem"
          (rm.sdkapi.create_file_system (new_create_request_payload r)))
        (λ (resp : FileSystemOutput). set_status_defaults rm (set_output r resp)) w

  -- What an update does where no rules are sent.
  abbrev tags_and_policy : FileSystem → FileSystem → Delta → Exec S E Unit
  tags_and_policy r latest delta =
      update_tags rm r latest delta
      >> when (rm.runtime.different_at delta "Spec.Policy")
          (check_available rm latest.status.status >> update_policy rm r latest)

  world-update :
      (r latest : FileSystem) (w : World S E)
      → IsComparing rm.runtime
      → (let delta = field_delta rm.runtime r latest in
          (update rm r latest delta w).1 ≡ (tags_and_policy r latest delta w).1)
  unfolding update Kinds.report_by sdk_update
  world-update r latest w comparing =
      ap (λ (p : Reply E FileSystem × World S E). p.1) (rules_never_put rm r latest w comparing)
      ∙ world->>-pure (tags_and_policy r latest (field_delta rm.runtime r latest)) r w

  -- The rules of a file system never reach the service: `Create` and `Update`, with the differences
  -- that the controller computes itself, leave the service and the recorded calls as they do for the
  -- file system with any other rules.
  pub rules_ignored :
      (imports : Option (List ImportDataRule)) (expirations : Option (List ExpirationDataRule))
      (r latest : FileSystem) (w : World S E)
      → IsComparing rm.runtime
      → (let other = with_rules imports expirations r in
          ((create rm other w).1 ≡ (create rm r w).1)
          × ((update rm other latest (field_delta rm.runtime other latest) w).1
              ≡ (update rm r latest (field_delta rm.runtime r latest) w).1))
  unfolding new_create_request_payload field_delta update_tags update_policy
  rules_ignored imports expirations r latest w comparing =
      let other = with_rules imports expirations r in
      (
        world-create other w ∙ sym (world-create r w),
        world-update other latest w comparing ∙ sym (world-update r latest w comparing),
      )
