-- ===== src/FileSystem/Policy/Settled.antt =====
-- An update of a FileSystem and the read that follows it: the policy settles
-- (pkg/resource/file_system/hooks.go, sdk.go and delta.go).
use ack_ws_s3files_controlle.Prelude.{
  String, Bool, true, false, ◌≡◌, refl, sym, ap, ◌∙◌, Option, none, some, arith, Bool-cases, inl,
  inr,
}
use ack_ws_s3files_controlle.Ack.{Reply, done, World}
use ack_ws_s3files_controlle.Aws.{FileSystemOutput}
use ack_ws_s3files_controlle.Compare.{IsComparing, pointer_differs}
use ack_ws_s3files_controlle.Manager.{ResourceManager}
use ack_ws_s3files_controlle.FileSystem.Types.{FileSystem}
use ack_ws_s3files_controlle.FileSystem.Sdk.{sdk_find}
use ack_ws_s3files_controlle.FileSystem.Delta.{field_delta, policy_differs}
use ack_ws_s3files_controlle.FileSystem.Drift.{different_at-field_delta}
use ack_ws_s3files_controlle.FileSystem.Hooks.{custom_update_file_system}
use ack_ws_s3files_controlle.FileSystem.Update.{HoldsPolicy, policy_or_none}
use ack_ws_s3files_controlle.FileSystem.Policy.Kept.{ShowsPolicy, update-Updated}
use ack_ws_s3files_controlle.FileSystem.Policy.Read.{find_policy}

-- `IAMPolicyDocumentEqual`: a document is equal to itself.
pub record IsDocumentEqual {E : Type 0} (equal : String → String → Reply E Bool) : Type 0 where
  pub reflexive : (p : String) → equal p p ≡ done true

module _ {S E : Type 0} (rm : ResourceManager S E) (comparing : IsComparing rm.runtime)
    (documents : IsDocumentEqual rm.runtime.iam_policy_document_equal) where
  abbrev differs : Option String → Option String → Bool
  differs =
      pointer_differs rm.runtime λ x y. policy_differs (rm.runtime.iam_policy_document_equal x y)

  differs_self : (p : Option String) → differs p p ≡ false
  unfolding pointer_differs
  differs_self none = ground (arith, comparing.nil_difference false false)
  differs_self (some p) = rw (comparing.nil_difference true true, documents.reflexive p) refl

  -- After an update that reports no error, a read that reports none either shows no difference of the
  -- policy, so that no further update of it follows: where the latest resource had the policy that
  -- the service held, the service answers with the policy that it holds, and the desired policy is
  -- not an empty text.
  pub update_then_read_settles_policy :
      (policy : S → Option String → Option String) (holding : HoldsPolicy rm policy)
      (showing : ShowsPolicy rm policy) (desired latest r : FileSystem) (i : String)
      {x o : FileSystem} {w1 w2 : World S E} {resp : FileSystemOutput} {s1 : S} (w : World S E)
      → latest.status.file_system_id ≡ some i
      → policy w.cloud (some i) ≡ latest.spec.policy
      → policy_or_none desired.spec.policy ≡ desired.spec.policy
      → custom_update_file_system rm desired latest (field_delta rm.runtime desired latest) w
        ≡ (done x, w1)
      → rm.sdkapi.get_file_system r.status.file_system_id w1.cloud ≡ (done resp, s1)
      → resp.file_system_id ≡ some i
      → sdk_find rm r w1 ≡ (done o, w2)
      → rm.runtime.different_at (field_delta rm.runtime desired o) "Spec.Policy" ≡ false
  update_then_read_settles_policy policy holding showing desired latest r i {x} {o} {w1} w at_id had
        filled h e same f =
      let delta = field_delta rm.runtime desired latest in
      let u = update-Updated rm policy holding showing desired latest delta w h in
      let here = λ (v : World S E). ap (policy v.cloud) at_id in
      let seen = find_policy rm policy showing r i w1 e same f in
      let at = λ (b : FileSystem). (different_at-field_delta rm.runtime comparing desired b).2 in
      elim (Bool-cases (rm.runtime.different_at delta "Spec.Policy")) [
        | inl c ↦
            let now = seen ∙ sym (here w1) ∙ u.changed c ∙ filled in
            at o ∙ ap (differs desired.spec.policy) now ∙ differs_self desired.spec.policy
        | inr c ↦
            let now = seen ∙ sym (here w1) ∙ u.unchanged c ∙ here w ∙ had in
            at o ∙ ap (differs desired.spec.policy) now ∙ sym (at latest) ∙ c
      ]
