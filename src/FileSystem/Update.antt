-- ===== src/FileSystem/Update.antt =====
-- What an update of a FileSystem does, and when.
use ack_ws_s3files_controlle.Prelude.{
  String, true, false, ◌≡◌, ◌≢◌, refl, ◌∙◌, fun_ext, Option, none, some, [], ◌∷◌, ◌==◌, eq_iff,
  text_of, ◌&&◌, ◌||◌, if◌then◌else◌, arith, Bool-cases, inl, inr,
}
use ack_ws_s3files_controlle.Ack.{
  Delta, Reply, done, failed, World, Exec, pure, fail, ◌>>◌, when, has_code, call,
}
use ack_ws_s3files_controlle.Ack.Bind.{bind-Ran}
use ack_ws_s3files_controlle.Ack.Ends.{
  Ends, fails_with, call-Ends, unless_code-Ends, fails_with-never, fails_with-unless_code,
}
use ack_ws_s3files_controlle.Manager.{ResourceManager}
use ack_ws_s3files_controlle.FileSystem.Types.{FileSystem}
use ack_ws_s3files_controlle.FileSystem.Hooks.{
  sub_resource_changed, update_tags, not_available, check_available, update_policy,
  update_sub_resources, custom_update_file_system,
}

module _ {S E : Type 0} (rm : ResourceManager S E) (desired latest : FileSystem) where
  -- the world in which a failed check leaves the update
  after_tags_fail :
      (err : E) (m : Exec S E Unit) (w : World S E)
      → (m >> fail {A = Unit} err >> pure desired) w ≡ (m >> fail {A = FileSystem} err) w
  after_tags_fail err m w = ground arith

  -- What follows a step that returns, and the error of one that does not.
  abbrev pub and_then : Reply E FileSystem → Reply E Unit → Reply E FileSystem
  and_then next (done _) = next
  and_then next (failed own) = failed own

  reply_and_then :
      (r : Reply E Unit) (w1 : World S E) (next : Reply E FileSystem) (w : World S E)
      → ((λ (_ : World S E). (r, w1)) >> (λ (v : World S E). (next, v))) w ≡ (and_then next r, w1)
  reply_and_then (done _) w1 next w = refl
  reply_and_then (failed own) w1 next w = refl

  -- The error that asks to come back, with the state, where a sub-resource differs.
  abbrev pub come_back : Delta → String → Reply E FileSystem
  come_back delta state =
      if rm.runtime.different_at delta "Spec.Policy"
        || rm.runtime.different_at delta "Spec.ImportDataRules"
        || rm.runtime.different_at delta "Spec.ExpirationDataRules"
      then failed (
          rm.runtime.needed_after
            (rm.runtime.errorf "FileSystem is in state '%s', cannot update sub-resources"
              (state ∷ []))
            rm.runtime.default_requeue_after_duration)
      else done desired

  sub_resources_wait :
      (delta : Delta) (state : String) (w : World S E)
      → latest.status.status ≡ some state
      → state ≢ "available"
      → update_sub_resources rm desired latest delta w ≡ (failed (not_available rm state), w)
  unfolding update_sub_resources check_available
  sub_resources_wait delta state w st ne = elim (Bool-cases (state == "available")) [
    | inl e ↦ absurd (ne ((eq_iff state "available").0 e))
    | inr e ↦ rw (st, update_sub_resources) (rw e)
  ]

  -- Where no sub-resource differs an update is the update of the tags, in every state.
  pub update_tags_only :
      (delta : Delta) (w : World S E)
      → sub_resource_changed rm delta ≡ false
      → custom_update_file_system rm desired latest delta w
        ≡ (update_tags rm desired latest delta >> pure desired) w
  unfolding custom_update_file_system
  update_tags_only delta w same = rw same (ground arith)

  -- While the file system is in another state than available, an update, whatever differs, leaves
  -- the service and the record of its calls as the update of the tags does; it returns the error of
  -- that update, or else the desired resource, or, where a sub-resource differs, an error that names
  -- the state and asks the controller to come back after the default time.
  pub update_waits :
      (delta : Delta) (state : String) (w : World S E)
      → latest.status.status ≡ some state
      → state ≢ "available"
      → (let tags = update_tags rm desired latest delta w in
          custom_update_file_system rm desired latest delta w
          ≡ (and_then (come_back delta state) tags.0, tags.1))
  unfolding custom_update_file_system sub_resource_changed
  update_waits delta state w st ne =
      let tags = update_tags rm desired latest delta in
      elim (Bool-cases (sub_resource_changed rm delta)) [
        | inl e ↦
            rw (e) (
              rw (fun_ext (λ v. sub_resources_wait delta state v st ne))
                (after_tags_fail (not_available rm state) tags w))
            ∙ reply_and_then (tags w).0 (tags w).1 (failed (not_available rm state)) w
            ∙ rw (e) refl
        | inr e ↦
            update_tags_only delta w e
            ∙ reply_and_then (tags w).0 (tags w).1 (done desired) w
            ∙ rw (e) refl
      ]

  -- An update that returns a resource returns the desired one.
  pub update_returns_desired :
      (delta : Delta) {x : FileSystem} {w' : World S E} (w : World S E)
      → custom_update_file_system rm desired latest delta w ≡ (done x, w')
      → x ≡ desired
  unfolding custom_update_file_system
  update_returns_desired delta w h =
      let m =
        update_tags rm desired latest delta
        >> when (sub_resource_changed rm delta) (update_sub_resources rm desired latest delta) in
      let p = bind-Ran m (λ _. pure desired) w h in cc p.rest

-- The service's side of policies, by a view of the policy that it holds for a file system: a
-- successful put stores the policy, a successful deletion takes it away, and a deletion is refused
-- with ResourceNotFoundException only where there is none.
pub record HoldsPolicy {S E : Type 0} (rm : ResourceManager S E)
    (policy : S → Option String → Option String) : Type 0 where
  pub put :
      (id : Option String) (text : String) (s : S)
      → (rm.sdkapi.put_file_system_policy id text s).0 ≡ done tt
      → policy (rm.sdkapi.put_file_system_policy id text s).1 id ≡ some text
  pub remove :
      (id : Option String) (s : S)
      → (rm.sdkapi.delete_file_system_policy id s).0 ≡ done tt
      → policy (rm.sdkapi.delete_file_system_policy id s).1 id ≡ none
  pub missing :
      (id : Option String) (err : E) (s : S)
      → (rm.sdkapi.delete_file_system_policy id s).0 ≡ failed err
      → has_code rm.runtime ("ResourceNotFoundException" ∷ []) err ≡ true
      → policy (rm.sdkapi.delete_file_system_policy id s).1 id ≡ none

-- A policy that is nil or empty is none.
abbrev pub policy_or_none : Option String → Option String
policy_or_none p = if text_of p == "" then none else p

some_text : (p : Option String) → (text_of p == "") ≡ false → some (text_of p) ≡ p
some_text none e = cc
some_text (some text) e = refl

module _ {S E : Type 0} (rm : ResourceManager S E) (policy : S → Option String → Option String)
    (holds : HoldsPolicy rm policy) where
  -- The update of the policy ends with the service holding the desired policy, where nil and empty
  -- mean none, or with the error of its call, and where no policy is desired that error never has
  -- the code ResourceNotFoundException.
  pub update_policy_converges :
      (desired latest : FileSystem) (w : World S E)
      → Ends
          (λ s. policy s latest.status.file_system_id ≡ policy_or_none desired.spec.policy)
          (update_policy rm desired latest w)
        × (fails_with
              (λ err.
                text_of desired.spec.policy == ""
                && has_code rm.runtime ("ResourceNotFoundException" ∷ []) err)
              (update_policy rm desired latest w).0
            ≡ false)
  unfolding update_policy
  update_policy_converges desired latest w =
      let id = latest.status.file_system_id in
      let p = desired.spec.policy in
      elim (Bool-cases (text_of p == "")) [
        | inl e ↦
            rw (e, update_policy)
              (
                unless_code-Ends (λ s. policy s id ≡ none) rm.runtime
                    ("ResourceNotFoundException" ∷ []) "UPDATE" "DeleteFileSystemPolicy"
                    (rm.sdkapi.delete_file_system_policy id) w (holds.remove id w.cloud)
                    (λ err. holds.missing id err w.cloud),
                fails_with-unless_code rm.runtime ("ResourceNotFoundException" ∷ [])
                    (call "UPDATE" "DeleteFileSystemPolicy"
                      (rm.sdkapi.delete_file_system_policy id))
                    w,
              )
        | inr e ↦
            rw (e, update_policy)
              (
                call-Ends (λ s. policy s id ≡ p) "UPDATE" "PutFileSystemPolicy"
                    (rm.sdkapi.put_file_system_policy id (text_of p)) w
                    (λ d. holds.put id (text_of p) w.cloud d ∙ some_text p e),
                fails_with-never (rm.sdkapi.put_file_system_policy id (text_of p) w.cloud).0,
              )
      ]
