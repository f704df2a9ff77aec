-- ===== src/FileSystem/Policy/Kept.antt =====
-- What an update of a FileSystem does with the policy that the service holds
-- (pkg/resource/file_system/hooks.go).
use ack_ws_s3files_controlle.Prelude.{
  String, Bool, true, false, ◌||◌, ◌≡◌, sym, ap, subst, ◌∙◌, Option, none, List, map, is_some,
  is_empty, if◌then◌else◌, GoMap,
}
use ack_ws_s3files_controlle.Ack.{
  Delta, Reply, done, failed, World, Exec, pure, ◌>>◌, when, call, has_code,
}
use ack_ws_s3files_controlle.Ack.Bind.{bind-Ran}
use ack_ws_s3files_controlle.Ack.Ends.{Ends}
use ack_ws_s3files_controlle.Ack.Keeps.{
  Keeps, pure-Keeps, call-Keeps, if-Keeps, when-Keeps, bind-Keeps,
}
use ack_ws_s3files_controlle.FileSystem.Settled.{check_available-Keeps}
use ack_ws_s3files_controlle.Aws.{SdkTag, PutSynchronizationConfigurationInput}
use ack_ws_s3files_controlle.Tags.{convert_to_ordered_ack_tags}
use ack_ws_s3files_controlle.TagSync.{drop_added, sdk_tag, key_of, add_tags, remove_tags, sync_tags}
use ack_ws_s3files_controlle.Manager.{ResourceManager}
use ack_ws_s3files_controlle.FileSystem.Types.{FileSystem}
use ack_ws_s3files_controlle.FileSystem.Sdk.{absent_codes}
use ack_ws_s3files_controlle.FileSystem.Hooks.{
  put_input, sub_resource_changed, check_available, update_tags, update_policy,
  update_synchronization, update_sub_resources, custom_update_file_system,
}
use ack_ws_s3files_controlle.FileSystem.Update.{
  HoldsPolicy, policy_or_none, update_policy_converges,
}

-- The service's side: a read of the policy has the one that the service holds, it is refused as
-- absent only where there is none, and tags, configurations and a read of the file system leave it.
pub record ShowsPolicy {S E : Type 0} (rm : ResourceManager S E)
    (policy : S → Option String → Option String) : Type 0 where
  pub shown :
      (id : Option String) (s : S) {p : Option String} {s1 : S}
      → rm.sdkapi.get_file_system_policy id s ≡ (done p, s1)
      → p ≡ policy s id
  pub absent :
      (id : Option String) (s : S) {err : E} {s1 : S}
      → rm.sdkapi.get_file_system_policy id s ≡ (failed err, s1)
      → has_code rm.runtime absent_codes err ≡ true
      → policy s id ≡ none
  pub tag :
      (id j : Option String) (ts : List SdkTag) (s : S)
      → policy (rm.sdkapi.tag_resource j ts s).1 id ≡ policy s id
  pub untag :
      (id j : Option String) (ks : List String) (s : S)
      → policy (rm.sdkapi.untag_resource j ks s).1 id ≡ policy s id
  pub put_configuration :
      (id : Option String) (input : PutSynchronizationConfigurationInput) (s : S)
      → policy (rm.sdkapi.put_synchronization_configuration input s).1 id ≡ policy s id
  pub get_file_system :
      (id j : Option String) (s : S) → policy (rm.sdkapi.get_file_system j s).1 id ≡ policy s id

module _ {S E : Type 0} (rm : ResourceManager S E) (policy : S → Option String → Option String)
    (showing : ShowsPolicy rm policy) (desired latest : FileSystem) (id : Option String) where
  abbrev held : S → Option String
  held s = policy s id

  abbrev nothing : Exec S E Unit
  nothing = pure tt

  add_tags-Keeps :
      (j : Option String) (added : GoMap) → Keeps held (add_tags rm.runtime rm.sdkapi j added)
  unfolding add_tags
  add_tags-Keeps j added =
      let tag = rm.sdkapi.tag_resource j (map sdk_tag (rm.runtime.range added)) in
      if-Keeps held (is_empty added) nothing (call "UPDATE" "TagResource" tag) (pure-Keeps held tt)
        (call-Keeps held "UPDATE" "TagResource" tag
          (showing.tag id j (map sdk_tag (rm.runtime.range added))))

  remove_tags-Keeps :
      (j : Option String) (removed : GoMap)
      → Keeps held (remove_tags rm.runtime rm.sdkapi j removed)
  unfolding remove_tags
  remove_tags-Keeps j removed =
      let untag = rm.sdkapi.untag_resource j (map key_of (rm.runtime.range removed)) in
      if-Keeps held (is_empty removed) nothing (call "UPDATE" "UntagResource" untag)
        (pure-Keeps held tt)
        (call-Keeps held "UPDATE" "UntagResource" untag
          (showing.untag id j (map key_of (rm.runtime.range removed))))

  update_tags-Keeps : (delta : Delta) → Keeps held (update_tags rm desired latest delta)
  unfolding update_tags sync_tags
  update_tags-Keeps delta =
      let j = latest.status.file_system_id in
      let from = (convert_to_ordered_ack_tags latest.spec.tags).0 in
      let to = (convert_to_ordered_ack_tags desired.spec.tags).0 in
      let added = (rm.runtime.get_tags_difference from to).0 in
      let removed = (rm.runtime.get_tags_difference from to).2 in
      let left = drop_added (rm.runtime.range removed) added removed in
      let adding = add_tags rm.runtime rm.sdkapi j added in
      let removing = remove_tags rm.runtime rm.sdkapi j left in
      if-Keeps held (rm.runtime.different_at delta "Spec.Tags") (adding >> removing) nothing
        (bind-Keeps held adding (λ _. removing) (add_tags-Keeps j added)
          λ _. remove_tags-Keeps j left)
        (pure-Keeps held tt)

  put-Keeps : (b : Bool) → Keeps held (when b (update_synchronization rm desired latest))
  unfolding update_synchronization
  put-Keeps b =
      let put = rm.sdkapi.put_synchronization_configuration (put_input desired latest) in
      let c =
        is_some desired.spec.import_data_rules || is_some desired.spec.expiration_data_rules in
      let m = if c then call "UPDATE" "PutSynchronizationConfiguration" put else nothing in
      if-Keeps held b m nothing
        (if-Keeps held c (call "UPDATE" "PutSynchronizationConfiguration" put) nothing
          (call-Keeps held "UPDATE" "PutSynchronizationConfiguration" put
            (showing.put_configuration id (put_input desired latest)))
          (pure-Keeps held tt))
        (pure-Keeps held tt)

  -- Where the delta holds no difference of the policy, the update leaves it.
  unchanged-Keeps :
      (delta : Delta)
      → rm.runtime.different_at delta "Spec.Policy" ≡ false
      → Keeps held
          (when (sub_resource_changed rm delta) (update_sub_resources rm desired latest delta))
  unfolding update_sub_resources
  unchanged-Keeps delta e =
      let check = check_available rm latest.status.status in
      let c =
        rm.runtime.different_at delta "Spec.ImportDataRules"
        || rm.runtime.different_at delta "Spec.ExpirationDataRules" in
      let put = when c (update_synchronization rm desired latest) in
      let policy = λ (p : Bool). when p (update_policy rm desired latest) in
      let same = λ (p : Bool). (check >> policy p) >> put in
      when-Keeps held (sub_resource_changed rm delta) (update_sub_resources rm desired latest delta)
        (subst (λ (p : Bool). Keeps held (same p)) (sym e)
          (bind-Keeps held (check >> policy false) (λ _. put)
            (bind-Keeps held check (λ _. policy false)
              (check_available-Keeps rm held latest.status.status) λ _. pure-Keeps held tt)
            λ _. put-Keeps c))

module _ {S E : Type 0} (rm : ResourceManager S E) (policy : S → Option String → Option String)
    (holding : HoldsPolicy rm policy) (showing : ShowsPolicy rm policy)
    (desired latest : FileSystem) where
  abbrev at_latest : S → Option String
  at_latest s = policy s latest.status.file_system_id

  changed_policy :
      (delta : Delta) {w1 : World S E} (w : World S E)
      → rm.runtime.different_at delta "Spec.Policy" ≡ true
      → when (sub_resource_changed rm delta) (update_sub_resources rm desired latest delta) w
        ≡ (done tt, w1)
      → at_latest w1.cloud ≡ policy_or_none desired.spec.policy
  unfolding update_sub_resources sub_resource_changed
  changed_policy delta {w1} w e h =
      let check = check_available rm latest.status.status in
      let c =
        rm.runtime.different_at delta "Spec.ImportDataRules"
        || rm.runtime.different_at delta "Spec.ExpirationDataRules" in
      let put = when c (update_synchronization rm desired latest) in
      let m = update_policy rm desired latest in
      let h' : ((check >> m) >> put) w ≡ (done tt, w1) = rw (e) at h in
      let p = bind-Ran (check >> m) (λ _. put) w h' in
      let q = bind-Ran check (λ _. m) w p.first in
      ap (λ (r : Reply E Unit × World S E). at_latest r.1.cloud) (sym p.rest)
      ∙ put-Keeps rm policy showing desired latest latest.status.file_system_id c p.middle
      ∙ subst (Ends (λ s. at_latest s ≡ policy_or_none desired.spec.policy)) q.rest
          (update_policy_converges rm policy holding desired latest q.middle).0

  -- What the service holds after an update, by whether the delta has a difference of the policy.
  pub record Updated (delta : Delta) (w w1 : World S E) : Type 0 where
    pub changed :
        rm.runtime.different_at delta "Spec.Policy" ≡ true
        → at_latest w1.cloud ≡ policy_or_none desired.spec.policy
    pub unchanged :
        rm.runtime.different_at delta "Spec.Policy" ≡ false → at_latest w1.cloud ≡ at_latest w.cloud

  pub update-Updated :
      (delta : Delta) {x : FileSystem} {w1 : World S E} (w : World S E)
      → custom_update_file_system rm desired latest delta w ≡ (done x, w1)
      → Updated delta w w1
  unfolding custom_update_file_system
  update-Updated delta {x} {w1} w h =
      let id = latest.status.file_system_id in
      let m = when (sub_resource_changed rm delta) (update_sub_resources rm desired latest delta) in
      let p = bind-Ran (update_tags rm desired latest delta >> m) (λ _. pure desired) w h in
      let q = bind-Ran (update_tags rm desired latest delta) (λ _. m) w p.first in
      let ended : p.middle ≡ w1 = cc p.rest in
      record {
        changed = λ e.
            ap (λ (v : World S E). at_latest v.cloud) (sym ended)
            ∙ changed_policy delta q.middle e q.rest;
        unchanged = λ e.
            ap (λ (v : World S E). at_latest v.cloud) (sym ended)
            ∙ ap (λ (r : Reply E Unit × World S E). at_latest r.1.cloud) (sym q.rest)
            ∙ unchanged-Keeps rm policy showing desired latest id delta e q.middle
            ∙ ap (λ (r : Reply E Unit × World S E). at_latest r.1.cloud) (sym q.first)
            ∙ update_tags-Keeps rm policy showing desired latest id delta w;
      }
