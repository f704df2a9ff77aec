-- ===== src/FileSystem/Settled.antt =====
-- An update of a FileSystem and the read that follows it: the tags settle
-- (pkg/resource/file_system/hooks.go, sdk.go and delta.go).
use ack_ws_s3files_controlle.Prelude.{
  String, Bool, true, false, not, ◌||◌, ◌≡◌, ◌↔◌, sym, ap, subst, ◌∙◌, Option, none, some, [], ◌∷◌,
  map, map_option, is_some, ◌==◌, text_of, Bool-cases, inl, inr, GoMap, lookup, HasUniqueKeys,
  Ranging,
}
use ack_ws_s3files_controlle.Ack.{
  Delta, Reply, done, World, Exec, pure, fail, ◌>>◌, when, call, unless_code,
}
use ack_ws_s3files_controlle.Ack.Bind.{bind-Ran}
use ack_ws_s3files_controlle.Ack.Ends.{Ends}
use ack_ws_s3files_controlle.Ack.Keeps.{
  Keeps, pure-Keeps, fail-Keeps, call-Keeps, unless_code-Keeps, if-Keeps, when-Keeps, bind-Keeps,
}
use ack_ws_s3files_controlle.Aws.{FileSystemOutput, PutSynchronizationConfigurationInput}
use ack_ws_s3files_controlle.Compare.{IsComparing}
use ack_ws_s3files_controlle.Compare.Same.{not-false}
use ack_ws_s3files_controlle.Tags.{convert_to_ordered_ack_tags}
use ack_ws_s3files_controlle.Tags.View.{
  tag_value, lookup-convert_to_ordered_ack_tags, convert_to_ordered_ack_tags-HasUniqueKeys,
}
use ack_ws_s3files_controlle.TagSync.Converge.{
  IsTagsDifference, HoldsTags, HasTags, sync_tags_converges,
}
use ack_ws_s3files_controlle.Manager.{ResourceManager}
use ack_ws_s3files_controlle.FileSystem.Types.{FileSystem}
use ack_ws_s3files_controlle.FileSystem.Sdk.{tag_from_sdk, sdk_find}
use ack_ws_s3files_controlle.FileSystem.Delta.{field_delta}
use ack_ws_s3files_controlle.FileSystem.Drift.{different_at-field_delta}
use ack_ws_s3files_controlle.FileSystem.Read.{sdk_find-Observes}
use ack_ws_s3files_controlle.FileSystem.Hooks.{
  put_input, sub_resource_changed, not_available, check_available, update_tags, update_policy,
  update_synchronization, update_sub_resources, custom_update_file_system,
}

-- `MapStringStringEqual`: the maps have the same entries.
pub record IsMapEqual (equal : GoMap → GoMap → Bool) : Type 0 where
  pub decides :
      (a b : GoMap)
      → HasUniqueKeys a
      → HasUniqueKeys b
      → (equal a b ≡ true) ↔ ((k : String) → lookup k a ≡ lookup k b)

-- The service's side: a response has the tags that the service holds, and the operations on policies
-- and configurations leave the tags.
pub record ShowsTags {S E : Type 0} (rm : ResourceManager S E)
    (tags : S → Option String → String → Option String) : Type 0 where
  pub shown :
      (id : Option String) (s : S) {resp : FileSystemOutput} {s1 : S}
      → rm.sdkapi.get_file_system id s ≡ (done resp, s1)
      → (k : String) → tag_value k (map_option (map tag_from_sdk) resp.tags) ≡ tags s id k
  pub put_policy :
      (id : Option String) (k : String) (j : Option String) (text : String) (s : S)
      → tags (rm.sdkapi.put_file_system_policy j text s).1 id k ≡ tags s id k
  pub delete_policy :
      (id : Option String) (k : String) (j : Option String) (s : S)
      → tags (rm.sdkapi.delete_file_system_policy j s).1 id k ≡ tags s id k
  pub put_configuration :
      (id : Option String) (k : String) (input : PutSynchronizationConfigurationInput) (s : S)
      → tags (rm.sdkapi.put_synchronization_configuration input s).1 id k ≡ tags s id k

-- The check makes no call.
pub check_available-Keeps :
    {S E V : Type 0} (rm : ResourceManager S E) (view : S → V) (state : Option String)
    → Keeps view (check_available rm state)
unfolding check_available
check_available-Keeps rm view none = pure-Keeps view tt
check_available-Keeps rm view (some state) =
    if-Keeps view (state == "available") (pure tt) (fail (not_available rm state))
      (pure-Keeps view tt) (fail-Keeps view Unit (not_available rm state))

module _ {S E : Type 0} (rm : ResourceManager S E)
    (tags : S → Option String → String → Option String) (showing : ShowsTags rm tags)
    (desired latest : FileSystem) (id : Option String) (k : String) where
  -- The value that the service holds under the key.
  abbrev value_at : S → Option String
  value_at s = tags s id k

  abbrev nothing : Exec S E Unit
  nothing = pure tt

  policy-Keeps : Keeps value_at (update_policy rm desired latest)
  unfolding update_policy
  policy-Keeps =
      let at = latest.status.file_system_id in
      let text = text_of desired.spec.policy in
      let remove =
        call "UPDATE" "DeleteFileSystemPolicy" (rm.sdkapi.delete_file_system_policy at) in
      if-Keeps value_at (text == "")
        (unless_code rm.runtime ("ResourceNotFoundException" ∷ []) tt remove)
        (call "UPDATE" "PutFileSystemPolicy" (rm.sdkapi.put_file_system_policy at text))
        (unless_code-Keeps value_at rm.runtime ("ResourceNotFoundException" ∷ []) tt remove (
          call-Keeps value_at "UPDATE" "DeleteFileSystemPolicy"
            (rm.sdkapi.delete_file_system_policy at) (showing.delete_policy id k at)))
        (call-Keeps value_at "UPDATE" "PutFileSystemPolicy"
          (rm.sdkapi.put_file_system_policy at text) (showing.put_policy id k at text))

  configuration-Keeps : Keeps value_at (update_synchronization rm desired latest)
  unfolding update_synchronization
  configuration-Keeps =
      let put = rm.sdkapi.put_synchronization_configuration (put_input desired latest) in
      if-Keeps value_at
        (is_some desired.spec.import_data_rules || is_some desired.spec.expiration_data_rules)
        (call "UPDATE" "PutSynchronizationConfiguration" put) nothing
        (call-Keeps value_at "UPDATE" "PutSynchronizationConfiguration" put
          (showing.put_configuration id k (put_input desired latest)))
        (pure-Keeps value_at tt)

  sub_resources-Keeps :
      (delta : Delta) → Keeps value_at (update_sub_resources rm desired latest delta)
  unfolding update_sub_resources
  sub_resources-Keeps delta =
      let check = check_available rm latest.status.status in
      let p = rm.runtime.different_at delta "Spec.Policy" in
      let c =
        rm.runtime.different_at delta "Spec.ImportDataRules"
        || rm.runtime.different_at delta "Spec.ExpirationDataRules" in
      let policy = when p (update_policy rm desired latest) in
      let put = when c (update_synchronization rm desired latest) in
      bind-Keeps value_at (check >> policy) (λ _. put)
        (bind-Keeps value_at check (λ _. policy)
          (check_available-Keeps rm value_at latest.status.status)
          λ _. when-Keeps value_at p (update_policy rm desired latest) policy-Keeps)
        λ _. when-Keeps value_at c (update_synchronization rm desired latest) configuration-Keeps

module _ {S E : Type 0} (rm : ResourceManager S E) (ranging : Ranging rm.runtime.range)
    (comparing : IsComparing rm.runtime)
    (equal : IsMapEqual rm.runtime.map_string_string_equal) where
  -- Tags that the delta does not tell apart, and those that it does not because they are the same.
  same_tags :
      (a b : FileSystem)
      → (rm.runtime.different_at (field_delta rm.runtime a b) "Spec.Tags" ≡ false)
        ↔ ((k : String) → tag_value k a.spec.tags ≡ tag_value k b.spec.tags)
  same_tags a b =
      let at = (different_at-field_delta rm.runtime comparing a b).3 in
      let x = (convert_to_ordered_ack_tags a.spec.tags).0 in
      let y = (convert_to_ordered_ack_tags b.spec.tags).0 in
      let law =
        equal.decides x y (convert_to_ordered_ack_tags-HasUniqueKeys a.spec.tags)
          (convert_to_ordered_ack_tags-HasUniqueKeys b.spec.tags) in
      (
        λ h k.
            sym (lookup-convert_to_ordered_ack_tags k a.spec.tags)
            ∙ law.0 (not-false (rm.runtime.map_string_string_equal x y) (sym at ∙ h)) k
            ∙ lookup-convert_to_ordered_ack_tags k b.spec.tags,
        λ h.
            at
            ∙ ap not (
                law.1 λ k.
                  lookup-convert_to_ordered_ack_tags k a.spec.tags
                  ∙ h k
                  ∙ sym (lookup-convert_to_ordered_ack_tags k b.spec.tags)),
      )

module _ {S E : Type 0} (rm : ResourceManager S E) (ranging : Ranging rm.runtime.range)
    (comparing : IsComparing rm.runtime) (equal : IsMapEqual rm.runtime.map_string_string_equal)
    (difference : IsTagsDifference rm.runtime.get_tags_difference)
    (tags : S → Option String → String → Option String) (holding : HoldsTags rm.sdkapi tags)
    (showing : ShowsTags rm tags) (desired latest : FileSystem) where
  abbrev changes : Delta
  changes = field_delta rm.runtime desired latest

  abbrev asked : String → Option String
  asked k = tag_value k desired.spec.tags

  update_tags_settles :
      {w1 : World S E} (w : World S E)
      → HasTags tags (λ k. tag_value k latest.spec.tags) latest.status.file_system_id w.cloud
      → update_tags rm desired latest changes w ≡ (done tt, w1)
      → HasTags tags asked latest.status.file_system_id w1.cloud
  unfolding update_tags
  update_tags_settles {w1} w held h =
      let id = latest.status.file_system_id in
      elim (Bool-cases (rm.runtime.different_at changes "Spec.Tags")) [
        | inl e ↦ subst (Ends (HasTags tags asked id)) (rw (e, update_tags) at h) (
            sync_tags_converges rm.runtime rm.sdkapi ranging difference tags holding
              desired.spec.tags latest.spec.tags id w held)
        | inr e ↦
            let same = (same_tags rm ranging comparing equal desired latest).0 e in
            let stays : w ≡ w1 = cc (rw (e, update_tags) at h) in
            subst (λ (v : World S E). HasTags tags asked id v.cloud) stays
              λ k. held k ∙ sym (same k)
      ]

  update_settles :
      {x : FileSystem} {w1 : World S E} (w : World S E)
      → HasTags tags (λ k. tag_value k latest.spec.tags) latest.status.file_system_id w.cloud
      → custom_update_file_system rm desired latest changes w ≡ (done x, w1)
      → HasTags tags asked latest.status.file_system_id w1.cloud
  unfolding custom_update_file_system
  update_settles {x} {w1} w held h k =
      let id = latest.status.file_system_id in
      let b = sub_resource_changed rm changes in
      let m = update_sub_resources rm desired latest changes in
      let p =
        bind-Ran (update_tags rm desired latest changes >> when b m) (λ _. pure desired) w h in
      let q = bind-Ran (update_tags rm desired latest changes) (λ _. when b m) w p.first in
      let ended : p.middle ≡ w1 = cc p.rest in
      let kept =
        when-Keeps (value_at rm tags showing desired latest id k) b m
          (sub_resources-Keeps rm tags showing desired latest id k changes) q.middle in
      ap (λ (v : World S E). tags v.cloud id k) (sym ended)
      ∙ ap (λ (r : Reply E Unit × World S E). tags r.1.cloud id k) (sym q.rest)
      ∙ kept
      ∙ update_tags_settles w held q.first k

  -- After an update that reports no error, a read that reports none either shows no difference of
  -- the tags, so that no further update of them follows: where the latest resource had the tags that
  -- the service held, and the service answers with the tags that it holds.
  pub update_then_read_settles :
      (r : FileSystem) {x o : FileSystem} {w1 w2 : World S E} {resp : FileSystemOutput} {s1 : S}
      (w : World S E)
      → HasTags tags (λ k. tag_value k latest.spec.tags) latest.status.file_system_id w.cloud
      → custom_update_file_system rm desired latest (field_delta rm.runtime desired latest) w
        ≡ (done x, w1)
      → r.status.file_system_id ≡ latest.status.file_system_id
      → rm.sdkapi.get_file_system r.status.file_system_id w1.cloud ≡ (done resp, s1)
      → sdk_find rm r w1 ≡ (done o, w2)
      → rm.runtime.different_at (field_delta rm.runtime desired o) "Spec.Tags" ≡ false
  update_then_read_settles r {x} {o} {w1} w held h same e f =
      (same_tags rm ranging comparing equal desired o).1 λ k.
        sym (update_settles w held h k)
        ∙ ap (λ (i : Option String). tags w1.cloud i k) (sym same)
        ∙ sym (showing.shown r.status.file_system_id w1.cloud e k)
        ∙ ap (tag_value k) (sym (sdk_find-Observes rm r w1 e f).tags)
