-- ===== src/TagSync/Converge.antt =====
-- Where a synchronisation of tags leads.
use ack_ws_s3files_controlle.Prelude.{
  String, Bool, ◌≡◌, refl, ◌∙◌, ap, sym, subst, fun_ext, Option, none, some, List, [], ◌∷◌, map,
  is_some, if◌then◌else◌, GoMap, lookup, delete, lookup-delete, arith, eq_iff, eq_refl, none_found,
  HasUniqueKeys, Ranging, range-nil, contains, ◌==◌,
}
use ack_ws_s3files_controlle.Ack.{Runtime, World, Reply, done, failed, ◌>>◌}
use ack_ws_s3files_controlle.Ack.Ends.{Ends, call-Ends}
use ack_ws_s3files_controlle.Aws.{SdkTag, Service}
use ack_ws_s3files_controlle.Tags.{Tag, convert_to_ordered_ack_tags}
use ack_ws_s3files_controlle.Tags.View.{
  or_else, tag_value, has_key, lookup-convert_to_ordered_ack_tags,
  convert_to_ordered_ack_tags-HasUniqueKeys,
}
use ack_ws_s3files_controlle.TagSync.{drop_added, sdk_tag, key_of, add_tags, remove_tags, sync_tags}

-- The entry of one map under a key, unless the other has the same.
abbrev pub entry_unless : Option String → Option String → Option String
entry_unless none other = none
entry_unless (some v) none = some v
entry_unless (some v) (some w) = if v == w then none else some v

-- `GetTagsDifference(from, to)`: the entries of `to` that `from` lacks, what is in both, and the
-- entries of `from` that `to` lacks, each as a map.
pub record IsTagsDifference (difference : GoMap → GoMap → GoMap × GoMap × GoMap) : Type 0 where
  pub added :
      (from to : GoMap) (k : String)
      → HasUniqueKeys from
      → HasUniqueKeys to
      → lookup k (difference from to).0 ≡ entry_unless (lookup k to) (lookup k from)
  pub removed :
      (from to : GoMap) (k : String)
      → HasUniqueKeys from
      → HasUniqueKeys to
      → lookup k (difference from to).2 ≡ entry_unless (lookup k from) (lookup k to)
  pub unique :
      (from to : GoMap)
      → HasUniqueKeys from
      → HasUniqueKeys to
      → HasUniqueKeys (difference from to).0 × HasUniqueKeys (difference from to).2

-- The value that a list of SDK tags gives a key; the last counts.
unfoldable pub sdk_value : String → List SdkTag → Option String
sdk_value k [] = none
sdk_value k (t ∷ ts) = or_else (sdk_value k ts) (if has_key k t.key then t.value else none)

-- The service's side of tagging, by a view of the tags that it holds for a resource: a successful
-- TagResource sets the tags of its request and keeps the others, and a successful UntagResource
-- takes away the keys of its request and keeps the others.
pub record HoldsTags {S E : Type 0} (sdkapi : Service S E)
    (tags : S → Option String → String → Option String) : Type 0 where
  pub tag :
      (id : Option String) (ts : List SdkTag) (s : S)
      → (sdkapi.tag_resource id ts s).0 ≡ done tt
      → (k : String)
      → tags (sdkapi.tag_resource id ts s).1 id k ≡ or_else (sdk_value k ts) (tags s id k)
  pub untag :
      (id : Option String) (ks : List String) (s : S)
      → (sdkapi.untag_resource id ks s).0 ≡ done tt
      → (k : String)
      → tags (sdkapi.untag_resource id ks s).1 id k ≡ (if contains k ks then none else tags s id k)

lookup-drop_added :
    (k : String) (entries added removed : GoMap)
    → lookup k (drop_added entries added removed) ≡ (
        if is_some (lookup k added)
        then (if is_some (lookup k entries) then none else lookup k removed)
        else lookup k removed)
unfolding drop_added lookup
lookup-drop_added k [] added removed = ground arith
lookup-drop_added k ((j, v) ∷ entries) added removed = ground (
  arith,
  eq_iff j k,
  lookup-delete j k removed,
  lookup-drop_added k entries added
      (if is_some (lookup j added) then delete j removed else removed),
)

sdk_value-map :
    (k : String) (m : GoMap) → HasUniqueKeys m → sdk_value k (map sdk_tag m) ≡ lookup k m
unfolding sdk_value lookup
sdk_value-map k [] h = refl
sdk_value-map k ((j, v) ∷ m) h = ground (arith, eq_iff j k, sdk_value-map k m h.1)

contains-map : (k : String) (m : GoMap) → contains k (map key_of m) ≡ is_some (lookup k m)
unfolding lookup
contains-map k [] = refl
contains-map k ((j, v) ∷ m) = ground (arith, contains-map k m)

-- What the two requests make of the value of one key.
settle :
    (from to : Option String)
    → (let added = entry_unless to from in
        let removed = entry_unless from to in
        let left = if is_some added then (if is_some removed then none else removed) else removed in
        if is_some left then none else or_else added from)
      ≡ to
settle none none = refl
settle none (some w) = refl
settle (some v) none = refl
settle (some v) (some w) = ground (arith, eq_iff v w, eq_iff w v)

-- The service holds these tags for the resource.
abbrev pub HasTags :
    {S : Type 0}
    → (S → Option String → String → Option String)
    → (String → Option String)
    → Option String
    → S
    → Type 0
HasTags tags target id s = (k : String) → tags s id k ≡ target k

module _ {S E : Type 0} (rt : Runtime E) (sdkapi : Service S E) (ranging : Ranging rt.range)
    (difference : IsTagsDifference rt.get_tags_difference)
    (tags : S → Option String → String → Option String) (holds : HoldsTags sdkapi tags) where
  Ends-add_tags :
      (id : Option String) (added : GoMap) (w : World S E)
      → HasUniqueKeys added
      → Ends
          (HasTags tags (λ k. or_else (lookup k added) (tags w.cloud id k)) id)
          (add_tags rt sdkapi id added w)
  unfolding add_tags lookup
  Ends-add_tags id [] w h = λ k. refl
  Ends-add_tags id ((j, v) ∷ m) w h =
      let added : GoMap = (j, v) ∷ m in
      let ts = map sdk_tag (rt.range added) in
      call-Ends (HasTags tags (λ k. or_else (lookup k added) (tags w.cloud id k)) id) "UPDATE"
        "TagResource" (sdkapi.tag_resource id ts) w
        λ e k.
          holds.tag id ts w.cloud e k
          ∙ ap (λ (o : Option String). or_else o (tags w.cloud id k))
              (sdk_value-map k (rt.range added) (ranging.once added h) ∙ ranging.entries added k)

  Ends-remove_tags :
      (id : Option String) (removed : GoMap) (w : World S E)
      → Ends
          (HasTags tags (λ k. if is_some (lookup k removed) then none else tags w.cloud id k) id)
          (remove_tags rt sdkapi id removed w)
  unfolding remove_tags lookup
  Ends-remove_tags id [] w = λ k. refl
  Ends-remove_tags id ((j, v) ∷ m) w =
      let removed : GoMap = (j, v) ∷ m in
      let ks = map key_of (rt.range removed) in
      call-Ends
        (HasTags tags (λ k. if is_some (lookup k removed) then none else tags w.cloud id k) id)
        "UPDATE" "UntagResource" (sdkapi.untag_resource id ks) w
        λ e k.
          holds.untag id ks w.cloud e k
          ∙ ap (λ (b : Bool). if b then none else tags w.cloud id k)
              (contains-map k (rt.range removed) ∙ ap is_some (ranging.entries removed k))

  -- the second step after a first one that has ended as stated
  Ends-seq :
      (target mid : String → Option String) (id : Option String) (removed : GoMap)
      (r : Reply E Unit) (w : World S E)
      → Ends (HasTags tags mid id) (r, w)
      → ((k : String) → (if is_some (lookup k removed) then none else mid k) ≡ target k)
      → Ends (HasTags tags target id) (((λ v. (r, v)) >> remove_tags rt sdkapi id removed) w)
  Ends-seq target mid id removed (failed err) w h g = h
  Ends-seq target mid id removed (done _) w h g =
      subst
        (λ (t : String → Option String).
          Ends (HasTags tags t id) (remove_tags rt sdkapi id removed w))
        (fun_ext λ k.
          ap (λ (o : Option String). if is_some (lookup k removed) then none else o) (h k) ∙ g k)
        (Ends-remove_tags id removed w)

  -- Where the tags of the resource were those of the latest list, the synchronisation ends with those
  -- of the desired list, key by key, or with the error of the last call that it made.
  pub sync_tags_converges :
      (desired latest : Option (List Tag)) (id : Option String) (w : World S E)
      → ((k : String) → tags w.cloud id k ≡ tag_value k latest)
      → Ends
          (HasTags tags (λ k. tag_value k desired) id)
          (sync_tags rt sdkapi convert_to_ordered_ack_tags desired latest id w)
  unfolding sync_tags
  sync_tags_converges desired latest id w h =
      let from = (convert_to_ordered_ack_tags latest).0 in
      let to = (convert_to_ordered_ack_tags desired).0 in
      let from_unique = convert_to_ordered_ack_tags-HasUniqueKeys latest in
      let to_unique = convert_to_ordered_ack_tags-HasUniqueKeys desired in
      let added = (rt.get_tags_difference from to).0 in
      let removed = (rt.get_tags_difference from to).2 in
      let left = drop_added (rt.range removed) added removed in
      let out = add_tags rt sdkapi id added w in
      Ends-seq (λ k. tag_value k desired) (λ k. or_else (lookup k added) (tags w.cloud id k)) id
        left out.0 out.1
        (Ends-add_tags id added w (difference.unique from to from_unique to_unique).0)
        λ k.
          rw
            (
              lookup-drop_added k (rt.range removed) added removed,
              ranging.entries removed k,
              difference.added from to k from_unique to_unique,
              difference.removed from to k from_unique to_unique,
              h k,
              lookup-convert_to_ordered_ack_tags k latest,
              lookup-convert_to_ordered_ack_tags k desired,
            )
            (settle (tag_value k latest) (tag_value k desired))

module _ {S E : Type 0} (rt : Runtime E) (sdkapi : Service S E) (ranging : Ranging rt.range)
    (difference : IsTagsDifference rt.get_tags_difference) where
  entry_unless_self : (o : Option String) → entry_unless o o ≡ none
  entry_unless_self none = refl
  entry_unless_self (some v) = rw (eq_refl v)

  -- Between lists that give every key the same value, nothing is requested and nothing recorded.
  pub sync_tags_idle :
      (desired latest : Option (List Tag)) (id : Option String) (w : World S E)
      → ((k : String) → tag_value k desired ≡ tag_value k latest)
      → sync_tags rt sdkapi convert_to_ordered_ack_tags desired latest id w ≡ (done tt, w)
  unfolding sync_tags
  sync_tags_idle desired latest id w h =
      let from = (convert_to_ordered_ack_tags latest).0 in
      let to = (convert_to_ordered_ack_tags desired).0 in
      let from_unique = convert_to_ordered_ack_tags-HasUniqueKeys latest in
      let to_unique = convert_to_ordered_ack_tags-HasUniqueKeys desired in
      let same = λ (k : String).
        lookup-convert_to_ordered_ack_tags k desired
        ∙ h k
        ∙ sym (lookup-convert_to_ordered_ack_tags k latest) in
      rw
        (
          none_found (rt.get_tags_difference from to).0 (λ k.
              rw
                (
                  difference.added from to k from_unique to_unique,
                  same k,
                  entry_unless_self (lookup k from),
                )
                refl),
          none_found (rt.get_tags_difference from to).2 (λ k.
              rw
                (
                  difference.removed from to k from_unique to_unique,
                  same k,
                  entry_unless_self (lookup k from),
                )
                refl),
        )
        (rw (range-nil ranging) (unfold drop_added in refl))
