-- ===== src/MountTarget/Groups.antt =====
-- What the loop over the security groups of a MountTarget gives
-- (pkg/resource/mount_target/references.go).
use ack_ws_s3files_controlle.Prelude.{
  true, false, String, Bool, ◌||◌, not, ◌≡◌, ◌⊎◌, refl, ap, ◌∙◌, sym, Option, none, some, List, [],
  ◌∷◌, ◌++◌, elements, is_empty, arith, Option-cases, inl, inr,
}
use ack_ws_s3files_controlle.Compare.{or_false}
use ack_ws_s3files_controlle.Ack.{Reference, ReferenceFrom}
use ack_ws_s3files_controlle.Manager.{ResourceManager}
use ack_ws_s3files_controlle.References.{source_of, refers, Resolution}
use ack_ws_s3files_controlle.References.Fields.{
  Resolved, resolve_field_through, resolve_field_first, resolve_field_keeps,
}
use ack_ws_s3files_controlle.References.Laws.{
  ReadsFrom, resolve_reference_without, resolve_reference_with, resolve_reference_forgotten,
}
use ack_ws_s3files_controlle.MountTarget.Types.{MountTarget}
use ack_ws_s3files_controlle.MountTarget.References.{
  ApiReader, security_group_target, add_security_group, has_groups, clear_resolved_references,
  get_referenced_resource_state_security_group, resolve_security_group, resolve_security_groups,
  resolve_reference_for_security_groups,
}

-- The old groups, and the new ones after them; no new ones leave the field as it was.
abbrev pub appended :
    Option (List (Option String)) → List (Option String) → Option (List (Option String))
appended groups [] = groups
appended groups (id ∷ ids) = some (elements groups ++ id ∷ ids)

abbrev pub with_added : MountTarget → List (Option String) → MountTarget
with_added ko ids = record ko {
  spec = record (ko.spec) { security_groups = appended ko.spec.security_groups ids };
}

append_assoc :
    (xs : List (Option String)) (id : Option String) (ids : List (Option String))
    → (xs ++ id ∷ []) ++ ids ≡ xs ++ id ∷ ids
append_assoc [] id ids = refl
append_assoc (x ∷ xs) id ids = ap (λ ys. x ∷ ys) (append_assoc xs id ids)

List-cases : {A : Type 0} (xs : List A) → (xs ≡ []) ⊎ ((x : A) × (rest : List A) × (xs ≡ x ∷ rest))
List-cases [] = inl refl
List-cases (x ∷ rest) = inr (x, rest, refl)

appended_one :
    (groups : Option (List (Option String))) (id : Option String) (ids : List (Option String))
    → appended (some (elements groups ++ id ∷ [])) ids ≡ appended groups (id ∷ ids)
appended_one groups id [] = refl
appended_one groups id (j ∷ ids) = ap some (append_assoc (elements groups) id (j ∷ ids))

with_added-add_security_group :
    (ko : MountTarget) (id : Option String) (ids : List (Option String))
    → with_added (add_security_group ko id) ids ≡ with_added ko (id ∷ ids)
unfolding add_security_group
with_added-add_security_group ko id ids =
    ap
      (λ (groups : Option (List (Option String))). record ko {
        spec = record (ko.spec) { security_groups = groups };
      })
      (appended_one ko.spec.security_groups id ids)

abbrev pub any_refers : List (Option Reference) → Bool
any_refers [] = false
any_refers (ref ∷ refs) = refers ref || any_refers refs

module _ {S E : Type 0} (rm : ResourceManager S E) (reader : ApiReader E) where
  -- The ids that references give in their order: a reference without a source gives none.
  pub data ReadsAll (namespace : String)
      : List (Option Reference) → List (Option String) → Type 0 where
    nothing : ReadsAll namespace [] []
    skipped :
        {ref : Option Reference} {refs : List (Option Reference)} {ids : List (Option String)}
        → source_of ref ≡ none
        → ReadsAll namespace refs ids
        → ReadsAll namespace (ref ∷ refs) ids
    taken :
        {ref : Option Reference} {from : ReferenceFrom} {refs : List (Option Reference)}
        {id : Option String} {ids : List (Option String)}
        → source_of ref ≡ some from
        → ReadsFrom rm.runtime security_group_target rm.enable_cross_namespace namespace
            reader.get_security_group from id
        → ReadsAll namespace refs ids
        → ReadsAll namespace (ref ∷ refs) (id ∷ ids)

  -- What the loop gave, where it reports no error.
  record Looped (refs : List (Option Reference)) (ko : MountTarget) (has : Bool)
      (out : Resolution E MountTarget) : Type 0 where
    ids : List (Option String)
    put : out.resource ≡ with_added ko ids
    referred : out.has_references ≡ (has || any_refers refs)
    from : ReadsAll ko.metadata.namespace refs ids

  or_swap : (a b c : Bool) → ((a || b) || c) ≡ (a || (b || c))
  or_swap a b c = ground (arith)

  resolve_security_groups-Looped :
      (refs : List (Option Reference)) (ko : MountTarget) (has : Bool)
      → (resolve_security_groups rm reader refs ko has).error ≡ none
      → Looped refs ko has (resolve_security_groups rm reader refs ko has)
  unfolding resolve_security_groups resolve_security_group add_security_group
      get_referenced_resource_state_security_group
  resolve_security_groups-Looped [] ko has h = record {
    ids = [];
    put = refl;
    referred = sym (or_false has);
    from = nothing;
  }
  resolve_security_groups-Looped (ref ∷ refs) ko has h =
      let m = resolve_security_group rm reader ref in
      let next = resolve_security_groups rm reader refs in
      elim (Option-cases (source_of ref)) [
        | inl e ↦
            let on = resolve_field_through m next ko has (
              resolve_reference_without rm.runtime security_group_target rm.enable_cross_namespace
                ko.metadata.namespace reader.get_security_group add_security_group
                "SecurityGroupRefs" ref ko e) in
            let p =
              resolve_security_groups-Looped refs ko (has || false)
                (ap (λ (o : Resolution E MountTarget). o.error) (sym on) ∙ h) in
            record {
              ids = p.ids;
              put = ap (λ (o : Resolution E MountTarget). o.resource) on ∙ p.put;
              referred =
                  ap (λ (o : Resolution E MountTarget). o.has_references) on
                  ∙ p.referred
                  ∙ or_swap has false (any_refers refs)
                  ∙ rw (e) refl;
              from = skipped e p.from;
            }
        | inr (from, e) ↦
            let q =
              resolve_reference_with rm.runtime security_group_target rm.enable_cross_namespace
                ko.metadata.namespace reader.get_security_group add_security_group
                "SecurityGroupRefs" ref ko e (resolve_field_first m next ko has h) in
            let on = resolve_field_through m next ko has q.1 in
            let p =
              resolve_security_groups-Looped refs (add_security_group ko q.0) (has || true)
                (ap (λ (o : Resolution E MountTarget). o.error) (sym on) ∙ h) in
            record {
              ids = q.0 ∷ p.ids;
              put =
                  ap (λ (o : Resolution E MountTarget). o.resource) on
                  ∙ p.put
                  ∙ with_added-add_security_group ko q.0 p.ids;
              referred =
                  ap (λ (o : Resolution E MountTarget). o.has_references) on
                  ∙ p.referred
                  ∙ or_swap has true (any_refers refs)
                  ∙ rw (e) refl;
              from = taken e q.2 p.from;
            }
      ]

  -- The view that the loop keeps: what clearing leaves, without the groups.
  abbrev forget : MountTarget → MountTarget
  forget ko =
      let r = clear_resolved_references ko in
      record r { spec = record (r.spec) { security_groups = none } }

  resolve_security_groups_forgotten :
      (refs : List (Option Reference)) (ko : MountTarget) (has : Bool)
      → forget (resolve_security_groups rm reader refs ko has).resource ≡ forget ko
  unfolding resolve_security_groups resolve_security_group clear_resolved_references
      add_security_group get_referenced_resource_state_security_group
  resolve_security_groups_forgotten [] ko has = refl
  resolve_security_groups_forgotten (ref ∷ refs) ko has =
      resolve_field_keeps (resolve_security_group rm reader ref)
        (resolve_security_groups rm reader refs) ko has forget
        (resolve_reference_forgotten rm.runtime security_group_target rm.enable_cross_namespace
          ko.metadata.namespace reader.get_security_group add_security_group forget
          "SecurityGroupRefs" ref ko λ v e. refl)
        λ r b. resolve_security_groups_forgotten refs r b

  cleared :
      (r : MountTarget)
      → has_groups r.spec.security_group_refs ≡ true
      → clear_resolved_references r ≡ forget r
  unfolding clear_resolved_references
  cleared r h = rw (h) refl

  -- Clearing takes away what the loop did.
  pub clear-resolve_reference_for_security_groups :
      (ko : MountTarget)
      → clear_resolved_references (resolve_reference_for_security_groups rm reader ko).resource
        ≡ clear_resolved_references ko
  unfolding resolve_reference_for_security_groups clear_resolved_references resolve_security_groups
  clear-resolve_reference_for_security_groups ko =
      let refs = elements ko.spec.security_group_refs in
      let out = resolve_security_groups rm reader refs ko false in
      let kept = resolve_security_groups_forgotten refs ko false in
      let same = ap (λ (r : MountTarget). has_groups r.spec.security_group_refs) kept in
      elim (List-cases refs) [
        | inl e ↦
            ap
              (λ rs.
                clear_resolved_references (resolve_security_groups rm reader rs ko false).resource)
              e
        | inr (ref, rest, e) ↦
            let h = ap (λ rs. not (is_empty rs)) e in
            cleared out.resource (same ∙ h) ∙ kept ∙ sym (cleared ko h)
      ]

  -- The groups after a resolution without an error.
  pub resolve_reference_for_security_groups-Resolved :
      (ko : MountTarget)
      → (let refs = elements ko.spec.security_group_refs in
          let out = resolve_reference_for_security_groups rm reader ko in
          out.error ≡ none
          → Resolved with_added (ReadsAll ko.metadata.namespace refs) (any_refers refs) ko out)
  unfolding resolve_reference_for_security_groups
  resolve_reference_for_security_groups-Resolved ko h =
      let p = resolve_security_groups-Looped (elements ko.spec.security_group_refs) ko false h in
      record { value = p.ids; put = p.put; referred = p.referred; from = p.from }
