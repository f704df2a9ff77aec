-- ===== src/References/Fields.antt =====
-- How the resolutions of the fields follow one another (`ResolveReferences` of the `references.go`
-- files of pkg/resource).
use ack_ws_s3files_controlle.Prelude.{
  ◌∙◌, ap, Bool, ◌||◌, ◌≡◌, refl, arith, none, Option-cases, inl, inr,
}
use ack_ws_s3files_controlle.References.{Resolution, resolve_field}

-- What the resolution of a field gave, where it reports no error: a value with the property `From`
-- in the place that `set` assigns.
pub record Resolved {E A V : Type 0} (set : A → V → A) (From : V → Type 0) (referring : Bool)
    (ko : A) (out : Resolution E A) : Type 0 where
  pub value : V
  pub put : out.resource ≡ set ko value
  pub referred : out.has_references ≡ referring
  pub from : From value

module _ {E A : Type 0} (m : A → Resolution E A) (next : A → Bool → Resolution E A) (r : A)
    (has : Bool) where
  -- A field that was resolved, and how the resolution went on.
  pub record Taken {V : Type 0} (set : A → V → A) (From : V → Type 0) (referring : Bool)
      : Type 0 where
    pub value : V
    pub rest : resolve_field m next r has ≡ next (set r value) (has || referring)
    pub from : From value

  pub resolve_field-Taken :
      {V : Type 0} (set : A → V → A) (From : V → Type 0) (referring : Bool)
      → ((m r).error ≡ none → Resolved set From referring r (m r))
      → (resolve_field m next r has).error ≡ none
      → Taken set From referring
  unfolding resolve_field
  resolve_field-Taken set From referring law h = elim (Option-cases (m r).error) [
    | inl e ↦
        let p = law e in
        record {
          value = p.value;
          rest = rw (e, resolve_field, p.put, p.referred) refl;
          from = p.from;
        }
    | inr (err, e) ↦ ground (arith, h, e)
  ]

  pub resolve_field_through :
      {r' : A} {referring : Bool}
      → m r ≡ record { resource = r'; has_references = referring; error = none }
      → resolve_field m next r has ≡ next r' (has || referring)
  unfolding resolve_field
  resolve_field_through e =
      let calm = ap (λ (o : Resolution E A). o.error) e in
      rw (calm, resolve_field)
        (ap (λ (o : Resolution E A). next o.resource (has || o.has_references)) e)

  pub resolve_field_first : (resolve_field m next r has).error ≡ none → (m r).error ≡ none
  unfolding resolve_field
  resolve_field_first h = elim (Option-cases (m r).error) [
    | inl e ↦ e
    | inr (err, e) ↦ ground (arith, h, e)
  ]

  -- What a field's resolution and the rest of the resolution keep, the two keep.
  pub resolve_field_keeps :
      {B : Type 0} (view : A → B)
      → view (m r).resource ≡ view r
      → ((r' : A) (b : Bool) → view (next r' b).resource ≡ view r')
      → view (resolve_field m next r has).resource ≡ view r
  unfolding resolve_field
  resolve_field_keeps view first rest = elim (Option-cases (m r).error) [
    | inl e ↦ rw (e, resolve_field) (rest (m r).resource (has || (m r).has_references) ∙ first)
    | inr (err, e) ↦ rw (e, resolve_field) first
  ]
