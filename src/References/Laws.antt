-- ===== src/References/Laws.antt =====
-- What the resolution of one reference field gives (the `references.go` files of pkg/resource).
use ack_ws_s3files_controlle.Prelude.{
  subst, sym, is_some, Bool-cases, String, Bool, true, false, ◌≡◌, ◌↔◌, refl, arith, Option, none,
  some, ◌==◌, Option-cases, inl, inr,
}
use ack_ws_s3files_controlle.Ack.{
  terminal, resource_synced, Reference, ReferenceFrom, Runtime, Reply, Reply-cases, done, failed,
  done_same,
}
use ack_ws_s3files_controlle.Conditions.{holds}
use ack_ws_s3files_controlle.References.{
  Target, Getter, source_of, refers, referenced_error, get_referenced_resource_state,
  read_reference, resolve_reference,
}
use ack_ws_s3files_controlle.References.Fields.{Resolved}

-- An object that a reference may take its value from: not terminal, synced, with the value.
pub record IsUsable {Obj : Type 0} (t : Target Obj) (obj : Obj) : Type 0 where
  pub not_terminal : holds terminal (t.conditions obj) ≡ false
  pub synced : holds resource_synced (t.conditions obj) ≡ true
  pub value : String
  pub has_value : t.target obj ≡ some value

module _ {E Obj : Type 0} (rt : Runtime E) (t : Target Obj) where
  referenced_error-IsUsable :
      (namespace name : String) (obj : Obj)
      → referenced_error rt t namespace name obj ≡ none
      → IsUsable t obj
  unfolding referenced_error
  referenced_error-IsUsable namespace name obj h = elim (Option-cases (t.target obj)) [
    | inl e ↦ ground (arith, h, e)
    | inr (value, e) ↦ record {
      not_terminal = ground (arith, h);
      synced = ground (arith, h);
      value = value;
      has_value = e;
    }
  ]

  usable_passes :
      (namespace name : String) (obj : Obj)
      → IsUsable t obj
      → referenced_error rt t namespace name obj ≡ none
  unfolding referenced_error
  usable_passes namespace name obj u = rw (u.not_terminal, u.synced, u.has_value) refl

  -- The state of a referenced resource is returned exactly for an object that the reader finds and
  -- that is synced, not terminal, and has the value that is referred to.
  pub get_referenced_resource_state-IsUsable :
      (get : Getter E Obj) (name namespace : String) (obj : Obj)
      → (get_referenced_resource_state rt t get name namespace ≡ done obj)
        ↔ ((get namespace name ≡ done obj) × IsUsable t obj)
  unfolding get_referenced_resource_state
  get_referenced_resource_state-IsUsable get name namespace obj = (
    λ h. there (get namespace name) h,
    λ (e, u). rw (e, get_referenced_resource_state) (rw (usable_passes namespace name obj u) refl),
  )
    where
      there :
          (r : Reply E Obj)
          → (elim r [
            | failed err ↦ failed err
            | done obj ↦ elim (referenced_error rt t namespace name obj) [
              | none ↦ done obj
              | some err ↦ failed err
            ]
          ])
            ≡ done obj
          → (r ≡ done obj) × IsUsable t obj
      there (failed err) h = ground (arith, h)
      there (done found) h = elim (Option-cases (referenced_error rt t namespace name found)) [
        | inl e ↦
            let same = rw (e) at h in
            (
              same,
              subst (IsUsable t) (done_same same)
                  (referenced_error-IsUsable namespace name found e),
            )
        | inr (err, e) ↦ ground (arith, h, e)
      ]

-- A value that a reference gives: that of a usable object under the name and the namespace of the
-- reference.
pub record ReadsFrom {E Obj : Type 0} (rt : Runtime E) (t : Target Obj) (allowed : Bool)
    (own_namespace : String) (get : Getter E Obj) (from : ReferenceFrom) (value : Option String)
    : Type 0 where
  pub name : String
  pub has_name : from.name ≡ some name
  pub namespace : String
  pub valid :
      rt.validate_cross_namespace_reference allowed own_namespace from.namespace name
      ≡ done namespace
  pub obj : Obj
  pub found : get namespace name ≡ done obj
  pub usable : IsUsable t obj
  pub taken : value ≡ t.target obj

module _ {E Obj : Type 0} (rt : Runtime E) (t : Target Obj) (allowed : Bool)
    (own_namespace : String) (get : Getter E Obj) where
  -- A field without a reference keeps its value.
  abbrev pub IsResolvedFrom : Option ReferenceFrom → Option String → Option String → Type 0
  IsResolvedFrom none old value = value ≡ old
  IsResolvedFrom (some from) old value = ReadsFrom rt t allowed own_namespace get from value

  abbrev pub IsResolved : Option Reference → Option String → Option String → Type 0
  IsResolved ref old value = IsResolvedFrom (source_of ref) old value

  pub read_reference-ReadsFrom :
      (field : String) (from : ReferenceFrom) {obj : Obj}
      → read_reference rt allowed own_namespace field (get_referenced_resource_state rt t get) from
        ≡ done obj
      → ReadsFrom rt t allowed own_namespace get from (t.target obj)
  unfolding read_reference
  read_reference-ReadsFrom field from {obj} h = elim (Option-cases from.name) [
    | inl e ↦ ground (arith, h, e)
    | inr (name, e) ↦ elim (Bool-cases (name == "")) [
      | inl empty ↦ ground (arith, h, e, empty)
      | inr filled ↦
          elim (Reply-cases
            (rt.validate_cross_namespace_reference allowed own_namespace from.namespace name)) [
              | inl (namespace, v) ↦
                  let state = rw (e, read_reference, filled, v) at h in
                  let p =
                    (get_referenced_resource_state-IsUsable rt t get name namespace obj).0 state in
                  record {
                    name = name;
                    has_name = e;
                    namespace = namespace;
                    valid = v;
                    obj = obj;
                    found = p.0;
                    usable = p.1;
                    taken = refl;
                  }
              | inr (err, v) ↦ ground (arith, h, e, filled, v)
            ]
    ]
  ]

  module _ {A : Type 0} (set : A → Option String → A) where
    pub resolve_reference-Resolved :
        (field : String) (ref : Option Reference) (old : Option String) (ko : A)
        → set ko old ≡ ko
        → (let out =
              resolve_reference rt allowed own_namespace field
                (get_referenced_resource_state rt t get)
                t.target
                set
                ref
                ko in
            out.error ≡ none → Resolved set (IsResolved ref old) (refers ref) ko out)
    unfolding resolve_reference
    resolve_reference-Resolved field ref old ko same h = elim (Option-cases (source_of ref)) [
      | inl e ↦
          rw (e, resolve_reference)
            (record { value = old; put = sym same; referred = refl; from = rw (e) refl })
      | inr (from, e) ↦
          let state = get_referenced_resource_state rt t get in
          elim (Reply-cases (read_reference rt allowed own_namespace field state from)) [
            | inl (obj, r) ↦
                rw (e, resolve_reference, r)
                  (record {
                    value = t.target obj;
                    put = refl;
                    referred = refl;
                    from = rw (e) (read_reference-ReadsFrom field from r);
                  })
            | inr (err, r) ↦ ground (arith, h, e, r)
          ]
    ]

    pub resolve_reference_without :
        (field : String) (ref : Option Reference) (ko : A)
        → source_of ref ≡ none
        → resolve_reference rt allowed own_namespace field
            (get_referenced_resource_state rt t get)
            t.target
            set
            ref
            ko
          ≡ record { resource = ko; has_references = false; error = none }
    unfolding resolve_reference
    resolve_reference_without field ref ko e = rw (e, resolve_reference) refl

    pub resolve_reference_with :
        (field : String) (ref : Option Reference) {from : ReferenceFrom} (ko : A)
        → source_of ref ≡ some from
        → (let out =
              resolve_reference rt allowed own_namespace field
                (get_referenced_resource_state rt t get)
                t.target
                set
                ref
                ko in
            out.error ≡ none
            → (value : Option String) × (out
                ≡ record { resource = set ko value; has_references = true; error = none })
              × ReadsFrom rt t allowed own_namespace get from value)
    unfolding resolve_reference
    resolve_reference_with field ref {from} ko e h =
        let state = get_referenced_resource_state rt t get in
        elim (Reply-cases (read_reference rt allowed own_namespace field state from)) [
          | inl (obj, r) ↦ (
            t.target obj,
            rw (e, resolve_reference, r) refl,
            read_reference-ReadsFrom field from r,
          )
          | inr (err, r) ↦ ground (arith, h, e, r)
        ]

    -- What clearing the field forgets is forgotten, whatever the resolution gave.
    pub resolve_reference_forgotten :
        {B : Type 0} (view : A → B) (field : String) (ref : Option Reference) (ko : A)
        → ((v : Option String) → is_some ref ≡ true → view (set ko v) ≡ view ko)
        → view
            (resolve_reference rt allowed own_namespace field
              (get_referenced_resource_state rt t get)
              t.target
              set
              ref
              ko).resource
          ≡ view ko
    unfolding resolve_reference
    resolve_reference_forgotten view field none ko h = refl
    resolve_reference_forgotten view field (some ref) ko h = elim (Option-cases ref.from) [
      | inl e ↦ rw (e, resolve_reference) refl
      | inr (from, e) ↦
          let state = get_referenced_resource_state rt t get in
          elim (Reply-cases (read_reference rt allowed own_namespace field state from)) [
            | inl (obj, r) ↦ rw (e, resolve_reference, r) (h (t.target obj) refl)
            | inr (err, r) ↦ rw (e, resolve_reference, r) refl
          ]
    ]
