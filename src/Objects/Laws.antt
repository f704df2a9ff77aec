-- ===== src/Objects/Laws.antt =====
-- What the marks and the adoption of a custom resource do (the `descriptor.go` and `resource.go`
-- files of pkg/resource).
use ack_ws_s3files_controlle.Prelude.{
  String, true, false, ◌||◌, ◌≡◌, refl, ap, arith, ◌∙◌, none, some, List, contains, ◌==◌, eq_refl,
  if◌then◌else◌, GoMap, lookup, Option-cases, inl, inr,
}
use ack_ws_s3files_controlle.Ack.{ObjectMeta, Runtime}
use ack_ws_s3files_controlle.Objects.{
  Object, ControllerUtil, contains_finalizer, is_managed, mark_managed, mark_unmanaged,
  populate_resource_from_annotation,
}

-- What controller-runtime documents of its two functions.
pub record IsFinalizing (util : ControllerUtil) : Type 0 where
  pub added :
      (fs : List String) (f g : String)
      → contains g (util.add_finalizer fs f) ≡ (f == g || contains g fs)
  pub removed :
      (fs : List String) (f g : String)
      → contains g (util.remove_finalizer fs f) ≡ (if f == g then false else contains g fs)

module _ {R Status : Type 0} (o : Object R Status)
    (assigns : (r : R) (meta : ObjectMeta) → o.metadata (o.with_metadata r meta) ≡ meta)
    (util : ControllerUtil) (finalizing : IsFinalizing util) where
  contains_finalizer-mark_managed :
      (r : R) (f : String)
      → contains_finalizer o (mark_managed o util r) f
        ≡ (o.finalizer_string == f || contains_finalizer o r f)
  unfolding contains_finalizer mark_managed
  contains_finalizer-mark_managed r f =
      ap (λ (meta : ObjectMeta). contains f meta.finalizers) (assigns r _)
      ∙ finalizing.added (o.metadata r).finalizers o.finalizer_string f

  contains_finalizer-mark_unmanaged :
      (r : R) (f : String)
      → contains_finalizer o (mark_unmanaged o util r) f
        ≡ (if o.finalizer_string == f then false else contains_finalizer o r f)
  unfolding contains_finalizer mark_unmanaged
  contains_finalizer-mark_unmanaged r f =
      ap (λ (meta : ObjectMeta). contains f meta.finalizers) (assigns r _)
      ∙ finalizing.removed (o.metadata r).finalizers o.finalizer_string f

  -- A mark and its removal.
  pub mark_lem :
      (r : R) (f : String)
      → (is_managed o (mark_managed o util r) ≡ true)
        × (is_managed o (mark_unmanaged o util r) ≡ false)
        × (contains_finalizer o (mark_unmanaged o util (mark_managed o util r)) f
            ≡ (if o.finalizer_string == f then false else contains_finalizer o r f))
  unfolding is_managed
  mark_lem r f =
      let k = o.finalizer_string in
      (
        ground (arith, contains_finalizer-mark_managed r k, eq_refl k),
        ground (arith, contains_finalizer-mark_unmanaged r k, eq_refl k),
        ground (
          arith,
          contains_finalizer-mark_unmanaged (mark_managed o util r) f,
          contains_finalizer-mark_managed r f,
        ),
      )

-- A resource that took its id from an annotation.
pub record IsPopulated {R Status : Type 0} (o : Object R Status) (fields : GoMap) (r out : R)
    : Type 0 where
  pub id : String
  pub given : lookup o.id_field fields ≡ some id
  pub assigned : out ≡ o.with_id r id

pub populate_lem :
    {R Status E : Type 0} (o : Object R Status) (rt : Runtime E) (fields : GoMap) (r : R)
    → (populate_resource_from_annotation o rt fields r).1 ≡ none
    → IsPopulated o fields r (populate_resource_from_annotation o rt fields r).0
unfolding populate_resource_from_annotation
populate_lem o rt fields r h = elim (Option-cases (lookup o.id_field fields)) [
  | inl e ↦ ground (arith, h, e)
  | inr (id, e) ↦
      rw (e, populate_resource_from_annotation) (record { id = id; given = e; assigned = refl })
]
