-- ===== src/Memory/Copies.antt =====
-- The copying of a value without pointers, of what a pointer leads to, and of a slice
-- (apis/v1alpha1/zz_generated.deepcopy.go).
use ack_ws_s3files_controlle.Prelude.{
  ℕ, length, ◌≡◌, refl, sym, ap, ◌∙◌, subst, arith, Option, none, some, List, [], ◌∷◌, ◌++◌,
}
use mathlib.Core.List.{append_assoc, append-nil}
use ack_ws_s3files_controlle.Memory.{
  Pointer, M, Slot, get_elem?, pure, ◌>>=◌, load, allocate, deep_copy_pointer, ShowsPointer,
  copy_each, ShowsEach,
}
use ack_ws_s3files_controlle.Memory.Laws.{
  length-append, get_elem?-append, get_elem?-append_at, Copied, DeepCopies, start, step, step_by,
  finish, Runs-Copied,
}

module _ {Cell : Type 0} where
  -- A value without pointers shows itself.
  abbrev pub ShowsSame : {A : Type 0} → List Cell → A → A → Type 0
  ShowsSame h a v = a ≡ v

  pub pure-DeepCopies : {A : Type 0} → DeepCopies {Cell = Cell} {A = A} {V = A} ShowsSame pure
  pure-DeepCopies = record {
    stable = λ h k a v e. e;
    copies = λ h a v e. record {
      copy = a;
      new = [];
      ran = ap (λ (t : List Cell). some (a, t)) (sym (append-nil h));
      shown = λ g k l. e;
    };
  }

  module _ {A V : Type 0} (slot : Slot Cell A) {R : List Cell → A → V → Type 0}
      {copy_into : A → M Cell A} (d : DeepCopies R copy_into) where
    pointer_stable :
        (h k : List Cell) (p : Pointer) (v : Option V)
        → ShowsPointer slot R h p v
        → ShowsPointer slot R (h ++ k) p v
    pointer_stable h k none none u = u
    pointer_stable h k (some p) (some v) (a, e, r) =
        (a, get_elem?-append h k p e, d.stable h k a v r)
    pointer_stable h k none (some v) u = elim u [ ]
    pointer_stable h k (some p) none u = elim u [ ]

    load_lem :
        (p : ℕ) (h : List Cell) {a : A}
        → get_elem? h p ≡ some (slot.put a)
        → load slot p h ≡ some (a, h)
    unfolding load
    load_lem p h {a} e = rw (e, load) (rw (slot.get-put a) refl)

    pointer_copies :
        (h : List Cell) (p : Pointer) (v : Option V)
        → ShowsPointer slot R h p v
        → Copied (ShowsPointer slot R) h v (deep_copy_pointer slot copy_into p)
    unfolding deep_copy_pointer allocate
    pointer_copies h none none u = record {
      copy = none;
      new = [];
      ran = ap (λ (t : List Cell). some (none, t)) (sym (append-nil h));
      shown = λ g k l. u;
    }
    pointer_copies h (some p) (some v) (a, e, r) =
        let c = d.copies h a v r in
        let cell = slot.put c.copy in
        record {
          copy = some (length (h ++ c.new));
          new = c.new ++ cell ∷ [];
          ran =
              rw (load_lem p h e, ◌>>=◌)
                (rw (c.ran, ◌>>=◌)
                  (ap (λ (t : List Cell). some (some (length (h ++ c.new)), t))
                    (append_assoc h c.new (cell ∷ []))));
          shown = λ g k l.
              let order : (g ++ c.new) ++ cell ∷ k ≡ g ++ ((c.new ++ cell ∷ []) ++ k) =
                append_assoc g c.new (cell ∷ k)
                ∙ ap (λ (t : List Cell). g ++ t) (sym (append_assoc c.new (cell ∷ []) k)) in
              let here : length (g ++ c.new) ≡ length (h ++ c.new) =
                omega (arith, length-append g c.new, length-append h c.new, l) in
              (
                c.copy,
                subst (λ (t : List Cell). get_elem? t (length (h ++ c.new)) ≡ some cell) order
                    (subst (λ (i : ℕ). get_elem? ((g ++ c.new) ++ cell ∷ k) i ≡ some cell) here
                      (get_elem?-append_at (g ++ c.new) k cell)),
                subst (λ (t : List Cell). R t c.copy v)
                    (sym (append_assoc g c.new (cell ∷ k)) ∙ order) (c.shown g (cell ∷ k) l),
              );
        }
    pointer_copies h none (some v) u = elim u [ ]
    pointer_copies h (some p) none u = elim u [ ]

    pub pointer-DeepCopies : DeepCopies (ShowsPointer slot R) (deep_copy_pointer slot copy_into)
    pointer-DeepCopies = record { stable = pointer_stable; copies = pointer_copies }

  module _ {A V : Type 0} {R : List Cell → A → V → Type 0} {copy : A → M Cell A}
      (d : DeepCopies R copy) where
    each_stable :
        (h k : List Cell) (xs : List A) (vs : List V)
        → ShowsEach R h xs vs
        → ShowsEach R (h ++ k) xs vs
    each_stable h k [] [] u = u
    each_stable h k (x ∷ xs) (v ∷ vs) (r, rs) = (d.stable h k x v r, each_stable h k xs vs rs)
    each_stable h k [] (v ∷ vs) u = elim u [ ]
    each_stable h k (x ∷ xs) [] u = elim u [ ]

    each_copies :
        (h : List Cell) (xs : List A) (vs : List V)
        → ShowsEach R h xs vs
        → Copied (ShowsEach R) h vs (copy_each copy xs)
    unfolding copy_each
    each_copies h [] [] u = Runs-Copied (finish (ShowsEach R) [] (λ g k e. u))
    each_copies h (x ∷ xs) (v ∷ vs) (r, rs) = Runs-Copied (
        step d x v r (start []) λ N y c.
          step_by (λ k. each_copies (h ++ k) xs vs (each_stable h k xs vs rs)) c
            λ M ys c'.
              finish (ShowsEach R) (y ∷ ys) λ g k e. (c'.holds.0.1 g k e, c'.holds.1 g k e))
    each_copies h [] (v ∷ vs) u = elim u [ ]
    each_copies h (x ∷ xs) [] u = elim u [ ]

    pub each-DeepCopies : DeepCopies (ShowsEach R) (copy_each copy)
    each-DeepCopies = record { stable = each_stable; copies = each_copies }
