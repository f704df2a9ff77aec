-- ===== src/Memory/Laws.antt =====
-- What a copy promises, and that the copying of a pointer and of a slice keeps it
-- (apis/v1alpha1/zz_generated.deepcopy.go).
use ack_ws_s3files_controlle.Prelude.{
  ℕ, zero, suc, length, ◌≡◌, refl, sym, ap, ◌∙◌, subst, arith, ◌+◌, some, List, [], ◌∷◌, ◌++◌,
}
use mathlib.Core.List.{append_assoc, append-nil}
use ack_ws_s3files_controlle.Memory.{M, get_elem?, pure, ◌>>=◌}

pub length-append : {Cell : Type 0} (xs ys : List Cell) → length (xs ++ ys) ≡ length xs + length ys
length-append [] ys = omega arith
length-append (x ∷ xs) ys = omega (arith, length-append xs ys)

pub get_elem?-append :
    {Cell : Type 0} (h k : List Cell) (i : ℕ) {c : Cell}
    → get_elem? h i ≡ some c
    → get_elem? (h ++ k) i ≡ some c
get_elem?-append [] k i e = cc e
get_elem?-append (x ∷ h) k zero e = e
get_elem?-append (x ∷ h) k (suc i) e = get_elem?-append h k i e

pub get_elem?-append_at :
    {Cell : Type 0} (h k : List Cell) (c : Cell) → get_elem? (h ++ c ∷ k) (length h) ≡ some c
get_elem?-append_at [] k c = refl
get_elem?-append_at (x ∷ h) k c = ground (arith, get_elem?-append_at h k c)

module _ {Cell : Type 0} where
  -- Whatever the memory holds at the old addresses, and whatever is made later, the value shows.
  abbrev pub Known :
      {A V : Type 0} (R : List Cell → A → V → Type 0) (h new : List Cell) → A → V → Type 0
  Known R h new a v = (g k : List Cell) → length g ≡ length h → R (g ++ (new ++ k)) a v

  -- A copy that was made: it ends, it leaves every old cell, and it shows the value by new cells only.
  pub record Copied {A V : Type 0} (R : List Cell → A → V → Type 0) (h : List Cell) (v : V)
      (m : M Cell A) : Type 0 where
    pub copy : A
    pub new : List Cell
    pub ran : m h ≡ some (copy, h ++ new)
    pub shown : Known R h new copy v

  pub record DeepCopies {A V : Type 0} (R : List Cell → A → V → Type 0) (copy : A → M Cell A)
      : Type 0 where
    pub stable : (h k : List Cell) (a : A) (v : V) → R h a v → R (h ++ k) a v
    pub copies : (h : List Cell) (a : A) (v : V) → R h a v → Copied R h v (copy a)

  -- What is known of the cells that were made so far, and stays known.
  pub record Carried (K : List Cell → Type 0) (n : List Cell) : Type 0 where
    pub holds : K n
    pub grows : (n x : List Cell) → K n → K (n ++ x)

  -- A run that starts with the cells `n` made, and makes more.
  pub record Runs {A : Type 0} (h n : List Cell) (m : M Cell A) (P : List Cell → A → Type 0)
      : Type 0 where
    pub result : A
    pub made : List Cell
    pub ran : m (h ++ n) ≡ some (result, h ++ (n ++ made))
    pub post : P (n ++ made) result

  Known_grows :
      {A V : Type 0} (R : List Cell → A → V → Type 0) (h n x : List Cell) (a : A) (v : V)
      → Known R h n a v
      → Known R h (n ++ x) a v
  Known_grows R h n x a v known g k e =
      subst (λ (t : List Cell). R (g ++ t) a v) (sym (append_assoc n x k)) (known g (x ++ k) e)

  pub start : (n : List Cell) → Carried (λ _. Unit {0}) n
  start n = record { holds = tt; grows = λ n x u. u }

  -- A copy is made, and the rest runs with what is known of it.
  pub step_by :
      {A V B : Type 0} {R : List Cell → A → V → Type 0} {v : V} {m : M Cell A} {h n : List Cell}
      {K : List Cell → Type 0} {f : A → M Cell B} {Q : List Cell → B → Type 0}
      → ((k : List Cell) → Copied R (h ++ k) v m)
      → Carried K n
      → ((N : List Cell) (a' : A)
          → Carried (λ (M : List Cell). K M × Known R h M a' v) N
          → Runs h N (f a') Q)
      → Runs h n (m >>= f) Q
  step_by {A} {V} {B} {R} {v} {m} {h} {n} {K} {f} {Q} copied carried rest =
      let c = copied n in
      let known : Known R h (n ++ c.new) c.copy v = λ g k e.
        subst (λ (t : List Cell). R t c.copy v)
          (append_assoc g n (c.new ++ k)
            ∙ ap (λ (t : List Cell). g ++ t) (sym (append_assoc n c.new k)))
          (c.shown (g ++ n) k (omega (arith, length-append g n, length-append h n, e))) in
      let r = rest (n ++ c.new) c.copy (record {
        holds = (carried.grows n c.new carried.holds, known);
        grows = λ m x (u, w). (carried.grows m x u, Known_grows R h m x c.copy v w);
      }) in
      record {
        result = r.result;
        made = c.new ++ r.made;
        ran =
            rw (c.ran, ◌>>=◌)
              (ap (λ (t : List Cell). f c.copy t) (append_assoc h n c.new)
                ∙ r.ran
                ∙ ap (λ (t : List Cell). some (r.result, h ++ t)) (append_assoc n c.new r.made));
        post = subst (λ (t : List Cell). Q t r.result) (append_assoc n c.new r.made) r.post;
      }

  -- One field of a structure.
  pub step :
      {A V B : Type 0} {R : List Cell → A → V → Type 0} {copy : A → M Cell A} {h n : List Cell}
      {K : List Cell → Type 0} {f : A → M Cell B} {Q : List Cell → B → Type 0}
      → DeepCopies R copy
      → (a : A) (v : V) → R h a v
      → Carried K n
      → ((N : List Cell) (a' : A)
          → Carried (λ (M : List Cell). K M × Known R h M a' v) N
          → Runs h N (f a') Q)
      → Runs h n (copy a >>= f) Q
  step {h = h} d a v shows = step_by (λ k. d.copies (h ++ k) a v (d.stable h k a v shows))

  -- The end of a run: what is known then is the result.
  pub finish :
      {A V : Type 0} (R : List Cell → A → V → Type 0) {h n : List Cell} {v : V} (a : A)
      → Known R h n a v
      → Runs h n (pure a) (λ N b. Known R h N b v)
  finish R {h} {n} {v} a known = record {
    result = a;
    made = [];
    ran = ap (λ (t : List Cell). some (a, h ++ t)) (sym (append-nil n));
    post = subst (λ (t : List Cell). Known R h t a v) (sym (append-nil n)) known;
  }

  pub Runs-Copied :
      {A V : Type 0} {R : List Cell → A → V → Type 0} {h : List Cell} {v : V} {m : M Cell A}
      → Runs h [] m (λ N b. Known R h N b v)
      → Copied R h v m
  Runs-Copied {A} {V} {R} {h} {v} {m} r = record {
    copy = r.result;
    new = r.made;
    ran = ap m (sym (append-nil h)) ∙ r.ran;
    shown = r.post;
  }
