-- ===== src/Memory/Writes.antt =====
-- Assignments through pointers, and what they leave of a copy and of its original.
use ack_ws_s3files_controlle.Prelude.{
  ℕ, zero, suc, length, ◌+◌, ◌<◌, ◌≤◌, ◌-◌, ◌≡◌, refl, sym, ap, ◌∙◌, subst, arith, some, List, [],
  ◌∷◌, ◌++◌,
}
use mathlib.Core.List.{append-nil}
use ack_ws_s3files_controlle.Memory.{M}
use ack_ws_s3files_controlle.Memory.Laws.{DeepCopies}

module _ {Cell : Type 0} where
  -- `*p = v` of a cell that is there.
  abbrev pub set : List Cell → ℕ → Cell → List Cell
  set [] i c = []
  set (x ∷ h) zero c = c ∷ h
  set (x ∷ h) (suc i) c = x ∷ set h i c

  -- Assignments, the first one first.
  abbrev pub write : List (ℕ × Cell) → List Cell → List Cell
  write [] h = h
  write ((p, c) ∷ ws) h = write ws (set h p c)

  abbrev pub Below : ℕ → List (ℕ × Cell) → Type 0
  Below n [] = Unit
  Below n ((p, c) ∷ ws) = (p < n) × Below n ws

  abbrev pub From : ℕ → List (ℕ × Cell) → Type 0
  From n [] = Unit
  From n ((p, c) ∷ ws) = (n ≤ p) × From n ws

  length-set : (h : List Cell) (i : ℕ) (c : Cell) → length (set h i c) ≡ length h
  length-set [] i c = refl
  length-set (x ∷ h) zero c = refl
  length-set (x ∷ h) (suc i) c = ap (λ (n : ℕ). 1 + n) (length-set h i c)

  set-append_below :
      (h k : List Cell) (i : ℕ) (c : Cell) → i < length h → set (h ++ k) i c ≡ set h i c ++ k
  set-append_below [] k i c l = absurd (omega arith)
  set-append_below (x ∷ h) k zero c l = refl
  set-append_below (x ∷ h) k (suc i) c l =
      ap (λ (t : List Cell). x ∷ t) (set-append_below h k i c (omega arith))

  set-append_from :
      (h k : List Cell) (i : ℕ) (c : Cell)
      → length h ≤ i
      → set (h ++ k) i c ≡ h ++ set k (i - length h) c
  set-append_from [] k i c l = ap (λ (j : ℕ). set k j c) (omega arith)
  set-append_from (x ∷ h) k zero c l = absurd (omega arith)
  set-append_from (x ∷ h) k (suc i) c l =
      ap (λ (t : List Cell). x ∷ t)
        (set-append_from h k i c (omega arith) ∙ ap (λ (j : ℕ). h ++ set k j c) (omega arith))

  write-append-Below :
      (h k : List Cell) (ws : List (ℕ × Cell))
      → Below (length h) ws
      → (g : List Cell) × (length g ≡ length h) × (write ws (h ++ k) ≡ g ++ k)
  write-append-Below h k [] b = (h, refl, refl)
  write-append-Below h k ((p, c) ∷ ws) (l, b) =
      let e = length-set h p c in
      let (g, same, there) =
        write-append-Below (set h p c) k ws (subst (λ (n : ℕ). Below n ws) (sym e) b) in
      (g, same ∙ e, ap (write ws) (set-append_below h k p c l) ∙ there)

  write-append-From :
      (h k : List Cell) (ws : List (ℕ × Cell))
      → From (length h) ws
      → (k' : List Cell) × (write ws (h ++ k) ≡ h ++ k')
  write-append-From h k [] b = (k, refl)
  write-append-From h k ((p, c) ∷ ws) (l, b) =
      let (k', there) = write-append-From h (set k (p - length h) c) ws b in
      (k', ap (write ws) (set-append_from h k p c l) ∙ there)

  -- A copy that ends and shares no cell with its original: what is assigned to the old cells does not
  -- show in the copy, and what is assigned to the new ones not in the original.
  pub record IsSeparate {A V : Type 0} (R : List Cell → A → V → Type 0) (h : List Cell) (a : A)
      (v : V) (m : M Cell A) : Type 0 where
    pub copy : A
    pub after : List Cell
    pub ran : m h ≡ some (copy, after)
    pub copy_shows : (ws : List (ℕ × Cell)) → Below (length h) ws → R (write ws after) copy v
    pub original_shows : (ws : List (ℕ × Cell)) → From (length h) ws → R (write ws after) a v

  pub DeepCopies-IsSeparate :
      {A V : Type 0} {R : List Cell → A → V → Type 0} {copy : A → M Cell A}
      → DeepCopies R copy
      → (h : List Cell) (a : A) (v : V) → R h a v
      → IsSeparate R h a v (copy a)
  DeepCopies-IsSeparate {R = R} d h a v s =
      let c = d.copies h a v s in
      record {
        copy = c.copy;
        after = h ++ c.new;
        ran = c.ran;
        copy_shows = λ ws b.
            let (g, same, there) = write-append-Below h c.new ws b in
            subst (λ (t : List Cell). R t c.copy v)
              (ap (λ (t : List Cell). g ++ t) (append-nil c.new) ∙ sym there) (c.shown g [] same);
        original_shows = λ ws b.
            let (k, there) = write-append-From h c.new ws b in
            subst (λ (t : List Cell). R t a v) (sym there) (d.stable h k a v s);
      }
