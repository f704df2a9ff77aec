-- ===== src/Memory.antt =====
-- The memory that the Go code of the custom resources works on: cells that are made one after
-- another and never given back, pointers, and the copying of what a pointer or a slice leads to, as
-- the generator writes it out for each field in apis/v1alpha1/zz_generated.deepcopy.go.
pub mod Laws
pub mod Copies
pub mod Writes
use ack_ws_s3files_controlle.Prelude.{
  ℕ, zero, suc, length, ◌≡◌, Option, none, some, List, [], ◌∷◌, ◌++◌,
}

-- A nil pointer, or an address. A slice is a pointer to the cell of its elements.
abbrev pub Pointer : Type 0
Pointer = Option ℕ

-- `none` is a panic, such as a read through an address where no cell of the type is.
abbrev pub M : Type 0 → Type 0 → Type 0
M Cell A = List Cell → Option (A × List Cell)

-- A type of values that a cell can hold.
pub record Slot (Cell A : Type 0) : Type 0 where
  pub put : A → Cell
  pub get : Cell → Option A
  pub get-put : (a : A) → get (put a) ≡ some a

abbrev pub get_elem? {ℓ} : {A : Type ℓ} → List A → ℕ → Option A
get_elem? [] i = none
get_elem? (x ∷ xs) zero = some x
get_elem? (x ∷ xs) (suc i) = get_elem? xs i

module _ {Cell : Type 0} where
  abbrev pub pure : {A : Type 0} → A → M Cell A
  pure a h = some (a, h)

  infixl 5 ◌>>=◌
  abbrev pub ◌>>=◌ : {A B : Type 0} → M Cell A → (A → M Cell B) → M Cell B
  ◌>>=◌ m f h = elim (m h) [ none ↦ none | some (a, h') ↦ f a h' ]

  module _ {A : Type 0} (slot : Slot Cell A) where
    -- `*p`
    unfoldable pub load : ℕ → M Cell A
    load p h = elim (get_elem? h p) [
      | none ↦ none
      | some c ↦ elim (slot.get c) [ none ↦ none | some a ↦ some (a, h) ]
    ]

    -- `new(T)` with the assignment of its value.
    unfoldable pub allocate : A → M Cell ℕ
    allocate a h = some (length h, h ++ slot.put a ∷ [])

    -- `if *in != nil { *out = new(T); (*in).DeepCopyInto(*out) }`. The order in which the cells are
    -- made cannot be seen: the cell itself comes after those that it leads to.
    unfoldable pub deep_copy_pointer : (A → M Cell A) → Pointer → M Cell Pointer
    unfolding load allocate
    deep_copy_pointer copy_into none = pure none
    deep_copy_pointer copy_into (some p) = do
      a ← load p
      b ← copy_into a
      q ← allocate b
      pure (some q)

    -- What a pointer leads to, by what its value shows in the same memory.
    abbrev pub ShowsPointer :
        {V : Type 0} → (List Cell → A → V → Type 0) → List Cell → Pointer → Option V → Type 0
    ShowsPointer R h none none = Unit
    ShowsPointer R h (some p) (some v) = (a : A) × (get_elem? h p ≡ some (slot.put a)) × R h a v
    ShowsPointer R h none (some v) = ⊥
    ShowsPointer R h (some p) none = ⊥

  -- `for i := range *in { … }`
  unfoldable pub copy_each : {A : Type 0} → (A → M Cell A) → List A → M Cell (List A)
  copy_each copy [] = pure []
  copy_each copy (x ∷ xs) = do y ← copy x; ys ← copy_each copy xs; pure (y ∷ ys)

  abbrev pub ShowsEach :
      {A V : Type 0} → (List Cell → A → V → Type 0) → List Cell → List A → List V → Type 0
  ShowsEach R h [] [] = Unit
  ShowsEach R h (a ∷ as') (v ∷ vs) = R h a v × ShowsEach R h as' vs
  ShowsEach R h [] (v ∷ vs) = ⊥
  ShowsEach R h (a ∷ as') [] = ⊥
