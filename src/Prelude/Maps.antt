-- ===== src/Prelude/Maps.antt =====
-- Go's `map[string]string` as an association list. The order of the entries is no part of the
-- program's meaning: where the program ranges over a map, the order is a parameter (`Ranging`).
use Prim.Native.String.{String}
use mathlib.Core.Path.{◌≡◌, refl}
use mathlib.Core.Bool.{Bool, true, false}
use mathlib.Core.Option.{Option, none, some}
use mathlib.Core.List.{List, [], ◌∷◌}
use native.Mathlib.Omega.{arith}
use text.Mathlib.Text.{◌==◌}
use text.Mathlib.TextEquality.{eq_iff}
use text.Mathlib.TextPositions.{eq_refl}

infix 1 if◌then◌else◌
abbrev pub if◌then◌else◌ {ℓ} : {A : Type ℓ} → Bool → A → A → A
if true then x else y = x
if false then x else y = y

abbrev pub GoMap : Type 0
GoMap = List (String × String)

-- `v, ok := m[k]`
unfoldable pub lookup : String → GoMap → Option String
lookup key [] = none
lookup key ((other, value) ∷ entries) = if other == key then some value else lookup key entries

-- `m[k] = v`
unfoldable pub insert : String → String → GoMap → GoMap
insert key value [] = (key, value) ∷ []
insert key value ((other, old) ∷ entries) =
    if other == key then (other, value) ∷ entries else (other, old) ∷ insert key value entries

-- `delete(m, k)`
unfoldable pub delete : String → GoMap → GoMap
delete k [] = []
delete k ((j, w) ∷ m) = let rest = delete k m in if j == k then rest else (j, w) ∷ rest

pub lookup-insert :
    (k j v : String) (m : GoMap) → lookup j (insert k v m) ≡ (if k == j then some v else lookup j m)
unfolding lookup insert
lookup-insert k j v [] = refl
lookup-insert k j v ((other, _) ∷ entries) =
    ground (arith, lookup-insert k j v entries, eq_iff other j, eq_iff other k, eq_iff k j)

pub lookup-delete :
    (k j : String) (m : GoMap) → lookup j (delete k m) ≡ (if k == j then none else lookup j m)
unfolding lookup delete
lookup-delete k j [] = ground arith
lookup-delete k j ((i, w) ∷ m) =
    ground (arith, eq_iff k j, eq_iff i k, eq_iff i j, lookup-delete k j m)

-- Two maps with the same entries.
pub record SameMap (a b : GoMap) : Type 0 where
  pub at : (k : String) → lookup k a ≡ lookup k b

-- No key stands twice, as in every map that the operations build.
abbrev pub HasUniqueKeys : GoMap → Type 0
HasUniqueKeys [] = Unit
HasUniqueKeys ((k, v) ∷ m) = (lookup k m ≡ none) × HasUniqueKeys m

pub insert-HasUniqueKeys :
    (k v : String) (m : GoMap) → HasUniqueKeys m → HasUniqueKeys (insert k v m)
unfolding lookup insert
insert-HasUniqueKeys k v [] h = (refl, tt)
insert-HasUniqueKeys k v ((j, w) ∷ m) h =
    ground (arith, eq_iff j k, eq_iff k j, lookup-insert k j v m, insert-HasUniqueKeys k v m h.1)

pub delete-HasUniqueKeys : (k : String) (m : GoMap) → HasUniqueKeys m → HasUniqueKeys (delete k m)
unfolding lookup delete
delete-HasUniqueKeys k [] h = tt
delete-HasUniqueKeys k ((j, w) ∷ m) h =
    ground (arith, eq_iff j k, eq_iff k j, lookup-delete k j m, delete-HasUniqueKeys k m h.1)

-- `range m`: every entry of the map once, in an order that the language leaves open.
pub record Ranging (range : GoMap → GoMap) : Type 0 where
  pub entries : (m : GoMap) (k : String) → lookup k (range m) ≡ lookup k m
  pub once : (m : GoMap) → HasUniqueKeys m → HasUniqueKeys (range m)

-- A map in which no key is found is empty.
pub none_found : (m : GoMap) → ((k : String) → lookup k m ≡ none) → m ≡ []
unfolding lookup
none_found [] h = refl
none_found ((k, v) ∷ m) h = ground (arith, h k, eq_refl k)

pub range-nil : {range : GoMap → GoMap} → Ranging range → range [] ≡ []
unfolding lookup
range-nil {range} ranging = none_found (range []) (ranging.entries [])
