-- ===== src/Tags/View.antt =====
-- A tag list as the finite map that it stands for, and the conversions against that map.
use ack_ws_s3files_controlle.Prelude.{
  String, Bool, false, ◌≡◌, refl, Option, none, some, List, [], ◌∷◌, ◌++◌, map, elements, arith,
  ◌==◌, eq_iff, if◌then◌else◌, GoMap, lookup, insert, delete, lookup-insert, lookup-delete,
  HasUniqueKeys, insert-HasUniqueKeys, delete-HasUniqueKeys, Ranging, Option-cases, inl, inr,
}
use ack_ws_s3files_controlle.Tags.{
  Tag, value_or_empty, to_tag, convert_loop, convert_to_ordered_ack_tags, from_ordered,
  from_ack_tags,
}

abbrev pub has_key : String → Option String → Bool
has_key k none = false
has_key k (some j) = j == k

-- The first of two optional values that is there.
abbrev pub or_else {ℓ} : {A : Type ℓ} → Option A → Option A → Option A
or_else none o = o
or_else (some a) o = some a

-- The value that a tag list gives a key: of several tags the last counts, and a tag with no key
-- counts for nothing.
unfoldable pub last_value : String → List Tag → Option String
last_value k [] = none
last_value k (t ∷ ts) =
    or_else (last_value k ts) (if has_key k t.key then some (value_or_empty t.value) else none)

abbrev pub tag_value : String → Option (List Tag) → Option String
tag_value k tags = last_value k (elements tags)

lookup-convert_loop :
    (k : String) (ts : List Tag) (m : GoMap) (order : List String)
    → lookup k (convert_loop ts m order).0 ≡ or_else (last_value k ts) (lookup k m)
unfolding convert_loop last_value
lookup-convert_loop k [] m order = refl
lookup-convert_loop k (t ∷ ts) m order = elim (Option-cases t.key) [
  | inl e ↦ rw (e, convert_loop) (ground (arith, lookup-convert_loop k ts m order))
  | inr (j, e) ↦
      rw (e, convert_loop)
        (ground (
          arith,
          lookup-convert_loop k ts (insert j (value_or_empty t.value) m) (order ++ j ∷ []),
          lookup-insert j k (value_or_empty t.value) m,
        ))
]

-- The tag map holds, under each key, the value that the list gives it.
pub lookup-convert_to_ordered_ack_tags :
    (k : String) (tags : Option (List Tag))
    → lookup k (convert_to_ordered_ack_tags tags).0 ≡ tag_value k tags
unfolding convert_to_ordered_ack_tags lookup
lookup-convert_to_ordered_ack_tags k tags =
    ground (arith, lookup-convert_loop k (elements tags) [] [])

convert_loop-HasUniqueKeys :
    (ts : List Tag) (m : GoMap) (order : List String)
    → HasUniqueKeys m
    → HasUniqueKeys (convert_loop ts m order).0
unfolding convert_loop
convert_loop-HasUniqueKeys [] m order h = h
convert_loop-HasUniqueKeys (t ∷ ts) m order h = elim (Option-cases t.key) [
  | inl e ↦ rw (e, convert_loop) (convert_loop-HasUniqueKeys ts m order h)
  | inr (j, e) ↦
      rw (e, convert_loop)
        (convert_loop-HasUniqueKeys ts (insert j (value_or_empty t.value) m) (order ++ j ∷ [])
          (insert-HasUniqueKeys j (value_or_empty t.value) m h))
]

pub convert_to_ordered_ack_tags-HasUniqueKeys :
    (tags : Option (List Tag)) → HasUniqueKeys (convert_to_ordered_ack_tags tags).0
unfolding convert_to_ordered_ack_tags
convert_to_ordered_ack_tags-HasUniqueKeys tags = convert_loop-HasUniqueKeys (elements tags) [] [] tt

last_value-append :
    (k : String) (xs ys : List Tag)
    → last_value k (xs ++ ys) ≡ or_else (last_value k ys) (last_value k xs)
unfolding last_value
last_value-append k [] ys = ground arith
last_value-append k (t ∷ xs) ys = ground (arith, last_value-append k xs ys)

last_value-map :
    (k : String) (m : GoMap) → HasUniqueKeys m → last_value k (map to_tag m) ≡ lookup k m
unfolding last_value lookup
last_value-map k [] h = refl
last_value-map k ((j, v) ∷ m) h = ground (arith, eq_iff j k, last_value-map k m h.1)

-- What the first loop of `fromACKTags` takes out of the map stands in its result, and the rest of
-- the map is left.
record Splits (k : String) (tags : GoMap) (out : List Tag × GoMap) : Type 0 where
  found : or_else (last_value k out.0) (lookup k out.1) ≡ lookup k tags
  moved : or_else (lookup k out.1) (last_value k out.0) ≡ lookup k tags
  unique : HasUniqueKeys out.1

from_ordered-Splits :
    (k : String) (order : List String) (tags : GoMap)
    → HasUniqueKeys tags
    → Splits k tags (from_ordered order tags)
unfolding from_ordered last_value
from_ordered-Splits k [] tags h = ground arith
from_ordered-Splits k (j ∷ order) tags h = elim (Option-cases (lookup j tags)) [
  | inl e ↦ rw (e, from_ordered) (from_ordered-Splits k order tags h)
  | inr (v, e) ↦
      rw (e, from_ordered)
        (ground (
          arith,
          eq_iff j k,
          lookup-delete j k tags,
          from_ordered-Splits k order (delete j tags) (delete-HasUniqueKeys j tags h),
        ))
]

-- A tag map turned back into a list gives each key the value of the map, whatever the key order and
-- the order of the map's entries.
module _ (range : GoMap → GoMap) (ranging : Ranging range) where
  pub tag_value-from_ack_tags :
      (k : String) (tags : GoMap) (order : List String)
      → HasUniqueKeys tags
      → tag_value k (from_ack_tags range tags order) ≡ lookup k tags
  unfolding from_ack_tags
  tag_value-from_ack_tags k tags order h =
      let s = from_ordered-Splits k order tags h in
      let rest = (from_ordered order tags).1 in
      rw
        (
          last_value-append,
          last_value-map k (range rest) (ranging.once rest s.unique),
          ranging.entries rest k,
        )
        s.moved
