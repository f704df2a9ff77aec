-- ===== src/Tags/Order.antt =====
-- A tag list with distinct keys comes back from the tag map in its own order.
use ack_ws_s3files_controlle.Prelude.{
  String, ◌≡◌, refl, none, some, List, [], ◌∷◌, ◌++◌, map, arith, eq_iff, eq_refl, GoMap, lookup,
  insert, delete, HasUniqueKeys, Ranging, range-nil,
}
use mathlib.Core.List.{append-nil, append_assoc}
use ack_ws_s3files_controlle.Tags.View.{or_else}
use ack_ws_s3files_controlle.Tags.{
  Tag, to_tag, convert_loop, convert_to_ordered_ack_tags, from_ordered, from_ack_tags,
}

-- The entries of a tag map as a list of tags with every key and value there.
abbrev pub tags_of : GoMap → List Tag
tags_of m = map to_tag m

abbrev keys_of : GoMap → List String
keys_of [] = []
keys_of ((k, v) ∷ m) = k ∷ keys_of m

insert_fresh : (k v : String) (m : GoMap) → lookup k m ≡ none → insert k v m ≡ m ++ (k, v) ∷ []
unfolding lookup insert
insert_fresh k v [] h = refl
insert_fresh k v ((j, w) ∷ m) h = ground (arith, insert_fresh k v m)

delete_fresh : (k : String) (m : GoMap) → lookup k m ≡ none → delete k m ≡ m
unfolding lookup delete
delete_fresh k [] h = refl
delete_fresh k ((j, w) ∷ m) h = ground (arith, delete_fresh k m)

lookup-append :
    (k : String) (m xs : GoMap) → lookup k (m ++ xs) ≡ or_else (lookup k m) (lookup k xs)
unfolding lookup
lookup-append k [] xs = refl
lookup-append k ((j, w) ∷ m) xs = ground (arith, lookup-append k m xs)

fresh_of_unique :
    (k v : String) (m xs : GoMap) → HasUniqueKeys (m ++ (k, v) ∷ xs) → lookup k m ≡ none
unfolding lookup
fresh_of_unique k v [] xs h = refl
fresh_of_unique k v ((j, w) ∷ m) xs h =
    ground
      (arith, eq_iff j k, eq_iff k j, lookup-append j m ((k, v) ∷ xs), fresh_of_unique k v m xs h.1)

convert_loop_unique :
    (xs m : GoMap) (order : List String)
    → HasUniqueKeys (m ++ xs)
    → convert_loop (tags_of xs) m order ≡ (m ++ xs, order ++ keys_of xs)
unfolding convert_loop
convert_loop_unique [] m order h = simp append-nil
convert_loop_unique ((k, v) ∷ xs) m order h = rw (insert_fresh k v m (fresh_of_unique k v m xs h)) (
    rw (convert_loop_unique xs (m ++ (k, v) ∷ []) (order ++ k ∷ []) (simp append_assoc h))
      (simp append_assoc))

from_ordered_all : (m : GoMap) → HasUniqueKeys m → from_ordered (keys_of m) m ≡ (tags_of m, [])
unfolding from_ordered lookup delete
from_ordered_all [] h = refl
from_ordered_all ((k, v) ∷ m) h =
    ground (arith, eq_refl k, delete_fresh k m h.0, from_ordered_all m h.1)

module _ (range : GoMap → GoMap) (ranging : Ranging range) where
  -- A list of tags with distinct keys, each with a key and a value, comes back from the tag map and
  -- its key order as it was, order included.
  pub from_ack_tags-convert :
      (m : GoMap)
      → HasUniqueKeys m
      → (let (tags, order) = convert_to_ordered_ack_tags (some (tags_of m)) in
          from_ack_tags range tags order)
        ≡ some (tags_of m)
  unfolding from_ack_tags convert_to_ordered_ack_tags
  from_ack_tags-convert m h =
      rw (convert_loop_unique m [] [] h)
        (rw (from_ordered_all m h) (rw (range-nil ranging) (simp append-nil)))
