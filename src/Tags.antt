-- ===== src/Tags.antt =====
-- Tags of the custom resources (pkg/resource/file_system/tags.go; access_point/tags.go is the same
-- text): between the tag list of a spec and the runtime's tag map.
pub mod View
pub mod Order
pub mod System
use ack_ws_s3files_controlle.Prelude.{
  String, Bool, ◌||◌, Option, none, some, List, [], ◌∷◌, ◌++◌, map, elements, contains, starts_with,
  if◌then◌else◌, GoMap, lookup, insert, delete,
}

pub record Tag : Type 0 where
  pub key : Option String
  pub value : Option String

-- What the map holds for a tag: a nil value reads as the empty text.
abbrev pub value_or_empty : Option String → String
value_or_empty none = ""
value_or_empty (some v) = v

abbrev pub to_tag : String × String → Tag
to_tag (k, v) = record { key = some k; value = some v }

-- The loop of `convertToOrderedACKTags`, over its two results.
pub convert_loop : List Tag → GoMap → List String → GoMap × List String
convert_loop [] result key_order = (result, key_order)
convert_loop (t ∷ ts) result key_order = elim t.key [
  | none ↦ convert_loop ts result key_order
  | some k ↦ convert_loop ts (insert k (value_or_empty t.value) result) (key_order ++ k ∷ [])
]

unfoldable pub convert_to_ordered_ack_tags : Option (List Tag) → GoMap × List String
unfolding convert_loop
convert_to_ordered_ack_tags tags = convert_loop (elements tags) [] []

-- The first loop of `fromACKTags`: the tags found in the key order, and what is left of the map.
pub from_ordered : List String → GoMap → List Tag × GoMap
from_ordered [] tags = ([], tags)
from_ordered (k ∷ ks) tags = elim (lookup k tags) [
  | none ↦ from_ordered ks tags
  | some v ↦ let (result, rest) = from_ordered ks (delete k tags) in (to_tag (k, v) ∷ result, rest)
]

-- The first loop of `ignoreSystemTags`' test.
abbrev pub is_system_tag : List String → String → Bool
is_system_tag system_tags k = starts_with k "aws:" || contains k system_tags

-- The loop of `ignoreSystemTags` over the entries of the map.
pub ignore_loop : List String → GoMap → GoMap → GoMap
ignore_loop system_tags [] tags = tags
ignore_loop system_tags ((k, _) ∷ entries) tags =
    ignore_loop system_tags entries (if is_system_tag system_tags k then delete k tags else tags)

-- The loop of `syncAWSTags` over the entries of `b`.
pub sync_loop : GoMap → GoMap → GoMap
sync_loop [] a = a
sync_loop ((k, v) ∷ entries) a =
    sync_loop entries (if starts_with k "aws:" then insert k v a else a)

module _ (range : GoMap → GoMap) where
  unfoldable pub from_ack_tags : GoMap → List String → Option (List Tag)
  unfolding from_ordered
  from_ack_tags tags key_order =
      let (result, rest) = from_ordered key_order tags in some (result ++ map to_tag (range rest))

  unfoldable pub ignore_system_tags : GoMap → List String → GoMap
  unfolding ignore_loop
  ignore_system_tags tags system_tags = ignore_loop system_tags (range tags) tags

  unfoldable pub sync_aws_tags : GoMap → GoMap → GoMap
  unfolding sync_loop
  sync_aws_tags a b = sync_loop (range b) a
