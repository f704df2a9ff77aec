-- ===== src/FileSystem/TagOps.antt =====
-- What the manager does to the tags of a FileSystem, as changes of the map that the tags stand for.
use ack_ws_s3files_controlle.Prelude.{
  String, ◌≡◌, refl, ◌∙◌, ap, Option, none, some, List, starts_with, if◌then◌else◌, GoMap, lookup,
  HasUniqueKeys, Ranging, arith,
}
use ack_ws_s3files_controlle.Ack.{Runtime}
use ack_ws_s3files_controlle.Tags.{
  is_system_tag, convert_to_ordered_ack_tags, ignore_system_tags, sync_aws_tags,
}
use ack_ws_s3files_controlle.Tags.View.{
  or_else, tag_value, lookup-convert_to_ordered_ack_tags, convert_to_ordered_ack_tags-HasUniqueKeys,
  tag_value-from_ack_tags,
}
use ack_ws_s3files_controlle.Tags.System.{
  lookup-ignore_system_tags, ignore_system_tags-HasUniqueKeys, lookup-sync_aws_tags,
  sync_aws_tags-HasUniqueKeys,
}
use ack_ws_s3files_controlle.FileSystem.Types.{FileSystem}
use ack_ws_s3files_controlle.FileSystem.Manager.{mirror_aws_tags, filter_system_tags, ensure_tags}

-- `acktags.Merge(a, b)`: the entries of `a`, and those of `b` under the other keys.
pub record IsMerge (merge : GoMap → GoMap → GoMap) : Type 0 where
  pub entries :
      (a b : GoMap) (k : String)
      → HasUniqueKeys a
      → HasUniqueKeys b
      → lookup k (merge a b) ≡ or_else (lookup k a) (lookup k b)
  pub unique : (a b : GoMap) → HasUniqueKeys a → HasUniqueKeys b → HasUniqueKeys (merge a b)

abbrev pub value_in : FileSystem → String → Option String
value_in r k = tag_value k r.spec.tags

module _ {E : Type 0} (rt : Runtime E) (ranging : Ranging rt.range) where
  -- The filter takes away exactly the tags with the AWS prefix and those of the list; every other
  -- key keeps its value.
  pub value_in-filter_system_tags :
      (system_tags : List String) (r : FileSystem) (k : String)
      → value_in (filter_system_tags rt system_tags r) k
        ≡ (if is_system_tag system_tags k then none else value_in r k)
  unfolding filter_system_tags
  value_in-filter_system_tags system_tags r k =
      let converted = convert_to_ordered_ack_tags r.spec.tags in
      let kept = ignore_system_tags rt.range converted.0 system_tags in
      tag_value-from_ack_tags rt.range ranging k kept converted.1 (
        ignore_system_tags-HasUniqueKeys rt.range ranging system_tags converted.0
          (convert_to_ordered_ack_tags-HasUniqueKeys r.spec.tags))
      ∙ lookup-ignore_system_tags rt.range ranging system_tags k converted.0
      ∙ ap (λ (o : Option String). if is_system_tag system_tags k then none else o)
          (lookup-convert_to_ordered_ack_tags k r.spec.tags)

  -- Mirroring gives the desired resource the AWS tags of the latest one, over its own, and leaves
  -- every other tag as it is.
  pub value_in-mirror_aws_tags :
      (a b : FileSystem) (k : String)
      → value_in (mirror_aws_tags rt a (some b)) k
        ≡ (if starts_with k "aws:" then or_else (value_in b k) (value_in a k) else value_in a k)
  unfolding mirror_aws_tags
  value_in-mirror_aws_tags a b k =
      let desired = convert_to_ordered_ack_tags a.spec.tags in
      let latest = convert_to_ordered_ack_tags b.spec.tags in
      let synced = sync_aws_tags rt.range desired.0 latest.0 in
      rw
        (
          tag_value-from_ack_tags rt.range ranging k synced desired.1 (
              sync_aws_tags-HasUniqueKeys rt.range ranging desired.0 latest.0
                (convert_to_ordered_ack_tags-HasUniqueKeys a.spec.tags)),
          lookup-sync_aws_tags rt.range ranging k desired.0 latest.0
              (convert_to_ordered_ack_tags-HasUniqueKeys b.spec.tags),
          lookup-convert_to_ordered_ack_tags k a.spec.tags,
          lookup-convert_to_ordered_ack_tags k b.spec.tags,
        )
        refl

  -- Ensuring tags gives the resource the default tags under the keys that it lacks, and overrides
  -- none of its own.
  pub value_in-ensure_tags :
      (default_tags : GoMap) (r : FileSystem) (k : String)
      → IsMerge rt.merge
      → HasUniqueKeys default_tags
      → value_in (ensure_tags rt default_tags r) k ≡ or_else (value_in r k) (lookup k default_tags)
  unfolding ensure_tags
  value_in-ensure_tags default_tags r k merging unique =
      let own = convert_to_ordered_ack_tags r.spec.tags in
      rw
        (
          tag_value-from_ack_tags rt.range ranging k (rt.merge own.0 default_tags) own.1 (
              merging.unique own.0 default_tags
                (convert_to_ordered_ack_tags-HasUniqueKeys r.spec.tags) unique),
          merging.entries own.0 default_tags k
              (convert_to_ordered_ack_tags-HasUniqueKeys r.spec.tags) unique,
          lookup-convert_to_ordered_ack_tags k r.spec.tags,
        )
        refl

  -- No tag that a filtered resource has counts as a difference that the mirroring would restore:
  -- filtering what was mirrored is filtering the desired resource.
  value_in-filter-mirror :
      (system_tags : List String) (a b : FileSystem) (k : String)
      → value_in (filter_system_tags rt system_tags (mirror_aws_tags rt a (some b))) k
        ≡ value_in (filter_system_tags rt system_tags a) k
  value_in-filter-mirror system_tags a b k = ground (
    arith,
    value_in-filter_system_tags system_tags (mirror_aws_tags rt a (some b)) k,
    value_in-filter_system_tags system_tags a k,
    value_in-mirror_aws_tags a b k,
  )
