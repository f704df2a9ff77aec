-- ===== src/Tags/System.antt =====
-- System tags: what `ignoreSystemTags` takes out of a tag map and `syncAWSTags` puts in.
use ack_ws_s3files_controlle.Prelude.{
  String, ◌≡◌, Option, none, some, List, [], ◌∷◌, arith, eq_iff, starts_with, if◌then◌else◌, GoMap,
  lookup, insert, delete, lookup-insert, lookup-delete, HasUniqueKeys, insert-HasUniqueKeys,
  delete-HasUniqueKeys, Ranging,
}
use ack_ws_s3files_controlle.Tags.{
  is_system_tag, ignore_loop, ignore_system_tags, sync_loop, sync_aws_tags,
}
use ack_ws_s3files_controlle.Tags.View.{or_else}

abbrev none_if_found : Option String → Option String → Option String
none_if_found none o = o
none_if_found (some _) o = none

lookup-ignore_loop :
    (system_tags : List String) (k : String) (entries m : GoMap)
    → lookup k (ignore_loop system_tags entries m) ≡ (
        if is_system_tag system_tags k
        then none_if_found (lookup k entries) (lookup k m)
        else lookup k m)
unfolding ignore_loop lookup
lookup-ignore_loop s k [] m = ground arith
lookup-ignore_loop s k ((j, v) ∷ entries) m = ground (
  arith,
  eq_iff j k,
  lookup-delete j k m,
  lookup-ignore_loop s k entries (if is_system_tag s j then delete j m else m),
)

ignore_loop-HasUniqueKeys :
    (system_tags : List String) (entries m : GoMap)
    → HasUniqueKeys m
    → HasUniqueKeys (ignore_loop system_tags entries m)
unfolding ignore_loop
ignore_loop-HasUniqueKeys s [] m h = h
ignore_loop-HasUniqueKeys s ((j, v) ∷ entries) m h =
    ignore_loop-HasUniqueKeys s entries (if is_system_tag s j then delete j m else m)
      (ground (arith, delete-HasUniqueKeys j m h))

lookup-sync_loop :
    (k : String) (entries a : GoMap)
    → HasUniqueKeys entries
    → lookup k (sync_loop entries a)
      ≡ (if starts_with k "aws:" then or_else (lookup k entries) (lookup k a) else lookup k a)
unfolding sync_loop lookup
lookup-sync_loop k [] a h = ground arith
lookup-sync_loop k ((j, v) ∷ entries) a h = ground (
  arith,
  eq_iff j k,
  lookup-insert j k v a,
  lookup-sync_loop k entries (if starts_with j "aws:" then insert j v a else a) h.1,
)

sync_loop-HasUniqueKeys :
    (entries a : GoMap) → HasUniqueKeys a → HasUniqueKeys (sync_loop entries a)
unfolding sync_loop
sync_loop-HasUniqueKeys [] a h = h
sync_loop-HasUniqueKeys ((j, v) ∷ entries) a h =
    sync_loop-HasUniqueKeys entries (if starts_with j "aws:" then insert j v a else a)
      (ground (arith, insert-HasUniqueKeys j v a h))

module _ (range : GoMap → GoMap) (ranging : Ranging range) where
  -- Exactly the system keys are gone, whatever the order of the map's entries.
  pub lookup-ignore_system_tags :
      (system_tags : List String) (k : String) (m : GoMap)
      → lookup k (ignore_system_tags range m system_tags)
        ≡ (if is_system_tag system_tags k then none else lookup k m)
  unfolding ignore_system_tags
  lookup-ignore_system_tags s k m =
      ground (arith, lookup-ignore_loop s k (range m) m, ranging.entries m k)

  pub ignore_system_tags-HasUniqueKeys :
      (system_tags : List String) (m : GoMap)
      → HasUniqueKeys m
      → HasUniqueKeys (ignore_system_tags range m system_tags)
  unfolding ignore_system_tags
  ignore_system_tags-HasUniqueKeys s m h = ignore_loop-HasUniqueKeys s (range m) m h

  -- The AWS keys of `b` are taken over, and all else of `a` stays.
  pub lookup-sync_aws_tags :
      (k : String) (a b : GoMap)
      → HasUniqueKeys b
      → lookup k (sync_aws_tags range a b)
        ≡ (if starts_with k "aws:" then or_else (lookup k b) (lookup k a) else lookup k a)
  unfolding sync_aws_tags
  lookup-sync_aws_tags k a b h =
      rw (← ranging.entries b k) (lookup-sync_loop k (range b) a (ranging.once b h))

  pub sync_aws_tags-HasUniqueKeys :
      (a b : GoMap) → HasUniqueKeys a → HasUniqueKeys (sync_aws_tags range a b)
  unfolding sync_aws_tags
  sync_aws_tags-HasUniqueKeys a b h = sync_loop-HasUniqueKeys (range b) a h
