-- ===== src/TagSync.antt =====
-- The synchronisation of tags with the service (pkg/tags/tags.go).
pub mod Converge
use ack_ws_s3files_controlle.Prelude.{
  String, Bool, ◌≡◌, Option, none, some, List, [], ◌∷◌, map, is_some, is_empty, if◌then◌else◌,
  GoMap, lookup, delete,
}
use ack_ws_s3files_controlle.Ack.{Runtime, World, Exec, pure, ◌>>=◌, ◌>>◌, call}
use ack_ws_s3files_controlle.Aws.{SdkTag, Service}
use ack_ws_s3files_controlle.Tags.{Tag}

-- The loop that takes from `removed` every key that is in `added`.
pub drop_added : GoMap → GoMap → GoMap → GoMap
drop_added [] added removed = removed
drop_added ((key, _) ∷ entries) added removed =
    drop_added entries added (if is_some (lookup key added) then delete key removed else removed)

abbrev pub sdk_tag : String × String → SdkTag
sdk_tag (key, val) = record { key = some key; value = some val }

abbrev pub key_of : String × String → String
key_of (key, _) = key

module _ {S E : Type 0} (rt : Runtime E) (sdkapi : Service S E) where
  unfoldable pub add_tags : Option String → GoMap → Exec S E Unit
  add_tags resource_id added =
      if is_empty added
      then pure tt
      else call "UPDATE" "TagResource"
          (sdkapi.tag_resource resource_id (map sdk_tag (rt.range added)))

  unfoldable pub remove_tags : Option String → GoMap → Exec S E Unit
  remove_tags resource_id removed =
      if is_empty removed
      then pure tt
      else call "UPDATE" "UntagResource"
          (sdkapi.untag_resource resource_id (map key_of (rt.range removed)))

  -- `Tags`
  unfoldable pub sync_tags :
      (Option (List Tag) → GoMap × List String)
      → Option (List Tag)
      → Option (List Tag)
      → Option String
      → Exec S E Unit
  unfolding add_tags remove_tags drop_added
  sync_tags to_ack_tags desired_tags latest_tags resource_id =
      let from = (to_ack_tags latest_tags).0 in
      let to = (to_ack_tags desired_tags).0 in
      let (added, _, removed) = rt.get_tags_difference from to in
      add_tags resource_id added
      >> remove_tags resource_id (drop_added (rt.range removed) added removed)
