-- ===== src/FileSystem/Manager.antt =====
-- The resource manager's methods for a FileSystem (pkg/resource/file_system/manager.go). A method
-- that mutates its argument returns it. The panics on a nil custom resource have no counterpart: a
-- resource here always has one.
use ack_ws_s3files_controlle.Prelude.{String, Bool, Option, none, some, List, [], GoMap}
use ack_ws_s3files_controlle.Ack.{Condition, Delta, Runtime, Returned, World}
use ack_ws_s3files_controlle.Tags.{
  Tag, convert_to_ordered_ack_tags, from_ack_tags, ignore_system_tags, sync_aws_tags,
}
use ack_ws_s3files_controlle.Kinds
use ack_ws_s3files_controlle.Manager
use ack_ws_s3files_controlle.Manager.{ResourceManager}
use ack_ws_s3files_controlle.FileSystem.Types.{file_system_kind, FileSystem}
use ack_ws_s3files_controlle.FileSystem.Sdk.{sdk_find, sdk_create, sdk_delete}
use ack_ws_s3files_controlle.FileSystem.Hooks.{sdk_update}

abbrev pub conditions_of : FileSystem → List Condition
conditions_of = Kinds.listed file_system_kind

abbrev pub with_tags : Option (List Tag) → FileSystem → FileSystem
with_tags tags r = record r { spec = record (r.spec) { tags = tags } }

-- `IsSynced`
abbrev pub is_synced : FileSystem → Bool
is_synced r = Kinds.is_available r.status.status

module _ {E : Type 0} (rt : Runtime E) where
  -- `mirrorAWSTags`, on the desired resource; `none` is a nil latest resource.
  unfoldable pub mirror_aws_tags : FileSystem → Option FileSystem → FileSystem
  mirror_aws_tags a none = a
  mirror_aws_tags a (some b) =
      let (desired_tags, desired_tag_key_order) = convert_to_ordered_ack_tags a.spec.tags in
      let latest_tags = (convert_to_ordered_ack_tags b.spec.tags).0 in
      with_tags
        (from_ack_tags rt.range (sync_aws_tags rt.range desired_tags latest_tags)
          desired_tag_key_order)
        a

  unfoldable pub filter_system_tags : List String → FileSystem → FileSystem
  filter_system_tags system_tags r =
      let (resource_tags, tag_key_order) = convert_to_ordered_ack_tags r.spec.tags in
      with_tags
        (from_ack_tags rt.range (ignore_system_tags rt.range resource_tags system_tags)
          tag_key_order)
        r

  -- `EnsureTags`; the default tags come from the runtime.
  unfoldable pub ensure_tags : GoMap → FileSystem → FileSystem
  ensure_tags default_tags r =
      let (resource_tags, key_order) = convert_to_ordered_ack_tags r.spec.tags in
      with_tags (from_ack_tags rt.range (rt.merge resource_tags default_tags) key_order) r

module _ {S E : Type 0} (rm : ResourceManager S E) where
  abbrev pub on_error : Option FileSystem → E → Returned E FileSystem
  on_error = Kinds.on_error file_system_kind rm

  abbrev pub on_success : Option FileSystem → Returned E FileSystem
  on_success = Kinds.on_success file_system_kind rm

  -- `ReadOne`: the argument, with the AWS tags mirrored into it, and what is returned.
  unfoldable pub read_one :
      FileSystem → World S E → (FileSystem × Returned E FileSystem) × World S E
  read_one = Kinds.read_one_by file_system_kind rm (sdk_find rm) (mirror_aws_tags rm.runtime)

  unfoldable pub create : FileSystem → World S E → Returned E FileSystem × World S E
  create r = Kinds.report_by file_system_kind rm r (sdk_create rm r)

  unfoldable pub update :
      FileSystem → FileSystem → Delta → World S E → Returned E FileSystem × World S E
  update desired latest delta =
      Kinds.report_by file_system_kind rm latest (sdk_update rm desired latest delta)

  -- `Delete`
  unfoldable pub delete : FileSystem → World S E → Returned E FileSystem × World S E
  delete = Kinds.delete_by file_system_kind rm (sdk_delete rm)

  -- `LateInitialize`: `lateInitializeFieldNames` is empty.
  unfoldable pub late_initialize : FileSystem → World S E → Returned E FileSystem × World S E
  late_initialize = Kinds.late_initialize_by file_system_kind rm [] read_one

  abbrev pub arn_from_name : String → String
  arn_from_name = Manager.arn_from_name rm
