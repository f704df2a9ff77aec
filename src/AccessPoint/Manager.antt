-- ===== src/AccessPoint/Manager.antt =====
-- The resource manager's methods for an AccessPoint (pkg/resource/access_point/manager.go, the same
-- text as that of the file systems).
use ack_ws_s3files_controlle.Prelude.{String, Bool, Option, none, some, List, [], GoMap}
use ack_ws_s3files_controlle.Ack.{Condition, Delta, Returned, World, Runtime}
use ack_ws_s3files_controlle.Tags.{
  convert_to_ordered_ack_tags, from_ack_tags, ignore_system_tags, sync_aws_tags,
}
use ack_ws_s3files_controlle.Kinds
use ack_ws_s3files_controlle.Manager
use ack_ws_s3files_controlle.Manager.{ResourceManager}
use ack_ws_s3files_controlle.AccessPoint.Types.{access_point_kind, AccessPoint}
use ack_ws_s3files_controlle.AccessPoint.Sdk.{sdk_find, sdk_create, sdk_delete}
use ack_ws_s3files_controlle.AccessPoint.Hooks.{custom_update_access_point}

abbrev pub conditions_of : AccessPoint → List Condition
conditions_of = Kinds.listed access_point_kind

-- `IsSynced`
abbrev pub is_synced : AccessPoint → Bool
is_synced r = Kinds.is_available r.status.status

module _ {E : Type 0} (rt : Runtime E) where
  -- `mirrorAWSTags`, on the desired resource; `none` is a nil latest resource.
  unfoldable pub mirror_aws_tags : AccessPoint → Option AccessPoint → AccessPoint
  mirror_aws_tags a none = a
  mirror_aws_tags a (some b) =
      let (desired_tags, desired_tag_key_order) = convert_to_ordered_ack_tags a.spec.tags in
      let latest_tags = (convert_to_ordered_ack_tags b.spec.tags).0 in
      record a {
        spec = record (a.spec) {
          tags =
              from_ack_tags rt.range (sync_aws_tags rt.range desired_tags latest_tags)
                desired_tag_key_order;
        };
      }

  unfoldable pub filter_system_tags : List String → AccessPoint → AccessPoint
  filter_system_tags system_tags r =
      let (resource_tags, tag_key_order) = convert_to_ordered_ack_tags r.spec.tags in
      record r {
        spec = record (r.spec) {
          tags =
              from_ack_tags rt.range (ignore_system_tags rt.range resource_tags system_tags)
                tag_key_order;
        };
      }

  -- `EnsureTags`; the default tags come from the runtime.
  unfoldable pub ensure_tags : GoMap → AccessPoint → AccessPoint
  ensure_tags default_tags r =
      let (resource_tags, key_order) = convert_to_ordered_ack_tags r.spec.tags in
      record r {
        spec = record (r.spec) {
          tags = from_ack_tags rt.range (rt.merge resource_tags default_tags) key_order;
        };
      }

module _ {S E : Type 0} (rm : ResourceManager S E) where
  abbrev pub on_error : Option AccessPoint → E → Returned E AccessPoint
  on_error = Kinds.on_error access_point_kind rm

  abbrev pub on_success : Option AccessPoint → Returned E AccessPoint
  on_success = Kinds.on_success access_point_kind rm

  -- `ReadOne`: the argument, with the AWS tags mirrored into it, and what is returned.
  unfoldable pub read_one :
      AccessPoint → World S E → (AccessPoint × Returned E AccessPoint) × World S E
  read_one = Kinds.read_one_by access_point_kind rm (sdk_find rm) (mirror_aws_tags rm.runtime)

  unfoldable pub create : AccessPoint → World S E → Returned E AccessPoint × World S E
  create r = Kinds.report_by access_point_kind rm r (sdk_create rm r)

  -- `Update`, of which `sdkUpdate` is the custom update.
  unfoldable pub update :
      AccessPoint → AccessPoint → Delta → World S E → Returned E AccessPoint × World S E
  update desired latest delta =
      Kinds.report_by access_point_kind rm latest
        (custom_update_access_point rm desired latest delta)

  -- `Delete`
  unfoldable pub delete : AccessPoint → World S E → Returned E AccessPoint × World S E
  delete = Kinds.delete_by access_point_kind rm (sdk_delete rm)

  -- `LateInitialize`: `lateInitializeFieldNames` is empty.
  unfoldable pub late_initialize : AccessPoint → World S E → Returned E AccessPoint × World S E
  late_initialize = Kinds.late_initialize_by access_point_kind rm [] read_one

  abbrev pub arn_from_name : String → String
  arn_from_name = Manager.arn_from_name rm
