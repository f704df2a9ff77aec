-- ===== src/MountTarget/Manager.antt =====
-- The resource manager's methods for a MountTarget (pkg/resource/mount_target/manager.go, the text
-- of the other kinds but for the tags, of which a mount target has none).
use ack_ws_s3files_controlle.Prelude.{String, Bool, Option, List, [], GoMap}
use ack_ws_s3files_controlle.Ack.{Condition, Delta, Returned, World}
use ack_ws_s3files_controlle.Kinds
use ack_ws_s3files_controlle.Manager
use ack_ws_s3files_controlle.Manager.{ResourceManager}
use ack_ws_s3files_controlle.MountTarget.Types.{mount_target_kind, MountTarget}
use ack_ws_s3files_controlle.MountTarget.Sdk.{sdk_find, sdk_create, sdk_update, sdk_delete}

abbrev pub conditions_of : MountTarget → List Condition
conditions_of = Kinds.listed mount_target_kind

-- `IsSynced`
abbrev pub is_synced : MountTarget → Bool
is_synced r = Kinds.is_available r.status.status

-- `mirrorAWSTags`, `FilterSystemTags` and `EnsureTags` do nothing.
abbrev pub mirror_aws_tags : MountTarget → Option MountTarget → MountTarget
mirror_aws_tags a b = a

abbrev pub filter_system_tags : List String → MountTarget → MountTarget
filter_system_tags system_tags r = r

abbrev pub ensure_tags : GoMap → MountTarget → MountTarget
ensure_tags default_tags r = r

module _ {S E : Type 0} (rm : ResourceManager S E) where
  abbrev pub on_error : Option MountTarget → E → Returned E MountTarget
  on_error = Kinds.on_error mount_target_kind rm

  abbrev pub on_success : Option MountTarget → Returned E MountTarget
  on_success = Kinds.on_success mount_target_kind rm

  -- `ReadOne`: the argument, and what is returned.
  unfoldable pub read_one :
      MountTarget → World S E → (MountTarget × Returned E MountTarget) × World S E
  read_one = Kinds.read_one_by mount_target_kind rm (sdk_find rm) mirror_aws_tags

  unfoldable pub create : MountTarget → World S E → Returned E MountTarget × World S E
  create r = Kinds.report_by mount_target_kind rm r (sdk_create rm r)

  unfoldable pub update :
      MountTarget → MountTarget → Delta → World S E → Returned E MountTarget × World S E
  update desired latest delta = Kinds.report_by mount_target_kind rm latest (sdk_update rm desired)

  -- `Delete`
  unfoldable pub delete : MountTarget → World S E → Returned E MountTarget × World S E
  delete = Kinds.delete_by mount_target_kind rm (sdk_delete rm)

  -- `LateInitialize`: `lateInitializeFieldNames` is empty.
  unfoldable pub late_initialize : MountTarget → World S E → Returned E MountTarget × World S E
  late_initialize = Kinds.late_initialize_by mount_target_kind rm [] read_one

  abbrev pub arn_from_name : String → String
  arn_from_name = Manager.arn_from_name rm
