-- ===== src/Manager.antt =====
-- The resource manager of a resource kind (the struct of pkg/resource/file_system/manager.go, the
-- same in the other kinds), and the steps that the kinds share.
use ack_ws_s3files_controlle.Prelude.{
  String, Bool, Option, none, some, List, elements, if◌then◌else◌, ◌==◌,
}
use Prim.Native.String.{◌++◌}
use ack_ws_s3files_controlle.Ack.{Runtime, ResourceMetadata, Condition}
use ack_ws_s3files_controlle.Aws.{Service}

-- The fields that the methods read. `runtime` stands for the packages of the ACK runtime.
pub record ResourceManager (S E : Type 0) : Type 0 where
  pub runtime : Runtime E
  pub sdkapi : Service S E
  pub enable_cross_namespace : Bool
  pub aws_account_id : String
  pub aws_region : String
  pub aws_partition : String

abbrev pub empty_metadata : ResourceMetadata
empty_metadata = record { arn = none; owner_account_id = none; partition = none; region = none }

-- `if m == nil { m = &ResourceMetadata{} }`
abbrev pub ensure_metadata : Option ResourceMetadata → ResourceMetadata
ensure_metadata none = empty_metadata
ensure_metadata (some m) = m

-- `if p == nil { p = &v }`
abbrev pub default_to : String → Option String → Option String
default_to v none = some v
default_to v (some x) = some x

-- `if p != nil { q = p }`
abbrev pub keep_unless : Option String → Option String → Option String
keep_unless none old = old
keep_unless (some x) old = some x

-- The metadata part of `setStatusDefaults`.
unfoldable pub default_metadata :
    {S E : Type 0} → ResourceManager S E → Option ResourceMetadata → ResourceMetadata
default_metadata rm md = record {
  arn = (ensure_metadata md).arn;
  owner_account_id = default_to rm.aws_account_id (ensure_metadata md).owner_account_id;
  partition = default_to rm.aws_partition (ensure_metadata md).partition;
  region = default_to rm.aws_region (ensure_metadata md).region;
}

-- `if resp.Status != "" { s = &resp.Status } else { s = nil }`
abbrev pub text_or_nil : String → Option String
text_or_nil s = if s == "" then none else some s

-- A nil list of conditions becomes an empty one.
abbrev pub ensure_conditions : Option (List Condition) → Option (List Condition)
ensure_conditions cs = some (elements cs)

-- `ARNFromName`
unfoldable pub arn_from_name : {S E : Type 0} → ResourceManager S E → String → String
arn_from_name rm name =
    "arn:"
    ++ (rm.aws_partition
        ++ (":s3files:" ++ (rm.aws_region ++ (":" ++ (rm.aws_account_id ++ (":" ++ name))))))
