-- ===== src/FileSystem/Types.antt =====
-- The FileSystem custom resource (apis/v1alpha1/file_system.go) and the rules of types.go. A nil
-- pointer or slice is `none`; an int64 is its two's complement bit pattern.
use ack_ws_s3files_controlle.Prelude.{refl, ℕ, String, Bool, Option, List}
use ack_ws_s3files_controlle.Ack.{Condition, ResourceMetadata, Reference, ObjectMeta}
use ack_ws_s3files_controlle.Kinds.{Kind, IsKind}
use ack_ws_s3files_controlle.Tags.{Tag}

pub record ImportDataRule : Type 0 where
  pub prefix : Option String
  pub size_less_than : Option ℕ
  pub trigger : Option String

pub record ExpirationDataRule : Type 0 where
  pub days_after_last_access : Option ℕ

pub record FileSystemSpec : Type 0 where
  pub accept_bucket_warning : Option Bool
  pub bucket : Option String
  pub bucket_ref : Option Reference
  pub expiration_data_rules : Option (List ExpirationDataRule)
  pub import_data_rules : Option (List ImportDataRule)
  pub kms_key_id : Option String
  pub kms_key_ref : Option Reference
  pub policy : Option String
  pub prefix : Option String
  pub role_arn : Option String
  pub role_ref : Option Reference
  pub tags : Option (List Tag)

pub record FileSystemStatus : Type 0 where
  pub ack_resource_metadata : Option ResourceMetadata
  pub conditions : Option (List Condition)
  pub creation_time : Option ℕ
  pub file_system_id : Option String
  pub latest_version_number : Option ℕ
  pub name : Option String
  pub owner_id : Option String
  pub status : Option String
  pub status_message : Option String

pub record FileSystem : Type 0 where
  pub metadata : ObjectMeta
  pub spec : FileSystemSpec
  pub status : FileSystemStatus

-- The places of the spec and of the status that every kind has.
abbrev pub file_system_kind : Kind FileSystem FileSystemSpec
file_system_kind = record {
  spec = λ r. r.spec;
  metadata = λ r. r.status.ack_resource_metadata;
  conditions = λ r. r.status.conditions;
  with_status = λ r md cs. record r {
    status = record (r.status) { ack_resource_metadata = md; conditions = cs };
  };
}

pub file_system_kind-IsKind : IsKind file_system_kind
file_system_kind-IsKind = record { conditions = λ r md cs. refl; spec = λ r md cs. refl }
