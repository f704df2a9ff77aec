-- ===== src/AccessPoint/Types.antt =====
-- The AccessPoint custom resource (apis/v1alpha1/access_point.go) and its parts in types.go.
use ack_ws_s3files_controlle.Prelude.{refl, ℕ, String, Option, List}
use ack_ws_s3files_controlle.Ack.{Condition, ResourceMetadata, Reference, ObjectMeta}
use ack_ws_s3files_controlle.Kinds.{Kind, IsKind}
use ack_ws_s3files_controlle.Tags.{Tag}

pub record CreationPermissions : Type 0 where
  pub owner_gid : Option ℕ
  pub owner_uid : Option ℕ
  pub permissions : Option String

pub record PosixUser : Type 0 where
  pub gid : Option ℕ
  pub secondary_gids : Option (List (Option ℕ))
  pub uid : Option ℕ

pub record RootDirectory : Type 0 where
  pub creation_permissions : Option CreationPermissions
  pub path : Option String

pub record AccessPointSpec : Type 0 where
  pub file_system_id : Option String
  pub file_system_ref : Option Reference
  pub posix_user : Option PosixUser
  pub root_directory : Option RootDirectory
  pub tags : Option (List Tag)

pub record AccessPointStatus : Type 0 where
  pub ack_resource_metadata : Option ResourceMetadata
  pub conditions : Option (List Condition)
  pub id : Option String
  pub name : Option String
  pub owner_id : Option String
  pub status : Option String

pub record AccessPoint : Type 0 where
  pub metadata : ObjectMeta
  pub spec : AccessPointSpec
  pub status : AccessPointStatus

-- The places of the spec and of the status that every kind has.
abbrev pub access_point_kind : Kind AccessPoint AccessPointSpec
access_point_kind = record {
  spec = λ r. r.spec;
  metadata = λ r. r.status.ack_resource_metadata;
  conditions = λ r. r.status.conditions;
  with_status = λ r md cs. record r {
    status = record (r.status) { ack_resource_metadata = md; conditions = cs };
  };
}

pub access_point_kind-IsKind : IsKind access_point_kind
access_point_kind-IsKind = record { conditions = λ r md cs. refl; spec = λ r md cs. refl }
