-- ===== src/MountTarget/Types.antt =====
-- The MountTarget custom resource (apis/v1alpha1/mount_target.go).
use ack_ws_s3files_controlle.Prelude.{refl, String, Option, List}
use ack_ws_s3files_controlle.Ack.{Condition, ResourceMetadata, Reference, ObjectMeta}
use ack_ws_s3files_controlle.Kinds.{Kind, IsKind}

pub record MountTargetSpec : Type 0 where
  pub file_system_id : Option String
  pub file_system_ref : Option Reference
  pub ip_address_type : Option String
  pub ipv4_address : Option String
  pub ipv6_address : Option String
  pub security_group_refs : Option (List (Option Reference))
  pub security_groups : Option (List (Option String))
  pub subnet_id : Option String
  pub subnet_ref : Option Reference

pub record MountTargetStatus : Type 0 where
  pub ack_resource_metadata : Option ResourceMetadata
  pub conditions : Option (List Condition)
  pub availability_zone_id : Option String
  pub id : Option String
  pub network_interface_id : Option String
  pub owner_id : Option String
  pub status : Option String
  pub status_message : Option String
  pub vpc_id : Option String

pub record MountTarget : Type 0 where
  pub metadata : ObjectMeta
  pub spec : MountTargetSpec
  pub status : MountTargetStatus

-- The places of the spec and of the status that every kind has.
abbrev pub mount_target_kind : Kind MountTarget MountTargetSpec
mount_target_kind = record {
  spec = λ r. r.spec;
  metadata = λ r. r.status.ack_resource_metadata;
  conditions = λ r. r.status.conditions;
  with_status = λ r md cs. record r {
    status = record (r.status) { ack_resource_metadata = md; conditions = cs };
  };
}

pub mount_target_kind-IsKind : IsKind mount_target_kind
mount_target_kind-IsKind = record { conditions = λ r md cs. refl; spec = λ r md cs. refl }
