-- ===== src/MountTarget/References.antt =====
-- The references of a MountTarget to its file system, its security groups and its subnet
-- (pkg/resource/mount_target/references.go).
use ack_ws_s3files_controlle.Prelude.{
  String, Bool, false, not, Option, none, some, List, [], ◌∷◌, ◌++◌, elements, is_empty,
  if◌then◌else◌, is_some,
}
use ack_ws_s3files_controlle.Ack.{Reply, Reference}
use ack_ws_s3files_controlle.Manager.{ResourceManager}
use ack_ws_s3files_controlle.References.{
  Target, IdObject, id_target, Getter, get_referenced_resource_state, resolve_reference, Resolution,
  resolve_field, both_error, neither_error,
}
use ack_ws_s3files_controlle.FileSystem.Types.{FileSystem}
use ack_ws_s3files_controlle.FileSystem.References.{file_system_target}
use ack_ws_s3files_controlle.MountTarget.Types.{MountTarget}

-- `client.Reader` at the three kinds; the security groups and subnets are those of the EC2
-- controller.
pub record ApiReader (E : Type 0) : Type 0 where
  pub get_file_system : Getter E FileSystem
  pub get_security_group : Getter E IdObject
  pub get_subnet : Getter E IdObject

abbrev pub security_group_target : Target IdObject
security_group_target = id_target "SecurityGroup" "Status.ID"

abbrev pub subnet_target : Target IdObject
subnet_target = id_target "Subnet" "Status.SubnetID"

abbrev pub with_file_system_id : MountTarget → Option String → MountTarget
with_file_system_id ko v = record ko { spec = record (ko.spec) { file_system_id = v } }

abbrev pub with_subnet_id : MountTarget → Option String → MountTarget
with_subnet_id ko v = record ko { spec = record (ko.spec) { subnet_id = v } }

-- `append(groups, id)`, of a slice that is made where there is none.
unfoldable pub add_security_group : MountTarget → Option String → MountTarget
add_security_group ko id = record ko {
  spec = record (ko.spec) { security_groups = some (elements ko.spec.security_groups ++ id ∷ []) };
}

abbrev pub has_groups : {A : Type 0} → Option (List A) → Bool
has_groups groups = not (is_empty (elements groups))

unfoldable pub clear_resolved_references : MountTarget → MountTarget
clear_resolved_references ko = record ko {
  spec = record (ko.spec) {
    file_system_id = if is_some ko.spec.file_system_ref then none else ko.spec.file_system_id;
    security_groups =
        if has_groups ko.spec.security_group_refs then none else ko.spec.security_groups;
    subnet_id = if is_some ko.spec.subnet_ref then none else ko.spec.subnet_id;
  };
}

module _ {S E : Type 0} (rm : ResourceManager S E) where
  unfoldable pub validate_reference_fields : MountTarget → Option E
  validate_reference_fields ko =
      let has_file_system = is_some ko.spec.file_system_id in
      let file_system_ref = is_some ko.spec.file_system_ref in
      let has_subnet = is_some ko.spec.subnet_id in
      let subnet_ref = is_some ko.spec.subnet_ref in
      both_error rm.runtime "FileSystemID" "FileSystemRef" file_system_ref has_file_system (
        neither_error rm.runtime "FileSystemID" "FileSystemRef" file_system_ref has_file_system (
          both_error rm.runtime "SecurityGroups" "SecurityGroupRefs"
            (has_groups ko.spec.security_group_refs) (has_groups ko.spec.security_groups)
            (both_error rm.runtime "SubnetID" "SubnetRef" subnet_ref has_subnet
              (neither_error rm.runtime "SubnetID" "SubnetRef" subnet_ref has_subnet none))))

  module _ (reader : ApiReader E) where
    unfoldable pub get_referenced_resource_state_file_system : String → String → Reply E FileSystem
    get_referenced_resource_state_file_system =
        get_referenced_resource_state rm.runtime file_system_target reader.get_file_system

    unfoldable pub get_referenced_resource_state_security_group : String → String → Reply E IdObject
    get_referenced_resource_state_security_group =
        get_referenced_resource_state rm.runtime security_group_target reader.get_security_group

    unfoldable pub get_referenced_resource_state_subnet : String → String → Reply E IdObject
    get_referenced_resource_state_subnet =
        get_referenced_resource_state rm.runtime subnet_target reader.get_subnet

    unfoldable pub resolve_reference_for_file_system_id : MountTarget → Resolution E MountTarget
    resolve_reference_for_file_system_id ko =
        resolve_reference rm.runtime rm.enable_cross_namespace ko.metadata.namespace "FileSystemRef"
          get_referenced_resource_state_file_system file_system_target.target with_file_system_id
          ko.spec.file_system_ref ko

    -- One turn of the loop over the references to security groups.
    unfoldable pub resolve_security_group :
        Option Reference → MountTarget → Resolution E MountTarget
    resolve_security_group ref ko =
        resolve_reference rm.runtime rm.enable_cross_namespace ko.metadata.namespace
          "SecurityGroupRefs" get_referenced_resource_state_security_group
          security_group_target.target add_security_group ref ko

    unfoldable pub resolve_security_groups :
        List (Option Reference) → MountTarget → Bool → Resolution E MountTarget
    resolve_security_groups [] ko has = record { resource = ko; has_references = has; error = none }
    resolve_security_groups (ref ∷ refs) ko has =
        resolve_field (resolve_security_group ref) (resolve_security_groups refs) ko has

    unfoldable pub resolve_reference_for_security_groups : MountTarget → Resolution E MountTarget
    resolve_reference_for_security_groups ko =
        resolve_security_groups (elements ko.spec.security_group_refs) ko false

    unfoldable pub resolve_reference_for_subnet_id : MountTarget → Resolution E MountTarget
    resolve_reference_for_subnet_id ko =
        resolve_reference rm.runtime rm.enable_cross_namespace ko.metadata.namespace "SubnetRef"
          get_referenced_resource_state_subnet subnet_target.target with_subnet_id
          ko.spec.subnet_ref ko

    -- The error of the validation is returned at the end, after the fields.
    unfoldable pub resolve_references : MountTarget → Resolution E MountTarget
    resolve_references ko =
        let err = validate_reference_fields ko in
        resolve_field resolve_reference_for_file_system_id
          (resolve_field resolve_reference_for_security_groups (
            resolve_field resolve_reference_for_subnet_id
              (λ r has. record { resource = r; has_references = has; error = err })))
          ko false
