-- ===== src/MountTarget/Resolve.antt =====
-- What the resolution of the references of a MountTarget gives
-- (pkg/resource/mount_target/references.go).
use ack_ws_s3files_controlle.Prelude.{
  String, false, Bool, ◌||◌, ◌≡◌, refl, ap, subst, ◌∙◌, sym, Option, none, List, elements, arith,
}
use ack_ws_s3files_controlle.Manager.{ResourceManager}
use ack_ws_s3files_controlle.References.{Resolution, refers, resolve_field}
use ack_ws_s3files_controlle.References.Fields.{Resolved, resolve_field-Taken, resolve_field_keeps}
use ack_ws_s3files_controlle.References.Laws.{
  IsResolved, resolve_reference-Resolved, resolve_reference_forgotten,
}
use ack_ws_s3files_controlle.FileSystem.References.{file_system_target}
use ack_ws_s3files_controlle.MountTarget.Types.{MountTarget}
use ack_ws_s3files_controlle.MountTarget.References.{
  ApiReader, subnet_target, with_file_system_id, with_subnet_id, clear_resolved_references,
  validate_reference_fields, get_referenced_resource_state_file_system,
  get_referenced_resource_state_subnet, resolve_reference_for_file_system_id,
  resolve_reference_for_security_groups, resolve_reference_for_subnet_id, resolve_references,
}
use ack_ws_s3files_controlle.MountTarget.Groups.{
  appended, with_added, any_refers, ReadsAll, resolve_reference_for_security_groups-Resolved,
  clear-resolve_reference_for_security_groups,
}

three : (a b c : Bool) → (((false || a) || b) || c) ≡ (a || b || c)
three a b c = ground (arith)

module _ {S E : Type 0} (rm : ResourceManager S E) (reader : ApiReader E) (ko : MountTarget) where
  abbrev HasFileSystemId : Option String → Type 0
  HasFileSystemId =
      IsResolved rm.runtime file_system_target rm.enable_cross_namespace ko.metadata.namespace
        reader.get_file_system ko.spec.file_system_ref ko.spec.file_system_id

  file_system_id-Resolved :
      (resolve_reference_for_file_system_id rm reader ko).error ≡ none
      → Resolved with_file_system_id HasFileSystemId
          (refers ko.spec.file_system_ref)
          ko
          (resolve_reference_for_file_system_id rm reader ko)
  unfolding resolve_reference_for_file_system_id get_referenced_resource_state_file_system
  file_system_id-Resolved h =
      resolve_reference-Resolved rm.runtime file_system_target rm.enable_cross_namespace
        ko.metadata.namespace reader.get_file_system with_file_system_id "FileSystemRef"
        ko.spec.file_system_ref ko.spec.file_system_id ko refl h

  clear-file_system_id :
      clear_resolved_references (resolve_reference_for_file_system_id rm reader ko).resource
      ≡ clear_resolved_references ko
  unfolding clear_resolved_references resolve_reference_for_file_system_id
      get_referenced_resource_state_file_system
  clear-file_system_id =
      resolve_reference_forgotten rm.runtime file_system_target rm.enable_cross_namespace
        ko.metadata.namespace reader.get_file_system with_file_system_id clear_resolved_references
        "FileSystemRef" ko.spec.file_system_ref ko λ v e. rw (e) refl

  abbrev HasSubnetId : Option String → Type 0
  HasSubnetId =
      IsResolved rm.runtime subnet_target rm.enable_cross_namespace ko.metadata.namespace
        reader.get_subnet ko.spec.subnet_ref ko.spec.subnet_id

  subnet_id-Resolved :
      (resolve_reference_for_subnet_id rm reader ko).error ≡ none
      → Resolved with_subnet_id HasSubnetId
          (refers ko.spec.subnet_ref)
          ko
          (resolve_reference_for_subnet_id rm reader ko)
  unfolding resolve_reference_for_subnet_id get_referenced_resource_state_subnet
  subnet_id-Resolved h =
      resolve_reference-Resolved rm.runtime subnet_target rm.enable_cross_namespace
        ko.metadata.namespace reader.get_subnet with_subnet_id "SubnetRef" ko.spec.subnet_ref
        ko.spec.subnet_id ko refl h

  clear-subnet_id :
      clear_resolved_references (resolve_reference_for_subnet_id rm reader ko).resource
      ≡ clear_resolved_references ko
  unfolding clear_resolved_references resolve_reference_for_subnet_id
      get_referenced_resource_state_subnet
  clear-subnet_id =
      resolve_reference_forgotten rm.runtime subnet_target rm.enable_cross_namespace
        ko.metadata.namespace reader.get_subnet with_subnet_id clear_resolved_references "SubnetRef"
        ko.spec.subnet_ref ko λ v e. rw (e) refl

  -- The result of a resolution without an error: the resource was valid, every field with a
  -- reference has the id of a usable object, the groups that are referred to stand after the old
  -- ones in their order, and nothing else changed.
  pub record ResolvesTarget (out : Resolution E MountTarget) : Type 0 where
    pub valid : validate_reference_fields rm ko ≡ none
    pub file_system_id :
        IsResolved rm.runtime file_system_target rm.enable_cross_namespace ko.metadata.namespace
          reader.get_file_system ko.spec.file_system_ref ko.spec.file_system_id
          out.resource.spec.file_system_id
    pub group_ids : List (Option String)
    pub groups_read :
        ReadsAll rm reader ko.metadata.namespace (elements ko.spec.security_group_refs) group_ids
    pub security_groups :
        out.resource.spec.security_groups ≡ appended ko.spec.security_groups group_ids
    pub subnet_id :
        IsResolved rm.runtime subnet_target rm.enable_cross_namespace ko.metadata.namespace
          reader.get_subnet ko.spec.subnet_ref ko.spec.subnet_id out.resource.spec.subnet_id
    pub has_references : out.has_references ≡ (
        refers ko.spec.file_system_ref
        || any_refers (elements ko.spec.security_group_refs)
        || refers ko.spec.subnet_ref)
    pub others :
        out.resource
        ≡ with_subnet_id
            (with_added (with_file_system_id ko out.resource.spec.file_system_id) group_ids)
            out.resource.spec.subnet_id

  abbrev last_stage : MountTarget → Bool → Resolution E MountTarget
  last_stage r has = record {
    resource = r;
    has_references = has;
    error = validate_reference_fields rm ko;
  }

  abbrev subnet_stage : MountTarget → Bool → Resolution E MountTarget
  subnet_stage = resolve_field (resolve_reference_for_subnet_id rm reader) last_stage

  abbrev groups_stage : MountTarget → Bool → Resolution E MountTarget
  groups_stage = resolve_field (resolve_reference_for_security_groups rm reader) subnet_stage

module _ {S E : Type 0} (rm : ResourceManager S E) (reader : ApiReader E) where
  abbrev error_of : Resolution E MountTarget → Option E
  error_of out = out.error

  -- A resolution that reports no error was asked for a valid mount target, took the file system, the
  -- subnet and each security group that is referred to from synced and not terminal objects that the
  -- reader finds, put the groups after those that stood there in the order of their references, left
  -- everything else as it was, and reports whether there was a reference.
  pub resolve_references-ResolvesTarget :
      (ko : MountTarget)
      → (resolve_references rm reader ko).error ≡ none
      → ResolvesTarget rm reader ko (resolve_references rm reader ko)
  unfolding resolve_references
  resolve_references-ResolvesTarget ko h =
      let refs = elements ko.spec.security_group_refs in
      let t1 =
        resolve_field-Taken (resolve_reference_for_file_system_id rm reader)
          (groups_stage rm reader ko) ko false with_file_system_id (HasFileSystemId rm reader ko)
          (refers ko.spec.file_system_ref) (file_system_id-Resolved rm reader ko) h in
      let r1 = with_file_system_id ko t1.value in
      let t2 =
        resolve_field-Taken (resolve_reference_for_security_groups rm reader)
          (subnet_stage rm reader ko) r1 (false || refers ko.spec.file_system_ref) with_added
          (ReadsAll rm reader ko.metadata.namespace refs) (any_refers refs)
          (resolve_reference_for_security_groups-Resolved rm reader r1)
          (ap error_of (sym t1.rest) ∙ h) in
      let r2 = with_added r1 t2.value in
      let t3 =
        resolve_field-Taken (resolve_reference_for_subnet_id rm reader) (last_stage rm reader ko) r2
          ((false || refers ko.spec.file_system_ref) || any_refers refs) with_subnet_id
          (HasSubnetId rm reader r2) (refers ko.spec.subnet_ref) (subnet_id-Resolved rm reader r2)
          (ap error_of (sym (t1.rest ∙ t2.rest)) ∙ h) in
      let out = t1.rest ∙ (t2.rest ∙ t3.rest) in
      subst (ResolvesTarget rm reader ko) (sym out) (record {
        valid = ap error_of (sym out) ∙ h;
        file_system_id = t1.from;
        group_ids = t2.value;
        groups_read = t2.from;
        security_groups = refl;
        subnet_id = t3.from;
        has_references =
            three (refers ko.spec.file_system_ref) (any_refers refs) (refers ko.spec.subnet_ref);
        others = refl;
      })

  -- What a resolution sets in a mount target, clearing the references takes away again, also where
  -- the resolution ends with an error in the middle of the security groups.
  pub clear-resolve_mount_target :
      (ko : MountTarget)
      → clear_resolved_references (resolve_references rm reader ko).resource
        ≡ clear_resolved_references ko
  unfolding resolve_references
  clear-resolve_mount_target ko =
      resolve_field_keeps (resolve_reference_for_file_system_id rm reader) _ ko false
        clear_resolved_references (clear-file_system_id rm reader ko)
        λ r1 b1.
          resolve_field_keeps (resolve_reference_for_security_groups rm reader) _ r1 b1
            clear_resolved_references (clear-resolve_reference_for_security_groups rm reader r1)
            λ r2 b2.
              resolve_field_keeps (resolve_reference_for_subnet_id rm reader) _ r2 b2
                clear_resolved_references (clear-subnet_id rm reader r2) λ r3 b3. refl
