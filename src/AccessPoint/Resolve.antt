-- ===== src/AccessPoint/Resolve.antt =====
-- What the resolution of the reference of an AccessPoint gives
-- (pkg/resource/access_point/references.go).
use ack_ws_s3files_controlle.Prelude.{false, Bool, ◌≡◌, refl, ap, subst, ◌∙◌, sym, Option, none}
use ack_ws_s3files_controlle.Manager.{ResourceManager}
use ack_ws_s3files_controlle.References.{Getter, Resolution, refers}
use ack_ws_s3files_controlle.References.Fields.{resolve_field-Taken, resolve_field_keeps}
use ack_ws_s3files_controlle.References.Laws.{
  IsResolved, resolve_reference-Resolved, resolve_reference_forgotten,
}
use ack_ws_s3files_controlle.FileSystem.Types.{FileSystem}
use ack_ws_s3files_controlle.FileSystem.References.{file_system_target}
use ack_ws_s3files_controlle.AccessPoint.Types.{AccessPoint}
use ack_ws_s3files_controlle.AccessPoint.References.{
  with_file_system_id, clear_resolved_references, validate_reference_fields,
  get_referenced_resource_state_file_system, resolve_reference_for_file_system_id,
  resolve_references,
}

module _ {S E : Type 0} (rm : ResourceManager S E) (get : Getter E FileSystem)
    (ko : AccessPoint) where
  -- The result of a resolution without an error: the resource was valid, its file system is the one
  -- that the reference names, if there is one, and nothing else changed.
  pub record ResolvesFileSystem (out : Resolution E AccessPoint) : Type 0 where
    pub valid : validate_reference_fields rm ko ≡ none
    pub file_system_id :
        IsResolved rm.runtime file_system_target rm.enable_cross_namespace ko.metadata.namespace get
          ko.spec.file_system_ref ko.spec.file_system_id out.resource.spec.file_system_id
    pub has_references : out.has_references ≡ refers ko.spec.file_system_ref
    pub others : out.resource ≡ with_file_system_id ko out.resource.spec.file_system_id

  abbrev last_stage : AccessPoint → Bool → Resolution E AccessPoint
  last_stage r has = record {
    resource = r;
    has_references = has;
    error = validate_reference_fields rm ko;
  }

  abbrev error_of : Resolution E AccessPoint → Option E
  error_of out = out.error

  -- A resolution that reports no error was asked for a valid access point, took the id of the file
  -- system from a synced and not terminal FileSystem that the reader finds, where there is a
  -- reference, and left everything else as it was.
  pub resolve_references-ResolvesFileSystem :
      (resolve_references rm get ko).error ≡ none
      → ResolvesFileSystem (resolve_references rm get ko)
  unfolding resolve_references resolve_reference_for_file_system_id
      get_referenced_resource_state_file_system
  resolve_references-ResolvesFileSystem h =
      let ref = ko.spec.file_system_ref in
      let namespace = ko.metadata.namespace in
      let t =
        resolve_field-Taken (resolve_reference_for_file_system_id rm get) last_stage ko false
          with_file_system_id
          (IsResolved rm.runtime file_system_target rm.enable_cross_namespace namespace get ref
            ko.spec.file_system_id)
          (refers ref)
          (resolve_reference-Resolved rm.runtime file_system_target rm.enable_cross_namespace
            namespace get with_file_system_id "FileSystemRef" ref ko.spec.file_system_id ko refl)
          h in
      subst ResolvesFileSystem (sym t.rest) (record {
        valid = ap error_of (sym t.rest) ∙ h;
        file_system_id = t.from;
        has_references = refl;
        others = refl;
      })

  -- What a resolution sets in an access point, clearing the reference takes away again, also where
  -- the resolution ends with an error.
  pub clear-resolve_file_system :
      clear_resolved_references (resolve_references rm get ko).resource
      ≡ clear_resolved_references ko
  unfolding resolve_references clear_resolved_references resolve_reference_for_file_system_id
      get_referenced_resource_state_file_system
  clear-resolve_file_system =
      resolve_field_keeps (resolve_reference_for_file_system_id rm get) _ ko false
        clear_resolved_references
        (resolve_reference_forgotten rm.runtime file_system_target rm.enable_cross_namespace
          ko.metadata.namespace get with_file_system_id clear_resolved_references "FileSystemRef"
          ko.spec.file_system_ref ko λ v e. rw (e) refl)
        λ r b. refl
