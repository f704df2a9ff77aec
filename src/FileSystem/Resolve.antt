-- ===== src/FileSystem/Resolve.antt =====
-- What the resolution of the references of a FileSystem gives
-- (pkg/resource/file_system/references.go).
use ack_ws_s3files_controlle.Prelude.{
  false, String, Bool, ◌||◌, ◌≡◌, refl, ap, subst, ◌∙◌, sym, Option, none, arith,
}
use ack_ws_s3files_controlle.Manager.{ResourceManager}
use ack_ws_s3files_controlle.References.{arn_target, Resolution, refers, resolve_field}
use ack_ws_s3files_controlle.References.Fields.{Resolved, resolve_field-Taken, resolve_field_keeps}
use ack_ws_s3files_controlle.References.Laws.{
  IsResolved, resolve_reference-Resolved, resolve_reference_forgotten,
}
use ack_ws_s3files_controlle.FileSystem.Types.{FileSystem}
use ack_ws_s3files_controlle.FileSystem.References.{
  ApiReader, with_bucket, with_kms_key_id, with_role_arn, clear_resolved_references,
  validate_reference_fields, get_referenced_resource_state_bucket,
  get_referenced_resource_state_key, get_referenced_resource_state_role,
  resolve_reference_for_bucket, resolve_reference_for_kms_key_id, resolve_reference_for_role_arn,
  resolve_references,
}

three : (a b c : Bool) → (((false || a) || b) || c) ≡ (a || b || c)
three a b c = ground (arith)

module _ {S E : Type 0} (rm : ResourceManager S E) (reader : ApiReader E) (ko : FileSystem) where
  abbrev HasBucket : Option String → Type 0
  HasBucket =
      IsResolved rm.runtime (arn_target "Bucket") rm.enable_cross_namespace ko.metadata.namespace
        reader.get_bucket ko.spec.bucket_ref ko.spec.bucket

  bucket-Resolved :
      (resolve_reference_for_bucket rm reader ko).error ≡ none
      → Resolved with_bucket HasBucket
          (refers ko.spec.bucket_ref)
          ko
          (resolve_reference_for_bucket rm reader ko)
  unfolding resolve_reference_for_bucket get_referenced_resource_state_bucket
  bucket-Resolved h =
      resolve_reference-Resolved rm.runtime (arn_target "Bucket") rm.enable_cross_namespace
        ko.metadata.namespace reader.get_bucket with_bucket "BucketRef" ko.spec.bucket_ref
        ko.spec.bucket ko refl h

  abbrev HasKmsKeyId : Option String → Type 0
  HasKmsKeyId =
      IsResolved rm.runtime (arn_target "Key") rm.enable_cross_namespace ko.metadata.namespace
        reader.get_key ko.spec.kms_key_ref ko.spec.kms_key_id

  kms_key_id-Resolved :
      (resolve_reference_for_kms_key_id rm reader ko).error ≡ none
      → Resolved with_kms_key_id HasKmsKeyId
          (refers ko.spec.kms_key_ref)
          ko
          (resolve_reference_for_kms_key_id rm reader ko)
  unfolding resolve_reference_for_kms_key_id get_referenced_resource_state_key
  kms_key_id-Resolved h =
      resolve_reference-Resolved rm.runtime (arn_target "Key") rm.enable_cross_namespace
        ko.metadata.namespace reader.get_key with_kms_key_id "KMSKeyRef" ko.spec.kms_key_ref
        ko.spec.kms_key_id ko refl h

  abbrev HasRoleArn : Option String → Type 0
  HasRoleArn =
      IsResolved rm.runtime (arn_target "Role") rm.enable_cross_namespace ko.metadata.namespace
        reader.get_role ko.spec.role_ref ko.spec.role_arn

  role_arn-Resolved :
      (resolve_reference_for_role_arn rm reader ko).error ≡ none
      → Resolved with_role_arn HasRoleArn
          (refers ko.spec.role_ref)
          ko
          (resolve_reference_for_role_arn rm reader ko)
  unfolding resolve_reference_for_role_arn get_referenced_resource_state_role
  role_arn-Resolved h =
      resolve_reference-Resolved rm.runtime (arn_target "Role") rm.enable_cross_namespace
        ko.metadata.namespace reader.get_role with_role_arn "RoleRef" ko.spec.role_ref
        ko.spec.role_arn ko refl h

  clear-bucket :
      clear_resolved_references (resolve_reference_for_bucket rm reader ko).resource
      ≡ clear_resolved_references ko
  unfolding clear_resolved_references resolve_reference_for_bucket
      get_referenced_resource_state_bucket
  clear-bucket =
      resolve_reference_forgotten rm.runtime (arn_target "Bucket") rm.enable_cross_namespace
        ko.metadata.namespace reader.get_bucket with_bucket clear_resolved_references "BucketRef"
        ko.spec.bucket_ref ko λ v e. rw (e) refl

  clear-kms_key_id :
      clear_resolved_references (resolve_reference_for_kms_key_id rm reader ko).resource
      ≡ clear_resolved_references ko
  unfolding clear_resolved_references resolve_reference_for_kms_key_id
      get_referenced_resource_state_key
  clear-kms_key_id =
      resolve_reference_forgotten rm.runtime (arn_target "Key") rm.enable_cross_namespace
        ko.metadata.namespace reader.get_key with_kms_key_id clear_resolved_references "KMSKeyRef"
        ko.spec.kms_key_ref ko λ v e. rw (e) refl

  clear-role_arn :
      clear_resolved_references (resolve_reference_for_role_arn rm reader ko).resource
      ≡ clear_resolved_references ko
  unfolding clear_resolved_references resolve_reference_for_role_arn
      get_referenced_resource_state_role
  clear-role_arn =
      resolve_reference_forgotten rm.runtime (arn_target "Role") rm.enable_cross_namespace
        ko.metadata.namespace reader.get_role with_role_arn clear_resolved_references "RoleRef"
        ko.spec.role_ref ko λ v e. rw (e) refl

module _ {S E : Type 0} (rm : ResourceManager S E) (reader : ApiReader E) where
  -- The result of a resolution without an error: the resource was valid, every field with a
  -- reference has the ARN of a usable object, and nothing else changed.
  pub record ResolvesAll (ko : FileSystem) (out : Resolution E FileSystem) : Type 0 where
    pub valid : validate_reference_fields rm ko ≡ none
    pub bucket :
        IsResolved rm.runtime
          (arn_target "Bucket")
          rm.enable_cross_namespace
          ko.metadata.namespace
          reader.get_bucket
          ko.spec.bucket_ref
          ko.spec.bucket
          out.resource.spec.bucket
    pub kms_key_id :
        IsResolved rm.runtime
          (arn_target "Key")
          rm.enable_cross_namespace
          ko.metadata.namespace
          reader.get_key
          ko.spec.kms_key_ref
          ko.spec.kms_key_id
          out.resource.spec.kms_key_id
    pub role_arn :
        IsResolved rm.runtime
          (arn_target "Role")
          rm.enable_cross_namespace
          ko.metadata.namespace
          reader.get_role
          ko.spec.role_ref
          ko.spec.role_arn
          out.resource.spec.role_arn
    pub has_references :
        out.has_references
        ≡ (refers ko.spec.bucket_ref || refers ko.spec.kms_key_ref || refers ko.spec.role_ref)
    pub others :
        out.resource
        ≡ with_role_arn
            (with_kms_key_id (with_bucket ko out.resource.spec.bucket) out.resource.spec.kms_key_id)
            out.resource.spec.role_arn

  -- What a resolution sets, clearing the references takes away again, also where the resolution
  -- ends with an error.
  pub clear_resolved_references-resolve_references :
      (ko : FileSystem)
      → clear_resolved_references (resolve_references rm reader ko).resource
        ≡ clear_resolved_references ko
  unfolding resolve_references
  clear_resolved_references-resolve_references ko =
      resolve_field_keeps (resolve_reference_for_bucket rm reader) _ ko false
        clear_resolved_references (clear-bucket rm reader ko)
        λ r1 b1.
          resolve_field_keeps (resolve_reference_for_kms_key_id rm reader) _ r1 b1
            clear_resolved_references (clear-kms_key_id rm reader r1)
            λ r2 b2.
              resolve_field_keeps (resolve_reference_for_role_arn rm reader) _ r2 b2
                clear_resolved_references (clear-role_arn rm reader r2) λ r3 b3. refl

  abbrev last_stage : FileSystem → FileSystem → Bool → Resolution E FileSystem
  last_stage ko r has = record {
    resource = r;
    has_references = has;
    error = validate_reference_fields rm ko;
  }

  abbrev role_stage : FileSystem → FileSystem → Bool → Resolution E FileSystem
  role_stage ko = resolve_field (resolve_reference_for_role_arn rm reader) (last_stage ko)

  abbrev key_stage : FileSystem → FileSystem → Bool → Resolution E FileSystem
  key_stage ko = resolve_field (resolve_reference_for_kms_key_id rm reader) (role_stage ko)

  abbrev error_of : Resolution E FileSystem → Option E
  error_of out = out.error

  -- A resolution that reports no error was asked for a valid resource, took each field with a
  -- reference from a synced and not terminal object that the reader finds, left the other fields as
  -- they were, and reports whether there was a reference.
  pub resolve_references-ResolvesAll :
      (ko : FileSystem)
      → (resolve_references rm reader ko).error ≡ none
      → ResolvesAll ko (resolve_references rm reader ko)
  unfolding resolve_references
  resolve_references-ResolvesAll ko h =
      let t1 =
        resolve_field-Taken (resolve_reference_for_bucket rm reader) (key_stage ko) ko false
          with_bucket (HasBucket rm reader ko) (refers ko.spec.bucket_ref)
          (bucket-Resolved rm reader ko) h in
      let r1 = with_bucket ko t1.value in
      let t2 =
        resolve_field-Taken (resolve_reference_for_kms_key_id rm reader) (role_stage ko) r1
          (false || refers ko.spec.bucket_ref) with_kms_key_id (HasKmsKeyId rm reader r1)
          (refers ko.spec.kms_key_ref) (kms_key_id-Resolved rm reader r1)
          (ap error_of (sym t1.rest) ∙ h) in
      let r2 = with_kms_key_id r1 t2.value in
      let t3 =
        resolve_field-Taken (resolve_reference_for_role_arn rm reader) (last_stage ko) r2
          ((false || refers ko.spec.bucket_ref) || refers ko.spec.kms_key_ref) with_role_arn
          (HasRoleArn rm reader r2) (refers ko.spec.role_ref) (role_arn-Resolved rm reader r2)
          (ap error_of (sym (t1.rest ∙ t2.rest)) ∙ h) in
      let out = t1.rest ∙ (t2.rest ∙ t3.rest) in
      subst (ResolvesAll ko) (sym out) (record {
        valid = ap error_of (sym out) ∙ h;
        bucket = t1.from;
        kms_key_id = t2.from;
        role_arn = t3.from;
        has_references =
            three (refers ko.spec.bucket_ref) (refers ko.spec.kms_key_ref)
              (refers ko.spec.role_ref);
        others = refl;
      })
