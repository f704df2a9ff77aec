-- ===== src/FileSystem/Delta.antt =====
-- The comparison of two FileSystems (pkg/resource/file_system/delta.go).
use ack_ws_s3files_controlle.Prelude.{Bool, true, not, Option, none, some, [], ◌∷◌, ◌++◌}
use ack_ws_s3files_controlle.Ack.{Runtime, Reply, done, failed, Delta}
use ack_ws_s3files_controlle.Tags.{convert_to_ordered_ack_tags}
use ack_ws_s3files_controlle.Compare.{add_if, text_differs, pointer_differs}
use ack_ws_s3files_controlle.FileSystem.Types.{FileSystem}

-- `equal, err := IAMPolicyDocumentEqual(x, y); err != nil || !equal`
abbrev pub policy_differs : {E : Type 0} → Reply E Bool → Bool
policy_differs (done equal) = not equal
policy_differs (failed _) = true

module _ {E : Type 0} (rt : Runtime E) where
  -- The differences of two resources that are there.
  unfoldable pub field_delta : FileSystem → FileSystem → Delta
  unfolding text_differs pointer_differs
  field_delta a b =
      add_if (text_differs rt a.spec.bucket b.spec.bucket) "Spec.Bucket"
      ++ add_if (not (rt.reference_equal a.spec.bucket_ref b.spec.bucket_ref)) "Spec.BucketRef"
      ++ add_if (text_differs rt a.spec.kms_key_id b.spec.kms_key_id) "Spec.KMSKeyID"
      ++ add_if (not (rt.reference_equal a.spec.kms_key_ref b.spec.kms_key_ref)) "Spec.KMSKeyRef"
      ++ add_if
          (pointer_differs rt (λ x y. policy_differs (rt.iam_policy_document_equal x y))
            a.spec.policy b.spec.policy)
          "Spec.Policy"
      ++ add_if (text_differs rt a.spec.prefix b.spec.prefix) "Spec.Prefix"
      ++ add_if (text_differs rt a.spec.role_arn b.spec.role_arn) "Spec.RoleARN"
      ++ add_if (not (rt.reference_equal a.spec.role_ref b.spec.role_ref)) "Spec.RoleRef"
      ++ add_if
          (not (
            rt.map_string_string_equal (convert_to_ordered_ack_tags a.spec.tags).0
              (convert_to_ordered_ack_tags b.spec.tags).0))
          "Spec.Tags"

  -- `none` is the panic of a comparison of two nil resources.
  unfoldable pub new_resource_delta : Option FileSystem → Option FileSystem → Option Delta
  unfolding field_delta
  new_resource_delta none none = none
  new_resource_delta none (some _) = some ("" ∷ [])
  new_resource_delta (some _) none = some ("" ∷ [])
  new_resource_delta (some a) (some b) = some (field_delta a b)
