-- ===== src/FileSystem/Managed.antt =====
-- What the marks and the adoption of a FileSystem do (pkg/resource/file_system/descriptor.go and
-- resource.go).
use ack_ws_s3files_controlle.Prelude.{
  String, true, false, ◌≡◌, refl, sym, subst, none, ◌==◌, if◌then◌else◌, GoMap, lookup,
}
use ack_ws_s3files_controlle.Ack.{Runtime}
use ack_ws_s3files_controlle.FileSystem.Types.{FileSystem}
use ack_ws_s3files_controlle.FileSystem.Sdk.{
  required_fields_missing_from_read_one_input, new_describe_request_payload,
  new_delete_request_payload,
}
use ack_ws_s3files_controlle.Objects.{ControllerUtil}
use ack_ws_s3files_controlle.Objects.Laws.{IsFinalizing, mark_lem, populate_lem}
use ack_ws_s3files_controlle.FileSystem.Resource.{
  file_system_object, finalizer_string, contains_finalizer, is_managed, mark_managed,
  mark_unmanaged, populate_resource_from_annotation,
}

module _ (util : ControllerUtil) (finalizing : IsFinalizing util) where
  -- A resource is managed after it is marked so and not managed after it is marked unmanaged, and
  -- marking it and taking the mark away leaves every finalizer of another controller.
  mark_unmanaged-mark_managed :
      (r : FileSystem) (f : String)
      → (is_managed (mark_managed util r) ≡ true)
        × (is_managed (mark_unmanaged util r) ≡ false)
        × (contains_finalizer (mark_unmanaged util (mark_managed util r)) f
            ≡ (if finalizer_string == f then false else contains_finalizer r f))
  mark_unmanaged-mark_managed = mark_lem file_system_object (λ r meta. refl) util finalizing

-- What an adopted resource is read and deleted by.
pub record IsAdopted (fields : GoMap) (r : FileSystem) : Type 0 where
  pub readable : required_fields_missing_from_read_one_input r ≡ false
  pub described_by : new_describe_request_payload r ≡ lookup "fileSystemID" fields
  pub deleted_by : new_delete_request_payload r ≡ lookup "fileSystemID" fields

module _ {E : Type 0} (rt : Runtime E) where
  -- A resource that takes its fields from an adoption annotation without an error can be read, and
  -- the id of the annotation is the one that it is read and deleted by.
  pub populate_resource_from_annotation-IsAdopted :
      (fields : GoMap) (r : FileSystem)
      → (populate_resource_from_annotation rt fields r).1 ≡ none
      → IsAdopted fields (populate_resource_from_annotation rt fields r).0
  unfolding required_fields_missing_from_read_one_input new_describe_request_payload
      new_delete_request_payload
  populate_resource_from_annotation-IsAdopted fields r h =
      let p = populate_lem file_system_object rt fields r h in
      subst (IsAdopted fields) (sym p.assigned)
        (record { readable = refl; described_by = sym p.given; deleted_by = sym p.given })
