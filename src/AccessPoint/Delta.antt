-- ===== src/AccessPoint/Delta.antt =====
-- The comparison of two AccessPoints (pkg/resource/access_point/delta.go).
use ack_ws_s3files_controlle.Prelude.{
  ℕ, String, Bool, true, not, ◌&&◌, Option, none, some, List, [], ◌∷◌, ◌++◌, elements, is_some,
  is_empty, eqb, length, if◌then◌else◌,
}
use ack_ws_s3files_controlle.Ack.{Runtime, Delta}
use ack_ws_s3files_controlle.Tags.{convert_to_ordered_ack_tags}
use ack_ws_s3files_controlle.Compare.{add_if, text_differs, pointer_differs}
use ack_ws_s3files_controlle.AccessPoint.Types.{
  CreationPermissions, PosixUser, RootDirectory, AccessPoint,
}

-- The differences inside two values that are there.
abbrev inside {ℓ} : {A : Type ℓ} → (A → A → Delta) → Option A → Option A → Delta
inside differs none _ = []
inside differs (some x) none = []
inside differs (some x) (some y) = differs x y

module _ {E : Type 0} (rt : Runtime E) where
  -- `HasNilDifference(a, b)` adds the path, and otherwise the parts are compared.
  abbrev pub nested {ℓ} : {A : Type ℓ} → String → (A → A → Delta) → Option A → Option A → Delta
  nested path differs a b =
      if rt.has_nil_difference (is_some a) (is_some b) then path ∷ [] else inside differs a b

  unfoldable pub number_differs : Option ℕ → Option ℕ → Bool
  unfolding pointer_differs
  number_differs = pointer_differs rt (λ x y. not (eqb x y))

  -- The lengths differ, or there is something and the slices differ.
  unfoldable pub gids_differ : List (Option ℕ) → List (Option ℕ) → Bool
  gids_differ a b =
      if eqb (length a) (length b) then not (is_empty a) && not (rt.gids_equal a b) else true

  unfoldable pub posix_user_delta : PosixUser → PosixUser → Delta
  unfolding number_differs gids_differ
  posix_user_delta x y =
      add_if (number_differs x.gid y.gid) "Spec.PosixUser.GID"
      ++ add_if (gids_differ (elements x.secondary_gids) (elements y.secondary_gids))
          "Spec.PosixUser.SecondaryGIDs"
      ++ add_if (number_differs x.uid y.uid) "Spec.PosixUser.UID"

  unfoldable pub permissions_delta : CreationPermissions → CreationPermissions → Delta
  unfolding number_differs text_differs
  permissions_delta x y =
      add_if (number_differs x.owner_gid y.owner_gid)
        "Spec.RootDirectory.CreationPermissions.OwnerGID"
      ++ add_if (number_differs x.owner_uid y.owner_uid)
          "Spec.RootDirectory.CreationPermissions.OwnerUID"
      ++ add_if (text_differs rt x.permissions y.permissions)
          "Spec.RootDirectory.CreationPermissions.Permissions"

  unfoldable pub root_directory_delta : RootDirectory → RootDirectory → Delta
  unfolding permissions_delta text_differs
  root_directory_delta x y =
      nested "Spec.RootDirectory.CreationPermissions" permissions_delta x.creation_permissions
        y.creation_permissions
      ++ add_if (text_differs rt x.path y.path) "Spec.RootDirectory.Path"

  -- The differences of two resources that are there.
  unfoldable pub field_delta : AccessPoint → AccessPoint → Delta
  unfolding text_differs posix_user_delta root_directory_delta
  field_delta a b =
      add_if (text_differs rt a.spec.file_system_id b.spec.file_system_id) "Spec.FileSystemID"
      ++ add_if (not (rt.reference_equal a.spec.file_system_ref b.spec.file_system_ref))
          "Spec.FileSystemRef"
      ++ nested "Spec.PosixUser" posix_user_delta a.spec.posix_user b.spec.posix_user
      ++ nested "Spec.RootDirectory" root_directory_delta a.spec.root_directory
          b.spec.root_directory
      ++ add_if
          (not (
            rt.map_string_string_equal (convert_to_ordered_ack_tags a.spec.tags).0
              (convert_to_ordered_ack_tags b.spec.tags).0))
          "Spec.Tags"

  -- `none` is the panic of a comparison of two nil resources.
  unfoldable pub new_resource_delta : Option AccessPoint → Option AccessPoint → Option Delta
  unfolding field_delta
  new_resource_delta none none = none
  new_resource_delta none (some _) = some ("" ∷ [])
  new_resource_delta (some _) none = some ("" ∷ [])
  new_resource_delta (some a) (some b) = some (field_delta a b)
