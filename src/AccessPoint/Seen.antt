-- ===== src/AccessPoint/Seen.antt =====
-- Which differences of two AccessPoints the controller sees (pkg/resource/access_point/delta.go).
use ack_ws_s3files_controlle.Prelude.{
  ℕ, Bool, true, false, not, ◌||◌, ◌≡◌, refl, sym, ◌∙◌, arith, Option, none, some, ◌++◌, elements,
  String,
}
use ack_ws_s3files_controlle.Ack.{Runtime, Delta}
use ack_ws_s3files_controlle.Compare.{
  add_if, is_within, IsComparing, any_within, any_within-append, text_differs, pointer_differs,
  delta_laws,
}
use ack_ws_s3files_controlle.Compare.Same.{text_differs-same}
use ack_ws_s3files_controlle.Tags.{convert_to_ordered_ack_tags}
use ack_ws_s3files_controlle.Manager.{ResourceManager}
use ack_ws_s3files_controlle.AccessPoint.Types.{
  CreationPermissions, PosixUser, RootDirectory, AccessPoint,
}
use ack_ws_s3files_controlle.AccessPoint.Hooks.{drifted}
use ack_ws_s3files_controlle.AccessPoint.Delta.{
  nested, number_differs, gids_differ, posix_user_delta, permissions_delta, root_directory_delta,
  field_delta,
}

or_left : (a b : Bool) → (a || b) ≡ false → a ≡ false
or_left a b h = ground (arith, h)

or_right : (a b : Bool) → (a || b) ≡ false → b ≡ false
or_right a b h = ground (arith, h)

parts_false :
    (s : String) (a b c d e : Delta)
    → any_within s (a ++ b ++ c ++ d ++ e) ≡ false
    → (any_within s a ≡ false) × (any_within s c ≡ false) × (any_within s d ≡ false)
parts_false s a b c d e h =
    let flat =
      rw
        (
          any_within-append s (a ++ b ++ c ++ d) e,
          any_within-append s (a ++ b ++ c) d,
          any_within-append s (a ++ b) c,
          any_within-append s a b,
        )
        at h in
    (ground (arith, flat), ground (arith, flat), ground (arith, flat))

all_false : (a b c : Bool) → ((a || b) || c) ≡ false → (a ≡ false) × (b ≡ false) × (c ≡ false)
all_false a b c h = (ground (arith, h), ground (arith, h), ground (arith, h))

module _ {E : Type 0} (rt : Runtime E) (comparing : IsComparing rt) where
  number_differs-same : (a b : Option ℕ) → number_differs rt a b ≡ false → a ≡ b
  unfolding number_differs pointer_differs
  number_differs-same none none h = refl
  number_differs-same none (some y) h = ground (arith, h, comparing.nil_difference false true)
  number_differs-same (some x) none h = ground (arith, h, comparing.nil_difference true false)
  number_differs-same (some x) (some y) h = ground (arith, h, comparing.nil_difference true true)

  append_false :
      (s : String) (d e : Delta)
      → any_within s (d ++ e) ≡ false
      → (any_within s d ≡ false) × (any_within s e ≡ false)
  append_false s d e h =
      let split = sym (any_within-append s d e) ∙ h in
      (
        or_left (any_within s d) (any_within s e) split,
        or_right (any_within s d) (any_within s e) split,
      )

  -- Two POSIX users that differ nowhere the delta looks.
  pub record SamePosixUser (x y : PosixUser) : Type 0 where
    pub gid : x.gid ≡ y.gid
    pub uid : x.uid ≡ y.uid
    pub secondary_gids :
        gids_differ rt (elements x.secondary_gids) (elements y.secondary_gids) ≡ false

  posix_user_delta-same :
      (x y : PosixUser)
      → any_within "Spec.PosixUser" (posix_user_delta rt x y) ≡ false
      → SamePosixUser x y
  unfolding posix_user_delta
  posix_user_delta-same x y h =
      let flat = simp delta_laws at h in
      let parts =
        all_false (number_differs rt x.gid y.gid)
          (gids_differ rt (elements x.secondary_gids) (elements y.secondary_gids))
          (number_differs rt x.uid y.uid) flat in
      record {
        gid = number_differs-same x.gid y.gid parts.0;
        uid = number_differs-same x.uid y.uid parts.2;
        secondary_gids = parts.1;
      }

  -- Both are nil, or both are there and the same.
  abbrev pub SameIn : {A : Type 0} → (A → A → Type 0) → Option A → Option A → Type 0
  SameIn P none none = Unit
  SameIn P none (some y) = false ≡ true
  SameIn P (some x) none = false ≡ true
  SameIn P (some x) (some y) = P x y

  nested-same :
      {A : Type 0} (s path : String) (differs : A → A → Delta) (P : A → A → Type 0)
      → is_within path s ≡ true
      → ((x y : A) → any_within s (differs x y) ≡ false → P x y)
      → (a b : Option A) → any_within s (nested rt path differs a b) ≡ false
      → SameIn P a b
  nested-same s path differs P w inner none none h = tt
  nested-same s path differs P w inner none (some y) h =
      ground (arith, h, w, comparing.nil_difference false true)
  nested-same s path differs P w inner (some x) none h =
      ground (arith, h, w, comparing.nil_difference true false)
  nested-same s path differs P w inner (some x) (some y) h =
      inner x y (rw (comparing.nil_difference true true) at h)

  pub record SamePermissions (x y : CreationPermissions) : Type 0 where
    pub owner_gid : x.owner_gid ≡ y.owner_gid
    pub owner_uid : x.owner_uid ≡ y.owner_uid
    pub permissions : x.permissions ≡ y.permissions

  permissions_delta-same :
      (x y : CreationPermissions)
      → any_within "Spec.RootDirectory" (permissions_delta rt x y) ≡ false
      → SamePermissions x y
  unfolding permissions_delta
  permissions_delta-same x y h =
      let flat = simp delta_laws at h in
      let parts =
        all_false (number_differs rt x.owner_gid y.owner_gid)
          (number_differs rt x.owner_uid y.owner_uid) (text_differs rt x.permissions y.permissions)
          flat in
      record {
        owner_gid = number_differs-same x.owner_gid y.owner_gid parts.0;
        owner_uid = number_differs-same x.owner_uid y.owner_uid parts.1;
        permissions = text_differs-same rt comparing x.permissions y.permissions parts.2;
      }

  pub record SameRootDirectory (x y : RootDirectory) : Type 0 where
    pub creation_permissions : SameIn SamePermissions x.creation_permissions y.creation_permissions
    pub path : x.path ≡ y.path

  root_directory_delta-same :
      (x y : RootDirectory)
      → any_within "Spec.RootDirectory" (root_directory_delta rt x y) ≡ false
      → SameRootDirectory x y
  unfolding root_directory_delta
  root_directory_delta-same x y h =
      let inner =
        nested rt "Spec.RootDirectory.CreationPermissions" (permissions_delta rt)
          x.creation_permissions y.creation_permissions in
      let parts =
        append_false "Spec.RootDirectory" inner
          (add_if (text_differs rt x.path y.path) "Spec.RootDirectory.Path") h in
      record {
        creation_permissions =
            nested-same "Spec.RootDirectory" "Spec.RootDirectory.CreationPermissions"
              (permissions_delta rt) SamePermissions refl permissions_delta-same
              x.creation_permissions y.creation_permissions parts.0;
        path = text_differs-same rt comparing x.path y.path (simp delta_laws at parts.1);
      }

  -- Two access points that agree on the fields that cannot be changed.
  pub record SameImmutable (a b : AccessPoint) : Type 0 where
    pub file_system_id : a.spec.file_system_id ≡ b.spec.file_system_id
    pub posix_user : SameIn SamePosixUser a.spec.posix_user b.spec.posix_user
    pub root_directory : SameIn SameRootDirectory a.spec.root_directory b.spec.root_directory

module _ {S E : Type 0} (rm : ResourceManager S E) (comparing : IsComparing rm.runtime) where
  -- No drift is missed: where the controller's own delta shows none, the two access points agree on
  -- the file system, the POSIX user and the root directory (the secondary groups as far as the
  -- comparison of the runtime tells them apart).
  pub drifted-SameImmutable :
      (a b : AccessPoint)
      → drifted rm (field_delta rm.runtime a b) ≡ false
      → SameImmutable rm.runtime comparing a b
  unfolding drifted field_delta
  drifted-SameImmutable a b h =
      let rt = rm.runtime in
      let delta = field_delta rt a b in
      let at =
        all_false (rt.different_at delta "Spec.FileSystemID")
          (rt.different_at delta "Spec.PosixUser") (rt.different_at delta "Spec.RootDirectory") h in
      let id =
        add_if (text_differs rt a.spec.file_system_id b.spec.file_system_id) "Spec.FileSystemID" in
      let ref =
        add_if (not (rt.reference_equal a.spec.file_system_ref b.spec.file_system_ref))
          "Spec.FileSystemRef" in
      let user =
        nested rt "Spec.PosixUser" (posix_user_delta rt) a.spec.posix_user b.spec.posix_user in
      let root =
        nested rt "Spec.RootDirectory" (root_directory_delta rt) a.spec.root_directory
          b.spec.root_directory in
      let tags =
        add_if
          (not (
            rt.map_string_string_equal (convert_to_ordered_ack_tags a.spec.tags).0
              (convert_to_ordered_ack_tags b.spec.tags).0))
          "Spec.Tags" in
      let parts = λ (s : String) (e : rt.different_at delta s ≡ false).
        parts_false s id ref user root tags (sym (comparing.different_at delta s) ∙ e) in
      record {
        file_system_id =
            text_differs-same rt comparing a.spec.file_system_id b.spec.file_system_id
              (simp delta_laws at (parts "Spec.FileSystemID" at.0).0);
        posix_user =
            nested-same rt comparing "Spec.PosixUser" "Spec.PosixUser" (posix_user_delta rt)
              (SamePosixUser rt comparing) refl (posix_user_delta-same rt comparing)
              a.spec.posix_user b.spec.posix_user (parts "Spec.PosixUser" at.1).1;
        root_directory =
            nested-same rt comparing "Spec.RootDirectory" "Spec.RootDirectory"
              (root_directory_delta rt) (SameRootDirectory rt comparing) refl
              (root_directory_delta-same rt comparing) a.spec.root_directory b.spec.root_directory
              (parts "Spec.RootDirectory" at.2).2;
      }
