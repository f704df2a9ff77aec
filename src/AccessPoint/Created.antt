-- ===== src/AccessPoint/Created.antt =====
-- What becomes of an AccessPoint that is created (pkg/resource/access_point/sdk.go and delta.go).
use ack_ws_s3files_controlle.Prelude.{
  ℕ, true, false, ◌≡◌, refl, sym, ap, ◌∙◌, arith, Option, none, some, List, [], ◌∷◌, map, String,
  elements, map_option,
}
use ack_ws_s3files_controlle.Ack.{Runtime, Delta, Reply, done, call, pure, World, ◌>>=◌}
use ack_ws_s3files_controlle.Aws.{AccessPointOutput}
use ack_ws_s3files_controlle.Compare.{IsComparing, IsReflexive, pointer_differs}
use ack_ws_s3files_controlle.Compare.Same.{text_differs_self}
use ack_ws_s3files_controlle.Kinds
use ack_ws_s3files_controlle.Manager.{ResourceManager}
use ack_ws_s3files_controlle.Tags.{Tag, convert_to_ordered_ack_tags}
use ack_ws_s3files_controlle.Tags.View.{convert_to_ordered_ack_tags-HasUniqueKeys}
use ack_ws_s3files_controlle.FileSystem.Settled.{IsMapEqual}
use ack_ws_s3files_controlle.FileSystem.Sdk.{tag_from_sdk, tag_to_sdk}
use ack_ws_s3files_controlle.AccessPoint.Types.{
  CreationPermissions, PosixUser, RootDirectory, AccessPointSpec, AccessPoint,
}
use ack_ws_s3files_controlle.AccessPoint.Sdk.{
  posix_user_from_sdk, posix_user_to_sdk, root_directory_from_sdk, root_directory_to_sdk,
  set_output, new_create_request_payload, sdk_create, set_status_defaults,
}
use ack_ws_s3files_controlle.AccessPoint.Delta.{
  nested, number_differs, gids_differ, posix_user_delta, permissions_delta, root_directory_delta,
  field_delta,
}

-- No pointer of the slice is nil.
abbrev pub AllThere : List (Option ℕ) → Type 0
AllThere [] = Unit
AllThere (none ∷ xs) = ⊥
AllThere (some x ∷ xs) = AllThere xs

-- `aws.Int64Slice` and `aws.ToInt64Slice` on such slices.
pub record IsInt64Slice {E : Type 0} (rt : Runtime E) : Type 0 where
  pub round_trip : (xs : List (Option ℕ)) → AllThere xs → rt.int64_slice (rt.to_int64_slice xs) ≡ xs

-- The service answers with the fields of the request.
pub record Echoes {S E : Type 0} (rm : ResourceManager S E) (desired : AccessPoint)
    (resp : AccessPointOutput) : Type 0 where
  pub file_system_id : resp.file_system_id ≡ (new_create_request_payload rm desired).file_system_id
  pub posix_user : resp.posix_user ≡ (new_create_request_payload rm desired).posix_user
  pub root_directory : resp.root_directory ≡ (new_create_request_payload rm desired).root_directory
  pub tags : resp.tags ≡ (new_create_request_payload rm desired).tags

abbrev groups_of : Option PosixUser → List (Option ℕ)
groups_of none = []
groups_of (some u) = elements u.secondary_gids

module _ {E : Type 0} (rt : Runtime E) (slices : IsInt64Slice rt) where
  user_back :
      (u : Option PosixUser)
      → AllThere (groups_of u)
      → map_option (posix_user_from_sdk rt) (map_option (posix_user_to_sdk rt) u) ≡ u
  user_back none t = refl
  user_back (some u) t = ap some (groups_back u.secondary_gids t)
    where
      groups_back :
          (g : Option (List (Option ℕ)))
          → AllThere (elements g)
          → ◌≡◌ {A = PosixUser}
              (record {
                gid = u.gid;
                secondary_gids = map_option rt.int64_slice (map_option rt.to_int64_slice g);
                uid = u.uid;
              })
              (record { gid = u.gid; secondary_gids = g; uid = u.uid })
      groups_back none t = refl
      groups_back (some xs) t =
          ap
            (λ (ys : List (Option ℕ)). record {
              gid = u.gid;
              secondary_gids = some ys;
              uid = u.uid;
            })
            (slices.round_trip xs t)

root_back :
    (d : Option RootDirectory)
    → map_option root_directory_from_sdk (map_option root_directory_to_sdk d) ≡ d
root_back none = refl
root_back (some d) = ap some (inner d.creation_permissions)
  where
    inner :
        (c : Option CreationPermissions)
        → ◌≡◌ {A = RootDirectory}
            (root_directory_from_sdk
              (root_directory_to_sdk (record { creation_permissions = c; path = d.path })))
            (record { creation_permissions = c; path = d.path })
    inner none = refl
    inner (some c) = refl

tag_list_back : (ts : List Tag) → map tag_from_sdk (map tag_to_sdk ts) ≡ ts
tag_list_back [] = refl
tag_list_back (t ∷ ts) = ap (λ (us : List Tag). t ∷ us) (tag_list_back ts)

tags_back :
    (ts : Option (List Tag)) → map_option (map tag_from_sdk) (map_option (map tag_to_sdk) ts) ≡ ts
tags_back none = refl
tags_back (some ts) = ap some (tag_list_back ts)

module _ {E : Type 0} (rt : Runtime E) (comparing : IsComparing rt) (reflexive : IsReflexive rt)
    (maps : IsMapEqual rt.map_string_string_equal) where
  nested_self :
      {A : Type 0} (path : String) (differs : A → A → Delta)
      → ((x : A) → differs x x ≡ [])
      → (a : Option A) → nested rt path differs a a ≡ []
  nested_self path differs self none = ground (arith, comparing.nil_difference false false)
  nested_self path differs self (some x) = rw (comparing.nil_difference true true) (self x)

  number_differs_self : (a : Option ℕ) → number_differs rt a a ≡ false
  unfolding number_differs pointer_differs
  number_differs_self none = ground (arith, comparing.nil_difference false false)
  number_differs_self (some x) = ground (arith, comparing.nil_difference true true)

  gids_differ_self : (xs : List (Option ℕ)) → gids_differ rt xs xs ≡ false
  unfolding gids_differ
  gids_differ_self xs = ground (arith, reflexive.gids xs)

  posix_user_delta_self : (u : PosixUser) → posix_user_delta rt u u ≡ []
  unfolding posix_user_delta
  posix_user_delta_self u =
      rw
        (
          number_differs_self u.gid,
          gids_differ_self (elements u.secondary_gids),
          number_differs_self u.uid,
        )
        refl

  permissions_delta_self : (p : CreationPermissions) → permissions_delta rt p p ≡ []
  unfolding permissions_delta
  permissions_delta_self p =
      rw
        (
          number_differs_self p.owner_gid,
          number_differs_self p.owner_uid,
          text_differs_self rt comparing p.permissions,
        )
        refl

  root_directory_delta_self : (d : RootDirectory) → root_directory_delta rt d d ≡ []
  unfolding root_directory_delta
  root_directory_delta_self d =
      rw
        (
          nested_self "Spec.RootDirectory.CreationPermissions" (permissions_delta rt)
              permissions_delta_self d.creation_permissions,
          text_differs_self rt comparing d.path,
        )
        refl

  field_delta_self : (a : AccessPoint) → field_delta rt a a ≡ []
  unfolding field_delta
  field_delta_self a =
      rw
        (
          text_differs_self rt comparing a.spec.file_system_id,
          reflexive.reference a.spec.file_system_ref,
          nested_self "Spec.PosixUser" (posix_user_delta rt) posix_user_delta_self
              a.spec.posix_user,
          nested_self "Spec.RootDirectory" (root_directory_delta rt) root_directory_delta_self
              a.spec.root_directory,
          same_tags a.spec.tags,
        )
        refl
    where
      same_tags :
          (ts : Option (List Tag))
          → rt.map_string_string_equal
              (convert_to_ordered_ack_tags ts).0
              (convert_to_ordered_ack_tags ts).0
            ≡ true
      same_tags ts =
          (maps.decides _ _ (convert_to_ordered_ack_tags-HasUniqueKeys ts)
              (convert_to_ordered_ack_tags-HasUniqueKeys ts)).1
            (λ k. refl)

  field_delta-spec : (a b : AccessPoint) → a.spec ≡ b.spec → field_delta rt a b ≡ []
  unfolding field_delta
  field_delta-spec a b e =
      ap (λ (s : AccessPointSpec). field_delta rt a (record b { spec = s })) (sym e)
      ∙ field_delta_self a

module _ {S E : Type 0} (rm : ResourceManager S E) where
  -- What a create gives: the resource that it returns has the spec of the desired one and the id of
  -- the service, and there is no difference to act upon.
  pub record IsCreated (desired : AccessPoint) (resp : AccessPointOutput)
      (out : Reply E AccessPoint) : Type 0 where
    pub created : AccessPoint
    pub resource : out ≡ done created
    pub spec : created.spec ≡ desired.spec
    pub id : created.status.id ≡ resp.access_point_id
    pub settled : field_delta rm.runtime desired created ≡ []

  spec-set_output :
      (desired : AccessPoint) {resp : AccessPointOutput}
      → IsInt64Slice rm.runtime
      → AllThere (groups_of desired.spec.posix_user)
      → Echoes rm desired resp
      → (set_output rm desired resp).spec ≡ desired.spec
  unfolding set_output new_create_request_payload
  spec-set_output desired {resp} slices there echo =
      let rt = rm.runtime in
      let user =
        ap (map_option (posix_user_from_sdk rt)) echo.posix_user
        ∙ user_back rt slices desired.spec.posix_user there in
      let root =
        ap (map_option root_directory_from_sdk) echo.root_directory
        ∙ root_back desired.spec.root_directory in
      let tags = ap (map_option (map tag_from_sdk)) echo.tags ∙ tags_back desired.spec.tags in
      λ i. record {
        file_system_id = echo.file_system_id i;
        file_system_ref = desired.spec.file_system_ref;
        posix_user = user i;
        root_directory = root i;
        tags = tags i;
      }

  -- An access point that the service creates as it was asked to, and answers with the fields of the
  -- request, comes back from `sdkCreate` with the spec of the desired one, where no secondary group
  -- is nil: it has the id of the service, and the delta to it is empty.
  pub sdk_create-IsCreated :
      (desired : AccessPoint) {resp : AccessPointOutput} {s1 : S} (w : World S E)
      → IsComparing rm.runtime
      → IsReflexive rm.runtime
      → IsMapEqual rm.runtime.map_string_string_equal
      → IsInt64Slice rm.runtime
      → AllThere (groups_of desired.spec.posix_user)
      → rm.sdkapi.create_access_point (new_create_request_payload rm desired) w.cloud
        ≡ (done resp, s1)
      → Echoes rm desired resp
      → IsCreated desired resp (sdk_create rm desired w).0
  unfolding sdk_create Kinds.set_status_defaults set_output
  sdk_create-IsCreated desired {resp} w comparing reflexive maps slices there e echo =
      let spec = spec-set_output desired slices there echo in
      let o = set_status_defaults rm (set_output rm desired resp) in
      record {
        created = o;
        resource =
            ap
              (λ (p : Reply E AccessPointOutput × S).
                ((call "CREATE" "CreateAccessPoint" (λ _. p) >>= λ r.
                pure (set_status_defaults rm (set_output rm desired r)))
                  w).0)
              e;
        spec = spec;
        id = refl;
        settled = field_delta-spec rm.runtime comparing reflexive maps desired o (sym spec);
      }
