-- ===== src/Tests/AccessPoints.antt =====
-- The theorems about AccessPoints at concrete inputs.
use ack_ws_s3files_controlle.Prelude.{ℕ, List, Option, ap, ◌≡◌, true, refl, none, some, [], ◌∷◌}
use ack_ws_s3files_controlle.Ack.{Delta, terminal}
use ack_ws_s3files_controlle.Conditions.{holds}
use ack_ws_s3files_controlle.AccessPoint.Types.{access_point_kind, AccessPoint}
use ack_ws_s3files_controlle.AccessPoint.Hooks.{
  drifted, surface_drift, update_tags, custom_update_access_point,
}
use ack_ws_s3files_controlle.AccessPoint.Manager.{conditions_of, update}
use ack_ws_s3files_controlle.AccessPoint.Outcome.{drift_lost}
use ack_ws_s3files_controlle.Kinds.Laws.{IsClean}
use ack_ws_s3files_controlle.Tests.Fixture.{setting}
use ack_ws_s3files_controlle.Tags.{convert_to_ordered_ack_tags}
use ack_ws_s3files_controlle.Compare.{text_differs}
use ack_ws_s3files_controlle.AccessPoint.Delta.{field_delta}
use ack_ws_s3files_controlle.AccessPoint.Seen.{SameImmutable, drifted-SameImmutable}
use ack_ws_s3files_controlle.Tests.Fixture.{Fault, runtime, comparing, reflexive, equal_maps}
use ack_ws_s3files_controlle.Tests.Cloud.{manager, point as service_point}
use ack_ws_s3files_controlle.AccessPoint.Sdk.{new_create_request_payload, sdk_create}
use ack_ws_s3files_controlle.AccessPoint.Created.{AllThere, IsCreated, sdk_create-IsCreated}
use ack_ws_s3files_controlle.Tests.FileSystems.{resource, world}
use ack_ws_s3files_controlle.Ack.{resource_synced, status_true, done, is_kind, is_true}
use ack_ws_s3files_controlle.Conditions.{with_status, new_condition}
use ack_ws_s3files_controlle.References.{
  Getter, get_referenced_resource_state, referenced_error, read_reference, resolve_reference,
  resolve_field,
}
use ack_ws_s3files_controlle.FileSystem.Types.{FileSystem}
use ack_ws_s3files_controlle.AccessPoint.References.{
  validate_reference_fields, get_referenced_resource_state_file_system,
  resolve_reference_for_file_system_id, resolve_references,
}
use ack_ws_s3files_controlle.AccessPoint.Resolve.{
  ResolvesFileSystem, resolve_references-ResolvesFileSystem,
}

abbrev pub point : AccessPoint
point = record {
  metadata = record {
    name = "point";
    namespace = "default";
    finalizers = [];
    annotations = none;
    deletion_timestamp = none;
  };
  spec = record {
    file_system_id = some "fs-2";
    file_system_ref = none;
    posix_user = none;
    root_directory = none;
    tags = none;
  };
  status = record {
    ack_resource_metadata = none;
    conditions = none;
    id = some "fsap-1";
    name = none;
    owner_id = none;
    status = some "available";
  };
}

abbrev delta : Delta
delta = "Spec.PosixUser.UID" ∷ []

drift_lost_example :
    (holds terminal (conditions_of (surface_drift manager point delta)) ≡ true)
    × IsClean access_point_kind manager
        (surface_drift manager point delta)
        (update manager point point delta world).0
unfolding drifted custom_update_access_point update_tags
drift_lost_example =
    drift_lost manager point point delta world setting
      (record { terminal_once = tt; recoverable_once = tt }) refl refl

drifted-SameImmutable_example : SameImmutable runtime comparing point point
unfolding drifted field_delta text_differs convert_to_ordered_ack_tags
drifted-SameImmutable_example = drifted-SameImmutable manager comparing point point refl

-- A file system that is synced, under every name.
abbrev system : FileSystem
system = record resource {
  status = record (resource.status) {
    conditions = some (with_status status_true none (new_condition resource_synced) ∷ []);
  };
}

abbrev reader : Getter Fault FileSystem
reader namespace name = done system

abbrev referring : AccessPoint
referring = record point {
  spec = record (point.spec) {
    file_system_id = none;
    file_system_ref = some (record { from = some (record { name = some "fs"; namespace = none }) });
  };
}

resolve_references-ResolvesFileSystem_example :
    ResolvesFileSystem manager reader referring (resolve_references manager reader referring)
unfolding resolve_references resolve_field resolve_reference_for_file_system_id resolve_reference
    read_reference get_referenced_resource_state_file_system get_referenced_resource_state
    referenced_error validate_reference_fields holds is_kind is_true
resolve_references-ResolvesFileSystem_example =
    resolve_references-ResolvesFileSystem manager reader referring refl

-- An access point with a user in two groups, a directory and a tag.
abbrev wanted : AccessPoint
wanted = record point {
  spec = record (point.spec) {
    posix_user =
        some
          (record { gid = some 10; secondary_gids = some (some 7 ∷ some 8 ∷ []); uid = some 1000 });
    root_directory = some (record {
      creation_permissions =
          some (record { owner_gid = some 10; owner_uid = some 1000; permissions = some "755" });
      path = some "/logs";
    });
    tags = some (record { key = some "team"; value = some "logs" } ∷ []);
  };
}

slices_back :
    (xs : List (Option ℕ)) → AllThere xs → runtime.int64_slice (runtime.to_int64_slice xs) ≡ xs
slices_back [] t = refl
slices_back (none ∷ xs) t = elim t [ ]
slices_back (some x ∷ xs) t = ap (λ (ys : List (Option ℕ)). some x ∷ ys) (slices_back xs t)

sdk_create-IsCreated_example :
    IsCreated manager wanted
      (record service_point {
        file_system_id = wanted.spec.file_system_id;
        posix_user = (new_create_request_payload manager wanted).posix_user;
        root_directory = (new_create_request_payload manager wanted).root_directory;
        tags = (new_create_request_payload manager wanted).tags;
      })
      (sdk_create manager wanted world).0
unfolding new_create_request_payload
sdk_create-IsCreated_example =
    sdk_create-IsCreated manager wanted world comparing reflexive equal_maps
      (record { round_trip = slices_back }) tt refl
      (record { file_system_id = refl; posix_user = refl; root_directory = refl; tags = refl })
