-- ===== src/DeepCopy/Separate/AccessPoint.antt =====
-- The copy of the spec and of the status of an AccessPoint shows what they showed, by new cells only
-- (apis/v1alpha1/zz_generated.deepcopy.go).
use ack_ws_s3files_controlle.Prelude.{List, [], ◌++◌}
use ack_ws_s3files_controlle.Memory.Laws.{Copied, DeepCopies, start, step, finish, Runs-Copied}
use ack_ws_s3files_controlle.Memory.Copies.{pointer-DeepCopies}
use ack_ws_s3files_controlle.DeepCopy.Structs.{
  RuntimeTypes, Cell, AccessPointSpecStruct, AccessPointStatusStruct,
}
use ack_ws_s3files_controlle.DeepCopy.Slots.{tag_slot, posix_user_slot, root_directory_slot}
use ack_ws_s3files_controlle.DeepCopy.Fields.{RuntimeCopies}
use ack_ws_s3files_controlle.DeepCopy.Shows.{RuntimeShows}
use ack_ws_s3files_controlle.DeepCopy.Shows.Structs.{ShowsAccessPointSpec, ShowsAccessPointStatus}
use ack_ws_s3files_controlle.DeepCopy.Separate.Fields.{
  RuntimeLaws, string-DeepCopies, items-DeepCopies, reference-DeepCopies, metadata-DeepCopies,
  conditions-DeepCopies,
}
use ack_ws_s3files_controlle.DeepCopy.AccessPoint.{
  deep_copy_into_access_point_spec, deep_copy_into_access_point_status,
}
use ack_ws_s3files_controlle.DeepCopy.Separate.Parts.{
  tag-DeepCopies, posix_user-DeepCopies, root_directory-DeepCopies,
}
use ack_ws_s3files_controlle.AccessPoint.Types.{AccessPointSpec, AccessPointStatus}

module _ {T : RuntimeTypes} {rc : RuntimeCopies T} (rs : RuntimeShows T)
    (laws : RuntimeLaws rc rs) where
  access_point_spec_stable :
      (h k : List (Cell T)) (s : AccessPointSpecStruct) (v : AccessPointSpec)
      → ShowsAccessPointSpec rs h s v
      → ShowsAccessPointSpec rs (h ++ k) s v
  access_point_spec_stable h k s v w = record {
    file_system_id =
        string-DeepCopies.stable h k s.file_system_id v.file_system_id w.file_system_id;
    file_system_ref =
        (reference-DeepCopies rs laws).stable h k s.file_system_ref v.file_system_ref
          w.file_system_ref;
    posix_user =
        (pointer-DeepCopies posix_user_slot posix_user-DeepCopies).stable h k s.posix_user
          v.posix_user w.posix_user;
    root_directory =
        (pointer-DeepCopies root_directory_slot root_directory-DeepCopies).stable h k
          s.root_directory v.root_directory w.root_directory;
    tags = (items-DeepCopies tag_slot tag-DeepCopies).stable h k s.tags v.tags w.tags;
  }

  access_point_spec_copies :
      (h : List (Cell T)) (s : AccessPointSpecStruct) (v : AccessPointSpec)
      → ShowsAccessPointSpec rs h s v
      → Copied (ShowsAccessPointSpec rs) h v (deep_copy_into_access_point_spec rc s)
  unfolding deep_copy_into_access_point_spec
  access_point_spec_copies h s v w = Runs-Copied (
      step string-DeepCopies s.file_system_id v.file_system_id w.file_system_id (start [])
        λ n1 file_system_id c1.
          step (reference-DeepCopies rs laws) s.file_system_ref v.file_system_ref w.file_system_ref
            c1
            λ n2 file_system_ref c2.
              step (pointer-DeepCopies posix_user_slot posix_user-DeepCopies) s.posix_user
                v.posix_user w.posix_user c2
                λ n3 posix_user c3.
                  step (pointer-DeepCopies root_directory_slot root_directory-DeepCopies)
                    s.root_directory v.root_directory w.root_directory c3
                    λ n4 root_directory c4.
                      step (items-DeepCopies tag_slot tag-DeepCopies) s.tags v.tags w.tags c4
                        λ n5 tags c5.
                          finish (ShowsAccessPointSpec rs)
                            (record {
                              file_system_id = file_system_id;
                              file_system_ref = file_system_ref;
                              posix_user = posix_user;
                              root_directory = root_directory;
                              tags = tags;
                            })
                            λ g k e. record {
                              file_system_id = c5.holds.0.0.0.0.1 g k e;
                              file_system_ref = c5.holds.0.0.0.1 g k e;
                              posix_user = c5.holds.0.0.1 g k e;
                              root_directory = c5.holds.0.1 g k e;
                              tags = c5.holds.1 g k e;
                            })

  pub access_point_spec-DeepCopies :
      DeepCopies {Cell = Cell T} (ShowsAccessPointSpec rs) (deep_copy_into_access_point_spec rc)
  access_point_spec-DeepCopies = record {
    stable = access_point_spec_stable;
    copies = access_point_spec_copies;
  }

  access_point_status_stable :
      (h k : List (Cell T)) (s : AccessPointStatusStruct) (v : AccessPointStatus)
      → ShowsAccessPointStatus rs h s v
      → ShowsAccessPointStatus rs (h ++ k) s v
  access_point_status_stable h k s v w = record {
    ack_resource_metadata =
        (metadata-DeepCopies rs laws).stable h k s.ack_resource_metadata v.ack_resource_metadata
          w.ack_resource_metadata;
    conditions = (conditions-DeepCopies rs laws).stable h k s.conditions v.conditions w.conditions;
    id = string-DeepCopies.stable h k s.id v.id w.id;
    name = string-DeepCopies.stable h k s.name v.name w.name;
    owner_id = string-DeepCopies.stable h k s.owner_id v.owner_id w.owner_id;
    status = string-DeepCopies.stable h k s.status v.status w.status;
  }

  access_point_status_copies :
      (h : List (Cell T)) (s : AccessPointStatusStruct) (v : AccessPointStatus)
      → ShowsAccessPointStatus rs h s v
      → Copied (ShowsAccessPointStatus rs) h v (deep_copy_into_access_point_status rc s)
  unfolding deep_copy_into_access_point_status
  access_point_status_copies h s v w = Runs-Copied (
      step (metadata-DeepCopies rs laws) s.ack_resource_metadata v.ack_resource_metadata
        w.ack_resource_metadata (start [])
        λ n1 ack_resource_metadata c1.
          step (conditions-DeepCopies rs laws) s.conditions v.conditions w.conditions c1
            λ n2 conditions c2. step string-DeepCopies s.id v.id w.id c2 λ n3 id c3.
              step string-DeepCopies s.name v.name w.name c3 λ n4 name c4.
                step string-DeepCopies s.owner_id v.owner_id w.owner_id c4 λ n5 owner_id c5.
                  step string-DeepCopies s.status v.status w.status c5 λ n6 status c6.
                    finish (ShowsAccessPointStatus rs)
                      (record {
                        ack_resource_metadata = ack_resource_metadata;
                        conditions = conditions;
                        id = id;
                        name = name;
                        owner_id = owner_id;
                        status = status;
                      })
                      λ g k e. record {
                        ack_resource_metadata = c6.holds.0.0.0.0.0.1 g k e;
                        conditions = c6.holds.0.0.0.0.1 g k e;
                        id = c6.holds.0.0.0.1 g k e;
                        name = c6.holds.0.0.1 g k e;
                        owner_id = c6.holds.0.1 g k e;
                        status = c6.holds.1 g k e;
                      })

  pub access_point_status-DeepCopies :
      DeepCopies {Cell = Cell T} (ShowsAccessPointStatus rs) (deep_copy_into_access_point_status rc)
  access_point_status-DeepCopies = record {
    stable = access_point_status_stable;
    copies = access_point_status_copies;
  }
