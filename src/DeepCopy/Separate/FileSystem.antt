-- ===== src/DeepCopy/Separate/FileSystem.antt =====
-- The copy of the spec and of the status of a FileSystem shows what they showed, by new cells only
-- (apis/v1alpha1/zz_generated.deepcopy.go).
use ack_ws_s3files_controlle.Prelude.{List, [], ◌++◌}
use ack_ws_s3files_controlle.Memory.Laws.{Copied, DeepCopies, start, step, finish, Runs-Copied}
use ack_ws_s3files_controlle.DeepCopy.Structs.{
  RuntimeTypes, Cell, FileSystemSpecStruct, FileSystemStatusStruct,
}
use ack_ws_s3files_controlle.DeepCopy.Slots.{
  tag_slot, import_data_rule_slot, expiration_data_rule_slot,
}
use ack_ws_s3files_controlle.DeepCopy.Fields.{RuntimeCopies}
use ack_ws_s3files_controlle.DeepCopy.Shows.{RuntimeShows}
use ack_ws_s3files_controlle.DeepCopy.Shows.Structs.{ShowsFileSystemSpec, ShowsFileSystemStatus}
use ack_ws_s3files_controlle.DeepCopy.Separate.Fields.{
  RuntimeLaws, string-DeepCopies, int64-DeepCopies, bool-DeepCopies, time-DeepCopies,
  items-DeepCopies, reference-DeepCopies, metadata-DeepCopies, conditions-DeepCopies,
}
use ack_ws_s3files_controlle.DeepCopy.FileSystem.{
  deep_copy_into_file_system_spec, deep_copy_into_file_system_status,
}
use ack_ws_s3files_controlle.DeepCopy.Separate.Parts.{
  tag-DeepCopies, import_data_rule-DeepCopies, expiration_data_rule-DeepCopies,
}
use ack_ws_s3files_controlle.FileSystem.Types.{FileSystemSpec, FileSystemStatus}

module _ {T : RuntimeTypes} {rc : RuntimeCopies T} (rs : RuntimeShows T)
    (laws : RuntimeLaws rc rs) where
  file_system_spec_stable :
      (h k : List (Cell T)) (s : FileSystemSpecStruct) (v : FileSystemSpec)
      → ShowsFileSystemSpec rs h s v
      → ShowsFileSystemSpec rs (h ++ k) s v
  file_system_spec_stable h k s v w = record {
    accept_bucket_warning =
        bool-DeepCopies.stable h k s.accept_bucket_warning v.accept_bucket_warning
          w.accept_bucket_warning;
    bucket = string-DeepCopies.stable h k s.bucket v.bucket w.bucket;
    bucket_ref = (reference-DeepCopies rs laws).stable h k s.bucket_ref v.bucket_ref w.bucket_ref;
    expiration_data_rules =
        (items-DeepCopies expiration_data_rule_slot expiration_data_rule-DeepCopies).stable h k
          s.expiration_data_rules v.expiration_data_rules w.expiration_data_rules;
    import_data_rules =
        (items-DeepCopies import_data_rule_slot import_data_rule-DeepCopies).stable h k
          s.import_data_rules v.import_data_rules w.import_data_rules;
    kms_key_id = string-DeepCopies.stable h k s.kms_key_id v.kms_key_id w.kms_key_id;
    kms_key_ref =
        (reference-DeepCopies rs laws).stable h k s.kms_key_ref v.kms_key_ref w.kms_key_ref;
    policy = string-DeepCopies.stable h k s.policy v.policy w.policy;
    prefix = string-DeepCopies.stable h k s.prefix v.prefix w.prefix;
    role_arn = string-DeepCopies.stable h k s.role_arn v.role_arn w.role_arn;
    role_ref = (reference-DeepCopies rs laws).stable h k s.role_ref v.role_ref w.role_ref;
    tags = (items-DeepCopies tag_slot tag-DeepCopies).stable h k s.tags v.tags w.tags;
  }

  file_system_spec_copies :
      (h : List (Cell T)) (s : FileSystemSpecStruct) (v : FileSystemSpec)
      → ShowsFileSystemSpec rs h s v
      → Copied (ShowsFileSystemSpec rs) h v (deep_copy_into_file_system_spec rc s)
  unfolding deep_copy_into_file_system_spec
  file_system_spec_copies h s v w = Runs-Copied (
      step bool-DeepCopies s.accept_bucket_warning v.accept_bucket_warning w.accept_bucket_warning
        (start [])
        λ n1 accept_bucket_warning c1.
          step string-DeepCopies s.bucket v.bucket w.bucket c1 λ n2 bucket c2.
            step (reference-DeepCopies rs laws) s.bucket_ref v.bucket_ref w.bucket_ref c2
              λ n3 bucket_ref c3.
                step (items-DeepCopies expiration_data_rule_slot expiration_data_rule-DeepCopies)
                  s.expiration_data_rules v.expiration_data_rules w.expiration_data_rules c3
                  λ n4 expiration_data_rules c4.
                    step (items-DeepCopies import_data_rule_slot import_data_rule-DeepCopies)
                      s.import_data_rules v.import_data_rules w.import_data_rules c4
                      λ n5 import_data_rules c5.
                        step string-DeepCopies s.kms_key_id v.kms_key_id w.kms_key_id c5
                          λ n6 kms_key_id c6.
                            step (reference-DeepCopies rs laws) s.kms_key_ref v.kms_key_ref
                              w.kms_key_ref c6
                              λ n7 kms_key_ref c7.
                                step string-DeepCopies s.policy v.policy w.policy c7 λ n8 policy c8.
                                  step string-DeepCopies s.prefix v.prefix w.prefix c8
                                    λ n9 prefix c9.
                                      step string-DeepCopies s.role_arn v.role_arn w.role_arn c9
                                        λ n10 role_arn c10.
                                          step (reference-DeepCopies rs laws) s.role_ref v.role_ref
                                            w.role_ref c10
                                            λ n11 role_ref c11.
                                              step (items-DeepCopies tag_slot tag-DeepCopies) s.tags
                                                v.tags w.tags c11
                                                λ n12 tags c12.
                                                  finish (ShowsFileSystemSpec rs)
                                                    (record {
                                                      accept_bucket_warning = accept_bucket_warning;
                                                      bucket = bucket;
                                                      bucket_ref = bucket_ref;
                                                      expiration_data_rules = expiration_data_rules;
                                                      import_data_rules = import_data_rules;
                                                      kms_key_id = kms_key_id;
                                                      kms_key_ref = kms_key_ref;
                                                      policy = policy;
                                                      prefix = prefix;
                                                      role_arn = role_arn;
                                                      role_ref = role_ref;
                                                      tags = tags;
                                                    })
                                                    λ g k e. record {
                                                      accept_bucket_warning =
                                                          c12.holds.0.0.0.0.0.0.0.0.0.0.0.1 g k e;
                                                      bucket =
                                                          c12.holds.0.0.0.0.0.0.0.0.0.0.1 g k e;
                                                      bucket_ref =
                                                          c12.holds.0.0.0.0.0.0.0.0.0.1 g k e;
                                                      expiration_data_rules =
                                                          c12.holds.0.0.0.0.0.0.0.0.1 g k e;
                                                      import_data_rules =
                                                          c12.holds.0.0.0.0.0.0.0.1 g k e;
                                                      kms_key_id = c12.holds.0.0.0.0.0.0.1 g k e;
                                                      kms_key_ref = c12.holds.0.0.0.0.0.1 g k e;
                                                      policy = c12.holds.0.0.0.0.1 g k e;
                                                      prefix = c12.holds.0.0.0.1 g k e;
                                                      role_arn = c12.holds.0.0.1 g k e;
                                                      role_ref = c12.holds.0.1 g k e;
                                                      tags = c12.holds.1 g k e;
                                                    })

  pub file_system_spec-DeepCopies :
      DeepCopies {Cell = Cell T} (ShowsFileSystemSpec rs) (deep_copy_into_file_system_spec rc)
  file_system_spec-DeepCopies = record {
    stable = file_system_spec_stable;
    copies = file_system_spec_copies;
  }

  file_system_status_stable :
      (h k : List (Cell T)) (s : FileSystemStatusStruct) (v : FileSystemStatus)
      → ShowsFileSystemStatus rs h s v
      → ShowsFileSystemStatus rs (h ++ k) s v
  file_system_status_stable h k s v w = record {
    ack_resource_metadata =
        (metadata-DeepCopies rs laws).stable h k s.ack_resource_metadata v.ack_resource_metadata
          w.ack_resource_metadata;
    conditions = (conditions-DeepCopies rs laws).stable h k s.conditions v.conditions w.conditions;
    creation_time =
        (time-DeepCopies rs laws).stable h k s.creation_time v.creation_time w.creation_time;
    file_system_id =
        string-DeepCopies.stable h k s.file_system_id v.file_system_id w.file_system_id;
    latest_version_number =
        int64-DeepCopies.stable h k s.latest_version_number v.latest_version_number
          w.latest_version_number;
    name = string-DeepCopies.stable h k s.name v.name w.name;
    owner_id = string-DeepCopies.stable h k s.owner_id v.owner_id w.owner_id;
    status = string-DeepCopies.stable h k s.status v.status w.status;
    status_message =
        string-DeepCopies.stable h k s.status_message v.status_message w.status_message;
  }

  file_system_status_copies :
      (h : List (Cell T)) (s : FileSystemStatusStruct) (v : FileSystemStatus)
      → ShowsFileSystemStatus rs h s v
      → Copied (ShowsFileSystemStatus rs) h v (deep_copy_into_file_system_status rc s)
  unfolding deep_copy_into_file_system_status
  file_system_status_copies h s v w = Runs-Copied (
      step (metadata-DeepCopies rs laws) s.ack_resource_metadata v.ack_resource_metadata
        w.ack_resource_metadata (start [])
        λ n1 ack_resource_metadata c1.
          step (conditions-DeepCopies rs laws) s.conditions v.conditions w.conditions c1
            λ n2 conditions c2.
              step (time-DeepCopies rs laws) s.creation_time v.creation_time w.creation_time c2
                λ n3 creation_time c3.
                  step string-DeepCopies s.file_system_id v.file_system_id w.file_system_id c3
                    λ n4 file_system_id c4.
                      step int64-DeepCopies s.latest_version_number v.latest_version_number
                        w.latest_version_number c4
                        λ n5 latest_version_number c5.
                          step string-DeepCopies s.name v.name w.name c5 λ n6 name c6.
                            step string-DeepCopies s.owner_id v.owner_id w.owner_id c6
                              λ n7 owner_id c7.
                                step string-DeepCopies s.status v.status w.status c7 λ n8 status c8.
                                  step string-DeepCopies s.status_message v.status_message
                                    w.status_message c8
                                    λ n9 status_message c9.
                                      finish (ShowsFileSystemStatus rs)
                                        (record {
                                          ack_resource_metadata = ack_resource_metadata;
                                          conditions = conditions;
                                          creation_time = creation_time;
                                          file_system_id = file_system_id;
                                          latest_version_number = latest_version_number;
                                          name = name;
                                          owner_id = owner_id;
                                          status = status;
                                          status_message = status_message;
                                        })
                                        λ g k e. record {
                                          ack_resource_metadata = c9.holds.0.0.0.0.0.0.0.0.1 g k e;
                                          conditions = c9.holds.0.0.0.0.0.0.0.1 g k e;
                                          creation_time = c9.holds.0.0.0.0.0.0.1 g k e;
                                          file_system_id = c9.holds.0.0.0.0.0.1 g k e;
                                          latest_version_number = c9.holds.0.0.0.0.1 g k e;
                                          name = c9.holds.0.0.0.1 g k e;
                                          owner_id = c9.holds.0.0.1 g k e;
                                          status = c9.holds.0.1 g k e;
                                          status_message = c9.holds.1 g k e;
                                        })

  pub file_system_status-DeepCopies :
      DeepCopies {Cell = Cell T} (ShowsFileSystemStatus rs) (deep_copy_into_file_system_status rc)
  file_system_status-DeepCopies = record {
    stable = file_system_status_stable;
    copies = file_system_status_copies;
  }
