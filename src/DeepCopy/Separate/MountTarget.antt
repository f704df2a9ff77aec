-- ===== src/DeepCopy/Separate/MountTarget.antt =====
-- The copy of the spec and of the status of a MountTarget shows what they showed, by new cells only
-- (apis/v1alpha1/zz_generated.deepcopy.go).
use ack_ws_s3files_controlle.Prelude.{List, [], ◌++◌}
use ack_ws_s3files_controlle.Memory.Laws.{Copied, DeepCopies, start, step, finish, Runs-Copied}
use ack_ws_s3files_controlle.DeepCopy.Structs.{
  RuntimeTypes, Cell, MountTargetSpecStruct, MountTargetStatusStruct,
}
use ack_ws_s3files_controlle.DeepCopy.Fields.{RuntimeCopies}
use ack_ws_s3files_controlle.DeepCopy.Shows.{RuntimeShows}
use ack_ws_s3files_controlle.DeepCopy.Shows.Structs.{ShowsMountTargetSpec, ShowsMountTargetStatus}
use ack_ws_s3files_controlle.DeepCopy.Separate.Fields.{
  RuntimeLaws, string-DeepCopies, strings-DeepCopies, reference-DeepCopies, metadata-DeepCopies,
  conditions-DeepCopies, references-DeepCopies,
}
use ack_ws_s3files_controlle.DeepCopy.MountTarget.{
  deep_copy_into_mount_target_spec, deep_copy_into_mount_target_status,
}
use ack_ws_s3files_controlle.MountTarget.Types.{MountTargetSpec, MountTargetStatus}

module _ {T : RuntimeTypes} {rc : RuntimeCopies T} (rs : RuntimeShows T)
    (laws : RuntimeLaws rc rs) where
  mount_target_spec_stable :
      (h k : List (Cell T)) (s : MountTargetSpecStruct) (v : MountTargetSpec)
      → ShowsMountTargetSpec rs h s v
      → ShowsMountTargetSpec rs (h ++ k) s v
  mount_target_spec_stable h k s v w = record {
    file_system_id =
        string-DeepCopies.stable h k s.file_system_id v.file_system_id w.file_system_id;
    file_system_ref =
        (reference-DeepCopies rs laws).stable h k s.file_system_ref v.file_system_ref
          w.file_system_ref;
    ip_address_type =
        string-DeepCopies.stable h k s.ip_address_type v.ip_address_type w.ip_address_type;
    ipv4_address = string-DeepCopies.stable h k s.ipv4_address v.ipv4_address w.ipv4_address;
    ipv6_address = string-DeepCopies.stable h k s.ipv6_address v.ipv6_address w.ipv6_address;
    security_group_refs =
        (references-DeepCopies rs laws).stable h k s.security_group_refs v.security_group_refs
          w.security_group_refs;
    security_groups =
        strings-DeepCopies.stable h k s.security_groups v.security_groups w.security_groups;
    subnet_id = string-DeepCopies.stable h k s.subnet_id v.subnet_id w.subnet_id;
    subnet_ref = (reference-DeepCopies rs laws).stable h k s.subnet_ref v.subnet_ref w.subnet_ref;
  }

  mount_target_spec_copies :
      (h : List (Cell T)) (s : MountTargetSpecStruct) (v : MountTargetSpec)
      → ShowsMountTargetSpec rs h s v
      → Copied (ShowsMountTargetSpec rs) h v (deep_copy_into_mount_target_spec rc s)
  unfolding deep_copy_into_mount_target_spec
  mount_target_spec_copies h s v w = Runs-Copied (
      step string-DeepCopies s.file_system_id v.file_system_id w.file_system_id (start [])
        λ n1 file_system_id c1.
          step (reference-DeepCopies rs laws) s.file_system_ref v.file_system_ref w.file_system_ref
            c1
            λ n2 file_system_ref c2.
              step string-DeepCopies s.ip_address_type v.ip_address_type w.ip_address_type c2
                λ n3 ip_address_type c3.
                  step string-DeepCopies s.ipv4_address v.ipv4_address w.ipv4_address c3
                    λ n4 ipv4_address c4.
                      step string-DeepCopies s.ipv6_address v.ipv6_address w.ipv6_address c4
                        λ n5 ipv6_address c5.
                          step (references-DeepCopies rs laws) s.security_group_refs
                            v.security_group_refs w.security_group_refs c5
                            λ n6 security_group_refs c6.
                              step strings-DeepCopies s.security_groups v.security_groups
                                w.security_groups c6
                                λ n7 security_groups c7.
                                  step string-DeepCopies s.subnet_id v.subnet_id w.subnet_id c7
                                    λ n8 subnet_id c8.
                                      step (reference-DeepCopies rs laws) s.subnet_ref v.subnet_ref
                                        w.subnet_ref c8
                                        λ n9 subnet_ref c9.
                                          finish (ShowsMountTargetSpec rs)
                                            (record {
                                              file_system_id = file_system_id;
                                              file_system_ref = file_system_ref;
                                              ip_address_type = ip_address_type;
                                              ipv4_address = ipv4_address;
                                              ipv6_address = ipv6_address;
                                              security_group_refs = security_group_refs;
                                              security_groups = security_groups;
                                              subnet_id = subnet_id;
                                              subnet_ref = subnet_ref;
                                            })
                                            λ g k e. record {
                                              file_system_id = c9.holds.0.0.0.0.0.0.0.0.1 g k e;
                                              file_system_ref = c9.holds.0.0.0.0.0.0.0.1 g k e;
                                              ip_address_type = c9.holds.0.0.0.0.0.0.1 g k e;
                                              ipv4_address = c9.holds.0.0.0.0.0.1 g k e;
                                              ipv6_address = c9.holds.0.0.0.0.1 g k e;
                                              security_group_refs = c9.holds.0.0.0.1 g k e;
                                              security_groups = c9.holds.0.0.1 g k e;
                                              subnet_id = c9.holds.0.1 g k e;
                                              subnet_ref = c9.holds.1 g k e;
                                            })

  pub mount_target_spec-DeepCopies :
      DeepCopies {Cell = Cell T} (ShowsMountTargetSpec rs) (deep_copy_into_mount_target_spec rc)
  mount_target_spec-DeepCopies = record {
    stable = mount_target_spec_stable;
    copies = mount_target_spec_copies;
  }

  mount_target_status_stable :
      (h k : List (Cell T)) (s : MountTargetStatusStruct) (v : MountTargetStatus)
      → ShowsMountTargetStatus rs h s v
      → ShowsMountTargetStatus rs (h ++ k) s v
  mount_target_status_stable h k s v w = record {
    ack_resource_metadata =
        (metadata-DeepCopies rs laws).stable h k s.ack_resource_metadata v.ack_resource_metadata
          w.ack_resource_metadata;
    conditions = (conditions-DeepCopies rs laws).stable h k s.conditions v.conditions w.conditions;
    availability_zone_id =
        string-DeepCopies.stable h k s.availability_zone_id v.availability_zone_id
          w.availability_zone_id;
    id = string-DeepCopies.stable h k s.id v.id w.id;
    network_interface_id =
        string-DeepCopies.stable h k s.network_interface_id v.network_interface_id
          w.network_interface_id;
    owner_id = string-DeepCopies.stable h k s.owner_id v.owner_id w.owner_id;
    status = string-DeepCopies.stable h k s.status v.status w.status;
    status_message =
        string-DeepCopies.stable h k s.status_message v.status_message w.status_message;
    vpc_id = string-DeepCopies.stable h k s.vpc_id v.vpc_id w.vpc_id;
  }

  mount_target_status_copies :
      (h : List (Cell T)) (s : MountTargetStatusStruct) (v : MountTargetStatus)
      → ShowsMountTargetStatus rs h s v
      → Copied (ShowsMountTargetStatus rs) h v (deep_copy_into_mount_target_status rc s)
  unfolding deep_copy_into_mount_target_status
  mount_target_status_copies h s v w = Runs-Copied (
      step (metadata-DeepCopies rs laws) s.ack_resource_metadata v.ack_resource_metadata
        w.ack_resource_metadata (start [])
        λ n1 ack_resource_metadata c1.
          step (conditions-DeepCopies rs laws) s.conditions v.conditions w.conditions c1
            λ n2 conditions c2.
              step string-DeepCopies s.availability_zone_id v.availability_zone_id
                w.availability_zone_id c2
                λ n3 availability_zone_id c3. step string-DeepCopies s.id v.id w.id c3 λ n4 id c4.
                  step string-DeepCopies s.network_interface_id v.network_interface_id
                    w.network_interface_id c4
                    λ n5 network_interface_id c5.
                      step string-DeepCopies s.owner_id v.owner_id w.owner_id c5 λ n6 owner_id c6.
                        step string-DeepCopies s.status v.status w.status c6 λ n7 status c7.
                          step string-DeepCopies s.status_message v.status_message w.status_message
                            c7
                            λ n8 status_message c8.
                              step string-DeepCopies s.vpc_id v.vpc_id w.vpc_id c8 λ n9 vpc_id c9.
                                finish (ShowsMountTargetStatus rs)
                                  (record {
                                    ack_resource_metadata = ack_resource_metadata;
                                    conditions = conditions;
                                    availability_zone_id = availability_zone_id;
                                    id = id;
                                    network_interface_id = network_interface_id;
                                    owner_id = owner_id;
                                    status = status;
                                    status_message = status_message;
                                    vpc_id = vpc_id;
                                  })
                                  λ g k e. record {
                                    ack_resource_metadata = c9.holds.0.0.0.0.0.0.0.0.1 g k e;
                                    conditions = c9.holds.0.0.0.0.0.0.0.1 g k e;
                                    availability_zone_id = c9.holds.0.0.0.0.0.0.1 g k e;
                                    id = c9.holds.0.0.0.0.0.1 g k e;
                                    network_interface_id = c9.holds.0.0.0.0.1 g k e;
                                    owner_id = c9.holds.0.0.0.1 g k e;
                                    status = c9.holds.0.0.1 g k e;
                                    status_message = c9.holds.0.1 g k e;
                                    vpc_id = c9.holds.1 g k e;
                                  })

  pub mount_target_status-DeepCopies :
      DeepCopies {Cell = Cell T} (ShowsMountTargetStatus rs) (deep_copy_into_mount_target_status rc)
  mount_target_status-DeepCopies = record {
    stable = mount_target_status_stable;
    copies = mount_target_status_copies;
  }
