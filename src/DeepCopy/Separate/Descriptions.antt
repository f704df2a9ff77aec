-- ===== src/DeepCopy/Separate/Descriptions.antt =====
-- The copy of a description in a list shows what it showed, by new cells only
-- (apis/v1alpha1/zz_generated.deepcopy.go).
use ack_ws_s3files_controlle.Prelude.{List, [], ◌++◌}
use ack_ws_s3files_controlle.Memory.Laws.{Copied, DeepCopies, start, step, finish, Runs-Copied}
use ack_ws_s3files_controlle.Memory.Copies.{pointer-DeepCopies}
use ack_ws_s3files_controlle.DeepCopy.Structs.{
  RuntimeTypes, Cell, ListAccessPointsDescriptionStruct, ListFileSystemsDescriptionStruct,
  ListMountTargetsDescriptionStruct,
}
use ack_ws_s3files_controlle.DeepCopy.Slots.{posix_user_slot, root_directory_slot}
use ack_ws_s3files_controlle.DeepCopy.Fields.{RuntimeCopies}
use ack_ws_s3files_controlle.DeepCopy.Shows.{RuntimeShows}
use ack_ws_s3files_controlle.DeepCopy.Shows.Structs.{
  ShowsListAccessPointsDescription, ShowsListFileSystemsDescription,
  ShowsListMountTargetsDescription,
}
use ack_ws_s3files_controlle.DeepCopy.Separate.Fields.{
  RuntimeLaws, string-DeepCopies, time-DeepCopies,
}
use ack_ws_s3files_controlle.DeepCopy.Descriptions.{
  deep_copy_into_list_access_points_description, deep_copy_into_list_file_systems_description,
  deep_copy_into_list_mount_targets_description,
}
use ack_ws_s3files_controlle.DeepCopy.Separate.Parts.{
  posix_user-DeepCopies, root_directory-DeepCopies,
}
use ack_ws_s3files_controlle.Descriptions.{
  ListAccessPointsDescription, ListFileSystemsDescription, ListMountTargetsDescription,
}

module _ {T : RuntimeTypes} where
  list_access_points_description_stable :
      (h k : List (Cell T)) (s : ListAccessPointsDescriptionStruct)
      (v : ListAccessPointsDescription)
      → ShowsListAccessPointsDescription h s v
      → ShowsListAccessPointsDescription (h ++ k) s v
  list_access_points_description_stable h k s v w = record {
    access_point_arn =
        string-DeepCopies.stable h k s.access_point_arn v.access_point_arn w.access_point_arn;
    access_point_id =
        string-DeepCopies.stable h k s.access_point_id v.access_point_id w.access_point_id;
    file_system_id =
        string-DeepCopies.stable h k s.file_system_id v.file_system_id w.file_system_id;
    name = string-DeepCopies.stable h k s.name v.name w.name;
    owner_id = string-DeepCopies.stable h k s.owner_id v.owner_id w.owner_id;
    posix_user =
        (pointer-DeepCopies posix_user_slot posix_user-DeepCopies).stable h k s.posix_user
          v.posix_user w.posix_user;
    root_directory =
        (pointer-DeepCopies root_directory_slot root_directory-DeepCopies).stable h k
          s.root_directory v.root_directory w.root_directory;
    status = string-DeepCopies.stable h k s.status v.status w.status;
  }

  list_access_points_description_copies :
      (h : List (Cell T)) (s : ListAccessPointsDescriptionStruct) (v : ListAccessPointsDescription)
      → ShowsListAccessPointsDescription h s v
      → Copied
          (ShowsListAccessPointsDescription)
          h
          v
          (deep_copy_into_list_access_points_description s)
  unfolding deep_copy_into_list_access_points_description
  list_access_points_description_copies h s v w = Runs-Copied (
      step string-DeepCopies s.access_point_arn v.access_point_arn w.access_point_arn (start [])
        λ n1 access_point_arn c1.
          step string-DeepCopies s.access_point_id v.access_point_id w.access_point_id c1
            λ n2 access_point_id c2.
              step string-DeepCopies s.file_system_id v.file_system_id w.file_system_id c2
                λ n3 file_system_id c3. step string-DeepCopies s.name v.name w.name c3 λ n4 name c4.
                  step string-DeepCopies s.owner_id v.owner_id w.owner_id c4 λ n5 owner_id c5.
                    step (pointer-DeepCopies posix_user_slot posix_user-DeepCopies) s.posix_user
                      v.posix_user w.posix_user c5
                      λ n6 posix_user c6.
                        step (pointer-DeepCopies root_directory_slot root_directory-DeepCopies)
                          s.root_directory v.root_directory w.root_directory c6
                          λ n7 root_directory c7.
                            step string-DeepCopies s.status v.status w.status c7 λ n8 status c8.
                              finish (ShowsListAccessPointsDescription)
                                (record {
                                  access_point_arn = access_point_arn;
                                  access_point_id = access_point_id;
                                  file_system_id = file_system_id;
                                  name = name;
                                  owner_id = owner_id;
                                  posix_user = posix_user;
                                  root_directory = root_directory;
                                  status = status;
                                })
                                λ g k e. record {
                                  access_point_arn = c8.holds.0.0.0.0.0.0.0.1 g k e;
                                  access_point_id = c8.holds.0.0.0.0.0.0.1 g k e;
                                  file_system_id = c8.holds.0.0.0.0.0.1 g k e;
                                  name = c8.holds.0.0.0.0.1 g k e;
                                  owner_id = c8.holds.0.0.0.1 g k e;
                                  posix_user = c8.holds.0.0.1 g k e;
                                  root_directory = c8.holds.0.1 g k e;
                                  status = c8.holds.1 g k e;
                                })

  pub list_access_points_description-DeepCopies :
      DeepCopies {Cell = Cell T}
        (ShowsListAccessPointsDescription)
        (deep_copy_into_list_access_points_description)
  list_access_points_description-DeepCopies = record {
    stable = list_access_points_description_stable;
    copies = list_access_points_description_copies;
  }

  list_mount_targets_description_stable :
      (h k : List (Cell T)) (s : ListMountTargetsDescriptionStruct)
      (v : ListMountTargetsDescription)
      → ShowsListMountTargetsDescription h s v
      → ShowsListMountTargetsDescription (h ++ k) s v
  list_mount_targets_description_stable h k s v w = record {
    availability_zone_id =
        string-DeepCopies.stable h k s.availability_zone_id v.availability_zone_id
          w.availability_zone_id;
    file_system_id =
        string-DeepCopies.stable h k s.file_system_id v.file_system_id w.file_system_id;
    ipv4_address = string-DeepCopies.stable h k s.ipv4_address v.ipv4_address w.ipv4_address;
    ipv6_address = string-DeepCopies.stable h k s.ipv6_address v.ipv6_address w.ipv6_address;
    mount_target_id =
        string-DeepCopies.stable h k s.mount_target_id v.mount_target_id w.mount_target_id;
    network_interface_id =
        string-DeepCopies.stable h k s.network_interface_id v.network_interface_id
          w.network_interface_id;
    owner_id = string-DeepCopies.stable h k s.owner_id v.owner_id w.owner_id;
    status = string-DeepCopies.stable h k s.status v.status w.status;
    status_message =
        string-DeepCopies.stable h k s.status_message v.status_message w.status_message;
    subnet_id = string-DeepCopies.stable h k s.subnet_id v.subnet_id w.subnet_id;
    vpc_id = string-DeepCopies.stable h k s.vpc_id v.vpc_id w.vpc_id;
  }

  list_mount_targets_description_copies :
      (h : List (Cell T)) (s : ListMountTargetsDescriptionStruct) (v : ListMountTargetsDescription)
      → ShowsListMountTargetsDescription h s v
      → Copied
          (ShowsListMountTargetsDescription)
          h
          v
          (deep_copy_into_list_mount_targets_description s)
  unfolding deep_copy_into_list_mount_targets_description
  list_mount_targets_description_copies h s v w = Runs-Copied (
      step string-DeepCopies s.availability_zone_id v.availability_zone_id w.availability_zone_id
        (start [])
        λ n1 availability_zone_id c1.
          step string-DeepCopies s.file_system_id v.file_system_id w.file_system_id c1
            λ n2 file_system_id c2.
              step string-DeepCopies s.ipv4_address v.ipv4_address w.ipv4_address c2
                λ n3 ipv4_address c3.
                  step string-DeepCopies s.ipv6_address v.ipv6_address w.ipv6_address c3
                    λ n4 ipv6_address c4.
                      step string-DeepCopies s.mount_target_id v.mount_target_id w.mount_target_id
                        c4
                        λ n5 mount_target_id c5.
                          step string-DeepCopies s.network_interface_id v.network_interface_id
                            w.network_interface_id c5
                            λ n6 network_interface_id c6.
                              step string-DeepCopies s.owner_id v.owner_id w.owner_id c6
                                λ n7 owner_id c7.
                                  step string-DeepCopies s.status v.status w.status c7
                                    λ n8 status c8.
                                      step string-DeepCopies s.status_message v.status_message
                                        w.status_message c8
                                        λ n9 status_message c9.
                                          step string-DeepCopies s.subnet_id v.subnet_id w.subnet_id
                                            c9
                                            λ n10 subnet_id c10.
                                              step string-DeepCopies s.vpc_id v.vpc_id w.vpc_id c10
                                                λ n11 vpc_id c11.
                                                  finish (ShowsListMountTargetsDescription)
                                                    (record {
                                                      availability_zone_id = availability_zone_id;
                                                      file_system_id = file_system_id;
                                                      ipv4_address = ipv4_address;
                                                      ipv6_address = ipv6_address;
                                                      mount_target_id = mount_target_id;
                                                      network_interface_id = network_interface_id;
                                                      owner_id = owner_id;
                                                      status = status;
                                                      status_message = status_message;
                                                      subnet_id = subnet_id;
                                                      vpc_id = vpc_id;
                                                    })
                                                    λ g k e. record {
                                                      availability_zone_id =
                                                          c11.holds.0.0.0.0.0.0.0.0.0.0.1 g k e;
                                                      file_system_id =
                                                          c11.holds.0.0.0.0.0.0.0.0.0.1 g k e;
                                                      ipv4_address =
                                                          c11.holds.0.0.0.0.0.0.0.0.1 g k e;
                                                      ipv6_address =
                                                          c11.holds.0.0.0.0.0.0.0.1 g k e;
                                                      mount_target_id =
                                                          c11.holds.0.0.0.0.0.0.1 g k e;
                                                      network_interface_id =
                                                          c11.holds.0.0.0.0.0.1 g k e;
                                                      owner_id = c11.holds.0.0.0.0.1 g k e;
                                                      status = c11.holds.0.0.0.1 g k e;
                                                      status_message = c11.holds.0.0.1 g k e;
                                                      subnet_id = c11.holds.0.1 g k e;
                                                      vpc_id = c11.holds.1 g k e;
                                                    })

  pub list_mount_targets_description-DeepCopies :
      DeepCopies {Cell = Cell T}
        (ShowsListMountTargetsDescription)
        (deep_copy_into_list_mount_targets_description)
  list_mount_targets_description-DeepCopies = record {
    stable = list_mount_targets_description_stable;
    copies = list_mount_targets_description_copies;
  }

module _ {T : RuntimeTypes} {rc : RuntimeCopies T} (rs : RuntimeShows T)
    (laws : RuntimeLaws rc rs) where
  list_file_systems_description_stable :
      (h k : List (Cell T)) (s : ListFileSystemsDescriptionStruct) (v : ListFileSystemsDescription)
      → ShowsListFileSystemsDescription h s v
      → ShowsListFileSystemsDescription (h ++ k) s v
  list_file_systems_description_stable h k s v w = record {
    bucket = string-DeepCopies.stable h k s.bucket v.bucket w.bucket;
    creation_time =
        (time-DeepCopies rs laws).stable h k s.creation_time v.creation_time w.creation_time;
    file_system_arn =
        string-DeepCopies.stable h k s.file_system_arn v.file_system_arn w.file_system_arn;
    file_system_id =
        string-DeepCopies.stable h k s.file_system_id v.file_system_id w.file_system_id;
    name = string-DeepCopies.stable h k s.name v.name w.name;
    owner_id = string-DeepCopies.stable h k s.owner_id v.owner_id w.owner_id;
    role_arn = string-DeepCopies.stable h k s.role_arn v.role_arn w.role_arn;
    status = string-DeepCopies.stable h k s.status v.status w.status;
    status_message =
        string-DeepCopies.stable h k s.status_message v.status_message w.status_message;
  }

  list_file_systems_description_copies :
      (h : List (Cell T)) (s : ListFileSystemsDescriptionStruct) (v : ListFileSystemsDescription)
      → ShowsListFileSystemsDescription h s v
      → Copied
          (ShowsListFileSystemsDescription)
          h
          v
          (deep_copy_into_list_file_systems_description rc s)
  unfolding deep_copy_into_list_file_systems_description
  list_file_systems_description_copies h s v w = Runs-Copied (
      step string-DeepCopies s.bucket v.bucket w.bucket (start []) λ n1 bucket c1.
        step (time-DeepCopies rs laws) s.creation_time v.creation_time w.creation_time c1
          λ n2 creation_time c2.
            step string-DeepCopies s.file_system_arn v.file_system_arn w.file_system_arn c2
              λ n3 file_system_arn c3.
                step string-DeepCopies s.file_system_id v.file_system_id w.file_system_id c3
                  λ n4 file_system_id c4.
                    step string-DeepCopies s.name v.name w.name c4 λ n5 name c5.
                      step string-DeepCopies s.owner_id v.owner_id w.owner_id c5 λ n6 owner_id c6.
                        step string-DeepCopies s.role_arn v.role_arn w.role_arn c6 λ n7 role_arn c7.
                          step string-DeepCopies s.status v.status w.status c7 λ n8 status c8.
                            step string-DeepCopies s.status_message v.status_message
                              w.status_message c8
                              λ n9 status_message c9.
                                finish (ShowsListFileSystemsDescription)
                                  (record {
                                    bucket = bucket;
                                    creation_time = creation_time;
                                    file_system_arn = file_system_arn;
                                    file_system_id = file_system_id;
                                    name = name;
                                    owner_id = owner_id;
                                    role_arn = role_arn;
                                    status = status;
                                    status_message = status_message;
                                  })
                                  λ g k e. record {
                                    bucket = c9.holds.0.0.0.0.0.0.0.0.1 g k e;
                                    creation_time = c9.holds.0.0.0.0.0.0.0.1 g k e;
                                    file_system_arn = c9.holds.0.0.0.0.0.0.1 g k e;
                                    file_system_id = c9.holds.0.0.0.0.0.1 g k e;
                                    name = c9.holds.0.0.0.0.1 g k e;
                                    owner_id = c9.holds.0.0.0.1 g k e;
                                    role_arn = c9.holds.0.0.1 g k e;
                                    status = c9.holds.0.1 g k e;
                                    status_message = c9.holds.1 g k e;
                                  })

  pub list_file_systems_description-DeepCopies :
      DeepCopies {Cell = Cell T}
        (ShowsListFileSystemsDescription)
        (deep_copy_into_list_file_systems_description rc)
  list_file_systems_description-DeepCopies = record {
    stable = list_file_systems_description_stable;
    copies = list_file_systems_description_copies;
  }
