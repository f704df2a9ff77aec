-- ===== src/Tests/Memory.antt =====
-- A memory with a resource of each kind, over structures of the runtime without pointers.
use ack_ws_s3files_controlle.Prelude.{String, none, some, List, [], ◌∷◌}
use ack_ws_s3files_controlle.Ack.{Reference, ResourceMetadata, Condition, ObjectMeta}
use ack_ws_s3files_controlle.Memory.{pure, deep_copy_pointer}
use ack_ws_s3files_controlle.Memory.Copies.{ShowsSame, pure-DeepCopies, pointer-DeepCopies}
use ack_ws_s3files_controlle.DeepCopy.Structs.{
  RuntimeTypes, Cell, TagStruct, PosixUserStruct, FileSystemStruct, AccessPointStruct,
  MountTargetStruct,
}
use ack_ws_s3files_controlle.DeepCopy.Slots.{time_slot}
use ack_ws_s3files_controlle.DeepCopy.Fields.{RuntimeCopies}
use ack_ws_s3files_controlle.DeepCopy.Shows.{RuntimeShows}
use ack_ws_s3files_controlle.DeepCopy.Separate.Fields.{RuntimeLaws}

-- The runtime's structures as values without pointers.
abbrev value_types : RuntimeTypes
value_types = record {
  Reference = Reference;
  ResourceMetadata = ResourceMetadata;
  Condition = Condition;
  TypeMeta = String;
  ObjectMeta = ObjectMeta;
  ListMeta = String;
}

abbrev pub value_copies : RuntimeCopies value_types
value_copies = record {
  into_reference = pure;
  into_metadata = pure;
  into_condition = pure;
  into_object_meta = pure;
  into_list_meta = pure;
  time = deep_copy_pointer time_slot pure;
}

abbrev pub value_shows : RuntimeShows value_types
value_shows = record {
  reference = ShowsSame;
  metadata = ShowsSame;
  condition = ShowsSame;
  object_meta = ShowsSame;
  ListMetaView = String;
  list_meta = ShowsSame;
}

pub value_laws : RuntimeLaws value_copies value_shows
value_laws = record {
  reference = pure-DeepCopies;
  metadata = pure-DeepCopies;
  condition = pure-DeepCopies;
  object_meta = pure-DeepCopies;
  list_meta = pure-DeepCopies;
  time = pointer-DeepCopies time_slot pure-DeepCopies;
}

abbrev pub meta : ObjectMeta
meta = record {
  name = "fs";
  namespace = "default";
  finalizers = [];
  annotations = none;
  deletion_timestamp = none;
}

abbrev pub team : TagStruct
team = record { key = some 2; value = none }

abbrev pub file_system_struct : FileSystemStruct value_types
file_system_struct = record {
  type_meta = "FileSystem";
  object_meta = meta;
  spec = record {
    accept_bucket_warning = none;
    bucket = some 0;
    bucket_ref = none;
    expiration_data_rules = none;
    import_data_rules = none;
    kms_key_id = none;
    kms_key_ref = none;
    policy = none;
    prefix = none;
    role_arn = none;
    role_ref = none;
    tags = some 3;
  };
  status = record {
    ack_resource_metadata = none;
    conditions = none;
    creation_time = none;
    file_system_id = none;
    latest_version_number = none;
    name = none;
    owner_id = none;
    status = none;
    status_message = none;
  };
}

abbrev pub user_struct : PosixUserStruct
user_struct = record { gid = some 5; secondary_gids = some 6; uid = none }

abbrev pub access_point_struct : AccessPointStruct value_types
access_point_struct = record {
  type_meta = "FileSystem";
  object_meta = meta;
  spec = record {
    file_system_id = none;
    file_system_ref = none;
    posix_user = some 7;
    root_directory = none;
    tags = none;
  };
  status = record {
    ack_resource_metadata = none;
    conditions = none;
    id = none;
    name = none;
    owner_id = none;
    status = none;
  };
}

abbrev pub mount_target_struct : MountTargetStruct value_types
mount_target_struct = record {
  type_meta = "FileSystem";
  object_meta = meta;
  spec = record {
    file_system_id = none;
    file_system_ref = none;
    ip_address_type = none;
    ipv4_address = none;
    ipv6_address = none;
    security_group_refs = none;
    security_groups = some 9;
    subnet_id = none;
    subnet_ref = none;
  };
  status = record {
    ack_resource_metadata = none;
    conditions = none;
    availability_zone_id = none;
    id = none;
    network_interface_id = none;
    owner_id = none;
    status = none;
    status_message = none;
    vpc_id = none;
  };
}

-- A bucket, a tag, a user with a list of groups of which one is nil, and a list of security groups.
abbrev pub memory : List (Cell value_types)
memory =
    Cell.string "arn:aws:s3:::logs"
    ∷ Cell.tag team
    ∷ Cell.string "team"
    ∷ Cell.pointers (some 1 ∷ [])
    ∷ Cell.file_system file_system_struct
    ∷ Cell.int64 1000
    ∷ Cell.pointers (some 5 ∷ none ∷ [])
    ∷ Cell.posix_user user_struct
    ∷ Cell.access_point access_point_struct
    ∷ Cell.pointers (some 2 ∷ [])
    ∷ Cell.mount_target mount_target_struct
    ∷ []
