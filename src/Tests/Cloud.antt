-- ===== src/Tests/Cloud.antt =====
-- A service with one file system, `fs-1`, that keeps what the theorems assume of the S3 Files API.
use ack_ws_s3files_controlle.Prelude.{
  String, Bool, true, false, ◌≡◌, refl, ◌∙◌, ap, sym, map_option, Option, none, some, List, [], ◌∷◌,
  ◌++◌, map, ◌==◌, contains, if◌then◌else◌, arith, GoMap, lookup, insert, delete, lookup-insert,
  lookup-delete,
}
use ack_ws_s3files_controlle.Ack.{Reply, done, failed, done_same}
use ack_ws_s3files_controlle.Aws.{
  AccessPointOutput, MountTargetOutput, SdkTag, FileSystemOutput,
  GetSynchronizationConfigurationOutput, Service,
}
use ack_ws_s3files_controlle.Tags.View.{or_else, has_key, tag_value, last_value}
use ack_ws_s3files_controlle.TagSync.Converge.{sdk_value, HoldsTags}
use ack_ws_s3files_controlle.Manager.{ResourceManager}
use ack_ws_s3files_controlle.ReadOnly.{IsReadOnly}
use ack_ws_s3files_controlle.FileSystem.Sdk.{tag_from_sdk}
use ack_ws_s3files_controlle.FileSystem.Settled.{ShowsTags}
use ack_ws_s3files_controlle.FileSystem.Policy.Kept.{ShowsPolicy}
use ack_ws_s3files_controlle.FileSystem.Rules.{echo}
use ack_ws_s3files_controlle.FileSystem.Update.{HoldsPolicy}
use ack_ws_s3files_controlle.Tests.Fixture.{Fault, api, runtime}

pub record Cloud : Type 0 where
  pub system : FileSystemOutput
  pub tags : GoMap
  pub policy : Option String
  pub config : Option GetSynchronizationConfigurationOutput

abbrev put_value : Option String → Option String → GoMap → GoMap
put_value (some k) (some v) m = insert k v m
put_value (some k) none m = m
put_value none v m = m

abbrev add_tag : SdkTag → GoMap → GoMap
add_tag t m = put_value t.key t.value m

abbrev add_all : List SdkTag → GoMap → GoMap
add_all [] m = m
add_all (t ∷ ts) m = add_all ts (add_tag t m)

abbrev drop_all : List String → GoMap → GoMap
drop_all [] m = m
drop_all (k ∷ ks) m = drop_all ks (delete k m)

abbrev missing : Fault
missing = api "ResourceNotFoundException" "not found"

abbrev or_missing : {A : Type 0} → Option A → Reply Fault A
or_missing none = failed missing
or_missing (some a) = done a

-- The access point of the service.
abbrev pub point : AccessPointOutput
point = record {
  access_point_arn = some "arn:aws:s3files:us-west-2:123456789012:access-point/fsap-1";
  access_point_id = some "fsap-1";
  file_system_id = some "fs-1";
  name = none;
  owner_id = some "123456789012";
  posix_user = none;
  root_directory = none;
  status = "error";
  tags = none;
}

-- The mount target of the service.
abbrev pub target : MountTargetOutput
target = record {
  availability_zone_id = some "usw2-az1";
  file_system_id = some "fs-1";
  ipv4_address = some "10.0.0.4";
  ipv6_address = none;
  mount_target_id = some "fsmt-1";
  network_interface_id = some "eni-1";
  owner_id = some "123456789012";
  security_groups = some ("sg-1" ∷ []);
  status = "error";
  status_message = none;
  subnet_id = some "subnet-1";
  vpc_id = some "vpc-1";
}

abbrev pub service : Service Cloud Fault
service = record {
  get_file_system = λ id c. (done c.system, c);
  create_file_system = λ input c. (done c.system, c);
  delete_file_system = λ id c. (done tt, c);
  get_file_system_policy =
      λ id c. (or_missing (elim c.policy [ none ↦ none | some p ↦ some (some p) ]), c);
  put_file_system_policy = λ id text c. (done tt, record c { policy = some text });
  delete_file_system_policy = λ id c.
      (elim c.policy [ none ↦ failed missing | some _ ↦ done tt ], record c { policy = none });
  get_synchronization_configuration = λ id c. (or_missing c.config, c);
  put_synchronization_configuration = λ input c. (done tt, record c { config = some (echo input) });
  get_access_point = λ id c. (done point, c);
  create_access_point = λ input c. (
    done (record point {
      file_system_id = input.file_system_id;
      posix_user = input.posix_user;
      root_directory = input.root_directory;
      tags = input.tags;
    }),
    c,
  );
  delete_access_point = λ id c. (done tt, c);
  get_mount_target = λ id c. (done target, c);
  create_mount_target = λ input c. (done target, c);
  update_mount_target = λ input c. (done target, c);
  delete_mount_target = λ id c. (done tt, c);
  tag_resource = λ id ts c. (done tt, record c { tags = add_all ts c.tags });
  untag_resource = λ id ks c. (done tt, record c { tags = drop_all ks c.tags });
}

abbrev pub manager : ResourceManager Cloud Fault
manager = record {
  runtime = runtime;
  sdkapi = service;
  enable_cross_namespace = true;
  aws_account_id = "123456789012";
  aws_region = "us-west-2";
  aws_partition = "aws";
}

abbrev pub tags_at : Cloud → Option String → String → Option String
tags_at c id k = lookup k c.tags

lookup-drop_all :
    (k : String) (ks : List String) (m : GoMap)
    → lookup k (drop_all ks m) ≡ (if contains k ks then none else lookup k m)
lookup-drop_all k [] m = refl
lookup-drop_all k (j ∷ ks) m =
    ground (arith, lookup-drop_all k ks (delete j m), lookup-delete j k m)

or_else_if :
    (b : Bool) (v : String) (o : Option String)
    → (if b then some v else o) ≡ or_else (if b then some v else none) o
or_else_if true v o = refl
or_else_if false v o = refl

or_else_assoc : (x y z : Option String) → or_else x (or_else y z) ≡ or_else (or_else x y) z
or_else_assoc none y z = refl
or_else_assoc (some a) y z = refl

lookup-put_value :
    (k : String) (key value : Option String) (m : GoMap)
    → lookup k (put_value key value m)
      ≡ or_else (if has_key k key then value else none) (lookup k m)
lookup-put_value k (some j) (some v) m = lookup-insert j k v m ∙ or_else_if (j == k) v (lookup k m)
lookup-put_value k (some j) none m = ground arith
lookup-put_value k none v m = refl

lookup-add_all :
    (k : String) (ts : List SdkTag) (m : GoMap)
    → lookup k (add_all ts m) ≡ or_else (sdk_value k ts) (lookup k m)
unfolding sdk_value
lookup-add_all k [] m = refl
lookup-add_all k (t ∷ ts) m =
    lookup-add_all k ts (add_tag t m)
    ∙ (ap (or_else (sdk_value k ts)) (lookup-put_value k t.key t.value m)
        ∙ or_else_assoc (sdk_value k ts) (if has_key k t.key then t.value else none) (lookup k m))

pub holds_tags : HoldsTags service tags_at
holds_tags = record {
  tag = λ id ts c e k. lookup-add_all k ts c.tags;
  untag = λ id ks c e k. lookup-drop_all k ks c.tags;
}

pub holds_policy : HoldsPolicy manager (λ c id. c.policy)
holds_policy = record {
  put = λ id text c e. refl;
  remove = λ id c e. refl;
  missing = λ id err c e f. refl;
}

pub reading : IsReadOnly service
reading = record {
  get_file_system = λ id c. refl;
  get_file_system_policy = λ id c. refl;
  get_synchronization_configuration = λ id c. refl;
  get_access_point = λ id c. refl;
  get_mount_target = λ id c. refl;
}

-- A service that answers with the tags that it holds, the latest entry last.
abbrev tags_of : GoMap → List SdkTag
tags_of [] = []
tags_of ((k, v) ∷ m) = tags_of m ++ record { key = some k; value = some v } ∷ []

abbrev pub tagging : ResourceManager Cloud Fault
tagging = record manager {
  sdkapi = record service {
    get_file_system = λ id c. (done (record (c.system) { tags = some (tags_of c.tags) }), c);
  };
}

or_else-none : (o : Option String) → o ≡ or_else o none
or_else-none none = refl
or_else-none (some v) = refl

last_value-append :
    (k : String) (ts : List SdkTag) (t : SdkTag)
    → tag_value k (some (map tag_from_sdk (ts ++ t ∷ [])))
      ≡ or_else
          (tag_value k (some (tag_from_sdk t ∷ [])))
          (tag_value k (some (map tag_from_sdk ts)))
unfolding last_value
last_value-append k [] t = or_else-none (tag_value k (some (tag_from_sdk t ∷ [])))
last_value-append k (s ∷ ts) t = ground (arith, last_value-append k ts t)

value_in-tags_of :
    (k : String) (m : GoMap) → tag_value k (some (map tag_from_sdk (tags_of m))) ≡ lookup k m
unfolding lookup last_value
value_in-tags_of k [] = refl
value_in-tags_of k ((j, v) ∷ m) = ground (
  arith,
  last_value-append k (tags_of m) (record { key = some j; value = some v }),
  value_in-tags_of k m,
)

pub tagging_tags : HoldsTags tagging.sdkapi tags_at
tagging_tags = record { tag = holds_tags.tag; untag = holds_tags.untag }

shown :
    (id : Option String) (c : Cloud) (k : String) (resp : FileSystemOutput) {c1 : Cloud}
    → tagging.sdkapi.get_file_system id c ≡ (done resp, c1)
    → tag_value k (map_option (map tag_from_sdk) resp.tags) ≡ tags_at c id k
shown id c k resp h =
    let same : record (c.system) { tags = some (tags_of c.tags) } ≡ resp =
      done_same (ap (λ (p : Reply Fault FileSystemOutput × Cloud). p.0) h) in
    ap (λ (r : FileSystemOutput). tag_value k (map_option (map tag_from_sdk) r.tags)) (sym same)
    ∙ value_in-tags_of k c.tags

pub showing : ShowsTags tagging tags_at
showing = record {
  shown = λ id s {resp} {s1} h k. shown id s k resp h;
  put_policy = λ id k j text s. refl;
  delete_policy = λ id k j s. refl;
  put_configuration = λ id k input s. refl;
}

policy_shown :
    (o p : Option String)
    → or_missing (elim o [ none ↦ none | some p ↦ some (some p) ]) ≡ done p
    → p ≡ o
policy_shown none p h = cc
policy_shown (some q) p h = sym (done_same h)

policy_absent :
    (o : Option String) (err : Fault)
    → or_missing (elim o [ none ↦ none | some p ↦ some (some p) ]) ≡ failed err
    → o ≡ none
policy_absent none err h = refl
policy_absent (some q) err h = cc

pub showing_policy : ShowsPolicy manager (λ c id. c.policy)
showing_policy = record {
  shown = λ id c {p} h.
      policy_shown c.policy p (ap (λ (r : Reply Fault (Option String) × Cloud). r.0) h);
  absent = λ id c {err} h e.
      policy_absent c.policy err (ap (λ (r : Reply Fault (Option String) × Cloud). r.0) h);
  tag = λ id j ts c. refl;
  untag = λ id j ks c. refl;
  put_configuration = λ id input c. refl;
  get_file_system = λ id j c. refl;
}
