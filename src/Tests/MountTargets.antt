-- ===== src/Tests/MountTargets.antt =====
-- The theorems about MountTargets at concrete inputs.
use ack_ws_s3files_controlle.Prelude.{◌≡◌, ◌↔◌, ◌||◌, refl, none, some, [], ◌∷◌, ◌==◌}
use ack_ws_s3files_controlle.Ack.{terminal, done, failed, Reference, World}
use ack_ws_s3files_controlle.Conditions.{holds}
use ack_ws_s3files_controlle.Conditions.Mark.{IsTidy}
use ack_ws_s3files_controlle.Kinds
use ack_ws_s3files_controlle.Kinds.Laws.{IsClean}
use ack_ws_s3files_controlle.References.{
  IdObject, get_referenced_resource_state, referenced_error, read_reference, resolve_reference,
  resolve_field,
}
use ack_ws_s3files_controlle.Ack.{resource_synced, status_true, is_kind, is_true}
use ack_ws_s3files_controlle.Conditions.{with_status, new_condition}
use ack_ws_s3files_controlle.MountTarget.Types.{mount_target_kind, MountTarget}
use ack_ws_s3files_controlle.MountTarget.Sdk.{
  required_fields_missing_from_read_one_input, new_describe_request_payload, set_output,
  set_terminal_of_state, sdk_find,
}
use ack_ws_s3files_controlle.MountTarget.Delta.{field_delta}
use ack_ws_s3files_controlle.MountTarget.Manager.{conditions_of, read_one, update}
use ack_ws_s3files_controlle.MountTarget.References.{
  ApiReader, clear_resolved_references, validate_reference_fields,
  get_referenced_resource_state_security_group, resolve_reference_for_file_system_id,
  add_security_group, resolve_security_group, resolve_security_groups,
  resolve_reference_for_security_groups, resolve_reference_for_subnet_id, resolve_references,
}
use ack_ws_s3files_controlle.MountTarget.Resolve.{
  ResolvesTarget, resolve_references-ResolvesTarget, clear-resolve_mount_target,
}
use ack_ws_s3files_controlle.MountTarget.Seen.{SameTarget, field_delta-SameTarget}
use ack_ws_s3files_controlle.MountTarget.Read.{mount_target_error_lost}
use ack_ws_s3files_controlle.MountTarget.Settled.{Agrees, read_delta-Agrees}
use ack_ws_s3files_controlle.MountTarget.Outcome.{IsReverted, drift-IsReverted}
use ack_ws_s3files_controlle.Tests.Fixture.{
  reflexive, slice_equal, Fault, plain, runtime, comparing, setting,
}
use ack_ws_s3files_controlle.Tests.Cloud.{Cloud, target as output, manager}
use ack_ws_s3files_controlle.Tests.FileSystems.{world}

abbrev pub mounted : MountTarget
mounted = record {
  metadata = record {
    name = "target";
    namespace = "default";
    finalizers = [];
    annotations = none;
    deletion_timestamp = none;
  };
  spec = record {
    file_system_id = some "fs-2";
    file_system_ref = none;
    ip_address_type = some "IPV4_ONLY";
    ipv4_address = none;
    ipv6_address = none;
    security_group_refs = none;
    security_groups = some (some "sg-1" ∷ []);
    subnet_id = some "subnet-1";
    subnet_ref = none;
  };
  status = record {
    ack_resource_metadata = none;
    conditions = none;
    availability_zone_id = none;
    id = some "fsmt-1";
    network_interface_id = none;
    owner_id = none;
    status = some "available";
    status_message = none;
    vpc_id = none;
  };
}

record Found : Type 0 where
  shown : MountTarget
  world_after : World Cloud Fault
  proof : sdk_find manager mounted world ≡ (done shown, world_after)

abbrev found : Found
unfolding sdk_find required_fields_missing_from_read_one_input new_describe_request_payload
    set_output Kinds.set_status_defaults set_terminal_of_state
found = record { shown = _; world_after = _; proof = refl }

tidy : IsTidy (conditions_of mounted)
tidy = record { terminal_once = tt; recoverable_once = tt }

read_delta-Agrees_example :
    (field_delta runtime mounted found.shown ≡ []) ↔ Agrees runtime mounted output
read_delta-Agrees_example =
    read_delta-Agrees manager mounted world comparing reflexive slice_equal refl found.proof

mount_target_error_lost_example :
    (holds terminal (conditions_of found.shown)
      ≡ ("error" == "error" || holds terminal (conditions_of mounted)))
    × IsClean mount_target_kind manager found.shown (read_one manager mounted world).0.1
mount_target_error_lost_example =
    mount_target_error_lost manager mounted world setting tidy refl found.proof

-- The same mount target with the file system of the service.
abbrev reconciled : MountTarget
reconciled = record mounted { spec = record (mounted.spec) { file_system_id = some "fs-1" } }

drift-IsReverted_example :
    IsReverted manager mounted output (update manager mounted mounted [] world).0
    × ((update manager reconciled mounted [] world).1 ≡ (update manager mounted mounted [] world).1)
drift-IsReverted_example =
    drift-IsReverted manager mounted reconciled mounted [] world refl refl tidy refl

field_delta-SameTarget_example :
    (field_delta runtime mounted reconciled ≡ []) ↔ SameTarget runtime mounted reconciled
field_delta-SameTarget_example = field_delta-SameTarget runtime comparing mounted reconciled

abbrev group : IdObject
group = record {
  id = some "sg-9";
  conditions = with_status status_true none (new_condition resource_synced) ∷ [];
}

-- Every name is that of a group that is synced; there are no file systems.
abbrev reader : ApiReader Fault
reader = record {
  get_file_system = λ namespace name. failed (plain "no such file system");
  get_security_group = λ namespace name. done group;
  get_subnet = λ namespace name. failed (plain "no such subnet");
}

abbrev named : Reference
named = record { from = some (record { name = some "web"; namespace = none }) }

abbrev referring : MountTarget
referring = record mounted {
  spec = record (mounted.spec) {
    security_groups = none;
    security_group_refs = some (some named ∷ none ∷ some named ∷ []);
  };
}

resolve_references-ResolvesTarget_example :
    ResolvesTarget manager reader referring (resolve_references manager reader referring)
unfolding resolve_references resolve_field resolve_reference_for_file_system_id
    resolve_reference_for_security_groups resolve_security_groups resolve_security_group
    resolve_reference_for_subnet_id resolve_reference read_reference
    get_referenced_resource_state_security_group get_referenced_resource_state referenced_error
    validate_reference_fields add_security_group holds is_kind is_true
resolve_references-ResolvesTarget_example =
    resolve_references-ResolvesTarget manager reader referring refl

clear-resolve_mount_target_example :
    clear_resolved_references (resolve_references manager reader referring).resource
    ≡ clear_resolved_references referring
clear-resolve_mount_target_example = clear-resolve_mount_target manager reader referring
