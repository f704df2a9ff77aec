-- ===== src/MountTarget/Settled.antt =====
-- When a read of a MountTarget leaves nothing to update (pkg/resource/mount_target/sdk.go and
-- delta.go).
use ack_ws_s3files_controlle.Prelude.{
  String, Bool, true, false, ◌||◌, ◌&&◌, ◌==◌, ◌≡◌, ◌↔◌, sym, ◌∙◌, arith, Option, none, some, List,
  [], ◌∷◌, elements, map_option, length,
}
use ack_ws_s3files_controlle.Ack.{done, Runtime, World}
use ack_ws_s3files_controlle.Aws.{MountTargetOutput}
use ack_ws_s3files_controlle.Compare.{IsComparing, IsReflexive}
use ack_ws_s3files_controlle.Manager.{ResourceManager}
use ack_ws_s3files_controlle.MountTarget.Types.{MountTarget}
use ack_ws_s3files_controlle.MountTarget.Sdk.{sdk_find}
use ack_ws_s3files_controlle.MountTarget.Delta.{groups_differ, field_delta}
use ack_ws_s3files_controlle.MountTarget.Read.{Observes, mount_target-Observes}
use ack_ws_s3files_controlle.MountTarget.Seen.{SameTarget, field_delta-SameTarget}

-- Two pointers to the same text, or two nil pointers.
abbrev pub same_text : Option String → Option String → Bool
same_text none none = true
same_text (some x) (some y) = x == y
same_text none (some _) = false
same_text (some _) none = false

abbrev pub is_in : Option String → List (Option String) → Bool
is_in x [] = false
is_in x (y ∷ ys) = same_text x y || is_in x ys

-- Each of the first is among the second.
abbrev pub all_in : List (Option String) → List (Option String) → Bool
all_in [] ys = true
all_in (x ∷ xs) ys = is_in x ys && all_in xs ys

-- `SliceStringPEqual` of the runtime compares two slices of the same length by their members, in any
-- order.
pub record IsSliceEqual {E : Type 0} (rt : Runtime E) : Type 0 where
  pub members :
      (a b : List (Option String)) → length a ≡ length b → rt.slice_string_p_equal a b ≡ all_in a b

groups_differ-all_in :
    {E : Type 0} (rt : Runtime E)
    → IsSliceEqual rt
    → (a b : List (Option String))
    → (groups_differ rt a b ≡ false) ↔ ((length a ≡ length b) × (all_in a b ≡ true))
unfolding groups_differ
groups_differ-all_in rt equal [] [] = ground arith
groups_differ-all_in rt equal [] (y ∷ ys) = ground arith
groups_differ-all_in rt equal (x ∷ xs) b = ground (arith, equal.members (x ∷ xs) b)

-- The service holds what the spec says: of the groups, as many, and each group of the spec.
pub record Agrees {E : Type 0} (rt : Runtime E) (r : MountTarget) (resp : MountTargetOutput)
    : Type 0 where
  pub file_system_id : r.spec.file_system_id ≡ resp.file_system_id
  pub ipv4_address : r.spec.ipv4_address ≡ resp.ipv4_address
  pub ipv6_address : r.spec.ipv6_address ≡ resp.ipv6_address
  pub as_many_groups :
      length (elements r.spec.security_groups)
      ≡ length (elements (map_option rt.string_slice resp.security_groups))
  pub security_groups :
      all_in
        (elements r.spec.security_groups)
        (elements (map_option rt.string_slice resp.security_groups))
      ≡ true
  pub subnet_id : r.spec.subnet_id ≡ resp.subnet_id

module _ {S E : Type 0} (rm : ResourceManager S E) where
  Agrees-SameTarget :
      {r o : MountTarget} {resp : MountTargetOutput}
      → IsSliceEqual rm.runtime
      → IsReflexive rm.runtime
      → Observes rm r resp o
      → Agrees rm.runtime r resp
      → SameTarget rm.runtime r o
  Agrees-SameTarget {r} {resp = resp} equal reflexive seen a = record {
    file_system_id = a.file_system_id ∙ sym seen.file_system_id;
    file_system_ref = rw (seen.file_system_ref) (reflexive.reference r.spec.file_system_ref);
    ip_address_type = sym seen.ip_address_type;
    ipv4_address = a.ipv4_address ∙ sym seen.ipv4_address;
    ipv6_address = a.ipv6_address ∙ sym seen.ipv6_address;
    security_group_refs =
        rw (seen.security_group_refs) (reflexive.references r.spec.security_group_refs);
    security_groups = rw (seen.security_groups) (
        (groups_differ-all_in rm.runtime equal (elements r.spec.security_groups)
            (elements (map_option rm.runtime.string_slice resp.security_groups))).1
          (a.as_many_groups, a.security_groups));
    subnet_id = a.subnet_id ∙ sym seen.subnet_id;
    subnet_ref = rw (seen.subnet_ref) (reflexive.reference r.spec.subnet_ref);
  }

  SameTarget-Agrees :
      {r o : MountTarget} {resp : MountTargetOutput}
      → IsSliceEqual rm.runtime
      → Observes rm r resp o
      → SameTarget rm.runtime r o
      → Agrees rm.runtime r resp
  SameTarget-Agrees {r} {resp = resp} equal seen s =
      let groups =
        (groups_differ-all_in rm.runtime equal (elements r.spec.security_groups)
            (elements (map_option rm.runtime.string_slice resp.security_groups))).0
          (rw (sym seen.security_groups) s.security_groups) in
      record {
        file_system_id = s.file_system_id ∙ seen.file_system_id;
        ipv4_address = s.ipv4_address ∙ seen.ipv4_address;
        ipv6_address = s.ipv6_address ∙ seen.ipv6_address;
        as_many_groups = groups.0;
        security_groups = groups.1;
        subnet_id = s.subnet_id ∙ seen.subnet_id;
      }

  -- After a read that returns a resource, the delta to the resource it was asked for is empty exactly
  -- where the service answered with the file system, the addresses and the subnet of its spec, with
  -- as many security groups as the spec and with each group of the spec among them, in any order: a
  -- type of the addresses and references never show a difference.
  pub read_delta-Agrees :
      (r : MountTarget) {resp : MountTargetOutput} {s1 : S} {o : MountTarget} {w' : World S E}
      (w : World S E)
      → IsComparing rm.runtime
      → IsReflexive rm.runtime
      → IsSliceEqual rm.runtime
      → rm.sdkapi.get_mount_target r.status.id w.cloud ≡ (done resp, s1)
      → sdk_find rm r w ≡ (done o, w')
      → (field_delta rm.runtime r o ≡ []) ↔ Agrees rm.runtime r resp
  read_delta-Agrees r {o = o} w comparing reflexive equal e h =
      let seen = mount_target-Observes rm r w e h in
      let same = field_delta-SameTarget rm.runtime comparing r o in
      (
        λ none_seen. SameTarget-Agrees equal seen (same.0 none_seen),
        λ a. same.1 (Agrees-SameTarget equal reflexive seen a),
      )
