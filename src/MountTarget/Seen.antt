-- ===== src/MountTarget/Seen.antt =====
-- Which differences of two MountTargets the controller sees (pkg/resource/mount_target/delta.go).
use ack_ws_s3files_controlle.Prelude.{true, false, not, ◌≡◌, ◌↔◌, refl, [], elements}
use ack_ws_s3files_controlle.Ack.{Runtime}
use ack_ws_s3files_controlle.Compare.{text_differs, IsComparing}
use ack_ws_s3files_controlle.Compare.Same.{
  text_differs-same, same-text_differs, append-add_if, add_if_none, not-false,
}
use ack_ws_s3files_controlle.MountTarget.Types.{MountTarget}
use ack_ws_s3files_controlle.MountTarget.Delta.{groups_differ, field_delta}

-- Two mount targets with equal specs, the references and the security groups as far as the
-- comparisons of the runtime tell them apart.
pub record SameTarget {E : Type 0} (rt : Runtime E) (a b : MountTarget) : Type 0 where
  pub file_system_id : a.spec.file_system_id ≡ b.spec.file_system_id
  pub file_system_ref : rt.reference_equal a.spec.file_system_ref b.spec.file_system_ref ≡ true
  pub ip_address_type : a.spec.ip_address_type ≡ b.spec.ip_address_type
  pub ipv4_address : a.spec.ipv4_address ≡ b.spec.ipv4_address
  pub ipv6_address : a.spec.ipv6_address ≡ b.spec.ipv6_address
  pub security_group_refs :
      rt.references_equal a.spec.security_group_refs b.spec.security_group_refs ≡ true
  pub security_groups :
      groups_differ rt (elements a.spec.security_groups) (elements b.spec.security_groups) ≡ false
  pub subnet_id : a.spec.subnet_id ≡ b.spec.subnet_id
  pub subnet_ref : rt.reference_equal a.spec.subnet_ref b.spec.subnet_ref ≡ true

module _ {E : Type 0} (rt : Runtime E) (comparing : IsComparing rt) where
  there : (a b : MountTarget) → field_delta rt a b ≡ [] → SameTarget rt a b
  unfolding field_delta
  there a b h =
      let p8 =
        append-add_if _ (not (rt.reference_equal a.spec.subnet_ref b.spec.subnet_ref))
          "Spec.SubnetRef" h in
      let p7 =
        append-add_if _ (text_differs rt a.spec.subnet_id b.spec.subnet_id) "Spec.SubnetID" p8.0 in
      let p6 =
        append-add_if _
          (groups_differ rt (elements a.spec.security_groups) (elements b.spec.security_groups))
          "Spec.SecurityGroups" p7.0 in
      let p5 =
        append-add_if _
          (not (rt.references_equal a.spec.security_group_refs b.spec.security_group_refs))
          "Spec.SecurityGroupRefs" p6.0 in
      let p4 =
        append-add_if _ (text_differs rt a.spec.ipv6_address b.spec.ipv6_address) "Spec.IPv6Address"
          p5.0 in
      let p3 =
        append-add_if _ (text_differs rt a.spec.ipv4_address b.spec.ipv4_address) "Spec.IPv4Address"
          p4.0 in
      let p2 =
        append-add_if _ (text_differs rt a.spec.ip_address_type b.spec.ip_address_type)
          "Spec.IPAddressType" p3.0 in
      let p1 =
        append-add_if _ (not (rt.reference_equal a.spec.file_system_ref b.spec.file_system_ref))
          "Spec.FileSystemRef" p2.0 in
      let p0 =
        add_if_none (text_differs rt a.spec.file_system_id b.spec.file_system_id)
          "Spec.FileSystemID" p1.0 in
      record {
        file_system_id =
            text_differs-same rt comparing a.spec.file_system_id b.spec.file_system_id p0;
        file_system_ref =
            not-false (rt.reference_equal a.spec.file_system_ref b.spec.file_system_ref) p1.1;
        ip_address_type =
            text_differs-same rt comparing a.spec.ip_address_type b.spec.ip_address_type p2.1;
        ipv4_address = text_differs-same rt comparing a.spec.ipv4_address b.spec.ipv4_address p3.1;
        ipv6_address = text_differs-same rt comparing a.spec.ipv6_address b.spec.ipv6_address p4.1;
        security_group_refs =
            not-false (rt.references_equal a.spec.security_group_refs b.spec.security_group_refs)
              p5.1;
        security_groups = p6.1;
        subnet_id = text_differs-same rt comparing a.spec.subnet_id b.spec.subnet_id p7.1;
        subnet_ref = not-false (rt.reference_equal a.spec.subnet_ref b.spec.subnet_ref) p8.1;
      }

  back : (a b : MountTarget) → SameTarget rt a b → field_delta rt a b ≡ []
  unfolding field_delta
  back a b s =
      rw
        (
          same-text_differs rt comparing s.file_system_id,
          s.file_system_ref,
          same-text_differs rt comparing s.ip_address_type,
          same-text_differs rt comparing s.ipv4_address,
          same-text_differs rt comparing s.ipv6_address,
          s.security_group_refs,
          s.security_groups,
          same-text_differs rt comparing s.subnet_id,
          s.subnet_ref,
        )
        refl

  -- The delta of two mount targets is empty exactly where their specs are the same, the references
  -- and the security groups as far as the comparisons of the runtime tell them apart.
  pub field_delta-SameTarget : (a b : MountTarget) → (field_delta rt a b ≡ []) ↔ SameTarget rt a b
  field_delta-SameTarget a b = (there a b, back a b)
