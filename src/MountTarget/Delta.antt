-- ===== src/MountTarget/Delta.antt =====
-- The comparison of two MountTargets (pkg/resource/mount_target/delta.go).
use ack_ws_s3files_controlle.Prelude.{
  String, Bool, true, not, ◌&&◌, Option, none, some, List, [], ◌∷◌, ◌++◌, elements, is_empty, eqb,
  length, if◌then◌else◌,
}
use ack_ws_s3files_controlle.Ack.{Runtime, Delta}
use ack_ws_s3files_controlle.Compare.{add_if, text_differs}
use ack_ws_s3files_controlle.MountTarget.Types.{MountTarget}

module _ {E : Type 0} (rt : Runtime E) where
  -- The lengths differ, or there is something and the slices differ.
  unfoldable pub groups_differ : List (Option String) → List (Option String) → Bool
  groups_differ a b =
      if eqb (length a) (length b)
      then not (is_empty a) && not (rt.slice_string_p_equal a b)
      else true

  -- The differences of two resources that are there.
  unfoldable pub field_delta : MountTarget → MountTarget → Delta
  unfolding text_differs groups_differ
  field_delta a b =
      add_if (text_differs rt a.spec.file_system_id b.spec.file_system_id) "Spec.FileSystemID"
      ++ add_if (not (rt.reference_equal a.spec.file_system_ref b.spec.file_system_ref))
          "Spec.FileSystemRef"
      ++ add_if (text_differs rt a.spec.ip_address_type b.spec.ip_address_type) "Spec.IPAddressType"
      ++ add_if (text_differs rt a.spec.ipv4_address b.spec.ipv4_address) "Spec.IPv4Address"
      ++ add_if (text_differs rt a.spec.ipv6_address b.spec.ipv6_address) "Spec.IPv6Address"
      ++ add_if (not (rt.references_equal a.spec.security_group_refs b.spec.security_group_refs))
          "Spec.SecurityGroupRefs"
      ++ add_if (groups_differ (elements a.spec.security_groups) (elements b.spec.security_groups))
          "Spec.SecurityGroups"
      ++ add_if (text_differs rt a.spec.subnet_id b.spec.subnet_id) "Spec.SubnetID"
      ++ add_if (not (rt.reference_equal a.spec.subnet_ref b.spec.subnet_ref)) "Spec.SubnetRef"

  -- `none` is the panic of a comparison of two nil resources.
  unfoldable pub new_resource_delta : Option MountTarget → Option MountTarget → Option Delta
  unfolding field_delta
  new_resource_delta none none = none
  new_resource_delta none (some _) = some ("" ∷ [])
  new_resource_delta (some _) none = some ("" ∷ [])
  new_resource_delta (some a) (some b) = some (field_delta a b)
