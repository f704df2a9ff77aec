-- ===== src/FileSystem/Drift.antt =====
-- Which differences of two FileSystems the controller sees, and what its updates do with them.
use ack_ws_s3files_controlle.Prelude.{Bool, true, false, not, ◌||◌, ◌≡◌, refl, fun_ext, arith}
use ack_ws_s3files_controlle.Ack.{Delta, Runtime, World, Exec, pure, ◌>>◌, when}
use ack_ws_s3files_controlle.Compare.{IsComparing, delta_laws, pointer_differs}
use ack_ws_s3files_controlle.Tags.{convert_to_ordered_ack_tags}
use ack_ws_s3files_controlle.Manager.{ResourceManager}
use ack_ws_s3files_controlle.FileSystem.Types.{FileSystem}
use ack_ws_s3files_controlle.FileSystem.Delta.{field_delta, policy_differs}
use ack_ws_s3files_controlle.FileSystem.Hooks.{
  sub_resource_changed, update_tags, check_available, update_policy, update_synchronization,
  update_sub_resources, custom_update_file_system,
}

-- The paths at which two FileSystems differ for the controller.
module _ {E : Type 0} (rt : Runtime E) (comparing : IsComparing rt) (a b : FileSystem) where
  -- The controller never sees a difference of the import or the expiration rules, and it sees one of
  -- the policy or the tags exactly if it compares them as different.
  pub different_at-field_delta :
      (rt.different_at (field_delta rt a b) "Spec.ImportDataRules" ≡ false)
      × (rt.different_at (field_delta rt a b) "Spec.ExpirationDataRules" ≡ false)
      × (rt.different_at (field_delta rt a b) "Spec.Policy"
          ≡ pointer_differs rt
              (λ x y. policy_differs (rt.iam_policy_document_equal x y))
              a.spec.policy
              b.spec.policy)
      × (rt.different_at (field_delta rt a b) "Spec.Tags"
          ≡ not (
              rt.map_string_string_equal
                (convert_to_ordered_ack_tags a.spec.tags).0
                (convert_to_ordered_ack_tags b.spec.tags).0))
  unfolding field_delta
  different_at-field_delta = (
    simp (comparing.different_at, delta_laws),
    simp (comparing.different_at, delta_laws),
    simp (comparing.different_at, delta_laws),
    simp (comparing.different_at, delta_laws),
  )

module _ {S E : Type 0} (rm : ResourceManager S E) (desired latest : FileSystem) where
  -- An update that knows nothing of the rules: tags, then the policy where it differs.
  abbrev pub update_without_rules : Delta → Exec S E FileSystem
  update_without_rules delta =
      update_tags rm desired latest delta
      >> when (rm.runtime.different_at delta "Spec.Policy")
          (check_available rm latest.status.status >> update_policy rm desired latest)
      >> pure desired

  drop_rules :
      (p : Bool) (m n o : Exec S E Unit) (w : World S E)
      → when (p || false || false) (m >> when p n >> when (false || false) o) w ≡ when p (m >> n) w
  drop_rules true m n o w = ground arith
  drop_rules false m n o w = refl

  -- For the differences that the controller computes itself, an update never puts a synchronization
  -- configuration: it is an update that knows nothing of the rules, whatever the rules are.
  pub rules_never_put :
      (w : World S E)
      → IsComparing rm.runtime
      → (let delta = field_delta rm.runtime desired latest in
          custom_update_file_system rm desired latest delta w ≡ update_without_rules delta w)
  unfolding custom_update_file_system sub_resource_changed update_sub_resources
  rules_never_put w comparing =
      let d = different_at-field_delta rm.runtime comparing desired latest in
      rw (d.0, d.1)
        (rw
          (fun_ext (
            drop_rules
              (rm.runtime.different_at (field_delta rm.runtime desired latest) "Spec.Policy")
              (check_available rm latest.status.status) (update_policy rm desired latest)
              (update_synchronization rm desired latest)))
          refl)
