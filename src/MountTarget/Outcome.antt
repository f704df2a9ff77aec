-- ===== src/MountTarget/Outcome.antt =====
-- What an update of a MountTarget reports (pkg/resource/mount_target).
use ack_ws_s3files_controlle.Prelude.{false, ◌≡◌, refl, sym, ap, none, some, [], ◌∷◌, ◌++◌}
use ack_ws_s3files_controlle.Ack.{Delta, terminal, done, Returned, World, call, pure, Reply, ◌>>=◌}
use ack_ws_s3files_controlle.Aws.{MountTargetOutput}
use ack_ws_s3files_controlle.Conditions.{holds}
use ack_ws_s3files_controlle.Conditions.Mark.{IsTidy}
use ack_ws_s3files_controlle.Kinds
use ack_ws_s3files_controlle.Kinds.Laws.{on_success_lem}
use ack_ws_s3files_controlle.Manager.{ResourceManager}
use ack_ws_s3files_controlle.MountTarget.Types.{
  mount_target_kind, mount_target_kind-IsKind, MountTarget, MountTargetSpec,
}
use ack_ws_s3files_controlle.MountTarget.Sdk.{
  new_update_request_payload, set_output, set_status_defaults, sdk_update,
}
use ack_ws_s3files_controlle.MountTarget.Manager.{conditions_of, update}

module _ {S E : Type 0} (rm : ResourceManager S E) where
  -- What an update reports where the service took it: no error, and the immutable fields as the
  -- service has them.
  pub record IsReverted (desired : MountTarget) (resp : MountTargetOutput)
      (out : Returned E MountTarget) : Type 0 where
    pub shown : MountTarget
    pub resource : out.0 ≡ some shown
    pub error : out.1 ≡ none
    pub not_terminal : holds terminal (conditions_of shown) ≡ false
    pub file_system_id : shown.spec.file_system_id ≡ resp.file_system_id
    pub subnet_id : shown.spec.subnet_id ≡ resp.subnet_id
    pub ipv4_address : shown.spec.ipv4_address ≡ resp.ipv4_address
    pub ipv6_address : shown.spec.ipv6_address ≡ resp.ipv6_address
    pub ip_address_type : shown.spec.ip_address_type ≡ desired.spec.ip_address_type

  abbrev after_update : MountTargetOutput → S → World S E → World S E
  after_update resp s1 w = record {
    cloud = s1;
    calls =
        w.calls ++ record { op_type = "UPDATE"; op_id = "UpdateMountTarget"; outcome = none } ∷ [];
  }

  sdk_update_ran :
      (desired : MountTarget) {resp : MountTargetOutput} {s1 : S} (w : World S E)
      → rm.sdkapi.update_mount_target (new_update_request_payload rm desired) w.cloud
        ≡ (done resp, s1)
      → sdk_update rm desired w
        ≡ (done (set_status_defaults rm (set_output rm desired resp)), after_update resp s1 w)
  unfolding sdk_update
  sdk_update_ran desired w e =
      ap
        (λ (p : Reply E MountTargetOutput × S).
          (call "UPDATE" "UpdateMountTarget" (λ _. p) >>= λ resp.
          pure (set_status_defaults rm (set_output rm desired resp)))
            w)
        e

  update_ran :
      (desired latest : MountTarget) (delta : Delta) {resp : MountTargetOutput} {s1 : S}
      (w : World S E)
      → rm.sdkapi.update_mount_target (new_update_request_payload rm desired) w.cloud
        ≡ (done resp, s1)
      → update rm desired latest delta w ≡ (
        Kinds.on_success mount_target_kind rm
            (some (set_status_defaults rm (set_output rm desired resp))),
        after_update resp s1 w,
      )
  unfolding update Kinds.report_by
  update_ran desired latest delta w e =
      let ran = sdk_update_ran desired w e in rw (ran, update, Kinds.report_by) refl

  -- An update that the service takes reports no error and shows no terminal condition, and the file
  -- system, the subnet and the addresses that it returns are those of the service, whatever the
  -- desired ones were: another desired resource with the same id and groups makes the same call.
  pub drift-IsReverted :
      (desired wanted latest : MountTarget) (delta : Delta) {resp : MountTargetOutput} {s1 : S}
      (w : World S E)
      → wanted.status.id ≡ desired.status.id
      → wanted.spec.security_groups ≡ desired.spec.security_groups
      → IsTidy (conditions_of desired)
      → rm.sdkapi.update_mount_target (new_update_request_payload rm desired) w.cloud
        ≡ (done resp, s1)
      → IsReverted desired resp (update rm desired latest delta w).0
        × ((update rm wanted latest delta w).1 ≡ (update rm desired latest delta w).1)
  unfolding new_update_request_payload Kinds.set_status_defaults set_output
  drift-IsReverted desired wanted latest delta {resp} {s1} w same_id same_groups tidy e =
      let ko = set_status_defaults rm (set_output rm desired resp) in
      let p = on_success_lem mount_target_kind rm mount_target_kind-IsKind ko tidy in
      let ran = update_ran desired latest delta w e in
      let e' = rw (sym same_id, sym same_groups) at e in
      rw (ran, update_ran wanted latest delta w e')
        (
          record {
            shown = p.shown;
            resource = p.resource;
            error = p.error;
            not_terminal = p.not_terminal;
            file_system_id = ap (λ (x : MountTargetSpec). x.file_system_id) p.spec;
            subnet_id = ap (λ (x : MountTargetSpec). x.subnet_id) p.spec;
            ipv4_address = ap (λ (x : MountTargetSpec). x.ipv4_address) p.spec;
            ipv6_address = ap (λ (x : MountTargetSpec). x.ipv6_address) p.spec;
            ip_address_type = ap (λ (x : MountTargetSpec). x.ip_address_type) p.spec;
          },
          refl,
        )
