-- ===== src/MountTarget/Read.antt =====
-- What a read of a MountTarget shows (pkg/resource/mount_target/sdk.go and manager.go).
use ack_ws_s3files_controlle.Prelude.{
  String, ◌≡◌, refl, sym, ap, ◌∙◌, subst, eq_iff, Option, none, some, ◌==◌, ◌||◌, map_option,
  text_of, arith, Bool-cases, inl, inr,
}
use ack_ws_s3files_controlle.Ack.{terminal, status_true, is_true, done, World, call, pure}
use ack_ws_s3files_controlle.Ack.Bind.{bind-Ran}
use ack_ws_s3files_controlle.Aws.{MountTargetOutput}
use ack_ws_s3files_controlle.Conditions.{holds}
use ack_ws_s3files_controlle.Conditions.Mark.{IsTidy}
use ack_ws_s3files_controlle.Conditions.Terminal.{IsSetTerminal}
use ack_ws_s3files_controlle.Kinds
use ack_ws_s3files_controlle.Kinds.Laws.{IsClean, read_one_by_lem}
use ack_ws_s3files_controlle.Manager.{ResourceManager, text_or_nil}
use ack_ws_s3files_controlle.FileSystem.Sdk.{map_error, read_error}
use ack_ws_s3files_controlle.MountTarget.Types.{
  mount_target_kind, mount_target_kind-IsKind, MountTarget, MountTargetSpec,
}
use ack_ws_s3files_controlle.MountTarget.Sdk.{
  required_fields_missing_from_read_one_input, new_describe_request_payload, set_output,
  set_status_defaults, error_message, set_terminal_of_state, sdk_find,
}
use ack_ws_s3files_controlle.MountTarget.Manager.{conditions_of, mirror_aws_tags, read_one}

module _ {S E : Type 0} (rm : ResourceManager S E) where
  -- What a read makes of a response.
  abbrev observed_of : MountTarget → MountTargetOutput → MountTarget
  observed_of r resp = set_terminal_of_state rm (set_status_defaults rm (set_output rm r resp))

  -- the response of a successful call
  got :
      (id : Option String) {resp : MountTargetOutput} {s1 : S} {v : MountTargetOutput}
      {w1 : World S E} (w : World S E)
      → rm.sdkapi.get_mount_target id w.cloud ≡ (done resp, s1)
      → map_error rm
          (read_error rm)
          (call "READ_ONE" "GetMountTarget" (rm.sdkapi.get_mount_target id))
          w
        ≡ (done v, w1)
      → v ≡ resp
  got id w e h = let h' = rw (e, call, map_error) at h in cc h'

  sdk_find_ran :
      (r : MountTarget) {resp : MountTargetOutput} {s1 : S} {o : MountTarget} {w' : World S E}
      (w : World S E)
      → rm.sdkapi.get_mount_target r.status.id w.cloud ≡ (done resp, s1)
      → sdk_find rm r w ≡ (done o, w')
      → o ≡ observed_of r resp
  unfolding sdk_find new_describe_request_payload
  sdk_find_ran r {resp} {s1} {o} w e h =
      elim (Bool-cases (required_fields_missing_from_read_one_input rm r)) [
        | inl missing ↦ absurd (cc (rw (missing, sdk_find) at h))
        | inr there ↦
            let id = r.status.id in
            let p =
              bind-Ran
                (map_error rm (read_error rm)
                  (call "READ_ONE" "GetMountTarget" (rm.sdkapi.get_mount_target id)))
                (λ v. pure (observed_of r v)) w (rw (there, sdk_find) at h) in
            subst (λ (v : MountTargetOutput). o ≡ observed_of r v) (got id w e p.first) (cc p.rest)
      ]

  -- What a mount target looks like after a read: the file system, the addresses, the groups and the
  -- subnet of the response, and nothing else of the spec.
  pub record Observes (r : MountTarget) (resp : MountTargetOutput) (o : MountTarget) : Type 0 where
    pub file_system_id : o.spec.file_system_id ≡ resp.file_system_id
    pub ipv4_address : o.spec.ipv4_address ≡ resp.ipv4_address
    pub ipv6_address : o.spec.ipv6_address ≡ resp.ipv6_address
    pub security_groups :
        o.spec.security_groups ≡ map_option rm.runtime.string_slice resp.security_groups
    pub subnet_id : o.spec.subnet_id ≡ resp.subnet_id
    pub ip_address_type : o.spec.ip_address_type ≡ r.spec.ip_address_type
    pub file_system_ref : o.spec.file_system_ref ≡ r.spec.file_system_ref
    pub security_group_refs : o.spec.security_group_refs ≡ r.spec.security_group_refs
    pub subnet_ref : o.spec.subnet_ref ≡ r.spec.subnet_ref

  spec-set_terminal_of_state : (ko : MountTarget) → (set_terminal_of_state rm ko).spec ≡ ko.spec
  unfolding set_terminal_of_state
  spec-set_terminal_of_state ko = elim (Bool-cases (text_of ko.status.status == "error")) [
    | inl e ↦ rw (e, set_terminal_of_state) refl
    | inr e ↦ rw (e, set_terminal_of_state) refl
  ]

  -- A read that returns a resource returns the response put over the resource it was asked for: a
  -- type of the addresses is not in it.
  pub mount_target-Observes :
      (r : MountTarget) {resp : MountTargetOutput} {s1 : S} {o : MountTarget} {w' : World S E}
      (w : World S E)
      → rm.sdkapi.get_mount_target r.status.id w.cloud ≡ (done resp, s1)
      → sdk_find rm r w ≡ (done o, w')
      → Observes r resp o
  unfolding Kinds.set_status_defaults set_output
  mount_target-Observes r {resp} {s1} {o} w e h =
      let ko = set_status_defaults rm (set_output rm r resp) in
      let kept : o.spec ≡ ko.spec =
        ap (λ (x : MountTarget). x.spec) (sdk_find_ran r w e h) ∙ spec-set_terminal_of_state ko in
      record {
        file_system_id = ap (λ (x : MountTargetSpec). x.file_system_id) kept;
        ipv4_address = ap (λ (x : MountTargetSpec). x.ipv4_address) kept;
        ipv6_address = ap (λ (x : MountTargetSpec). x.ipv6_address) kept;
        security_groups = ap (λ (x : MountTargetSpec). x.security_groups) kept;
        subnet_id = ap (λ (x : MountTargetSpec). x.subnet_id) kept;
        ip_address_type = ap (λ (x : MountTargetSpec). x.ip_address_type) kept;
        file_system_ref = ap (λ (x : MountTargetSpec). x.file_system_ref) kept;
        security_group_refs = ap (λ (x : MountTargetSpec). x.security_group_refs) kept;
        subnet_ref = ap (λ (x : MountTargetSpec). x.subnet_ref) kept;
      }

  condition_of_state :
      (r : MountTarget) (resp : MountTargetOutput)
      → IsSetTerminal rm.runtime.set_terminal
      → IsTidy (conditions_of r)
      → (holds terminal (conditions_of (observed_of r resp))
          ≡ (resp.status == "error" || holds terminal (conditions_of r)))
        × IsTidy (conditions_of (observed_of r resp))
  unfolding set_terminal_of_state Kinds.set_status_defaults set_output is_true
  condition_of_state r resp set tidy =
      let cs = conditions_of r in
      let m = some (error_message resp.status_message) in
      elim (Bool-cases (text_of (text_or_nil resp.status) == "error")) [
        | inl e ↦ rw (e) (
          ground (
            arith,
            e,
            eq_iff resp.status "",
            eq_iff resp.status "error",
            set.decides cs status_true m none tidy,
          ),
          set.keeps_tidy cs status_true m none tidy,
        )
        | inr e ↦
            rw (e) (ground (arith, e, eq_iff resp.status "", eq_iff resp.status "error"), tidy)
      ]

  -- A read shows the error state as the terminal condition, and keeps one that was there, and
  -- `ReadOne` returns the resource without the condition, and without an error.
  pub mount_target_error_lost :
      (r : MountTarget) {resp : MountTargetOutput} {s1 : S} {o : MountTarget} {w' : World S E}
      (w : World S E)
      → IsSetTerminal rm.runtime.set_terminal
      → IsTidy (conditions_of r)
      → rm.sdkapi.get_mount_target r.status.id w.cloud ≡ (done resp, s1)
      → sdk_find rm r w ≡ (done o, w')
      → (holds terminal (conditions_of o)
          ≡ (resp.status == "error" || holds terminal (conditions_of r)))
        × IsClean mount_target_kind rm o (read_one rm r w).0.1
  unfolding read_one
  mount_target_error_lost r {resp} {s1} {o} w set tidy e h =
      let found =
        subst
          (λ (x : MountTarget).
            (holds terminal (conditions_of x)
              ≡ (resp.status == "error" || holds terminal (conditions_of r)))
            × IsTidy (conditions_of x))
          (sym (sdk_find_ran r w e h)) (condition_of_state r resp set tidy) in
      (
        found.0,
        (read_one_by_lem mount_target_kind rm mount_target_kind-IsKind (sdk_find rm) mirror_aws_tags
            r w h found.1).0,
      )
