-- ===== src/FileSystem/Read.antt =====
-- What a read of a FileSystem observes.
use ack_ws_s3files_controlle.Prelude.{
  String, Bool, true, false, ◌≡◌, refl, ◌∙◌, subst, eq_iff, Option, none, List, map, map_option,
  ◌==◌, text_of, if◌then◌else◌, arith, Bool-cases, inl, inr,
}
use ack_ws_s3files_controlle.Ack.{
  Condition, terminal, done, World, call, status_true, status_false, is_true, ◌>>=◌, pure,
}
use ack_ws_s3files_controlle.Ack.Bind.{bind-Ran}
use ack_ws_s3files_controlle.Aws.{FileSystemOutput}
use ack_ws_s3files_controlle.Conditions.{holds}
use ack_ws_s3files_controlle.Conditions.Mark.{IsTidy}
use ack_ws_s3files_controlle.Conditions.Terminal.{IsSetTerminal}
use ack_ws_s3files_controlle.Kinds
use ack_ws_s3files_controlle.Kinds.Laws.{IsClean}
use ack_ws_s3files_controlle.Manager.{ResourceManager, text_or_nil}
use ack_ws_s3files_controlle.FileSystem.Types.{file_system_kind, FileSystem}
use ack_ws_s3files_controlle.FileSystem.Sdk.{
  SyncConfiguration, tag_from_sdk, required_fields_missing_from_read_one_input,
  new_describe_request_payload, set_output, set_status_defaults, fetch_file_system_policy,
  fetch_synchronization_configuration, set_terminal_of_state, finish_read, read_sub_resources,
  map_error, read_error, sdk_find,
}
use ack_ws_s3files_controlle.FileSystem.Manager.{conditions_of, read_one}
use ack_ws_s3files_controlle.FileSystem.Outcome.{read_one-IsClean}

module _ {S E : Type 0} (rm : ResourceManager S E) where
  -- The observed resource is the response put over the resource: what the service has, and what it
  -- does not know of as it was.
  pub record Observes (r : FileSystem) (resp : FileSystemOutput) (o : FileSystem) : Type 0 where
    pub bucket : o.spec.bucket ≡ resp.bucket
    pub kms_key_id : o.spec.kms_key_id ≡ resp.kms_key_id
    pub prefix : o.spec.prefix ≡ resp.prefix
    pub role_arn : o.spec.role_arn ≡ resp.role_arn
    pub tags : o.spec.tags ≡ map_option (map tag_from_sdk) resp.tags
    pub id : o.status.file_system_id ≡ resp.file_system_id
    pub status : o.status.status ≡ text_or_nil resp.status
    pub message : o.status.status_message ≡ resp.status_message
    pub accept_bucket_warning : o.spec.accept_bucket_warning ≡ r.spec.accept_bucket_warning
    pub bucket_ref : o.spec.bucket_ref ≡ r.spec.bucket_ref
    pub kms_key_ref : o.spec.kms_key_ref ≡ r.spec.kms_key_ref
    pub role_ref : o.spec.role_ref ≡ r.spec.role_ref
    pub metadata : o.metadata ≡ r.metadata

  -- the sub-resources leave all of this alone
  record ReadsOn (ko o : FileSystem) : Type 0 where
    policy : Option String
    config : SyncConfiguration
    result : o ≡ finish_read rm ko policy config

  read_sub_resources_ran :
      (ko : FileSystem) {o : FileSystem} {w' : World S E} (w : World S E)
      → read_sub_resources rm ko w ≡ (done o, w')
      → ReadsOn ko o
  unfolding read_sub_resources
  read_sub_resources_ran ko {o} {w'} w h =
      let id = ko.status.file_system_id in
      let configure = λ (policy : Option String).
        λ (config : SyncConfiguration). pure {S = S} {E = E} (finish_read rm ko policy config) in
      let p =
        bind-Ran (fetch_file_system_policy rm id)
          (λ policy. fetch_synchronization_configuration rm id >>= configure policy) w h in
      let c =
        bind-Ran (fetch_synchronization_configuration rm id) (configure p.value) p.middle p.rest in
      record { policy = p.value; config = c.value; result = cc c.rest }

  -- the response of a successful call
  got :
      (id : Option String) {resp : FileSystemOutput} {s1 : S} {v : FileSystemOutput}
      {w1 : World S E} (w : World S E)
      → rm.sdkapi.get_file_system id w.cloud ≡ (done resp, s1)
      → map_error rm
          (read_error rm)
          (call "READ_ONE" "GetFileSystem" (rm.sdkapi.get_file_system id))
          w
        ≡ (done v, w1)
      → v ≡ resp
  got id w e h = let h' = rw (e, call, map_error) at h in cc h'

  sdk_find_ran :
      (r : FileSystem) {resp : FileSystemOutput} {s1 : S} {o : FileSystem} {w' : World S E}
      (w : World S E)
      → rm.sdkapi.get_file_system r.status.file_system_id w.cloud ≡ (done resp, s1)
      → sdk_find rm r w ≡ (done o, w')
      → ReadsOn (set_status_defaults rm (set_output r resp)) o
  unfolding sdk_find new_describe_request_payload
  sdk_find_ran r {resp} {s1} {o} w e h =
      elim (Bool-cases (required_fields_missing_from_read_one_input r)) [
        | inl missing ↦ absurd (cc (rw (missing, sdk_find) at h))
        | inr there ↦
            let id = r.status.file_system_id in
            let merged = λ (v : FileSystemOutput). set_status_defaults rm (set_output r v) in
            let p =
              bind-Ran
                (map_error rm (read_error rm)
                  (call "READ_ONE" "GetFileSystem" (rm.sdkapi.get_file_system id)))
                (λ v. read_sub_resources rm (merged v)) w (rw (there, sdk_find) at h) in
            subst (λ (v : FileSystemOutput). ReadsOn (merged v) o) (got id w e p.first)
              (read_sub_resources_ran (merged p.value) p.middle p.rest)
      ]

  -- A read that returns a resource returns the response put over the resource it was asked for.
  pub sdk_find-Observes :
      (r : FileSystem) {resp : FileSystemOutput} {s1 : S} {o : FileSystem} {w' : World S E}
      (w : World S E)
      → rm.sdkapi.get_file_system r.status.file_system_id w.cloud ≡ (done resp, s1)
      → sdk_find rm r w ≡ (done o, w')
      → Observes r resp o
  unfolding finish_read set_terminal_of_state Kinds.set_status_defaults set_output
  sdk_find-Observes r {resp} w e h =
      let on = sdk_find_ran r w e h in
      rw on.result (record {
        bucket = refl;
        kms_key_id = refl;
        prefix = refl;
        role_arn = refl;
        tags = refl;
        id = refl;
        status = refl;
        message = refl;
        accept_bucket_warning = refl;
        bucket_ref = refl;
        kms_key_ref = refl;
        role_ref = refl;
        metadata = refl;
      })

  -- the condition that the read sets from the state
  state_condition :
      (cs : List Condition) (state : String) (m : Option String)
      → IsSetTerminal rm.runtime.set_terminal
      → IsTidy cs
      → holds terminal (
          if text_of (text_or_nil state) == "error"
          then rm.runtime.set_terminal cs status_true m none
          else rm.runtime.set_terminal cs status_false none none)
        ≡ (state == "error")
  unfolding is_true
  state_condition cs state m set tidy = ground (
    arith,
    eq_iff state "",
    eq_iff state "error",
    set.decides cs status_true m none tidy,
    set.decides cs status_false none none tidy,
  )

  either : (b : Bool) {x y : List Condition} → IsTidy x → IsTidy y → IsTidy (if b then x else y)
  either true hx hy = hx
  either false hx hy = hy

  -- The terminal condition of what a read returns is True exactly if the service reports the error
  -- state, and the conditions are tidy.
  pub sdk_find_terminal :
      (r : FileSystem) {resp : FileSystemOutput} {s1 : S} {o : FileSystem} {w' : World S E}
      (w : World S E)
      → IsSetTerminal rm.runtime.set_terminal
      → IsTidy (conditions_of r)
      → rm.sdkapi.get_file_system r.status.file_system_id w.cloud ≡ (done resp, s1)
      → sdk_find rm r w ≡ (done o, w')
      → (holds terminal (conditions_of o) ≡ (resp.status == "error")) × IsTidy (conditions_of o)
  unfolding finish_read set_terminal_of_state Kinds.set_status_defaults set_output
  sdk_find_terminal r {resp} w set tidy e h =
      let on = sdk_find_ran r w e h in
      let cs = conditions_of r in
      rw on.result (
        state_condition cs resp.status _ set tidy,
        either (text_of (text_or_nil resp.status) == "error")
            (set.keeps_tidy cs status_true _ none tidy)
            (set.keeps_tidy cs status_false none none tidy),
      )

  -- Where the service reports the error state, `sdkFind` sets the terminal condition, and `ReadOne`
  -- returns the resource without it, and without an error.
  pub error_state_lost :
      (r : FileSystem) {resp : FileSystemOutput} {s1 : S} {o : FileSystem} {w' : World S E}
      (w : World S E)
      → IsSetTerminal rm.runtime.set_terminal
      → IsTidy (conditions_of r)
      → rm.sdkapi.get_file_system r.status.file_system_id w.cloud ≡ (done resp, s1)
      → resp.status ≡ "error"
      → sdk_find rm r w ≡ (done o, w')
      → (holds terminal (conditions_of o) ≡ true)
        × IsClean file_system_kind rm o (read_one rm r w).0.1
  error_state_lost r {resp} w set tidy e st h =
      let found = sdk_find_terminal r w set tidy e h in
      (found.0 ∙ (eq_iff resp.status "error").1 st, (read_one-IsClean rm r w h found.1).0)
