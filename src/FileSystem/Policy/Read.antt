-- ===== src/FileSystem/Policy/Read.antt =====
-- What a read of a FileSystem shows of the policy that the service holds
-- (pkg/resource/file_system/sdk.go and hooks.go).
use ack_ws_s3files_controlle.Prelude.{
  String, ◌≡◌, refl, sym, ap, ◌∙◌, Option, none, some, Bool-cases, inl, inr,
}
use ack_ws_s3files_controlle.Ack.{
  Reply, done, failed, done_same, World, pure, ◌>>=◌, call, has_code, unless_code,
}
use ack_ws_s3files_controlle.Ack.Bind.{bind-Ran}
use ack_ws_s3files_controlle.Aws.{FileSystemOutput}
use ack_ws_s3files_controlle.Manager.{ResourceManager}
use ack_ws_s3files_controlle.Kinds
use ack_ws_s3files_controlle.FileSystem.Types.{FileSystem, file_system_kind}
use ack_ws_s3files_controlle.FileSystem.Sdk.{
  SyncConfiguration, absent_codes, map_error, read_error,
  required_fields_missing_from_read_one_input, new_describe_request_payload, set_output,
  fetch_file_system_policy, fetch_synchronization_configuration, set_terminal_of_state, finish_read,
  read_sub_resources, sdk_find,
}
use ack_ws_s3files_controlle.FileSystem.Policy.Kept.{ShowsPolicy}

module _ {S E : Type 0} (rm : ResourceManager S E) (policy : S → Option String → Option String)
    (showing : ShowsPolicy rm policy) where
  fetched :
      (i : String) (w : World S E) (q : Reply E (Option String) × S) {p : Option String}
      {w2 : World S E}
      → rm.sdkapi.get_file_system_policy (some i) w.cloud ≡ q
      → unless_code rm.runtime absent_codes none (call "READ_ONE" "GetFileSystemPolicy" (λ _. q)) w
        ≡ (done p, w2)
      → p ≡ policy w.cloud (some i)
  fetched i w (done x, s1) e h =
      sym (done_same (ap (λ (r : Reply E (Option String) × World S E). r.0) h))
      ∙ showing.shown (some i) w.cloud e
  fetched i w (failed err, s1) {p} e h = elim (Bool-cases (has_code rm.runtime absent_codes err)) [
    | inl c ↦
        let h' = ap (λ (r : Reply E (Option String) × World S E). r.0) h in
        sym (done_same (rw (c) at h')) ∙ sym (showing.absent (some i) w.cloud e c)
    | inr c ↦
        let h' = ap (λ (r : Reply E (Option String) × World S E). r.0) h in
        absurd (cc (rw (c) at h'))
  ]

  -- the response of a successful call, and the state that it leaves
  got :
      (id : Option String) {resp : FileSystemOutput} {s1 : S} {v : FileSystemOutput}
      {w1 : World S E} (w : World S E)
      → rm.sdkapi.get_file_system id w.cloud ≡ (done resp, s1)
      → map_error rm
          (read_error rm)
          (call "READ_ONE" "GetFileSystem" (rm.sdkapi.get_file_system id))
          w
        ≡ (done v, w1)
      → (v ≡ resp) × (w1.cloud ≡ s1)
  got id w e h = let h' = rw (e, call, map_error) at h in (cc h', cc h')

  read_policy :
      (ko : FileSystem) (i : String) {o : FileSystem} {w' : World S E} (w : World S E)
      → ko.status.file_system_id ≡ some i
      → read_sub_resources rm ko w ≡ (done o, w')
      → o.spec.policy ≡ policy w.cloud (some i)
  unfolding read_sub_resources finish_read set_terminal_of_state fetch_file_system_policy
  read_policy ko i {o} w e h =
      let id = ko.status.file_system_id in
      let configure = λ (p : Option String).
        λ (config : SyncConfiguration). pure {S = S} {E = E} (finish_read rm ko p config) in
      let p =
        bind-Ran (fetch_file_system_policy rm id)
          (λ p. fetch_synchronization_configuration rm id >>= configure p) w h in
      let c =
        bind-Ran (fetch_synchronization_configuration rm id) (configure p.value) p.middle p.rest in
      let ended : o ≡ finish_read rm ko p.value c.value = cc c.rest in
      ap (λ (x : FileSystem). x.spec.policy) ended
      ∙ fetched i w (rm.sdkapi.get_file_system_policy (some i) w.cloud) refl (rw (e) at p.first)

  pub find_policy :
      (r : FileSystem) (i : String) {resp : FileSystemOutput} {s1 : S} {o : FileSystem}
      {w' : World S E} (w : World S E)
      → rm.sdkapi.get_file_system r.status.file_system_id w.cloud ≡ (done resp, s1)
      → resp.file_system_id ≡ some i
      → sdk_find rm r w ≡ (done o, w')
      → o.spec.policy ≡ policy w.cloud (some i)
  unfolding sdk_find new_describe_request_payload Kinds.set_status_defaults set_output
  find_policy r i {resp} {s1} {o} w e same h =
      elim (Bool-cases (required_fields_missing_from_read_one_input r)) [
        | inl missing ↦ absurd (cc (rw (missing, sdk_find) at h))
        | inr there ↦
            let id = r.status.file_system_id in
            let merged = λ (v : FileSystemOutput).
              Kinds.set_status_defaults file_system_kind rm (set_output r v) in
            let p =
              bind-Ran
                (map_error rm (read_error rm)
                  (call "READ_ONE" "GetFileSystem" (rm.sdkapi.get_file_system id)))
                (λ v. read_sub_resources rm (merged v)) w (rw (there, sdk_find) at h) in
            let g = got id w e p.first in
            let at_id : p.value.file_system_id ≡ some i =
              ap (λ (v : FileSystemOutput). v.file_system_id) g.0 ∙ same in
            read_policy (merged p.value) i p.middle at_id p.rest
            ∙ ap (λ (s : S). policy s (some i)) g.1
            ∙ ap (λ (q : Reply E FileSystemOutput × S). policy q.1 (some i)) (sym e)
            ∙ showing.get_file_system (some i) id w.cloud
      ]
