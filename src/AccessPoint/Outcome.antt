-- ===== src/AccessPoint/Outcome.antt =====
-- What becomes of the terminal condition of an AccessPoint (pkg/resource/access_point).
use ack_ws_s3files_controlle.Prelude.{true, ◌≡◌, subst, ap, none}
use ack_ws_s3files_controlle.Ack.{done_same}
use ack_ws_s3files_controlle.Ack.{Reply, is_true, status_true, terminal, done, World, Delta, pure}
use ack_ws_s3files_controlle.Ack.Bind.{bind-Ran}
use ack_ws_s3files_controlle.Conditions.{holds}
use ack_ws_s3files_controlle.Conditions.Mark.{IsTidy}
use ack_ws_s3files_controlle.Conditions.Terminal.{IsSetTerminal}
use ack_ws_s3files_controlle.Kinds.{report_by}
use ack_ws_s3files_controlle.Kinds.Laws.{IsClean, on_success_lem}
use ack_ws_s3files_controlle.Manager.{ResourceManager}
use ack_ws_s3files_controlle.AccessPoint.Types.{
  access_point_kind, access_point_kind-IsKind, AccessPoint,
}
use ack_ws_s3files_controlle.AccessPoint.Hooks.{
  drifted, surface_drift, update_tags, custom_update_access_point,
}
use ack_ws_s3files_controlle.AccessPoint.Manager.{conditions_of, update}

module _ {S E : Type 0} (rm : ResourceManager S E) where
  shows_drift :
      (desired : AccessPoint) (delta : Delta)
      → IsSetTerminal rm.runtime.set_terminal
      → IsTidy (conditions_of desired)
      → drifted rm delta ≡ true
      → (holds terminal (conditions_of (surface_drift rm desired delta)) ≡ true)
        × IsTidy (conditions_of (surface_drift rm desired delta))
  unfolding surface_drift is_true
  shows_drift desired delta set tidy d =
      let cs = conditions_of desired in
      rw (d) (set.decides cs status_true _ none tidy, set.keeps_tidy cs status_true _ none tidy)

  -- The custom update shows a drift of an immutable field as a terminal condition of the resource
  -- that it returns, and `Update` returns that resource without the condition, and without an error.
  pub drift_lost :
      (desired latest : AccessPoint) (delta : Delta) {o : AccessPoint} {w' : World S E}
      (w : World S E)
      → IsSetTerminal rm.runtime.set_terminal
      → IsTidy (conditions_of desired)
      → drifted rm delta ≡ true
      → custom_update_access_point rm desired latest delta w ≡ (done o, w')
      → (holds terminal (conditions_of o) ≡ true)
        × IsClean access_point_kind rm o (update rm desired latest delta w).0
  unfolding custom_update_access_point surface_drift update report_by
  drift_lost desired latest delta {o} w set tidy d h =
      let m = update_tags rm desired latest delta in
      let p = bind-Ran m (λ _. pure (surface_drift rm desired delta)) w h in
      let same = done_same (ap (λ (x : Reply E AccessPoint × World S E). x.0) p.rest) in
      let shown = shows_drift desired delta set tidy d in
      let on =
        subst
          (λ (x : AccessPoint).
            (holds terminal (conditions_of x) ≡ true) × IsTidy (conditions_of x))
          same shown in
      (on.0, rw (h) (on_success_lem access_point_kind rm access_point_kind-IsKind o on.1))
