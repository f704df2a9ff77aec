-- ===== src/Factory/Alone.antt =====
-- A request for a manager with no other at the same time (`ManagerFor` of pkg/resource/file_system/
-- manager_factory.go).
use ack_ws_s3files_controlle.Prelude.{
  some, none, false, ℕ, ◌≡◌, subst, Option, [], ◌∷◌, Option-cases, inl, inr,
}
use ack_ws_s3files_controlle.Ack.{Runtime}
use ack_ws_s3files_controlle.Aws.{Service}
use ack_ws_s3files_controlle.Manager.{ResourceManager}
use ack_ws_s3files_controlle.Factory.{Cache, cached, manager_for}
use ack_ws_s3files_controlle.Factory.Requests.{
  Request, id_of, Shared, asking, reading, looked, served, Turn, read_lock, look, read_unlock, lock,
  make, unlock, here, Run, stop, step,
}
use ack_ws_s3files_controlle.Factory.Locks.{unlocked}

module _ {S E Client : Type 0} (rt : Runtime E) (new_from_config : Client → Service S E) where
  sees :
      (s : Shared S E) (q : Request Client) {found : Option (ResourceManager S E)}
      → cached (id_of q) s.cache ≡ found
      → Turn rt new_from_config s (reading q) s (looked q found)
  sees s q e = subst (λ f. Turn rt new_from_config s (reading q) s (looked q f)) e look

  -- Three steps where the manager is there, and six where it is made.
  abbrev pub steps_alone : Option (ResourceManager S E) → ℕ
  steps_alone (some rm) = 3
  steps_alone none = 6

  -- A request with no other at the same time ends with the manager and the cache of `manager_for`,
  -- and with the lock free: after three steps where the cache has its manager, and six otherwise.
  pub manager_for-Run :
      (q : Request Client) (cache : Cache S E)
      → (let out =
            manager_for rt new_from_config q.config q.client_config q.id q.region q.role_arn
              cache in
          Run rt new_from_config
            (steps_alone (cached (id_of q) cache))
            (unlocked cache)
            (asking q ∷ [])
            (unlocked out.1)
            (served q out.0 ∷ []))
  unfolding manager_for
  manager_for-Run q cache = elim (Option-cases (cached (id_of q) cache)) [
    | inl e ↦
        rw (e, manager_for)
          (step (here read_lock) (
            step (here (sees (record { cache = cache; readers = 1; writing = false }) q e)) (
              step (here read_unlock)
                (step (here lock) (step (here make) (step (here unlock) stop))))))
    | inr (rm, e) ↦
        rw (e, manager_for)
          (step (here read_lock) (
            step (here (sees (record { cache = cache; readers = 1; writing = false }) q e))
              (step (here read_unlock) stop)))
  ]
