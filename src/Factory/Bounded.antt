-- ===== src/Factory/Bounded.antt =====
-- That requests for managers at the same time come to an end (`ManagerFor` of pkg/resource/
-- file_system/manager_factory.go).
use ack_ws_s3files_controlle.Prelude.{
  ℕ, ◌+◌, ◌*◌, ◌≤◌, ◌<◌, suc, zero, Bool, true, false, ◌≡◌, ◌⊎◌, refl, sym, arith, Option, none,
  some, List, [], ◌∷◌, length, inl, inr,
}
use ack_ws_s3files_controlle.Ack.{Runtime}
use ack_ws_s3files_controlle.Aws.{Service}
use ack_ws_s3files_controlle.Manager.{ResourceManager}
use ack_ws_s3files_controlle.Factory.{Cache}
use ack_ws_s3files_controlle.Factory.Requests.{
  Request, Shared, Stage, asking, reading, missed, making, looked, stored, served, after_look, Turn,
  read_lock, look, read_unlock, lock, make, unlock, Step, here, there, Run, stop, step,
}
use ack_ws_s3files_controlle.Factory.Locks.{unlocked, reads, writes, sum, IsLocked, Run-IsLocked}

module _ {S E Client : Type 0} where
  -- The steps that are left.
  abbrev left : Stage S E Client → ℕ
  left (asking _) = 6
  left (reading _) = 5
  left (looked _ _) = 4
  left (missed _) = 3
  left (making _) = 2
  left (stored _ _) = 1
  left (served _ _) = 0

  abbrev pub AllServed : List (Stage S E Client) → Type 0
  AllServed [] = Unit
  AllServed (served _ _ ∷ stages) = AllServed stages
  AllServed (_ ∷ stages) = false ≡ true

  abbrev pub all_asking : List (Request Client) → List (Stage S E Client)
  all_asking [] = []
  all_asking (q ∷ qs) = asking q ∷ all_asking qs

  left-after_look :
      (q : Request Client) (found : Option (ResourceManager S E)) → left (after_look q found) < 4
  left-after_look q none = omega arith
  left-after_look q (some rm) = omega arith

  module _ (rt : Runtime E) (new_from_config : Client → Service S E) where
    sum_asking :
        (qs : List (Request Client))
        → (sum reads (all_asking qs) ≡ 0)
          × (sum writes (all_asking qs) ≡ 0)
          × (sum left (all_asking qs) ≡ 6 * length qs)
    sum_asking [] = (refl, refl, refl)
    sum_asking (q ∷ qs) =
        let rest = sum_asking qs in
        (omega (arith, rest.0), omega (arith, rest.1), omega (arith, rest.2))

    Turn-left :
        {s s' : Shared S E} {t t' : Stage S E Client}
        → Turn rt new_from_config s t s' t'
        → left t' < left t
    Turn-left read_lock = omega arith
    Turn-left look = omega arith
    Turn-left (read_unlock {q = q} {found = found}) = left-after_look q found
    Turn-left lock = omega arith
    Turn-left make = omega arith
    Turn-left unlock = omega arith

    Step-left :
        {s s' : Shared S E} {t t' : List (Stage S E Client)}
        → Step rt new_from_config s s' t t'
        → sum left t' < sum left t
    Step-left (here turn) = omega (arith, Turn-left turn)
    Step-left (there move) = omega (arith, Step-left move)

    Run-left :
        {n : ℕ} {s s' : Shared S E} {t t' : List (Stage S E Client)}
        → Run rt new_from_config n s t s' t'
        → n + sum left t' ≤ sum left t
    Run-left stop = omega arith
    Run-left (step move rest) = omega (arith, Step-left move, Run-left rest)

    -- A step that the requests can take.
    pub record CanStep (s : Shared S E) (stages : List (Stage S E Client)) : Type 0 where
      pub shared_after : Shared S E
      pub stages_after : List (Stage S E Client)
      pub possible : Step rt new_from_config s shared_after stages stages_after

    later :
        {s : Shared S E} {stages : List (Stage S E Client)} (t : Stage S E Client)
        → CanStep s stages
        → CanStep s (t ∷ stages)
    later t can = record {
      shared_after = _;
      stages_after = _;
      possible = there {t = t} can.possible;
    }

    now :
        {s s' : Shared S E} {t t' : Stage S E Client} (stages : List (Stage S E Client))
        → Turn rt new_from_config s t s' t'
        → CanStep s (t ∷ stages)
    now stages turn = record {
      shared_after = _;
      stages_after = _;
      possible = here {rest = stages} turn;
    }

    -- One that holds a lock can go on.
    holder_steps :
        (s : Shared S E) (stages : List (Stage S E Client))
        → 0 < sum reads stages + sum writes stages
        → CanStep s stages
    holder_steps s [] h = absurd (omega (arith, h))
    holder_steps s (asking q ∷ stages) h =
        later (asking q) (holder_steps s stages (omega (arith, h)))
    holder_steps s (reading q ∷ stages) h = now stages look
    holder_steps s (looked q found ∷ stages) h = now stages read_unlock
    holder_steps s (missed q ∷ stages) h =
        later (missed q) (holder_steps s stages (omega (arith, h)))
    holder_steps s (making q ∷ stages) h = now stages make
    holder_steps s (stored q rm ∷ stages) h = now stages unlock
    holder_steps s (served q rm ∷ stages) h =
        later (served q rm) (holder_steps s stages (omega (arith, h)))

    -- Where nobody holds it, one that waits can go on.
    free_steps :
        (cache : Cache S E) (stages : List (Stage S E Client))
        → AllServed stages ⊎ CanStep (unlocked cache) stages
    free_steps cache [] = inl tt
    free_steps cache (asking q ∷ stages) = inr (now stages read_lock)
    free_steps cache (reading q ∷ stages) = inr (now stages look)
    free_steps cache (looked q found ∷ stages) = inr (now stages read_unlock)
    free_steps cache (missed q ∷ stages) = inr (now stages lock)
    free_steps cache (making q ∷ stages) = inr (now stages make)
    free_steps cache (stored q rm ∷ stages) = inr (now stages unlock)
    free_steps cache (served q rm ∷ stages) = elim (free_steps cache stages) [
      | inl all ↦ inl all
      | inr can ↦ inr (later (served q rm) can)
    ]

    progress :
        (cache : Cache S E) (readers : ℕ) (writing : Bool) (stages : List (Stage S E Client))
        → IsLocked (record { cache = cache; readers = readers; writing = writing }) stages
        → AllServed stages
          ⊎ CanStep (record { cache = cache; readers = readers; writing = writing }) stages
    progress cache zero false stages held = free_steps cache stages
    progress cache (suc n) false stages held =
        inr (holder_steps _ stages (omega (arith, held.readers_hold)))
    progress cache n true stages held =
        inr (holder_steps _ stages (omega (arith, held.writers_hold)))

    -- Requests for managers come to an end in whatever order their steps come, and none is blocked
    -- for ever: no run makes more than six steps for each of them, at most one of them holds the
    -- write lock and none the read lock beside it, and a run that cannot go on has served them all.
    pub Run-IsBounded :
        (qs : List (Request Client)) {n : ℕ} {cache : Cache S E} {s : Shared S E}
        {t : List (Stage S E Client)}
        → Run rt new_from_config n (unlocked cache) (all_asking qs) s t
        → (n ≤ 6 * length qs) × IsLocked s t × (AllServed t ⊎ CanStep s t)
    Run-IsBounded qs {n} {cache} {s} {t} run =
        let start = sum_asking qs in
        let held = Run-IsLocked rt new_from_config run (record {
          readers_hold = sym start.0;
          writers_hold = sym start.1;
          exclusive = inl refl;
        }) in
        (omega (arith, Run-left run, start.2), held, progress s.cache s.readers s.writing t held)
