-- ===== src/Factory/Locks.antt =====
-- How requests for managers at the same time share the lock, and come to an end (`ManagerFor` of
-- pkg/resource/file_system/manager_factory.go).
use ack_ws_s3files_controlle.Prelude.{
  ℕ, ◌+◌, ◌≤◌, false, ◌≡◌, ◌⊎◌, refl, arith, Option, none, some, List, [], ◌∷◌, Bool-cases, inl,
  inr, if◌then◌else◌,
}
use ack_ws_s3files_controlle.Ack.{Runtime}
use ack_ws_s3files_controlle.Aws.{Service}
use ack_ws_s3files_controlle.Manager.{ResourceManager}
use ack_ws_s3files_controlle.Factory.{Cache}
use ack_ws_s3files_controlle.Factory.Requests.{
  Request, Shared, Stage, asking, reading, missed, making, looked, stored, served, after_look, Turn,
  read_lock, look, read_unlock, lock, make, unlock, Step, here, there, Run, stop, step,
}

abbrev pub writers : {S E : Type 0} → Shared S E → ℕ
writers s = if s.writing then 1 else 0

-- The lock at the start.
abbrev pub unlocked : {S E : Type 0} → Cache S E → Shared S E
unlocked cache = record { cache = cache; readers = 0; writing = false }

module _ {S E Client : Type 0} where
  -- Who holds the read lock, and the write lock.
  abbrev pub reads : Stage S E Client → ℕ
  reads (reading _) = 1
  reads (looked _ _) = 1
  reads (asking _) = 0
  reads (missed _) = 0
  reads (making _) = 0
  reads (stored _ _) = 0
  reads (served _ _) = 0

  abbrev pub writes : Stage S E Client → ℕ
  writes (making _) = 1
  writes (stored _ _) = 1
  writes (asking _) = 0
  writes (reading _) = 0
  writes (looked _ _) = 0
  writes (missed _) = 0
  writes (served _ _) = 0

  abbrev pub sum : (Stage S E Client → ℕ) → List (Stage S E Client) → ℕ
  sum f [] = 0
  sum f (t ∷ stages) = f t + sum f stages

  -- The lock is held by those that took it and did not give it back, by one writer at most, and by
  -- no reader beside it.
  pub record IsLocked (s : Shared S E) (stages : List (Stage S E Client)) : Type 0 where
    pub readers_hold : s.readers ≡ sum reads stages
    pub writers_hold : writers s ≡ sum writes stages
    pub exclusive : s.readers ≡ 0 ⊎ writers s ≡ 0

  reads-after_look :
      (q : Request Client) (found : Option (ResourceManager S E))
      → (reads (after_look q found) ≡ 0) × (writes (after_look q found) ≡ 0)
  reads-after_look q none = (refl, refl)
  reads-after_look q (some rm) = (refl, refl)

  module _ (rt : Runtime E) (new_from_config : Client → Service S E) where
    -- What a step changes of who holds the lock.
    record Shifts (s s' : Shared S E) (r r' w w' : ℕ) : Type 0 where
      readers_shift : s.readers + r' ≡ s'.readers + r
      writers_shift : writers s + w' ≡ writers s' + w
      still_exclusive : s'.readers ≡ 0 ⊎ writers s' ≡ 0

    Turn-Shifts :
        {s s' : Shared S E} {t t' : Stage S E Client}
        → Turn rt new_from_config s t s' t'
        → reads t ≤ s.readers
        → writes t ≤ writers s
        → s.readers ≡ 0 ⊎ writers s ≡ 0
        → Shifts s s' (reads t) (reads t') (writes t) (writes t')
    Turn-Shifts read_lock hr hw ex = record {
      readers_shift = omega arith;
      writers_shift = refl;
      still_exclusive = inr refl;
    }
    Turn-Shifts look hr hw ex = record {
      readers_shift = refl;
      writers_shift = refl;
      still_exclusive = ex;
    }
    Turn-Shifts (read_unlock {q = q} {found = found}) hr hw ex = record {
      readers_shift = omega (arith, (reads-after_look q found).0);
      writers_shift = omega (arith, (reads-after_look q found).1);
      still_exclusive = omega arith;
    }
    Turn-Shifts lock hr hw ex = record {
      readers_shift = refl;
      writers_shift = refl;
      still_exclusive = inl refl;
    }
    Turn-Shifts make hr hw ex = record {
      readers_shift = refl;
      writers_shift = refl;
      still_exclusive = ex;
    }
    Turn-Shifts (unlock {s = s}) hr hw ex = record {
      readers_shift = refl;
      writers_shift = elim (Bool-cases s.writing) [
        | inl e ↦ rw (e) refl
        | inr e ↦ ground (arith, hw, e)
      ];
      still_exclusive = inr refl;
    }

    Step-Shifts :
        {s s' : Shared S E} {t t' : List (Stage S E Client)}
        → Step rt new_from_config s s' t t'
        → sum reads t ≤ s.readers
        → sum writes t ≤ writers s
        → s.readers ≡ 0 ⊎ writers s ≡ 0
        → Shifts s s' (sum reads t) (sum reads t') (sum writes t) (sum writes t')
    Step-Shifts (here turn) hr hw ex =
        let p = Turn-Shifts turn (omega (arith, hr)) (omega (arith, hw)) ex in
        record {
          readers_shift = omega (arith, p.readers_shift);
          writers_shift = omega (arith, p.writers_shift);
          still_exclusive = p.still_exclusive;
        }
    Step-Shifts (there move) hr hw ex =
        let p = Step-Shifts move (omega (arith, hr)) (omega (arith, hw)) ex in
        record {
          readers_shift = omega (arith, p.readers_shift);
          writers_shift = omega (arith, p.writers_shift);
          still_exclusive = p.still_exclusive;
        }

    Step-IsLocked :
        {s s' : Shared S E} {t t' : List (Stage S E Client)}
        → Step rt new_from_config s s' t t'
        → IsLocked s t
        → IsLocked s' t'
    Step-IsLocked move held =
        let p =
          Step-Shifts move (omega (arith, held.readers_hold)) (omega (arith, held.writers_hold))
            held.exclusive in
        record {
          readers_hold = omega (arith, held.readers_hold, p.readers_shift);
          writers_hold = omega (arith, held.writers_hold, p.writers_shift);
          exclusive = p.still_exclusive;
        }

    pub Run-IsLocked :
        {n : ℕ} {s s' : Shared S E} {t t' : List (Stage S E Client)}
        → Run rt new_from_config n s t s' t'
        → IsLocked s t
        → IsLocked s' t'
    Run-IsLocked stop held = held
    Run-IsLocked (step move rest) held = Run-IsLocked rest (Step-IsLocked move held)
