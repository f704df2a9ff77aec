-- ===== src/Factory/Requests.antt =====
-- Requests for managers at the same time (`ManagerFor` of pkg/resource/file_system/
-- manager_factory.go): a request reads the cache under the read lock, and, where it finds nothing,
-- makes a manager and stores it under the write lock, without another look. The steps of several
-- requests interleave in any order that the lock allows; a reader may pass a writer that waits,
-- which the lock of Go does not let it do, so that every order of the program is one of these.
use ack_ws_s3files_controlle.Prelude.{
  ℕ, ◌-◌, suc, zero, String, Bool, true, false, Option, none, some, List, ◌∷◌,
}
use ack_ws_s3files_controlle.Ack.{Runtime}
use ack_ws_s3files_controlle.Aws.{Service}
use ack_ws_s3files_controlle.Manager.{ResourceManager}
use ack_ws_s3files_controlle.Factory.{
  Config, Cache, manager_id, cached, store, new_resource_manager,
}

-- The arguments of `ManagerFor`.
pub record Request (Client : Type 0) : Type 0 where
  pub config : Config
  pub client_config : Client
  pub id : String
  pub region : String
  pub role_arn : String

abbrev pub id_of : {Client : Type 0} → Request Client → String
id_of q = manager_id q.id q.region q.role_arn

-- What the requests share: the cache, how many hold the read lock, and whether one holds the write
-- lock.
pub record Shared (S E : Type 0) : Type 0 where
  pub cache : Cache S E
  pub readers : ℕ
  pub writing : Bool

-- How far a request is: before the read lock, with it, with what it found, before the write lock,
-- with it, with what it stored, and returned.
pub data Stage (S E Client : Type 0) : Type 0 where
  asking reading missed making : Request Client → Stage S E Client
  looked : Request Client → Option (ResourceManager S E) → Stage S E Client
  stored served : Request Client → ResourceManager S E → Stage S E Client

-- `if found { return rm, nil }`
abbrev pub after_look :
    {S E Client : Type 0} → Request Client → Option (ResourceManager S E) → Stage S E Client
after_look q none = missed q
after_look q (some rm) = served q rm

module _ {S E Client : Type 0} (rt : Runtime E) (new_from_config : Client → Service S E) where
  abbrev pub manager_of : Request Client → ResourceManager S E
  manager_of q = new_resource_manager rt new_from_config q.config q.client_config q.id q.region

  -- One step of one request: `RLock`, which waits for a writer, the look, `RUnlock`, `Lock`, which
  -- waits for readers and a writer, the store, and the deferred `Unlock`.
  pub data Turn : Shared S E → Stage S E Client → Shared S E → Stage S E Client → Type 0 where
    read_lock :
        {cache : Cache S E} {n : ℕ} {q : Request Client}
        → Turn
            (record { cache = cache; readers = n; writing = false })
            (asking q)
            (record { cache = cache; readers = suc n; writing = false })
            (reading q)
    look :
        {s : Shared S E} {q : Request Client}
        → Turn s (reading q) s (looked q (cached (id_of q) s.cache))
    read_unlock :
        {s : Shared S E} {q : Request Client} {found : Option (ResourceManager S E)}
        → Turn s (looked q found) (record s { readers = s.readers - 1 }) (after_look q found)
    lock :
        {cache : Cache S E} {q : Request Client}
        → Turn
            (record { cache = cache; readers = 0; writing = false })
            (missed q)
            (record { cache = cache; readers = 0; writing = true })
            (making q)
    make :
        {s : Shared S E} {q : Request Client}
        → Turn s
            (making q)
            (record s { cache = store (id_of q) (manager_of q) s.cache })
            (stored q (manager_of q))
    unlock :
        {s : Shared S E} {q : Request Client} {rm : ResourceManager S E}
        → Turn s (stored q rm) (record s { writing = false }) (served q rm)

  -- One request of several takes a step.
  pub data Step (s s' : Shared S E)
      : List (Stage S E Client) → List (Stage S E Client) → Type 0 where
    here :
        {t t' : Stage S E Client} {rest : List (Stage S E Client)}
        → Turn s t s' t'
        → Step s s' (t ∷ rest) (t' ∷ rest)
    there :
        {t : Stage S E Client} {before after : List (Stage S E Client)}
        → Step s s' before after
        → Step s s' (t ∷ before) (t ∷ after)

  -- A run of so many steps.
  pub data Run
      : ℕ
        → Shared S E
        → List (Stage S E Client)
        → Shared S E
        → List (Stage S E Client)
        → Type 0 where
    stop : {s : Shared S E} {stages : List (Stage S E Client)} → Run zero s stages s stages
    step :
        {n : ℕ} {s1 s2 s3 : Shared S E} {t1 t2 t3 : List (Stage S E Client)}
        → Step s1 s2 t1 t2
        → Run n s2 t2 s3 t3
        → Run (suc n) s1 t1 s3 t3
