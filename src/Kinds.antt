-- ===== src/Kinds.antt =====
-- The parts of the resource manager that the generator writes out for each kind with the same text:
-- `setStatusDefaults` and `updateConditions` of the `sdk.go` files, and `onError`, `onSuccess`,
-- `ReadOne`, `Create`, `Update` and `Delete` of the `manager.go` files of pkg/resource.
pub mod Laws
use ack_ws_s3files_controlle.Prelude.{
  String, Bool, false, ◌≡◌, Option, none, some, List, [], ◌∷◌, contains, is_empty, elements,
  if◌then◌else◌,
}
use ack_ws_s3files_controlle.Ack.{
  Condition, ConditionStatus, status_true, status_false, ResourceMetadata, terminal, Reply, done,
  failed, Returned, World, Exec,
}
use ack_ws_s3files_controlle.Conditions.{holds, update_condition_list}
use ack_ws_s3files_controlle.Manager.{ResourceManager, default_metadata, ensure_conditions}

-- A kind of custom resource: the places of its spec and of the two parts of its status that these
-- methods work on. `with_status` assigns the two.
pub record Kind (R Spec : Type 0) : Type 0 where
  pub spec : R → Spec
  pub metadata : R → Option ResourceMetadata
  pub conditions : R → Option (List Condition)
  pub with_status : R → Option ResourceMetadata → Option (List Condition) → R

module _ {R Spec : Type 0} (k : Kind R Spec) where
  abbrev pub listed : R → List Condition
  listed r = elements (k.conditions r)

  abbrev pub with_conditions : List Condition → R → R
  with_conditions cs r = k.with_status r (k.metadata r) (some cs)

module _ {R Spec S E : Type 0} (k : Kind R Spec) (rm : ResourceManager S E) where
  unfoldable pub set_status_defaults : R → R
  set_status_defaults ko =
      k.with_status ko (some (default_metadata rm (k.metadata ko)))
        (ensure_conditions (k.conditions ko))

  -- The updated copy of the resource, or nil where no condition is there.
  unfoldable pub update_conditions : R → Option E → Option R
  update_conditions r err =
      let ko = set_status_defaults r in
      let (cs, updated) = update_condition_list rm.runtime (listed k ko) err in
      if updated then some (with_conditions k cs ko) else none

  unfoldable pub on_error : Option R → E → Returned E R
  on_error none err = (none, some err)
  on_error (some r) err = elim (update_conditions r (some err)) [
    | none ↦ (some r, some err)
    | some r1 ↦
        (some r1, some (if holds terminal (listed k r1) then rm.runtime.terminal_error else err))
  ]

  unfoldable pub on_success : Option R → Returned E R
  on_success none = (none, none)
  on_success (some r) = elim (update_conditions r none) [
    | none ↦ (some r, none)
    | some r1 ↦ (some r1, none)
  ]

  abbrev pub on_reply : R → Reply E R → Returned E R
  on_reply r (done observed) = on_success (some observed)
  on_reply r (failed err) = on_error (some r) err

  abbrev pub value_of : Reply E R → Option R
  value_of (done observed) = some observed
  value_of (failed _) = none

  -- `ReadOne` with the kind's `sdkFind` and `mirrorAWSTags`: the argument, with the AWS tags
  -- mirrored into it, and what is returned.
  unfoldable pub read_one_by :
      (R → Exec S E R) → (R → Option R → R) → R → World S E → (R × Returned E R) × World S E
  read_one_by find mirror r w =
      let (observed, w') = find r w in
      let r' = mirror r (value_of observed) in ((r', on_reply r' observed), w')

  -- `Create` with the kind's `sdkCreate`, and `Update` with the latest resource and the kind's
  -- `sdkUpdate`.
  unfoldable pub report_by : R → Exec S E R → World S E → Returned E R × World S E
  report_by r m w = let (reply, w') = m w in (on_reply r reply, w')

  abbrev pub on_deleted : R → Returned E R → Returned E R
  on_deleted r (observed, none) = on_success observed
  on_deleted r (none, some err) = on_error (some r) err
  on_deleted r (some observed, some err) = on_error (some observed) err

  -- `Delete` with the kind's `sdkDelete`.
  unfoldable pub delete_by :
      (R → World S E → Returned E R × World S E) → R → World S E → Returned E R × World S E
  delete_by remove r w = let (returned, w') = remove r w in (on_deleted r returned, w')

-- The statuses at which `IsSynced` says yes.
unfoldable pub is_available : Option String → Bool
is_available none = false
is_available (some status) = contains status ("available" ∷ [])

module _ {R Spec S E : Type 0} (k : Kind R Spec) (rm : ResourceManager S E) where
  abbrev set_late_initialized : ConditionStatus → String → String → R → R
  set_late_initialized status message reason r =
      with_conditions k
        (rm.runtime.set_late_initialized (listed k r) status (some message) (some reason)) r

  abbrev set_not_synced : R → R
  set_not_synced r = with_conditions k (rm.runtime.set_synced (listed k r) status_false none none) r

  -- `lateInitializeFromReadOneOutput` and `incompleteLateInitialization`, which have no field to
  -- set or to miss.
  abbrev pub late_initialize_from_read_one_output : Option R → R → R
  late_initialize_from_read_one_output observed latest = latest

  abbrev pub incomplete_late_initialization : R → Bool
  incomplete_late_initialization r = false

  abbrev late_initialized : R × Returned E R → Returned E R
  late_initialized (copy, (observed, some err)) = (
    some (
        set_not_synced (
          set_late_initialized status_false
            "Unable to complete Read operation required for late initialization"
            "Late Initialization Failure" copy)),
    some err,
  )
  late_initialized (copy, (observed, none)) =
      let r = late_initialize_from_read_one_output observed copy in
      if incomplete_late_initialization r
      then (
        some (
            set_not_synced (
              set_late_initialized status_false
                "Late initialization did not complete, requeuing with delay of 5 seconds"
                "Delayed Late Initialization" r)),
        some (rm.runtime.needed_after_nil 5),
      )
      else (
        some (
            set_late_initialized status_true "Late initialization successful"
              "Late initialization successful" r),
        none,
      )

  -- `LateInitialize` for the kind's `lateInitializeFieldNames` and its `ReadOne`.
  unfoldable pub late_initialize_by :
      List String
      → (R → World S E → (R × Returned E R) × World S E)
      → R
      → World S E
      → Returned E R × World S E
  late_initialize_by field_names read_one latest w =
      if is_empty field_names
      then ((some latest, none), w)
      else let (out, w') = read_one latest w in (late_initialized out, w')

-- What the methods need of a kind: the assignment of the status assigns the conditions, and leaves
-- the spec.
pub record IsKind {R Spec : Type 0} (k : Kind R Spec) : Type 0 where
  pub conditions :
      (r : R) (md : Option ResourceMetadata) (cs : Option (List Condition))
      → k.conditions (k.with_status r md cs) ≡ cs
  pub spec :
      (r : R) (md : Option ResourceMetadata) (cs : Option (List Condition))
      → k.spec (k.with_status r md cs) ≡ k.spec r
