-- ===== src/Kinds/Laws.antt =====
-- What `onError` and `onSuccess` report: the error and the conditions that are left (the
-- `manager.go` files of pkg/resource).
use ack_ws_s3files_controlle.Prelude.{
  Bool, false, ◌≡◌, refl, ◌∙◌, ap, Option, none, some, List, if◌then◌else◌, Bool-cases, inl, inr,
}
use ack_ws_s3files_controlle.Ack.{
  Condition, terminal, recoverable, Reply, done, failed, Returned, World, Exec,
}
use ack_ws_s3files_controlle.Conditions.{holds, is_terminal, mark, update_condition_list}
use ack_ws_s3files_controlle.Conditions.Laws.{untouched}
use ack_ws_s3files_controlle.Conditions.Mark.{
  IsTidy, shows_recoverable, holds_terminal-mark, holds_recoverable-mark, untouched-mark,
  update_condition_list_error, conditions-update_condition_list, holds_not_updated,
}
use ack_ws_s3files_controlle.Manager.{ResourceManager}
use ack_ws_s3files_controlle.Kinds.{
  Kind, IsKind, listed, with_conditions, set_status_defaults, update_conditions, on_error,
  on_success, on_deleted, read_one_by,
}

module _ {R Spec S E : Type 0} (k : Kind R Spec) (rm : ResourceManager S E) where
  -- What `onError` reports: the copy with the conditions of the error, and the error.
  pub record IsReported (r : R) (err : E) (out : Returned E R) : Type 0 where
    pub shown : R
    pub resource : out.0 ≡ some shown
    pub error :
        out.1 ≡ some (if is_terminal rm.runtime (some err) then rm.runtime.terminal_error else err)
    pub is_terminal_shown : holds terminal (listed k shown) ≡ is_terminal rm.runtime (some err)
    pub is_recoverable_shown :
        holds recoverable (listed k shown)
        ≡ shows_recoverable rm.runtime (some err) (holds recoverable (listed k r))
    pub others : untouched (listed k shown) ≡ untouched (listed k r)
    pub spec : k.spec shown ≡ k.spec r

  -- What `onSuccess` reports: no error, and a resource on which no error shows.
  pub record IsClean (r : R) (out : Returned E R) : Type 0 where
    pub shown : R
    pub resource : out.0 ≡ some shown
    pub error : out.1 ≡ none
    pub not_terminal : holds terminal (listed k shown) ≡ false
    pub spec : k.spec shown ≡ k.spec r

  module _ (law : IsKind k) where
    listed-with_conditions : (cs : List Condition) (r : R) → listed k (with_conditions k cs r) ≡ cs
    listed-with_conditions cs r = rw (law.conditions r (k.metadata r) (some cs)) refl

    listed-set_status_defaults : (r : R) → listed k (set_status_defaults k rm r) ≡ listed k r
    unfolding set_status_defaults
    listed-set_status_defaults r = rw (law.conditions r _ (some (listed k r))) refl

    abbrev marked : R → Option E → R
    marked r err = with_conditions k (mark rm.runtime (listed k r) err) (set_status_defaults k rm r)

    listed-marked :
        (r : R) (err : Option E) → listed k (marked r err) ≡ mark rm.runtime (listed k r) err
    listed-marked r err =
        listed-with_conditions (mark rm.runtime (listed k r) err) (set_status_defaults k rm r)

    spec-marked : (r : R) (err : Option E) → k.spec (marked r err) ≡ k.spec r
    unfolding set_status_defaults
    spec-marked r err =
        law.spec (set_status_defaults k rm r) _ (some (mark rm.runtime (listed k r) err))
        ∙ law.spec r _ (some (listed k r))

    update_conditions_lem :
        (r : R) (err : Option E)
        → update_conditions k rm r err ≡ (
            if (update_condition_list rm.runtime (listed k r) err).1
            then some (marked r err)
            else none)
    unfolding update_conditions
    update_conditions_lem r err = rw (listed-set_status_defaults r) (
        ap
          (λ cs.
            if (update_condition_list rm.runtime (listed k r) err).1
            then some (with_conditions k cs (set_status_defaults k rm r))
            else none)
          (conditions-update_condition_list rm.runtime (listed k r) err))

    update_conditions_error :
        (r : R) (err : E) → update_conditions k rm r (some err) ≡ some (marked r (some err))
    update_conditions_error r err =
        update_conditions_lem r (some err)
        ∙ rw (update_condition_list_error rm.runtime (listed k r) err) refl

    -- From tidy conditions an error is reported with its condition.
    pub on_error_lem :
        (r : R) (err : E) → IsTidy (listed k r) → IsReported r err (on_error k rm (some r) err)
    unfolding on_error
    on_error_lem r err h =
        let cs = listed k r in
        let at = listed-marked r (some err) in
        let shows =
          ap (holds terminal) at ∙ holds_terminal-mark rm.runtime cs (some err) h.terminal_once in
        rw (update_conditions_error r err, on_error)
          (record {
            shown = marked r (some err);
            resource = refl;
            error = ap (λ (b : Bool). some (if b then rm.runtime.terminal_error else err)) shows;
            is_terminal_shown = shows;
            is_recoverable_shown =
                ap (holds recoverable) at
                ∙ holds_recoverable-mark rm.runtime cs (some err) h.recoverable_once;
            others = ap untouched at ∙ untouched-mark rm.runtime cs (some err);
            spec = spec-marked r (some err);
          })

    -- From tidy conditions a success is reported without an error and without the terminal one.
    pub on_success_lem : (r : R) → IsTidy (listed k r) → IsClean r (on_success k rm (some r))
    unfolding is_terminal on_success
    on_success_lem r h =
        let cs = listed k r in
        elim (Bool-cases (update_condition_list rm.runtime cs none).1) [
          | inl e ↦
              rw (update_conditions_lem r none, on_success, e)
                (record {
                  shown = marked r none;
                  resource = refl;
                  error = refl;
                  not_terminal =
                      ap (holds terminal) (listed-marked r none)
                      ∙ holds_terminal-mark rm.runtime cs none h.terminal_once;
                  spec = spec-marked r none;
                })
          | inr e ↦
              rw (update_conditions_lem r none, on_success, e)
                (record {
                  shown = r;
                  resource = refl;
                  error = refl;
                  not_terminal = holds_not_updated rm.runtime cs e;
                  spec = refl;
                })
        ]

    -- A read that finds the resource is a success of what it finds.
    pub read_one_by_lem :
        (find : R → Exec S E R) (mirror : R → Option R → R) (r : R) {observed : R} {w' : World S E}
        (w : World S E)
        → find r w ≡ (done observed, w')
        → IsTidy (listed k observed)
        → IsClean observed (read_one_by k rm find mirror r w).0.1
          × ((read_one_by k rm find mirror r w).1 ≡ w')
    unfolding read_one_by
    read_one_by_lem find mirror r {observed} w e h = rw e (on_success_lem observed h, refl)

  -- What a deletion reports: nothing where the service took it, also no resource, and otherwise the
  -- error on the resource.
  abbrev pub IsDeleted : R → Reply E Unit → Returned E R → Type 0
  IsDeleted r (done _) out = out ≡ (none, none)
  IsDeleted r (failed err) out = IsReported r err out

  pub on_deleted_lem :
      (r : R) (reply : Reply E Unit)
      → IsKind k
      → IsTidy (listed k r)
      → IsDeleted r reply
          (on_deleted k rm r (none, elim reply [ done _ ↦ none | failed e ↦ some e ]))
  unfolding on_success
  on_deleted_lem r (done _) law h = refl
  on_deleted_lem r (failed err) law h = on_error_lem law r err h
