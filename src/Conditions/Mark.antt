-- ===== src/Conditions/Mark.antt =====
-- `updateConditions` against the class of its error.
use ack_ws_s3files_controlle.Prelude.{
  String, Bool, true, false, ◌≡◌, refl, ◌∙◌, Option, none, some, List, if◌then◌else◌, arith,
  Bool-cases, inl, inr,
}
use ack_ws_s3files_controlle.Ack.{
  ConditionType, Condition, terminal, recoverable, status_true, status_false, is_kind, is_true,
  Runtime,
}
use ack_ws_s3files_controlle.Conditions.{
  has_kind, update_last, with_status, new_condition, raise, clear, holds, is_terminal, mark_error,
  mark, terminal_message, recoverable_message, update_condition_list,
}
use ack_ws_s3files_controlle.Conditions.Laws.{
  AtMostOne, untouched, has_kind-update_last, AtMostOne-update_last, holds-update_last,
  append_has_kind, append_holds, AtMostOne-append, recoverable-update_terminal,
  terminal-update_recoverable, untouched-update_terminal, untouched-update_recoverable,
  untouched_append, not_holds,
}

abbrev raised : ConditionType → String → Condition
raised kind text = with_status status_true (some text) (new_condition kind)

module _ (text : String) (cs : List Condition) where
  holds-raise_self :
      (kind : ConditionType)
      → is_kind kind kind ≡ true
      → AtMostOne kind cs
      → holds kind (raise kind text cs) ≡ true
  unfolding raise is_true
  holds-raise_self kind e h = ground (
    arith,
    holds-update_last kind status_true (some text) cs h,
    append_holds kind cs (raised kind text),
  )

  terminal-raise_recoverable : holds terminal (raise recoverable text cs) ≡ holds terminal cs
  unfolding raise is_kind is_true
  terminal-raise_recoverable = ground (
    arith,
    terminal-update_recoverable status_true (some text) cs,
    append_holds terminal cs (raised recoverable text),
  )

  recoverable-raise_terminal : holds recoverable (raise terminal text cs) ≡ holds recoverable cs
  unfolding raise is_kind is_true
  recoverable-raise_terminal = ground (
    arith,
    recoverable-update_terminal status_true (some text) cs,
    append_holds recoverable cs (raised terminal text),
  )

  untouched-raise_terminal : untouched (raise terminal text cs) ≡ untouched cs
  unfolding raise is_kind
  untouched-raise_terminal = ground (
    arith,
    untouched-update_terminal status_true (some text) cs,
    untouched_append cs (raised terminal text),
  )

  untouched-raise_recoverable : untouched (raise recoverable text cs) ≡ untouched cs
  unfolding raise is_kind
  untouched-raise_recoverable = ground (
    arith,
    untouched-update_recoverable status_true (some text) cs,
    untouched_append cs (raised recoverable text),
  )

  AtMostOne-raise :
      (k j : ConditionType)
      → (is_kind j k ≡ true → has_kind k cs ≡ has_kind j cs)
      → AtMostOne k cs
      → AtMostOne k (raise j text cs)
  unfolding raise
  AtMostOne-raise k j same h = ground (
    arith,
    AtMostOne-update_last status_true (some text) k j cs h,
    AtMostOne-append k cs (raised j text) h,
  )

holds-clear :
    (kind : ConditionType) (cs : List Condition)
    → AtMostOne kind cs
    → holds kind (clear kind cs) ≡ false
unfolding clear is_true
holds-clear kind cs h = ground (arith, holds-update_last kind status_false none cs h)

-- At most one condition is terminal and at most one is recoverable.
pub record IsTidy (cs : List Condition) : Type 0 where
  pub terminal_once : AtMostOne terminal cs
  pub recoverable_once : AtMostOne recoverable cs

IsTidy-clear : (j : ConditionType) (cs : List Condition) → IsTidy cs → IsTidy (clear j cs)
unfolding clear
IsTidy-clear j cs h = record {
  terminal_once = AtMostOne-update_last status_false none terminal j cs h.terminal_once;
  recoverable_once = AtMostOne-update_last status_false none recoverable j cs h.recoverable_once;
}

IsTidy-raise_terminal :
    (text : String) (cs : List Condition) → IsTidy cs → IsTidy (raise terminal text cs)
unfolding is_kind
IsTidy-raise_terminal text cs h = record {
  terminal_once = AtMostOne-raise text cs terminal terminal (λ _. refl) h.terminal_once;
  recoverable_once = AtMostOne-raise text cs recoverable terminal (λ e. cc) h.recoverable_once;
}

IsTidy-raise_recoverable :
    (text : String) (cs : List Condition) → IsTidy cs → IsTidy (raise recoverable text cs)
unfolding is_kind
IsTidy-raise_recoverable text cs h = record {
  terminal_once = AtMostOne-raise text cs terminal recoverable (λ e. cc) h.terminal_once;
  recoverable_once = AtMostOne-raise text cs recoverable recoverable (λ _. refl) h.recoverable_once;
}

module _ {E : Type 0} (rt : Runtime E) where
  -- Whether a recoverable error is shown after the update.
  abbrev pub shows_recoverable : Option E → Bool → Bool
  shows_recoverable none before = false
  shows_recoverable (some err) before = if is_terminal rt (some err) then before else true

  -- From at most one terminal condition, it is True after the update exactly if the error is one of
  -- the terminal errors.
  pub holds_terminal-mark :
      (cs : List Condition) (err : Option E)
      → AtMostOne terminal cs
      → holds terminal (mark rt cs err) ≡ is_terminal rt err
  unfolding mark is_kind
  holds_terminal-mark cs none h =
      terminal-update_recoverable status_false none (clear terminal cs) ∙ holds-clear terminal cs h
  holds_terminal-mark cs (some err) h = elim (Bool-cases (is_terminal rt (some err))) [
    | inl e ↦ rw (e, mark_error) (holds-raise_self (terminal_message rt err) cs terminal refl h)
    | inr e ↦
        rw (e, mark_error)
          (terminal-raise_recoverable (recoverable_message rt err) (clear terminal cs)
            ∙ holds-clear terminal cs h)
  ]

  -- From at most one recoverable condition, it is True after the update exactly if there is an error
  -- that is not terminal, or a terminal one that came upon a recoverable one.
  pub holds_recoverable-mark :
      (cs : List Condition) (err : Option E)
      → AtMostOne recoverable cs
      → holds recoverable (mark rt cs err) ≡ shows_recoverable err (holds recoverable cs)
  unfolding mark is_kind clear
  holds_recoverable-mark cs none h =
      holds-clear recoverable (clear terminal cs)
        (AtMostOne-update_last status_false none recoverable terminal cs h)
  holds_recoverable-mark cs (some err) h = elim (Bool-cases (is_terminal rt (some err))) [
    | inl e ↦ rw (e, mark_error) (recoverable-raise_terminal (terminal_message rt err) cs)
    | inr e ↦
        rw (e, mark_error)
          (holds-raise_self (recoverable_message rt err) (clear terminal cs) recoverable refl
            (AtMostOne-update_last status_false none recoverable terminal cs h))
  ]

  -- No update touches, reorders, adds or drops a condition of another type.
  pub untouched-mark :
      (cs : List Condition) (err : Option E) → untouched (mark rt cs err) ≡ untouched cs
  unfolding mark clear
  untouched-mark cs none =
      untouched-update_recoverable status_false none (clear terminal cs)
      ∙ untouched-update_terminal status_false none cs
  untouched-mark cs (some err) = elim (Bool-cases (is_terminal rt (some err))) [
    | inl e ↦ rw (e, mark_error) (untouched-raise_terminal (terminal_message rt err) cs)
    | inr e ↦
        rw (e, mark_error)
          (untouched-raise_recoverable (recoverable_message rt err) (clear terminal cs)
            ∙ untouched-update_terminal status_false none cs)
  ]

  -- The update keeps the conditions tidy.
  pub mark-IsTidy : (cs : List Condition) (err : Option E) → IsTidy cs → IsTidy (mark rt cs err)
  unfolding mark clear is_kind
  mark-IsTidy cs none h = IsTidy-clear recoverable (clear terminal cs) (IsTidy-clear terminal cs h)
  mark-IsTidy cs (some err) h = elim (Bool-cases (is_terminal rt (some err))) [
    | inl e ↦ rw (e, mark_error) (IsTidy-raise_terminal (terminal_message rt err) cs h)
    | inr e ↦
        rw (e, mark_error)
          (IsTidy-raise_recoverable (recoverable_message rt err) (clear terminal cs)
            (IsTidy-clear terminal cs h))
  ]

has_kind-raise_self :
    (text : String) (cs : List Condition) (kind : ConditionType)
    → is_kind kind kind ≡ true
    → has_kind kind (raise kind text cs) ≡ true
unfolding raise
has_kind-raise_self text cs kind e = ground (
  arith,
  has_kind-update_last status_true (some text) kind kind cs,
  append_has_kind kind cs (raised kind text),
)

module _ {E : Type 0} (rt : Runtime E) where
  -- An error always shows in the conditions.
  pub update_condition_list_error :
      (cs : List Condition) (err : E)
      → update_condition_list rt cs (some err) ≡ (mark rt cs (some err), true)
  unfolding update_condition_list mark is_kind
  update_condition_list_error cs err = elim (Bool-cases (is_terminal rt (some err))) [
    | inl e ↦
        rw (e, mark_error) (rw (has_kind-raise_self (terminal_message rt err) cs terminal refl))
    | inr e ↦
        rw (e, mark_error)
          (ground (
            arith,
            has_kind-raise_self (recoverable_message rt err) (clear terminal cs) recoverable refl,
          ))
  ]

  pub conditions-update_condition_list :
      (cs : List Condition) (err : Option E) → (update_condition_list rt cs err).0 ≡ mark rt cs err
  unfolding update_condition_list
  conditions-update_condition_list cs err = refl

  -- A list that a success does not update shows no terminal condition.
  pub holds_not_updated :
      (cs : List Condition)
      → (update_condition_list rt cs none).1 ≡ false
      → holds terminal cs ≡ false
  unfolding update_condition_list mark clear
  holds_not_updated cs h =
      let cs1 = update_last terminal (with_status status_false none) cs in
      ground (
        arith,
        not_holds terminal cs,
        has_kind-update_last status_false none terminal terminal cs,
        has_kind-update_last status_false none terminal recoverable cs1,
      )
