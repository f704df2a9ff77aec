-- ===== src/Conditions.antt =====
-- The conditions of a custom resource: `updateConditions` and `terminalAWSError` of
-- pkg/resource/file_system/sdk.go (mount_target/sdk.go and access_point/sdk.go are the same text),
-- and `onError` and `onSuccess` of manager.go, over the list of conditions.
pub mod Laws
pub mod Mark
pub mod Terminal
use ack_ws_s3files_controlle.Prelude.{
  String, Bool, true, false, ◌||◌, Option, none, some, List, [], ◌∷◌, ◌++◌, ◌==◌, ◌&&◌,
  if◌then◌else◌,
}
use ack_ws_s3files_controlle.Ack.{
  ConditionType, ConditionStatus, Condition, terminal, recoverable, resource_synced, other,
  status_true, status_false, status_unset, is_kind, is_true, ApiError, Runtime,
}

-- The loop over the conditions finds one of the type.
unfoldable pub has_kind : ConditionType → List Condition → Bool
has_kind kind [] = false
has_kind kind (c ∷ cs) = is_kind c.kind kind || has_kind kind cs

-- An assignment through the pointer that the loop kept: to the last condition of the type.
unfoldable pub update_last :
    ConditionType → (Condition → Condition) → List Condition → List Condition
update_last kind f [] = []
update_last kind f (c ∷ cs) =
    let rest = update_last kind f cs in
    if has_kind kind cs then c ∷ rest else if is_kind c.kind kind then f c ∷ cs else c ∷ cs

abbrev pub with_status : ConditionStatus → Option String → Condition → Condition
with_status status message c = record c { status = status; message = message }

abbrev pub new_condition : ConditionType → Condition
new_condition kind = record {
  kind = kind;
  status = status_unset;
  last_transition_time = none;
  reason = none;
  message = none;
}

-- The condition is appended if there is none, then set to True with the message.
unfoldable pub raise : ConditionType → String → List Condition → List Condition
raise kind message cs =
    if has_kind kind cs
    then update_last kind (with_status status_true (some message)) cs
    else cs ++ with_status status_true (some message) (new_condition kind) ∷ []

-- The condition is set to False with no message, if there is one.
unfoldable pub clear : ConditionType → List Condition → List Condition
clear kind cs = update_last kind (with_status status_false none) cs

-- Some condition of the type is True.
unfoldable pub holds : ConditionType → List Condition → Bool
holds kind [] = false
holds kind (c ∷ cs) = (is_kind c.kind kind && is_true c.status) || holds kind cs

module _ {E : Type 0} (rt : Runtime E) where
  unfoldable pub terminal_aws_error : Option E → Bool
  terminal_aws_error none = false
  terminal_aws_error (some err) = elim (rt.as_api_error err) [
    | none ↦ false
    | some api_err ↦ api_err.code == "ValidationException"
  ]

  -- `err == SecretTypeNotSupported || err == SecretNotFound || errors.As(err, &termError)`
  unfoldable pub is_runtime_terminal : E → Bool
  is_runtime_terminal err =
      rt.is err rt.secret_type_not_supported
      || rt.is err rt.secret_not_found
      || rt.as_terminal_error err

  unfoldable pub is_terminal : Option E → Bool
  unfolding terminal_aws_error is_runtime_terminal
  is_terminal none = false
  is_terminal (some err) = terminal_aws_error (some err) || is_runtime_terminal err

  abbrev pub api_text : Option ApiError → String
  api_text none = rt.nil_panic
  api_text (some api_err) = api_err.text

  abbrev pub recoverable_text : Option ApiError → String → String
  recoverable_text none text = text
  recoverable_text (some api_err) text = api_err.text

  unfoldable pub terminal_message : E → String
  unfolding is_runtime_terminal
  terminal_message err =
      if is_runtime_terminal err then rt.error_text err else api_text (rt.aws_error err)

  unfoldable pub recoverable_message : E → String
  recoverable_message err = recoverable_text (rt.aws_error err) (rt.error_text err)

  -- The two arms of the conditional on a terminal error.
  unfoldable pub mark_error : List Condition → E → List Condition
  unfolding raise clear terminal_message recoverable_message is_terminal
  mark_error cs err =
      if is_terminal (some err)
      then raise terminal (terminal_message err) cs
      else raise recoverable (recoverable_message err) (clear terminal cs)

  unfoldable pub mark : List Condition → Option E → List Condition
  unfolding mark_error clear
  mark cs none = clear recoverable (clear terminal cs)
  mark cs (some err) = mark_error cs err

  -- The new conditions, and whether any of the three is there.
  unfoldable pub update_condition_list : List Condition → Option E → List Condition × Bool
  unfolding mark has_kind
  update_condition_list cs err =
      let cs' = mark cs err in
      (cs', has_kind terminal cs' || has_kind recoverable cs' || has_kind resource_synced cs')
