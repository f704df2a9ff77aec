-- ===== src/FileSystem/Rules.antt =====
-- The rules and the version of the synchronization configuration on their way to the service and
-- back.
use ack_ws_s3files_controlle.Prelude.{
  ℕ, String, ◌-◌, ◌^◌, ◌<◌, ◌≤◌, ◌≡◌, ◌≢◌, ◌⊎◌, ◌↔◌, refl, ap, Option, none, some, List, [], ◌∷◌,
  map, map_option, eq_iff, text_of, elements, arith, to_int32, to_int64,
}
use ack_ws_s3files_controlle.Aws.{
  PutSynchronizationConfigurationInput, GetSynchronizationConfigurationOutput,
}
use ack_ws_s3files_controlle.Manager.{text_or_nil}
use ack_ws_s3files_controlle.FileSystem.Types.{ImportDataRule, ExpirationDataRule, FileSystem}
use ack_ws_s3files_controlle.FileSystem.Sdk.{
  import_rule_from_sdk, expiration_rule_from_sdk, configuration_from_sdk,
}
use ack_ws_s3files_controlle.FileSystem.Hooks.{
  import_rule_to_sdk, expiration_rule_to_sdk, put_input,
}

-- The bit pattern of an int64 whose value an int32 can hold.
abbrev pub FitsInt32 : ℕ → Type 0
FitsInt32 x = (x < 2 ^ 31) ⊎ ((2 ^ 64 - 2 ^ 31 ≤ x) × (x < 2 ^ 64))

-- An int64 comes back from its conversion to an int32 exactly if an int32 can hold its value.
to_int64-to_int32 : (x : ℕ) → x < 2 ^ 64 → (to_int64 (to_int32 x) ≡ x) ↔ FitsInt32 x
unfolding to_int64 to_int32
to_int64-to_int32 x h = ground arith

-- The rules that a request can carry: a trigger that is not the empty text, and a number of days
-- that an int32 can hold.
abbrev pub AllOf {ℓ} : {A : Type ℓ} → (A → Type 0) → List A → Type 0
AllOf P [] = Unit
AllOf P (x ∷ xs) = P x × AllOf P xs

abbrev pub InOption {ℓ} : {A : Type ℓ} → (A → Type 0) → Option A → Type 0
InOption P none = Unit
InOption P (some x) = P x

abbrev pub IsSendable : ImportDataRule → Type 0
IsSendable r = r.trigger ≢ some ""

abbrev pub IsInt64 : ℕ → Type 0
IsInt64 x = (x < 2 ^ 64) × FitsInt32 x

abbrev pub HasDays : ExpirationDataRule → Type 0
HasDays r = InOption IsInt64 r.days_after_last_access

-- A response with the rules and the version of a request.
abbrev pub echo : PutSynchronizationConfigurationInput → GetSynchronizationConfigurationOutput
echo input = record {
  import_data_rules = input.import_data_rules;
  expiration_data_rules = input.expiration_data_rules;
  latest_version_number = input.latest_version_number;
}

number_back : (o : Option ℕ) → InOption IsInt64 o → map_option to_int64 (map_option to_int32 o) ≡ o
number_back none h = refl
number_back (some x) h = ap some ((to_int64-to_int32 x h.0).1 h.1)

trigger_back : (o : Option String) → o ≢ some "" → text_or_nil (text_of o) ≡ o
trigger_back none h = refl
trigger_back (some t) h = ground (arith, eq_iff t "")

import_rule_back :
    (r : ImportDataRule) → IsSendable r → import_rule_from_sdk (import_rule_to_sdk r) ≡ r
import_rule_back r h =
    ap (λ (t : Option String). let rule : ImportDataRule = record r { trigger = t } in rule)
      (trigger_back r.trigger h)

expiration_rule_back :
    (r : ExpirationDataRule) → HasDays r → expiration_rule_from_sdk (expiration_rule_to_sdk r) ≡ r
expiration_rule_back r h =
    ap
      (λ (d : Option ℕ).
        let rule : ExpirationDataRule = record { days_after_last_access = d } in rule)
      (number_back r.days_after_last_access h)

module _ {A B : Type 0} (to : A → B) (from : B → A) (P : A → Type 0)
    (back : (x : A) → P x → from (to x) ≡ x) where
  list_back : (xs : List A) → AllOf P xs → map from (map to xs) ≡ xs
  list_back [] h = refl
  list_back (x ∷ xs) h = rw (back x h.0, list_back xs h.1)

  option_back :
      (o : Option (List A))
      → InOption (AllOf P) o
      → map_option (map from) (map_option (map to) o) ≡ o
  option_back none h = refl
  option_back (some xs) h = ap some (list_back xs h)

-- What the controller sends is what it reads back: rules with no empty trigger, days that an int32
-- can hold, and a version that an int32 can hold return from a response that carries the request.
pub configuration_round_trip :
    (desired latest : FileSystem)
    → InOption (AllOf IsSendable) desired.spec.import_data_rules
    → InOption (AllOf HasDays) desired.spec.expiration_data_rules
    → InOption IsInt64 latest.status.latest_version_number
    → configuration_from_sdk (echo (put_input desired latest)) ≡ record {
      import_rules = desired.spec.import_data_rules;
      expiration_rules = desired.spec.expiration_data_rules;
      latest_version = latest.status.latest_version_number;
    }
unfolding configuration_from_sdk put_input
configuration_round_trip desired latest hi he hv = λ i. record {
  import_rules =
      option_back import_rule_to_sdk import_rule_from_sdk IsSendable import_rule_back
        desired.spec.import_data_rules hi i;
  expiration_rules =
      option_back expiration_rule_to_sdk expiration_rule_from_sdk HasDays expiration_rule_back
        desired.spec.expiration_data_rules he i;
  latest_version = number_back latest.status.latest_version_number hv i;
}

-- A number of days of an int64, and one that an int32 can hold.
abbrev pub IsNumber : ExpirationDataRule → Type 0
IsNumber r = InOption (λ x. x < 2 ^ 64) r.days_after_last_access

abbrev pub HasFewDays : ExpirationDataRule → Type 0
HasFewDays r = InOption FitsInt32 r.days_after_last_access

abbrev value_or : ℕ → Option ℕ → ℕ
value_or d none = d
value_or d (some n) = n

abbrev first_days : List ExpirationDataRule → Option ℕ
first_days [] = none
first_days (r ∷ rs) = r.days_after_last_access

abbrev rest_of {ℓ} : {A : Type ℓ} → List A → List A
rest_of [] = []
rest_of (x ∷ xs) = xs

number_back_iff :
    (o : Option ℕ)
    → InOption (λ x. x < 2 ^ 64) o
    → (map_option to_int64 (map_option to_int32 o) ≡ o) ↔ InOption FitsInt32 o
number_back_iff none h = (λ e. tt, λ e. refl)
number_back_iff (some x) h =
    (λ e. (to_int64-to_int32 x h).0 (ap (value_or 0) e), λ f. ap some ((to_int64-to_int32 x h).1 f))

few_days_back :
    (xs : List ExpirationDataRule)
    → AllOf IsNumber xs
    → (map expiration_rule_from_sdk (map expiration_rule_to_sdk xs) ≡ xs) ↔ AllOf HasFewDays xs
few_days_back [] h = (λ e. tt, λ e. refl)
few_days_back (r ∷ rs) h =
    let one = number_back_iff r.days_after_last_access h.0 in
    let rest = few_days_back rs h.1 in
    (
      λ e. (one.0 (ap first_days e), rest.0 (ap rest_of e)),
      λ few.
          rw (rest.1 few.1)
            (ap (λ (d : Option ℕ). record { days_after_last_access = d } ∷ rs) (one.1 few.0)),
    )

rules_back :
    (o : Option (List ExpirationDataRule))
    → InOption (AllOf IsNumber) o
    → (map_option (map expiration_rule_from_sdk) (map_option (map expiration_rule_to_sdk) o) ≡ o)
      ↔ InOption (AllOf HasFewDays) o
rules_back none h = (λ e. tt, λ e. refl)
rules_back (some rs) h =
    let back = few_days_back rs h in (λ e. back.0 (ap elements e), λ few. ap some (back.1 few))

-- The expiration rules of a request come back from a response that carries the request exactly if an
-- int32 can hold each of their numbers of days.
pub put_input-HasFewDays :
    (desired latest : FileSystem)
    → InOption (AllOf IsNumber) desired.spec.expiration_data_rules
    → ((configuration_from_sdk (echo (put_input desired latest))).expiration_rules
        ≡ desired.spec.expiration_data_rules)
      ↔ InOption (AllOf HasFewDays) desired.spec.expiration_data_rules
unfolding configuration_from_sdk put_input
put_input-HasFewDays desired latest h = rules_back desired.spec.expiration_data_rules h
