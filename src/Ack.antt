-- ===== src/Ack.antt =====
-- What the controller takes from the ACK runtime (github.com/aws-controllers-k8s/runtime), which is
-- not part of the repository: the shapes of the values, and its functions as the record `Runtime`.
-- An `error` is a value of the parameter `E`; a nil error is `none`.
pub mod Bind
pub mod Ends
pub mod Keeps
use ack_ws_s3files_controlle.Prelude.{
  ℕ, String, Bool, ◌≡◌, refl, ◌⊎◌, inl, inr, Option, none, some, List, [], ◌∷◌, ◌++◌, ◌==◌, true,
  false, GoMap, contains, if◌then◌else◌,
}

-- `ackv1alpha1.ConditionType`; `other` is any type that this repository does not name.
pub data ConditionType : Type 0 where
  terminal recoverable resource_synced : ConditionType
  other : String → ConditionType

-- `corev1.ConditionStatus`; `status_unset` is the zero value of a new condition.
pub data ConditionStatus : Type 0 where
  status_true status_false status_unknown status_unset : ConditionStatus

pub record Condition : Type 0 where
  pub kind : ConditionType
  pub status : ConditionStatus
  pub last_transition_time : Option ℕ
  pub reason : Option String
  pub message : Option String

unfoldable pub is_kind : ConditionType → ConditionType → Bool
is_kind terminal terminal = true
is_kind recoverable recoverable = true
is_kind resource_synced resource_synced = true
is_kind (other s) (other t) = s == t
is_kind _ _ = false

unfoldable pub is_true : ConditionStatus → Bool
is_true status_true = true
is_true _ = false

-- `ackv1alpha1.ResourceMetadata`
pub record ResourceMetadata : Type 0 where
  pub arn : Option String
  pub owner_account_id : Option String
  pub partition : Option String
  pub region : Option String

-- `ackv1alpha1.AWSResourceReference` and its wrapper.
pub record ReferenceFrom : Type 0 where
  pub name : Option String
  pub namespace : Option String

pub record Reference : Type 0 where
  pub from : Option ReferenceFrom

-- The fields of `metav1.ObjectMeta` that the controller uses.
pub record ObjectMeta : Type 0 where
  pub name : String
  pub namespace : String
  pub finalizers : List String
  pub annotations : Option GoMap
  pub deletion_timestamp : Option ℕ

-- A `smithy.APIError`: its `ErrorCode()` and its `Error()`.
pub record ApiError : Type 0 where
  pub code : String
  pub text : String

-- A call that returns a value or an error.
pub data Reply {ℓ} (E A : Type ℓ) : Type ℓ where
  done : A → Reply E A
  failed : E → Reply E A

pub Reply-cases {ℓ} :
    {E A : Type ℓ} (r : Reply E A) → ((a : A) × (r ≡ done a)) ⊎ ((e : E) × (r ≡ failed e))
Reply-cases (done a) = inl (a, refl)
Reply-cases (failed e) = inr (e, refl)

pub done_same : {E A : Type 0} {a b : A} → ◌≡◌ {A = Reply E A} (done a) (done b) → a ≡ b
done_same h = cc

-- What a Go function with results `(*T, error)` returns: either may be nil.
abbrev pub Returned : Type 0 → Type 0 → Type 0
Returned E A = Option A × Option E

-- The paths that `Delta.Add` was called with, in order.
abbrev pub Delta : Type 0
Delta = List String

pub record Runtime (E : Type 0) : Type 0 where
  -- pkg/errors: the sentinel errors, and `err == x` on interface values
  pub not_found : E
  pub terminal_error : E
  pub secret_type_not_supported : E
  pub secret_not_found : E
  pub is : E → E → Bool
  -- `errors.As` at a `smithy.APIError` and at a `*ackerr.TerminalError`
  pub as_api_error : E → Option ApiError
  pub as_terminal_error : E → Bool
  -- `ackerr.AWSError`, and `err.Error()`
  pub aws_error : E → Option ApiError
  pub error_text : E → String
  -- stands for the panic of a method call on a nil interface
  pub nil_panic : String
  -- pkg/requeue, whose `NeededAfter` may be given a nil error, and `fmt.Errorf` with text arguments
  pub needed_after : E → ℕ → E
  pub needed_after_nil : ℕ → E
  pub default_requeue_after_duration : ℕ
  pub errorf : String → List String → E
  -- pkg/errors: the errors of references
  pub new_terminal_error : E → E
  pub missing_name_identifier : E
  pub reference_and_id_not_supported_for : String → String → E
  pub reference_or_id_required_for : String → String → E
  pub reference_terminal_for : String → String → String → E
  pub reference_not_synced_for : String → String → String → E
  pub reference_missing_target_field_for : String → String → String → String → E
  pub validate_cross_namespace_reference : Bool → String → Option String → String → Reply E String
  -- pkg/condition
  pub set_terminal :
      List Condition → ConditionStatus → Option String → Option String → List Condition
  pub set_late_initialized :
      List Condition → ConditionStatus → Option String → Option String → List Condition
  pub set_synced : List Condition → ConditionStatus → Option String → Option String → List Condition
  -- pkg/compare; `HasNilDifference` is a function of whether its arguments are nil
  pub has_nil_difference : Bool → Bool → Bool
  pub different_at : Delta → String → Bool
  pub get_tags_difference : GoMap → GoMap → GoMap × GoMap × GoMap
  pub map_string_string_equal : GoMap → GoMap → Bool
  pub iam_policy_document_equal : String → String → Reply E Bool
  pub reference_equal : Option Reference → Option Reference → Bool
  pub slice_string_p_equal : List (Option String) → List (Option String) → Bool
  pub references_equal : Option (List (Option Reference)) → Option (List (Option Reference)) → Bool
  -- `equality.Semantic.DeepEqual` of slices of pointers to integers
  pub gids_equal : List (Option ℕ) → List (Option ℕ) → Bool
  -- `aws.StringSlice`, `aws.ToStringSlice`, `aws.Int64Slice` and `aws.ToInt64Slice` of the SDK
  pub string_slice : List String → List (Option String)
  pub to_string_slice : List (Option String) → List String
  pub int64_slice : List ℕ → List (Option ℕ)
  pub to_int64_slice : List (Option ℕ) → List ℕ
  -- pkg/tags: `acktags.Merge`; pkg/runtime: `GetDefaultTags`; and the order of `range` over a map
  pub merge : GoMap → GoMap → GoMap
  pub range : GoMap → GoMap

-- One call of `metrics.RecordAPICall`.
pub record ApiCall (E : Type 0) : Type 0 where
  pub op_type : String
  pub op_id : String
  pub outcome : Option E

-- What a handler changes outside its own values: the state of the service behind the SDK client,
-- and the calls that were recorded, the latest last.
pub record World (S E : Type 0) : Type 0 where
  pub cloud : S
  pub calls : List (ApiCall E)

-- A handler: it works on the world, and returns a value or an error. Where the source returns
-- `(nil, err)` this is `failed err`, and `(x, nil)` is `done x`.
abbrev pub Exec : Type 0 → Type 0 → Type 0 → Type 0
Exec S E A = World S E → Reply E A × World S E

module _ {S E A : Type 0} where
  abbrev pub pure : A → Exec S E A
  pure a w = (done a, w)

  abbrev pub fail : E → Exec S E A
  fail e w = (failed e, w)

infixl 5 ◌>>=◌ ◌>>◌
abbrev pub ◌>>=◌ : {S E A B : Type 0} → Exec S E A → (A → Exec S E B) → Exec S E B
◌>>=◌ m f w = let (r, w') = m w in elim r [ done a ↦ f a w' | failed e ↦ (failed e, w') ]

abbrev pub ◌>>◌ : {S E A B : Type 0} → Exec S E A → Exec S E B → Exec S E B
m >> k = m >>= λ _. k

abbrev pub outcome_of : {E A : Type 0} → Reply E A → Option E
outcome_of (done _) = none
outcome_of (failed e) = some e

-- A step that is taken where the test passes.
abbrev pub when : {S E : Type 0} → Bool → Exec S E Unit → Exec S E Unit
when b m = if b then m else pure tt

-- A call of the service followed by `RecordAPICall`.
abbrev pub call : {S E A : Type 0} → String → String → (S → Reply E A × S) → Exec S E A
call op_type op_id f w =
    let (r, cloud) = f w.cloud in
    (
      r,
      record {
        cloud = cloud;
        calls = w.calls ++ record { op_type = op_type; op_id = op_id; outcome = outcome_of r } ∷ [];
      },
    )

-- `errors.As(err, &apiErr) && apiErr.ErrorCode() == ...`, for one of the codes.
abbrev pub has_code : {E : Type 0} → Runtime E → List String → E → Bool
has_code rt codes err = elim (rt.as_api_error err) [
  | none ↦ false
  | some api_err ↦ contains api_err.code codes
]

-- A call whose errors of these codes are no errors: the value stands for the response.
abbrev pub unless_code : {S E A : Type 0} → Runtime E → List String → A → Exec S E A → Exec S E A
unless_code rt codes a m w =
    let (r, w') = m w in
    elim r [
      | done x ↦ (done x, w')
      | failed e ↦ (if has_code rt codes e then done a else failed e, w')
    ]
