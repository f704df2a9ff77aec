-- ===== src/Tests/Fixture.antt =====
-- A runtime of concrete functions that keeps what the theorems assume of the ACK runtime.
use ack_ws_s3files_controlle.MountTarget.Settled.{all_in, IsSliceEqual}
use ack_ws_s3files_controlle.Prelude.{
  ℕ, map, String, Bool, true, false, not, ◌||◌, ◌&&◌, ◌≡◌, refl, sym, none_found, ◌∙◌, ap, Option,
  none, some, List, [], ◌∷◌, ◌++◌, ◌==◌, eq_iff, is_some, is_empty, elements, text_of,
  if◌then◌else◌, arith, GoMap, lookup, insert, lookup-insert, HasUniqueKeys, insert-HasUniqueKeys,
  Ranging, Bool-cases, Option-cases, eq_refl, inl, inr,
}
use ack_ws_s3files_controlle.Ack.{
  ConditionStatus, Condition, terminal, recoverable, is_kind, is_true, ApiError, done, Reference,
  ReferenceFrom, Runtime,
}
use ack_ws_s3files_controlle.Tags.View.{or_else}
use ack_ws_s3files_controlle.TagSync.Converge.{entry_unless, IsTagsDifference}
use ack_ws_s3files_controlle.Compare.{IsComparing, IsReflexive, any_within, or_false}
use ack_ws_s3files_controlle.Conditions.{has_kind, update_last, with_status, new_condition, holds}
use ack_ws_s3files_controlle.Conditions.Laws.{
  untouched, AtMostOne-update_last, holds-update_last, append_holds, AtMostOne-append,
  recoverable-update_terminal, untouched-update_terminal, untouched_append, not_holds,
}
use ack_ws_s3files_controlle.Conditions.Mark.{IsTidy}
use ack_ws_s3files_controlle.Conditions.Terminal.{IsSetTerminal}
use ack_ws_s3files_controlle.FileSystem.TagOps.{IsMerge}
use ack_ws_s3files_controlle.FileSystem.Settled.{IsMapEqual}

pub data Fault : Type 0 where
  api : String → String → Fault
  plain : String → Fault
  later : Fault → ℕ → Fault

abbrev as_api : Fault → Option ApiError
as_api (api code text) = some (record { code = code; text = text })
as_api (plain _) = none
as_api (later f _) = as_api f

abbrev text_of_fault : Fault → String
text_of_fault (api _ text) = text
text_of_fault (plain text) = text
text_of_fault (later f _) = text_of_fault f

abbrev same_fault : Fault → Fault → Bool
same_fault (plain s) (plain t) = s == t
same_fault _ _ = false

-- The entries of a map that the other does not have.
abbrev has_entry : Option String → String → Bool
has_entry none v = false
has_entry (some w) v = w == v

abbrev pub minus : GoMap → GoMap → GoMap
minus [] other = []
minus ((k, v) ∷ m) other =
    let rest = minus m other in if has_entry (lookup k other) v then rest else (k, v) ∷ rest

-- Neither map has an entry that the other does not have.
abbrev same_maps : GoMap → GoMap → Bool
same_maps a b = is_empty (minus a b) && is_empty (minus b a)

abbrev pub merge_maps : GoMap → GoMap → GoMap
merge_maps a [] = a
merge_maps a ((k, v) ∷ b) =
    let rest = merge_maps a b in if is_some (lookup k a) then rest else insert k v rest

abbrev pub put_terminal :
    List Condition → ConditionStatus → Option String → Option String → List Condition
put_terminal cs status message reason =
    if has_kind terminal cs
    then update_last terminal (with_status status message) cs
    else cs ++ with_status status message (new_condition terminal) ∷ []

abbrev pub same_text : Option String → Option String → Bool
same_text none none = true
same_text (some x) (some y) = x == y
same_text none (some _) = false
same_text (some _) none = false

abbrev same_from : Option ReferenceFrom → Option ReferenceFrom → Bool
same_from none none = true
same_from (some x) (some y) = same_text x.name y.name && same_text x.namespace y.namespace
same_from none (some _) = false
same_from (some _) none = false

abbrev pub same_reference : Option Reference → Option Reference → Bool
same_reference none none = true
same_reference (some x) (some y) = same_from x.from y.from
same_reference none (some _) = false
same_reference (some _) none = false

abbrev pub each_same : List (Option Reference) → List (Option Reference) → Bool
each_same [] [] = true
each_same (x ∷ xs) (y ∷ ys) = same_reference x y && each_same xs ys
each_same [] (_ ∷ _) = false
each_same (_ ∷ _) [] = false

abbrev value_or_zero : Option ℕ → ℕ
value_or_zero none = 0
value_or_zero (some n) = n

abbrev pub runtime : Runtime Fault
runtime = record {
  not_found = plain "resource not found";
  terminal_error = plain "terminal";
  secret_type_not_supported = plain "secret type";
  secret_not_found = plain "secret";
  is = same_fault;
  as_api_error = as_api;
  as_terminal_error = λ f. false;
  aws_error = as_api;
  error_text = text_of_fault;
  nil_panic = "panic";
  needed_after = later;
  needed_after_nil = later (plain "");
  default_requeue_after_duration = 30;
  errorf = λ format texts. plain format;
  new_terminal_error = λ f. f;
  missing_name_identifier = plain "name";
  reference_and_id_not_supported_for = λ field ref. plain "reference and id";
  reference_or_id_required_for = λ field ref. plain "reference or id";
  reference_terminal_for = λ kind namespace name. plain "reference terminal";
  reference_not_synced_for = λ kind namespace name. plain "reference not synced";
  reference_missing_target_field_for = λ kind namespace name path. plain "target field";
  validate_cross_namespace_reference = λ enabled own namespace name. done own;
  set_terminal = put_terminal;
  set_late_initialized = λ cs status message reason. cs;
  set_synced = λ cs status message reason. cs;
  has_nil_difference = λ a b. if a then not b else b;
  different_at = λ d subject. any_within subject d;
  get_tags_difference = λ from to. (minus to from, [], minus from to);
  map_string_string_equal = same_maps;
  iam_policy_document_equal = λ a b. done (a == b);
  reference_equal = same_reference;
  slice_string_p_equal = all_in;
  references_equal = λ a b. each_same (elements a) (elements b);
  gids_equal = λ a b. true;
  string_slice = map some;
  to_string_slice = map text_of;
  int64_slice = map some;
  to_int64_slice = map value_or_zero;
  merge = merge_maps;
  range = λ m. m;
}

pub slice_equal : IsSliceEqual runtime
slice_equal = record { members = λ a b e. refl }

pub ranging : Ranging runtime.range
ranging = record { entries = λ m k. refl; once = λ m h. h }

pub comparing : IsComparing runtime
comparing = record { nil_difference = λ a b. refl; different_at = λ d s. refl }

entry_of :
    (o : Option String) (v : String)
    → entry_unless (some v) o ≡ (if has_entry o v then none else some v)
entry_of none v = refl
entry_of (some w) v = ground (arith, eq_iff v w, eq_iff w v)

lookup-minus :
    (k : String) (m other : GoMap)
    → HasUniqueKeys m
    → lookup k (minus m other) ≡ entry_unless (lookup k m) (lookup k other)
unfolding lookup
lookup-minus k [] other h = refl
lookup-minus k ((j, v) ∷ m) other h =
    ground (arith, eq_iff j k, lookup-minus k m other h.1, entry_of (lookup j other) v)

minus-HasUniqueKeys : (m other : GoMap) → HasUniqueKeys m → HasUniqueKeys (minus m other)
minus-HasUniqueKeys [] other h = tt
minus-HasUniqueKeys ((j, v) ∷ m) other h =
    ground (arith, lookup-minus j m other h.1, minus-HasUniqueKeys m other h.1)

pub tags_difference : IsTagsDifference runtime.get_tags_difference
tags_difference = record {
  added = λ from to k hf ht. lookup-minus k to from ht;
  removed = λ from to k hf ht. lookup-minus k from to hf;
  unique = λ from to hf ht. (minus-HasUniqueKeys to from ht, minus-HasUniqueKeys from to hf);
}

nothing_unless : (x y : Option String) → entry_unless x y ≡ none → entry_unless y x ≡ none → x ≡ y
nothing_unless none none h g = refl
nothing_unless none (some w) h g = cc
nothing_unless (some v) none h g = cc
nothing_unless (some v) (some w) h g = ground (arith, h, eq_iff v w)

unless_self : (x : Option String) → entry_unless x x ≡ none
unless_self none = refl
unless_self (some v) = ground (arith, eq_iff v v)

module _ (a b : GoMap) (ha : HasUniqueKeys a) (hb : HasUniqueKeys b) where
  same_maps-lookup : same_maps a b ≡ true → (k : String) → lookup k a ≡ lookup k b
  unfolding lookup
  same_maps-lookup h k =
      let both = split (is_empty (minus a b)) (is_empty (minus b a)) h in
      nothing_unless (lookup k a) (lookup k b)
        (sym (lookup-minus k a b ha) ∙ ap (lookup k) (is_empty_nil (minus a b) both.0))
        (sym (lookup-minus k b a hb) ∙ ap (lookup k) (is_empty_nil (minus b a) both.1))
    where
      split : (x y : Bool) → (x && y) ≡ true → (x ≡ true) × (y ≡ true)
      split x y h = (ground (arith, h), ground (arith, h))

      is_empty_nil : (m : GoMap) → is_empty m ≡ true → m ≡ []
      is_empty_nil [] h = refl
      is_empty_nil (e ∷ m) h = cc

  lookup-same_maps : ((k : String) → lookup k a ≡ lookup k b) → same_maps a b ≡ true
  lookup-same_maps h =
      rw
        (
          none_found (minus a b) λ k. lookup-minus k a b ha ∙ rw (h k) (unless_self (lookup k b)),
          none_found (minus b a) λ k. lookup-minus k b a hb ∙ rw (h k) (unless_self (lookup k b)),
        )
        refl

pub equal_maps : IsMapEqual runtime.map_string_string_equal
equal_maps = record {
  decides = λ a b ha hb. (same_maps-lookup a b ha hb, lookup-same_maps a b ha hb);
}

module _ (cs : List Condition) (status : ConditionStatus) (message reason : Option String) where
  abbrev set : Condition
  set = with_status status message (new_condition terminal)

  decides : IsTidy cs → holds terminal (put_terminal cs status message reason) ≡ is_true status
  unfolding is_kind
  decides h = elim (Bool-cases (has_kind terminal cs)) [
    | inl e ↦ rw e (
        holds-update_last terminal status message cs h.terminal_once
        ∙ ap (λ b. b && is_true status) e)
    | inr e ↦
        rw e
          (append_holds terminal cs set ∙ ap (λ b. b || is_true status) (not_holds terminal cs e))
  ]

  keeps_IsTidy : IsTidy cs → IsTidy (put_terminal cs status message reason)
  unfolding is_kind
  keeps_IsTidy h = elim (Bool-cases (has_kind terminal cs)) [
    | inl e ↦ rw e (record {
      terminal_once = AtMostOne-update_last status message terminal terminal cs h.terminal_once;
      recoverable_once =
          AtMostOne-update_last status message recoverable terminal cs h.recoverable_once;
    })
    | inr e ↦ rw e (record {
      terminal_once = AtMostOne-append terminal cs set h.terminal_once (λ _. e);
      recoverable_once = AtMostOne-append recoverable cs set h.recoverable_once (λ f. cc);
    })
  ]

  keeps_recoverable :
      holds recoverable (put_terminal cs status message reason) ≡ holds recoverable cs
  unfolding is_kind
  keeps_recoverable = elim (Bool-cases (has_kind terminal cs)) [
    | inl e ↦ rw e (recoverable-update_terminal status message cs)
    | inr e ↦ rw e (append_holds recoverable cs set ∙ or_false (holds recoverable cs))
  ]

  keeps_others : untouched (put_terminal cs status message reason) ≡ untouched cs
  unfolding is_kind
  keeps_others = elim (Bool-cases (has_kind terminal cs)) [
    | inl e ↦ rw e (untouched-update_terminal status message cs)
    | inr e ↦ rw e (untouched_append cs set)
  ]

pub setting : IsSetTerminal runtime.set_terminal
setting = record {
  decides = decides;
  keeps_tidy = keeps_IsTidy;
  keeps_recoverable = keeps_recoverable;
  keeps_others = keeps_others;
}

lookup-merge_maps :
    (k : String) (a b : GoMap)
    → HasUniqueKeys b
    → lookup k (merge_maps a b) ≡ or_else (lookup k a) (lookup k b)
unfolding lookup
lookup-merge_maps k a [] h = ground arith
lookup-merge_maps k a ((j, v) ∷ b) h =
    ground (arith, eq_iff j k, lookup-merge_maps k a b h.1, lookup-insert j k v (merge_maps a b))

merge_maps-HasUniqueKeys : (a b : GoMap) → HasUniqueKeys a → HasUniqueKeys (merge_maps a b)
merge_maps-HasUniqueKeys a [] h = h
merge_maps-HasUniqueKeys a ((j, v) ∷ b) h = ground (
  arith,
  insert-HasUniqueKeys j v (merge_maps a b) (merge_maps-HasUniqueKeys a b h),
  merge_maps-HasUniqueKeys a b h,
)

pub merging : IsMerge runtime.merge
merging = record {
  entries = λ a b k ha hb. lookup-merge_maps k a b hb;
  unique = λ a b ha hb. merge_maps-HasUniqueKeys a b ha;
}

same_text_refl : (x : Option String) → same_text x x ≡ true
same_text_refl none = refl
same_text_refl (some x) = eq_refl x

same_reference_refl : (r : Option Reference) → same_reference r r ≡ true
same_reference_refl none = refl
same_reference_refl (some r) = elim (Option-cases r.from) [
  | inl e ↦ rw e refl
  | inr (from, e) ↦ rw e (rw (same_text_refl from.name) (same_text_refl from.namespace))
]

each_same_refl : (rs : List (Option Reference)) → each_same rs rs ≡ true
each_same_refl [] = refl
each_same_refl (r ∷ rs) = rw (same_reference_refl r) (each_same_refl rs)

pub reflexive : IsReflexive runtime
reflexive = record {
  reference = same_reference_refl;
  references = λ rs. each_same_refl (elements rs);
  gids = λ xs. refl;
}
