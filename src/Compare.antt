-- ===== src/Compare.antt =====
-- The comparisons that the deltas of the kinds share (the `delta.go` files of pkg/resource), and
-- what they take from the runtime's pkg/compare.
pub mod Same
use ack_ws_s3files_controlle.Prelude.{
  ℕ, List, String, Bool, true, false, not, ◌||◌, ◌&&◌, ◌≡◌, refl, arith, ◌++◌, Option, none, some,
  [], ◌∷◌, is_some, ◌==◌, starts_with, if◌then◌else◌,
}
use Prim.Native.String.{◌++◌ as text_append}
use ack_ws_s3files_controlle.Ack.{Reference, Runtime, Delta}

-- `if b { delta.Add(path, ...) }`
abbrev pub add_if : Bool → String → Delta
add_if b path = if b then path ∷ [] else []

abbrev pub both_differ {ℓ} : {A : Type ℓ} → (A → A → Bool) → Option A → Option A → Bool
both_differ differs none _ = false
both_differ differs (some x) none = false
both_differ differs (some x) (some y) = differs x y

module _ {E : Type 0} (rt : Runtime E) where
  -- `HasNilDifference(a, b)`, or else a difference of two values that are there.
  unfoldable pub pointer_differs {ℓ} : {A : Type ℓ} → (A → A → Bool) → Option A → Option A → Bool
  pointer_differs differs a b =
      rt.has_nil_difference (is_some a) (is_some b) || both_differ differs a b

  unfoldable pub text_differs : Option String → Option String → Bool
  unfolding pointer_differs
  text_differs = pointer_differs (λ x y. not (x == y))

-- A path lies at or below another.
abbrev pub is_within : String → String → Bool
is_within path subject = path == subject || starts_with path (text_append subject ".")

abbrev pub any_within : String → Delta → Bool
any_within subject [] = false
any_within subject (path ∷ delta) = is_within path subject || any_within subject delta

pub any_within-append :
    (subject : String) (d e : Delta)
    → any_within subject (d ++ e) ≡ (any_within subject d || any_within subject e)
any_within-append subject [] e = refl
any_within-append subject (p ∷ d) e = ground (arith, any_within-append subject d e)

pub any_within-add_if :
    (subject path : String) (b : Bool)
    → any_within subject (add_if b path) ≡ (b && is_within path subject)
any_within-add_if subject path true = ground arith
any_within-add_if subject path false = refl

pub and_false : (b : Bool) → (b && false) ≡ false
and_false true = refl
and_false false = refl

pub and_true : (b : Bool) → (b && true) ≡ b
and_true true = refl
and_true false = refl

pub or_false : (b : Bool) → (b || false) ≡ b
or_false true = refl
or_false false = refl

-- To find a path among conditional differences.
pub ruleset delta_laws = (any_within-append, any_within-add_if, and_false, and_true, or_false)

-- What the comparisons of the runtime promise.
pub record IsComparing {E : Type 0} (rt : Runtime E) : Type 0 where
  pub nil_difference : (a b : Bool) → rt.has_nil_difference a b ≡ (if a then not b else b)
  pub different_at :
      (d : Delta) (subject : String) → rt.different_at d subject ≡ any_within subject d

-- The comparisons of the runtime find equal values equal.
pub record IsReflexive {E : Type 0} (rt : Runtime E) : Type 0 where
  pub reference : (r : Option Reference) → rt.reference_equal r r ≡ true
  pub references : (rs : Option (List (Option Reference))) → rt.references_equal rs rs ≡ true
  pub gids : (xs : List (Option ℕ)) → rt.gids_equal xs xs ≡ true
