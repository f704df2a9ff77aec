-- ===== src/Compare/Same.antt =====
-- When the comparisons of the deltas see no difference (the `delta.go` files of pkg/resource).
use ack_ws_s3files_controlle.Prelude.{
  String, Bool, true, false, not, ◌≡◌, refl, ap, ◌∙◌, arith, Option, none, some, [], ◌∷◌, ◌++◌,
  eq_iff, eq_refl,
}
use ack_ws_s3files_controlle.Ack.{Runtime, Delta}
use ack_ws_s3files_controlle.Compare.{add_if, text_differs, pointer_differs, IsComparing}

module _ {E : Type 0} (rt : Runtime E) (comparing : IsComparing rt) where
  pub text_differs-same : (a b : Option String) → text_differs rt a b ≡ false → a ≡ b
  unfolding text_differs pointer_differs
  text_differs-same none none h = refl
  text_differs-same none (some y) h = ground (arith, h, comparing.nil_difference false true)
  text_differs-same (some x) none h = ground (arith, h, comparing.nil_difference true false)
  text_differs-same (some x) (some y) h =
      ground (arith, h, comparing.nil_difference true true, eq_iff x y)

  pub text_differs_self : (a : Option String) → text_differs rt a a ≡ false
  unfolding text_differs pointer_differs
  text_differs_self none = ground (arith, comparing.nil_difference false false)
  text_differs_self (some x) = ground (arith, comparing.nil_difference true true, eq_refl x)

  pub same-text_differs : {a b : Option String} → a ≡ b → text_differs rt a b ≡ false
  same-text_differs {a} {b} e = ap (λ x. text_differs rt x b) e ∙ text_differs_self b

-- A delta that ends with a conditional difference is empty where the rest is, and there is none.
pub append-add_if :
    (rest : Delta) (b : Bool) (path : String)
    → rest ++ add_if b path ≡ []
    → (rest ≡ []) × (b ≡ false)
append-add_if [] true path h = cc
append-add_if [] false path h = (refl, refl)
append-add_if (p ∷ rest) b path h = cc

pub add_if_none : (b : Bool) (path : String) → add_if b path ≡ [] → b ≡ false
add_if_none true path h = cc
add_if_none false path h = refl

pub not-false : (b : Bool) → not b ≡ false → b ≡ true
not-false true h = refl
not-false false h = cc
