-- ===== src/Factory/Ids.antt =====
-- The ids of managers (`ManagerFor` of pkg/resource/file_system/manager_factory.go).
use ack_ws_s3files_controlle.Prelude.{
  String, Bool, false, ◌||◌, ◌≡◌, refl, ap, sym, arith, ◌∙◌, eqb, Bool-cases, inl, inr,
  if◌then◌else◌,
}
use Prim.Native.Char.{Char, code}
use Prim.Native.String.{◌++◌}
use text.Mathlib.TextLemmas.{nil-append, cons-append, append_cancel_left}
use ack_ws_s3files_controlle.Factory.{manager_id}

-- The character `/` has the number 47.
abbrev is_slash : Char → Bool
is_slash c = eqb (code c) 47

abbrev pub has_slash : String → Bool
has_slash String.[] = false
has_slash (String.◌∷◌ c s) = is_slash c || has_slash s

-- The text in front of the first slash.
abbrev before_slash : String → String
before_slash String.[] = ""
before_slash (String.◌∷◌ c s) =
    let rest = before_slash s in if is_slash c then "" else String.◌∷◌ c rest

before_slash-append : (s t : String) → has_slash s ≡ false → before_slash (s ++ ("/" ++ t)) ≡ s
before_slash-append String.[] t h = rw (nil-append ("/" ++ t), cons-append) refl
before_slash-append (String.◌∷◌ c s) t h = elim (Bool-cases (is_slash c)) [
  | inl e ↦ ground (arith, h, e)
  | inr e ↦
      let rest : has_slash s ≡ false = rw (e) at h in
      rw (cons-append c s ("/" ++ t)) (rw (e) (ap (String.◌∷◌ c) (before_slash-append s t rest)))
]

-- What stands in front of a slash and behind it can be told apart.
split_slash :
    (s s' t t' : String)
    → has_slash s ≡ false
    → has_slash s' ≡ false
    → s ++ ("/" ++ t) ≡ s' ++ ("/" ++ t')
    → (s ≡ s') × (t ≡ t')
split_slash s s' t t' h h' e =
    let same : s ≡ s' =
      sym (before_slash-append s t h) ∙ ap before_slash e ∙ before_slash-append s' t' h' in
    let rest : s' ++ ("/" ++ t) ≡ s' ++ ("/" ++ t') = rw (same) at e in
    (same, append_cancel_left "/" t t' (append_cancel_left s' ("/" ++ t) ("/" ++ t') rest))

-- Two ids are the same exactly if the account, the region and the role are, for accounts and regions
-- with no slash.
pub manager_id-same :
    (id id' region region' role_arn role_arn' : String)
    → has_slash id ≡ false
    → has_slash id' ≡ false
    → has_slash region ≡ false
    → has_slash region' ≡ false
    → manager_id id region role_arn ≡ manager_id id' region' role_arn'
    → (id ≡ id') × (region ≡ region') × (role_arn ≡ role_arn')
manager_id-same id id' region region' role_arn role_arn' hi hi' hr hr' e =
    let outer =
      split_slash id id' (region ++ ("/" ++ role_arn)) (region' ++ ("/" ++ role_arn')) hi hi' e in
    let inner = split_slash region region' role_arn role_arn' hr hr' outer.1 in
    (outer.0, inner.0, inner.1)
