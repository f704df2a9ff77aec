-- ===== src/Conditions/Laws.antt =====
-- What `updateConditions` does to the conditions of each type.
use ack_ws_s3files_controlle.Prelude.{
  String, true, false, ◌≡◌, refl, ◌||◌, Option, List, [], ◌∷◌, ◌++◌, ◌&&◌, if◌then◌else◌, arith,
}
use ack_ws_s3files_controlle.Ack.{
  ConditionType, ConditionStatus, Condition, terminal, recoverable, resource_synced, other, is_kind,
  is_true,
}
use ack_ws_s3files_controlle.Conditions.{has_kind, update_last, with_status, holds}

-- At most one condition of the type is in the list.
abbrev pub AtMostOne : ConditionType → List Condition → Type 0
AtMostOne kind [] = Unit
AtMostOne kind (c ∷ cs) =
    (is_kind c.kind kind ≡ true → has_kind kind cs ≡ false) × AtMostOne kind cs

-- The conditions of the types that the controller does not write, in their order.
pub untouched : List Condition → List Condition
untouched [] = []
untouched (c ∷ cs) =
    let rest = untouched cs in
    if is_kind c.kind terminal || is_kind c.kind recoverable then rest else c ∷ rest

module _ (s : ConditionStatus) (m : Option String) where
  -- the update of a condition keeps the types of all of them
  pub has_kind-update_last :
      (k j : ConditionType) (cs : List Condition)
      → has_kind k (update_last j (with_status s m) cs) ≡ has_kind k cs
  unfolding has_kind update_last
  has_kind-update_last k j [] = refl
  has_kind-update_last k j (c ∷ cs) = ground (arith, has_kind-update_last k j cs)

  pub AtMostOne-update_last :
      (k j : ConditionType) (cs : List Condition)
      → AtMostOne k cs
      → AtMostOne k (update_last j (with_status s m) cs)
  unfolding has_kind update_last
  AtMostOne-update_last k j [] h = tt
  AtMostOne-update_last k j (c ∷ cs) h =
      ground (arith, has_kind-update_last k j cs, AtMostOne-update_last k j cs h.1)

pub not_holds :
    (k : ConditionType) (cs : List Condition) → has_kind k cs ≡ false → holds k cs ≡ false
unfolding has_kind holds
not_holds k [] h = refl
not_holds k (c ∷ cs) h = ground (arith, not_holds k cs)

-- With one condition of the type, the update decides whether it holds.
pub holds-update_last :
    (k : ConditionType) (s : ConditionStatus) (m : Option String) (cs : List Condition)
    → AtMostOne k cs
    → holds k (update_last k (with_status s m) cs) ≡ (has_kind k cs && is_true s)
unfolding has_kind update_last holds
holds-update_last k s m [] h = refl
holds-update_last k s m (c ∷ cs) h = ground (arith, holds-update_last k s m cs h.1, not_holds k cs)

pub append_has_kind :
    (k : ConditionType) (cs : List Condition) (c : Condition)
    → has_kind k (cs ++ c ∷ []) ≡ (has_kind k cs || is_kind c.kind k)
unfolding has_kind
append_has_kind k [] c = ground arith
append_has_kind k (d ∷ cs) c = ground (arith, append_has_kind k cs c)

pub append_holds :
    (k : ConditionType) (cs : List Condition) (c : Condition)
    → holds k (cs ++ c ∷ []) ≡ (holds k cs || (is_kind c.kind k && is_true c.status))
unfolding holds
append_holds k [] c = ground arith
append_holds k (d ∷ cs) c = ground (arith, append_holds k cs c)

pub AtMostOne-append :
    (k : ConditionType) (cs : List Condition) (c : Condition)
    → AtMostOne k cs
    → (is_kind c.kind k ≡ true → has_kind k cs ≡ false)
    → AtMostOne k (cs ++ c ∷ [])
unfolding has_kind
AtMostOne-append k [] c h g = ((λ _. refl), tt)
AtMostOne-append k (d ∷ cs) c h g =
    ground (arith, append_has_kind k cs c, AtMostOne-append k cs c h.1)

-- Types that differ do not meet in one condition.
pub kinds_differ :
    (kind : ConditionType) → is_kind kind terminal ≡ true → is_kind kind recoverable ≡ false
unfolding is_kind
kinds_differ terminal h = refl
kinds_differ recoverable h = cc
kinds_differ resource_synced h = cc
kinds_differ (other s) h = cc

-- An update of another type leaves this one as it is.
module _ (s : ConditionStatus) (m : Option String) where
  pub recoverable-update_terminal :
      (cs : List Condition)
      → holds recoverable (update_last terminal (with_status s m) cs) ≡ holds recoverable cs
  unfolding update_last holds
  recoverable-update_terminal [] = refl
  recoverable-update_terminal (c ∷ cs) =
      ground (arith, recoverable-update_terminal cs, kinds_differ c.kind)

  pub terminal-update_recoverable :
      (cs : List Condition)
      → holds terminal (update_last recoverable (with_status s m) cs) ≡ holds terminal cs
  unfolding update_last holds
  terminal-update_recoverable [] = refl
  terminal-update_recoverable (c ∷ cs) =
      ground (arith, terminal-update_recoverable cs, kinds_differ c.kind)

  pub untouched-update_terminal :
      (cs : List Condition) → untouched (update_last terminal (with_status s m) cs) ≡ untouched cs
  unfolding update_last untouched
  untouched-update_terminal [] = refl
  untouched-update_terminal (c ∷ cs) = ground (arith, untouched-update_terminal cs)

  pub untouched-update_recoverable :
      (cs : List Condition)
      → untouched (update_last recoverable (with_status s m) cs) ≡ untouched cs
  unfolding update_last untouched
  untouched-update_recoverable [] = refl
  untouched-update_recoverable (c ∷ cs) = ground (arith, untouched-update_recoverable cs)

pub untouched_append :
    (cs : List Condition) (c : Condition)
    → untouched (cs ++ c ∷ []) ≡ (
        if is_kind c.kind terminal || is_kind c.kind recoverable
        then untouched cs
        else untouched cs ++ c ∷ [])
unfolding untouched
untouched_append [] c = ground arith
untouched_append (d ∷ cs) c = ground (arith, untouched_append cs c)
