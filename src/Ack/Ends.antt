-- ===== src/Ack/Ends.antt =====
-- How handlers that only work on the service end.
use ack_ws_s3files_controlle.Prelude.{
  String, Bool, true, false, ◌≡◌, refl, Bool-cases, inl, inr, Option, none, some, List, [], ◌∷◌,
  ◌++◌,
}
use ack_ws_s3files_controlle.Ack.{
  ApiCall, Reply, done, failed, outcome_of, World, Runtime, call, has_code, unless_code,
}

-- The last call that was recorded.
abbrev pub last_call : {E : Type 0} → List (ApiCall E) → Option (ApiCall E)
last_call [] = none
last_call (c ∷ cs) = elim (last_call cs) [ none ↦ some c | some d ↦ some d ]

last_call-append :
    {E : Type 0} (cs : List (ApiCall E)) (c : ApiCall E) → last_call (cs ++ c ∷ []) ≡ some c
last_call-append [] c = refl
last_call-append (d ∷ cs) c = rw (last_call-append cs c)

-- The call that was recorded last failed with the error.
pub record EndsIn {S E : Type 0} (err : E) (w : World S E) : Type 0 where
  pub last : ApiCall E
  pub is_last : last_call w.calls ≡ some last
  pub has_error : last.outcome ≡ some err

-- The handler is done and the service is as stated, or it failed with the error of its last call.
abbrev pub Ends : {S E : Type 0} → (S → Type 0) → Reply E Unit × World S E → Type 0
Ends P (done _, w) = P w.cloud
Ends P (failed err, w) = EndsIn err w

-- It failed with such an error.
abbrev pub fails_with : {E : Type 0} → (E → Bool) → Reply E Unit → Bool
fails_with test (done _) = false
fails_with test (failed err) = test err

pub fails_with-never : {E : Type 0} (r : Reply E Unit) → fails_with (λ (_ : E). false) r ≡ false
fails_with-never (done _) = refl
fails_with-never (failed err) = refl

module _ {S E : Type 0} (rt : Runtime E) (codes : List String) where
  reply_unless_code :
      (r : Reply E Unit) (w w' : World S E)
      → fails_with (has_code rt codes) (unless_code rt codes tt (λ (_ : World S E). (r, w')) w).0
        ≡ false
  reply_unless_code (done _) w w' = refl
  reply_unless_code (failed err) w w' = elim (Bool-cases (has_code rt codes err)) [
    | inl e ↦ rw (e) refl
    | inr e ↦ rw (e) e
  ]

  -- An error that counts as done is never the error.
  pub fails_with-unless_code :
      (m : World S E → Reply E Unit × World S E) (w : World S E)
      → fails_with (has_code rt codes) (unless_code rt codes tt m w).0 ≡ false
  fails_with-unless_code m w = reply_unless_code (m w).0 w (m w).1

module _ {S E : Type 0} (P : S → Type 0) where
  recorded-Ends :
      (op_type op_id : String) (r : Reply E Unit) (s : S) (calls : List (ApiCall E))
      → (r ≡ done tt → P s)
      → Ends P (
        r,
        record {
          cloud = s;
          calls = calls ++ record { op_type = op_type; op_id = op_id; outcome = outcome_of r } ∷ [];
        },
      )
  recorded-Ends a b (done tt) s calls h = h refl
  recorded-Ends a b (failed err) s calls h = record {
    last = record { op_type = a; op_id = b; outcome = some err };
    is_last = last_call-append calls (record { op_type = a; op_id = b; outcome = some err });
    has_error = refl;
  }

  -- One call ends as its response says.
  pub call-Ends :
      (op_type op_id : String) (f : S → Reply E Unit × S) (w : World S E)
      → ((f w.cloud).0 ≡ done tt → P (f w.cloud).1)
      → Ends P (call op_type op_id f w)
  call-Ends a b f w h = recorded-Ends a b (f w.cloud).0 (f w.cloud).1 w.calls h

  recorded_unless_code :
      (rt : Runtime E) (codes : List String) (op_type op_id : String) (r : Reply E Unit) (s : S)
      (calls : List (ApiCall E))
      → (r ≡ done tt → P s)
      → ((err : E) → r ≡ failed err → has_code rt codes err ≡ true → P s)
      → Ends P (
          unless_code rt codes tt
            (λ (_ : World S E). (
              r,
              record {
                cloud = s;
                calls =
                    calls
                    ++ record { op_type = op_type; op_id = op_id; outcome = outcome_of r } ∷ [];
              },
            ))
            (record { cloud = s; calls = calls }))
  recorded_unless_code rt codes a b (done tt) s calls h g = h refl
  recorded_unless_code rt codes a b (failed err) s calls h g =
      elim (Bool-cases (has_code rt codes err)) [
        | inl e ↦ rw e (g err refl e)
        | inr e ↦ rw e (record {
          last = record { op_type = a; op_id = b; outcome = some err };
          is_last = last_call-append calls (record { op_type = a; op_id = b; outcome = some err });
          has_error = refl;
        })
      ]

  -- One call, of which some errors count as done.
  pub unless_code-Ends :
      (rt : Runtime E) (codes : List String) (op_type op_id : String) (f : S → Reply E Unit × S)
      (w : World S E)
      → ((f w.cloud).0 ≡ done tt → P (f w.cloud).1)
      → ((err : E) → (f w.cloud).0 ≡ failed err → has_code rt codes err ≡ true → P (f w.cloud).1)
      → Ends P (unless_code rt codes tt (call op_type op_id f) w)
  unless_code-Ends rt codes a b f w h g =
      recorded_unless_code rt codes a b (f w.cloud).0 (f w.cloud).1 w.calls h g
