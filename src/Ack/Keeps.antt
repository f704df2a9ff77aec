-- ===== src/Ack/Keeps.antt =====
-- Handlers that leave the service, or a view of it, as it is.
use ack_ws_s3files_controlle.Prelude.{
  String, Bool, true, false, ◌≡◌, refl, ◌∙◌, List, if◌then◌else◌,
}
use ack_ws_s3files_controlle.Ack.{
  Reply, done, failed, World, Exec, Runtime, pure, fail, ◌>>=◌, call, unless_code, when,
}

-- On every branch, errors included, the view of the service is the one before.
abbrev pub Keeps : {S E A B : Type 0} → (S → B) → Exec S E A → Type 0
Keeps {S} {E} view m = (w : World S E) → view (m w).1.cloud ≡ view w.cloud

module _ {S E V : Type 0} (view : S → V) where
  -- A failure, whatever it would return.
  pub fail-Keeps : (A : Type 0) (e : E) → Keeps view (fail {S = S} {A = A} e)
  fail-Keeps A e w = refl

  module _ {A : Type 0} where
    pub pure-Keeps : (a : A) → Keeps view (pure {S = S} {E = E} a)
    pure-Keeps a w = refl

    -- A call of an operation that keeps the view.
    pub call-Keeps :
        (op_type op_id : String) (f : S → Reply E A × S)
        → ((s : S) → view (f s).1 ≡ view s)
        → Keeps view (call op_type op_id f)
    call-Keeps a b f h w = h w.cloud

    unless_code_done :
        (rt : Runtime E) (codes : List String) (a : A) (p : Reply E A × World S E) {v : V}
        → view p.1.cloud ≡ v
        → view (unless_code rt codes a (λ _. p) p.1).1.cloud ≡ v
    unless_code_done rt codes a (done x, w1) h = h
    unless_code_done rt codes a (failed e, w1) h = h

    pub unless_code-Keeps :
        (rt : Runtime E) (codes : List String) (a : A) (m : Exec S E A)
        → Keeps view m
        → Keeps view (unless_code rt codes a m)
    unless_code-Keeps rt codes a m h w = unless_code_done rt codes a (m w) (h w)

    pub if-Keeps :
        (b : Bool) (m n : Exec S E A)
        → Keeps view m
        → Keeps view n
        → Keeps view (if b then m else n)
    if-Keeps true m n h g = h
    if-Keeps false m n h g = g

  pub when-Keeps : (b : Bool) (m : Exec S E Unit) → Keeps view m → Keeps view (when b m)
  when-Keeps b m h = if-Keeps b m (pure tt) h (pure-Keeps tt)

  module _ {A B : Type 0} where
    bind_done :
        (p : Reply E A × World S E) (f : A → Exec S E B) {v : V}
        → view p.1.cloud ≡ v
        → ((a : A) → Keeps view (f a))
        → view (((λ (w : World S E). p) >>= f) p.1).1.cloud ≡ v
    bind_done (done a, w1) f h g = g a w1 ∙ h
    bind_done (failed e, w1) f h g = h

    pub bind-Keeps :
        (m : Exec S E A) (f : A → Exec S E B)
        → Keeps view m
        → ((a : A) → Keeps view (f a))
        → Keeps view (m >>= f)
    bind-Keeps m f h g w = bind_done (m w) f (h w) g
