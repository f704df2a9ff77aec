-- ===== src/Ack/Bind.antt =====
-- Inversion of handlers that return a value.
use ack_ws_s3files_controlle.Prelude.{◌≡◌, refl}
use ack_ws_s3files_controlle.Ack.{Reply, done, failed, World, Exec, ◌>>=◌}

module _ {S E A B : Type 0} where
  -- A sequence that returned: the first part returned, and the rest from there.
  pub record Ran (m : Reply E A × World S E) (f : A → Exec S E B) (out : Reply E B × World S E)
      : Type 0 where
    pub value : A
    pub middle : World S E
    pub first : m ≡ (done value, middle)
    pub rest : f value middle ≡ out

  invert :
      (m : Reply E A × World S E) (f : A → Exec S E B) {b : B} {w' : World S E}
      → (((λ (w : World S E). m) >>= f) m.1 ≡ (done b, w'))
      → Ran m f (done b, w')
  invert (done a, w1) f h = record { value = a; middle = w1; first = refl; rest = h }
  invert (failed e, w1) f h = cc

  pub bind-Ran :
      (m : Exec S E A) (f : A → Exec S E B) {b : B} {w' : World S E} (w : World S E)
      → (m >>= f) w ≡ (done b, w')
      → Ran (m w) f (done b, w')
  bind-Ran m f w h = invert (m w) f h
