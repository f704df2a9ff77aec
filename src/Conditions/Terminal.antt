-- ===== src/Conditions/Terminal.antt =====
-- What the runtime's `SetTerminal` (pkg/condition) promises.
use ack_ws_s3files_controlle.Prelude.{String, ◌≡◌, Option, List}
use ack_ws_s3files_controlle.Ack.{Condition, ConditionStatus, terminal, recoverable, is_true}
use ack_ws_s3files_controlle.Conditions.{holds}
use ack_ws_s3files_controlle.Conditions.Laws.{untouched}
use ack_ws_s3files_controlle.Conditions.Mark.{IsTidy}

-- The terminal condition gets the status, and there is one; the others stay.
pub record IsSetTerminal
    (set : List Condition → ConditionStatus → Option String → Option String → List Condition)
    : Type 0 where
  pub decides :
      (cs : List Condition) (status : ConditionStatus) (message reason : Option String)
      → IsTidy cs
      → holds terminal (set cs status message reason) ≡ is_true status
  pub keeps_tidy :
      (cs : List Condition) (status : ConditionStatus) (message reason : Option String)
      → IsTidy cs
      → IsTidy (set cs status message reason)
  pub keeps_recoverable :
      (cs : List Condition) (status : ConditionStatus) (message reason : Option String)
      → holds recoverable (set cs status message reason) ≡ holds recoverable cs
  pub keeps_others :
      (cs : List Condition) (status : ConditionStatus) (message reason : Option String)
      → untouched (set cs status message reason) ≡ untouched cs
