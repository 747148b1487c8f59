-- ===== src/Prelude/Calls.antt =====
-- Calls of a service that may fail: with an error before the call took effect, or after it did.
use mathlib.Core.Option.{Option, none, some}

pub data Call : Type 0 where
  done : Call
  lost_before : Call
  lost_after : Call

-- The state afterwards, and the result if the call returns.
unfoldable pub call : {S A : Type 0} → Call → (S → S × A) → S → S × Option A
call done run s = ((run s).0, some (run s).1)
call lost_before run s = (s, none)
call lost_after run s = ((run s).0, none)

-- What holds before the call and after its effect holds whatever the call does.
pub call-kept :
    {S A : Type 0} (P : S → Type 0) (c : Call) (run : S → S × A) (s : S)
    → P s
    → P (run s).0
    → P (call c run s).0
unfolding call
call-kept P done run s before after = after
call-kept P lost_before run s before after = before
call-kept P lost_after run s before after = after
