-- ===== src/Store/Window.antt =====
-- What a fixed window with a punitive block promises, for one bucket: the specification of `Consume`
-- in internal/store/redisstore and internal/store/storetest.
pub mod Admission
use forwardlimit.Common.{Bool, true, false, if◌then◌else◌, ◌≡◌}
use forwardlimit.Common.Int.{ℤ, pos, negsuc, ltb_ℤ, increment}

-- Counting, with the number of calls in the window; or blocked.
pub data Phase : Type 0 where
  counting : ℤ → Phase
  blocked : Phase

pub record Verdict : Type 0 where
  pub rejected : Bool
  pub count : ℤ
  pub next : Phase

-- A blocked bucket rejects and is not counted. Otherwise the call is counted, and the one that
-- exceeds the limit is rejected, blocks the bucket and drops the counter.
abbrev pub step : ℤ → Phase → Verdict
step limit blocked = record { rejected = true; count = negsuc 0; next = blocked }
step limit (counting n) =
    let m = increment n in
    if ltb_ℤ limit m
    then record { rejected = true; count = m; next = blocked }
    else record { rejected = false; count = m; next = counting m }
