-- ===== src/Store/Capacity.antt =====
-- What a token bucket promises, while it gains whole tokens: the specification of `Take` in
-- internal/store/redisstore and internal/store/storetest.
pub mod Rate
use forwardlimit.Common.{ℕ, ◌+◌, ◌-◌, ◌*◌, ◌/◌, suc, Bool, if◌then◌else◌, leb, ltb}

pub record Grant : Type 0 where
  pub allowed : Bool
  pub remaining : ℕ
  pub wait : ℕ

-- `rate` is a second's tokens less one; times are milliseconds.
module _ (rate burst : ℕ) where
  -- The tokens that were left, and those that were gained since, up to the burst.
  abbrev pub available : ℕ → ℕ → ℕ
  available c elapsed = let n = c + elapsed * suc rate / 1000 in if ltb n burst then n else burst

  -- A call takes a token, or is told when the next is due.
  abbrev pub step : ℕ → ℕ → Grant
  step c elapsed =
      let n = available c elapsed in
      record {
        allowed = leb 1 n;
        remaining = n - 1;
        wait = if leb 1 n then 0 else (1000 + rate) / suc rate;
      }
