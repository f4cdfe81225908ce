-- ===== src/Store/Redis/Laws.antt =====
-- What the scripts of internal/store/redisstore rely on: the documented behaviour of the commands of
-- Redis while a script runs, during which no key expires.
use forwardlimit.Common.{ℕ, suc, ◌-◌, false, Option, none, some, if◌then◌else◌, ◌≡◌}
use forwardlimit.Common.Int.{ℤ, pos, negsuc, increment, ◌<ℤ◌, two_63}
use forwardlimit.Common.Text.{Text, codes, text_eq}
use forwardlimit.Common.Assoc.{is_some, or_zero}
use forwardlimit.Store.Redis.{Commands}
use forwardlimit.Store.Redis.Tokens.{BucketCommands}

-- `value` is the integer that a key holds, and `left` what TTL would reply: -2 for a key that is
-- missing, and -1 for one that does not expire.
pub record Laws {W : Type 0} (redis : Commands W) : Type 0 where
  pub value : Text → W → Option ℤ
  pub left : Text → W → ℤ
  pub ttl_reply : (k : Text) (w : W) → (redis.ttl k w).0 ≡ left k w
  pub ttl_value : (j k : Text) (w : W) → value j (redis.ttl k w).1 ≡ value j w
  pub ttl_left : (j k : Text) (w : W) → left j (redis.ttl k w).1 ≡ left j w
  -- INCR fails at the largest int64, which the laws leave open.
  pub incr_reply :
      (k : Text) (w : W)
      → or_zero (value k w) <ℤ pos (two_63 - 1)
      → (redis.incr k w).0 ≡ increment (or_zero (value k w))
  pub incr_value :
      (j k : Text) (w : W)
      → or_zero (value k w) <ℤ pos (two_63 - 1)
      → value j (redis.incr k w).1
        ≡ (if text_eq j k then some (increment (or_zero (value k w))) else value j w)
  -- A key that INCR creates does not expire.
  pub incr_left :
      (j k : Text) (w : W)
      → or_zero (value k w) <ℤ pos (two_63 - 1)
      → left j (redis.incr k w).1
        ≡ (if text_eq j k then (if is_some (value k w) then left k w else negsuc 0) else left j w)
  pub expire_value :
      (j k : Text) (n : ℕ) (w : W) → value j (redis.expire k (pos (suc n)) w) ≡ value j w
  pub expire_left :
      (j k : Text) (n : ℕ) (w : W)
      → left j (redis.expire k (pos (suc n)) w) ≡ (
          if text_eq j k then (if is_some (value k w) then pos (suc n) else left k w) else left j w)
  pub set_value :
      (j k v : Text) (n : ℕ) (w : W)
      → text_eq j k ≡ false
      → value j (redis.set_ex k v (pos (suc n)) w) ≡ value j w
  pub set_left :
      (j k v : Text) (n : ℕ) (w : W)
      → left j (redis.set_ex k v (pos (suc n)) w) ≡ (if text_eq j k then pos (suc n) else left j w)
  pub del_value :
      (j k : Text) (w : W) → value j (redis.del k w) ≡ (if text_eq j k then none else value j w)
  pub del_left :
      (j k : Text) (w : W) → left j (redis.del k w) ≡ (if text_eq j k then negsuc 1 else left j w)

-- The same for the script of the token bucket. `held` is the two fields of a key, `clock` the server's
-- clock, which stands still while the calls that are looked at run.
pub record BucketLaws {F W : Type 0} (redis : BucketCommands F W) : Type 0 where
  pub held : Text → W → Option F × Option F
  pub clock : W → ℤ × ℤ
  pub time_reply : (w : W) → (redis.time w).0 ≡ clock w
  pub time_held : (k : Text) (w : W) → held k (redis.time w).1 ≡ held k w
  pub time_clock : (w : W) → clock (redis.time w).1 ≡ clock w
  pub hmget_reply : (k : Text) (w : W) → (redis.hmget k (codes "n") (codes "t") w).0 ≡ held k w
  pub hmget_clock : (k : Text) (w : W) → clock (redis.hmget k (codes "n") (codes "t") w).1 ≡ clock w
  pub hset_held :
      (k : Text) (n t : F) (w : W)
      → held k (redis.hset k (codes "n") n (codes "t") t w) ≡ (some n, some t)
  pub hset_clock :
      (k : Text) (n t : F) (w : W) → clock (redis.hset k (codes "n") n (codes "t") t w) ≡ clock w
  pub pexpire_held : (j k : Text) (ms : F) (w : W) → held j (redis.pexpire k ms w) ≡ held j w
  pub pexpire_clock : (k : Text) (ms : F) (w : W) → clock (redis.pexpire k ms w) ≡ clock w
