-- ===== src/Store/Redis/Tokens.antt =====
-- internal/store/redisstore/redisstore.go: `Take` and its script. The commands of Redis, the numbers
-- of Lua and the client that runs a script are parameters.
use forwardlimit.Common.{
  ◌-◌, ◌*◌, suc, ◌&&◌, not, Option, none, some, List, [], ◌∷◌, ◌++◌, if◌then◌else◌,
}
use forwardlimit.Common.Int.{ℤ, pos, negsuc, leb_ℤ, wrap}
use forwardlimit.Common.Float.{Float}
use forwardlimit.Common.Text.{Text, codes}
use forwardlimit.Store.{
  Key, Bucket, bucket_valid, TakeResult, Reply, ok, err, panicked, other_error,
}
use forwardlimit.Store.Redis.{base}

-- The commands that the script calls: TIME, the seconds and microseconds of the server's clock; HMGET
-- of the two fields of the state, each nil or a number; HSET of both; and PEXPIRE.
pub record BucketCommands (F W : Type 0) : Type 0 where
  pub time : W → (ℤ × ℤ) × W
  pub hmget : Text → Text → Text → W → (Option F × Option F) × W
  pub hset : Text → Text → F → Text → F → W → W
  pub pexpire : Text → F → W → W

-- `time.Duration(n) * time.Millisecond`
unfoldable pub of_millis : ℤ → ℤ
unfolding wrap
of_millis (pos n) = wrap (pos (n * 1_000_000))
of_millis (negsuc n) = wrap (negsuc (suc n * 1_000_000 - 1))

-- A state that lacks a field is that of a new bucket: full, and of this moment.
abbrev pub stored : {F : Type 0} → F → F → Option F × Option F → F × F
stored burst now (some tokens, some ts) = (tokens, ts)
stored burst now (some tokens, none) = (burst, now)
stored burst now (none, ts) = (burst, now)

module _ {F : Type 0} (float : Float F) where
  abbrev pub number : ℤ → F
  number = float.of_int

  -- Milliseconds.
  unfoldable pub clock_now : ℤ × ℤ → F
  clock_now (s, us) =
      float.add (float.mul (number s) (number (pos 1000)))
        (float.floor (float.div (number us) (number (pos 1000))))

  unfoldable pub refilled : F → F → F → F × F → F
  refilled rate burst now (tokens, ts) =
      let d = float.sub now ts in
      let elapsed = if float.lt d (number (pos 0)) then number (pos 0) else d in
      let full = float.add tokens (float.div (float.mul elapsed rate) (number (pos 1000))) in
      if float.lt full burst then full else burst

abbrev pub from_spend : Reply (List ℤ) → Reply TakeResult
from_spend (ok (a ∷ n ∷ t ∷ [])) = ok (record {
  allowed = leb_ℤ a (pos 1) && leb_ℤ (pos 1) a;
  remaining = n;
  retry_after = of_millis t;
})
from_spend (ok raw) = err (other_error (codes "unexpected script result length"))
from_spend (err e) = err e
from_spend panicked = panicked

module _ {F W : Type 0} (float : Float F) (redis : BucketCommands F W) where
  -- The script `take`.
  unfoldable pub spend : Text → ℤ → ℤ → W → List ℤ × W
  unfolding clock_now refilled
  spend k rate burst w =
      let one = number float (pos 1) in
      let (clock, w1) = redis.time w in
      let now = clock_now float clock in
      let (fields, w2) = redis.hmget k (codes "n") (codes "t") w1 in
      let tokens =
        refilled float (number float rate) (number float burst) now
          (stored (number float burst) now fields) in
      let allowed = float.le one tokens in
      let left = if allowed then float.sub tokens one else tokens in
      let retry =
        if allowed
        then number float (pos 0)
        else float.ceil (
            float.div (float.mul (float.sub one tokens) (number float (pos 1000)))
              (number float rate)) in
      let life =
        float.add
          (float.ceil (
            float.div (float.mul (number float burst) (number float (pos 1000)))
              (number float rate)))
          (number float (pos 10_000)) in
      let w3 = redis.hset k (codes "n") left (codes "t") now w2 in
      (
        (if allowed then pos 1 else pos 0)
            ∷ float.truncate (float.floor left)
            ∷ float.truncate retry
            ∷ [],
        redis.pexpire k life w3,
      )

  -- `Take`; `run` is the client, which reaches the server or fails.
  unfoldable pub take :
      ((W → List ℤ × W) → W → Reply (List ℤ) × W) → Text → Key → Bucket → W → Reply TakeResult × W
  take run prefix k bucket w =
      let (raw, w') = run (spend (base prefix k ++ codes ":tb") bucket.rate bucket.burst) w in
      if not (bucket_valid bucket)
      then (err (other_error (codes "invalid bucket")), w)
      else (from_spend raw, w')
