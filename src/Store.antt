-- ===== src/Store.antt =====
-- internal/store/store.go and internal/store/noop.go: rules, keys, results and the interface that
-- every store implements. A call takes the state of the world (the store's own, and of all that it
-- reaches) and returns the new one; `context.Context` only cancels calls, and is left out.
-- Durations are nanoseconds; a `time.Time` is the nanoseconds since the zero time.
pub mod Breaker
pub mod Blockcache
pub mod Keys
pub mod Window
pub mod Capacity
pub mod Redis
pub mod Fake
use forwardlimit.Common.{
  ℕ, ◌+◌, ◌-◌, suc, Bool, true, false, ◌&&◌, ◌||◌, Option, none, [], ◌∷◌, ◌++◌, if◌then◌else◌, ◌==◌,
}
use forwardlimit.Common.Int.{ℤ, pos, negsuc, sub_ℕ, ltb_ℤ, saturate}
use forwardlimit.Common.Text.{Text, contains_byte}

pub record Rule : Type 0 where
  pub limit : ℤ
  pub window : ℤ
  pub block : ℤ

-- `Rule.Valid`
abbrev pub rule_valid : Rule → Bool
rule_valid r = ltb_ℤ (pos 0) r.limit && ltb_ℤ (pos 0) r.window && ltb_ℤ (pos 0) r.block

pub record Key : Type 0 where
  pub limiter : Text
  pub bucket : Text

-- `Key.String`
abbrev pub key_string : Key → Text
key_string k = k.limiter ++ (b':' ∷ k.bucket)

pub record Result : Type 0 where
  pub blocked : Bool
  pub count : ℤ
  pub retry_after : ℤ

pub record Bucket : Type 0 where
  pub rate : ℤ
  pub burst : ℤ

-- `Bucket.Valid`
abbrev pub bucket_valid : Bucket → Bool
bucket_valid b = ltb_ℤ (pos 0) b.rate && ltb_ℤ (pos 0) b.burst

pub record TakeResult : Type 0 where
  pub allowed : Bool
  pub remaining : ℤ
  pub retry_after : ℤ

pub data Error : Type 0 where
  circuit_open disabled : Error
  store_panicked : Error
  other_error : Text → Error

-- `(value, error)`, or a panic that unwinds the call. No caller reads a value that comes with an error.
pub data Reply {ℓ} (A : Type ℓ) : Type ℓ where
  ok : A → Reply A
  err : Error → Reply A
  panicked : Reply A

pub record Store (W : Type 0) : Type 0 where
  pub consume : Key → Rule → W → Reply Result × W
  pub take : Key → Bucket → W → Reply TakeResult × W
  pub close : W → Option Error × W

-- `Noop`
abbrev pub noop : {W : Type 0} → Store W
noop = record {
  consume = λ k r w. (ok (record { blocked = false; count = pos 0; retry_after = pos 0 }), w);
  take = λ k b w. (ok (record { allowed = true; remaining = b.burst; retry_after = pos 0 }), w);
  close = λ w. (none, w);
}

-- `strings.NewReplacer("{", "", "}", "").Replace`
pub strip_braces : Text → Text
strip_braces [] = []
strip_braces (c ∷ s) =
    let rest = strip_braces s in if c == b'{' || c == b'}' then rest else c ∷ rest

unfoldable pub sanitize_bucket : Text → Text
unfolding strip_braces contains_byte
sanitize_bucket s = if contains_byte b'{' s || contains_byte b'}' s then strip_braces s else s

abbrev pub Time : Type 0
Time = ℕ

-- `Time.IsZero`
abbrev pub is_zero : Time → Bool
is_zero t = t == 0

-- `Time.Add`
abbrev pub add_time : Time → ℤ → Time
add_time t (pos n) = t + n
add_time t (negsuc n) = t - suc n

-- `Time.Sub` saturates at the ends of int64.
unfoldable pub sub_time : Time → Time → ℤ
unfolding saturate
sub_time t u = saturate (sub_ℕ t u)

-- Reading the clock is an effect: the next reading is another. `now` is `time.Now` or `Options.Now`.
pub record Clock (W : Type 0) : Type 0 where
  pub now : W → Time × W
