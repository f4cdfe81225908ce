-- ===== src/Tests/Buckets.antt =====
-- The token bucket of internal/store/redisstore on a server with a clock.
use forwardlimit.Common.{
  ℕ, zero, suc, ◌+◌, ◌-◌, ◌*◌, ◌/◌, ◌%◌, subst, ◌≤◌, ◌<◌, sym, ◌≡◌, refl, ap, Bool, true, false,
  ◌&&◌, ◌==◌, Option, none, some, List, [], ◌∷◌, ◌++◌, if◌then◌else◌, leb, ltb, arith, inl, inr,
  Bool-cases,
}
use native.Mathlib.Nat.{mul-div_cancel, div-mul-le_self, lt-div-mul-add, div-eq_of_lt-le}
use forwardlimit.Common.Int.{ℤ, pos, pos_part}
use forwardlimit.Common.Float.{Float, Exact}
use forwardlimit.Common.Text.{Text, codes, text_eq, text_eq_refl}
use forwardlimit.Store.{Bucket, ok}
use forwardlimit.Store.Redis.Consume.{direct}
use forwardlimit.Store.Redis.Tokens.{BucketCommands, take, spend, of_millis}
use forwardlimit.Store.Redis.{base}
use forwardlimit.Store.Redis.Laws.{BucketLaws}
use forwardlimit.Store.{Reply, TakeResult}
use forwardlimit.Store.Capacity.{available, step}
use forwardlimit.Store.Redis.Expiry.{take-pexpire}
use forwardlimit.Store.Capacity.Rate.{count, sum}
use forwardlimit.Store.Redis.Refill.{Reads}
use forwardlimit.Store.Redis.Grants.{
  Waits, Holds, take-step, outcomes, gaps, count-outcomes, take_served, is_allowed,
}
use forwardlimit.Tests.Redis.{client_key}

-- The floor of a number, and whether it is that; which agrees with float64 on small integers.
abbrev pub Rounded : Type 0
Rounded = ℕ × Bool

abbrev pub whole : Float Rounded
whole = record {
  of_int = λ n. (pos_part n, true);
  add = λ a b. (a.0 + b.0, a.1 && b.1);
  sub = λ a b. (a.0 - b.0, a.1 && b.1);
  mul = λ a b. (a.0 * b.0, a.1 && b.1);
  div = λ a b. (a.0 / b.0, (a.0 / b.0 * b.0) == a.0);
  lt = λ a b. ltb a.0 b.0;
  le = λ a b. leb a.0 b.0;
  floor = λ a. (a.0, true);
  ceil = λ a. ((if a.1 then a.0 else suc a.0), true);
  truncate = λ a. pos a.0;
  seconds = λ n. (pos_part n / 1_000_000_000, true);
}

div_whole :
    (a b : ℕ)
    → ◌≡◌ {A = Rounded} (a * suc b / suc b, (a * suc b / suc b * suc b) == a * suc b) (a, true)
div_whole a b = rw (mul-div_cancel a {n = suc b} (omega arith)) (ground arith)

div_ceil :
    (a b : ℕ) → (if (a / suc b * suc b) == a then a / suc b else suc (a / suc b)) ≡ (a + b) / suc b
div_ceil a b =
    let q = a / suc b in
    let below = div-mul-le_self a (suc b) in
    let above = lt-div-mul-add {a = a} {b = suc b} (omega arith) in
    elim (Bool-cases ((q * suc b) == a)) [
      | inl y ↦
          let whole : q * suc b ≡ a = ground arith in
          rw y (sym (div-eq_of_lt-le (suc b) {m = a + b} (omega arith) (omega arith)))
      | inr n ↦
          let more : q * suc b < a = ground arith in
          rw n (sym (div-eq_of_lt-le (suc b) {m = a + b} (omega arith) (omega arith)))
    ]

seconds_int : (a : ℕ) → ◌≡◌ {A = Rounded} (a * 1_000_000_000 / 1_000_000_000, true) (a, true)
seconds_int a = ground arith

pub whole_exact : Exact whole
whole_exact = record {
  add_int = λ a b h. refl;
  sub_int = λ a b h l. refl;
  mul_int = λ a b h. refl;
  div_floor = λ a b h l. refl;
  div_whole = λ a b h. div_whole a b;
  div_ceil = λ a b h l. ap (λ n. (n, true)) (div_ceil a b);
  floor_int = λ a h. refl;
  truncate_int = λ a h. refl;
  seconds_int = λ a h. seconds_int a;
  lt_int = λ a b h l. refl;
  le_int = λ a b h l. refl;
}

-- A server: the two fields of each key, and the seconds and microseconds of its clock.
abbrev pub Served : Type 0
Served = (Text → Option Rounded × Option Rounded) × (ℤ × ℤ)

abbrev set :
    Text
    → Option Rounded × Option Rounded
    → (Text → Option Rounded × Option Rounded)
    → Text
    → Option Rounded × Option Rounded
set k o t j = if text_eq j k then o else t j

abbrev pub bucket_server : BucketCommands Rounded Served
bucket_server = record {
  time = λ w. (w.1, w);
  hmget = λ k n f w. (w.0 k, w);
  hset = λ k n a f b w. (set k (some a, some b) w.0, w.1);
  pexpire = λ k ms w. w;
}

pub bucket_server_laws : BucketLaws bucket_server
bucket_server_laws = record {
  held = λ k w. w.0 k;
  clock = λ w. w.1;
  time_reply = λ w. refl;
  time_held = λ k w. refl;
  time_clock = λ w. refl;
  hmget_reply = λ k w. refl;
  hmget_clock = λ k w. refl;
  hset_held = λ k n s w. rw (text_eq_refl k) refl;
  hset_clock = λ k n s w. refl;
  pexpire_held = λ j k ms w. refl;
  pexpire_clock = λ k ms w. refl;
}

abbrev pub ten_per_second : Bucket
ten_per_second = record { rate = pos 10; burst = pos 2 }

-- So many milliseconds after noon, and nothing is stored.
abbrev pub at : ℕ → Served → Served
at ms w = (w.0, (pos (43_200 + ms / 1000), pos (ms % 1000 * 1000)))

abbrev pub unused : Served
unused = at 0 ((λ j. (none, none)), (pos 0, pos 0))

abbrev pub noon : ℕ
noon = 43_200_000

reads :
    (ms : ℕ) (w : Served)
    → ms ≤ 1_000_000
    → Reads whole whole_exact bucket_server bucket_server_laws (at ms w) (noon + ms)
unfolding bucket_server_laws
reads ms w h = record {
  s = 43_200 + ms / 1000;
  us = ms % 1000 * 1000;
  clock_is = refl;
  millis = omega arith;
  small = omega arith;
}

abbrev one_take : Served → Reply TakeResult × Served
one_take = take whole bucket_server direct (codes "rl:") client_key ten_per_second

abbrev pub Passes : Served → ℕ → ℕ → Served → Type 0
Passes =
    Waits whole whole_exact bucket_server bucket_server_laws (codes "rl:") client_key ten_per_second
      9 2 refl refl refl (omega arith) (omega arith)

abbrev pub HasLeft : ℕ → ℕ → Served → Type 0
HasLeft =
    Holds whole whole_exact bucket_server bucket_server_laws (codes "rl:") client_key ten_per_second
      9 2 refl refl refl (omega arith) (omega arith)

pub passes :
    (ms g : ℕ) (w : Served)
    → ms ≤ 1000
    → g ≤ 10
    → Passes w (noon + ms) (g * 100) (at (ms + g * 100) w)
unfolding bucket_server_laws
passes ms g w h l = record {
  kept = refl;
  reads =
      subst (Reads whole whole_exact bucket_server bucket_server_laws (at (ms + g * 100) w))
        (omega arith) (reads (ms + g * 100) w (omega arith));
  gain = g;
  whole = omega arith;
  fits = omega arith;
  room = omega arith;
}

pub unused-HasLeft : HasLeft 2 noon unused
unfolding bucket_server_laws
unused-HasLeft = inr (refl, refl)

take-step_example :
    let g = step 9 2 2 100 in
    let (r, v) = one_take (at 100 unused) in
    (r
      ≡ ok (record {
        allowed = g.allowed;
        remaining = pos g.remaining;
        retry_after = pos (g.wait * 1_000_000);
      }))
    × HasLeft g.remaining (noon + 100) v
take-step_example =
    take-step whole whole_exact bucket_server bucket_server_laws (codes "rl:") client_key
      ten_per_second 9 2 refl refl refl (omega arith) (omega arith) 2 noon 100 unused
      (at 100 unused) (omega arith) unused-HasLeft (passes 0 1 unused (omega arith) (omega arith))

-- Three calls at once, and one after a tenth of a second.
abbrev after : ℕ → Served
after zero = unused
after (suc n) = (one_take (at 0 (after n))).1

abbrev four_calls : List (ℕ × Served)
four_calls =
    (0, at 0 (after 0)) ∷ (0, at 0 (after 1)) ∷ (0, at 0 (after 2)) ∷ (100, at 100 (after 3)) ∷ []

count-outcomes_example :
    count (
        outcomes whole whole_exact bucket_server bucket_server_laws
          (codes "rl:")
          client_key
          ten_per_second
          9
          2
          refl
          refl
          refl
          (omega arith)
          (omega arith)
          four_calls)
      * 1000
    ≤ 2 * 1000
      + sum (
          gaps whole whole_exact bucket_server bucket_server_laws
            (codes "rl:")
            client_key
            ten_per_second
            9
            2
            refl
            refl
            refl
            (omega arith)
            (omega arith)
            four_calls)
        * 10
count-outcomes_example =
    count-outcomes whole whole_exact bucket_server bucket_server_laws (codes "rl:") client_key
      ten_per_second 9 2 refl refl refl (omega arith) (omega arith) 2 noon unused four_calls
      (omega arith) unused-HasLeft
      (
        passes 0 0 unused (omega arith) (omega arith),
        (
          passes 0 0 (after 1) (omega arith) (omega arith),
          (
            passes 0 0 (after 2) (omega arith) (omega arith),
            (passes 0 1 (after 3) (omega arith) (omega arith), tt),
          ),
        ),
      )

-- The third call is rejected and told to wait for a tenth of a second.
take_served_example : is_allowed (one_take (at 100 (after 3))).0 ≡ true
unfolding bucket_server_laws take spend text_eq base of_millis
take_served_example =
    take_served whole whole_exact bucket_server bucket_server_laws (codes "rl:") client_key
      ten_per_second 9 2 refl refl refl (omega arith) (omega arith) 0 noon 0 100 (after 2)
      (at 0 (after 2)) (at 100 (after 3)) (omega arith) (omega arith) (inl refl)
      (passes 0 0 (after 2) (omega arith) (omega arith))
      (record { allowed = false; remaining = pos 0; retry_after = pos 100_000_000 }) refl refl
      (passes 0 1 (after 3) (omega arith) (omega arith)) (omega arith)

-- After ten seconds and two tenths.
take-pexpire_example :
    (life : ℕ) × ((v : Served) × ((one_take unused).1
        ≡ bucket_server.pexpire
            (base (codes "rl:") client_key ++ codes ":tb")
            (whole.of_int (pos life))
            v))
    × (available 9 2 1 (life + 7) ≡ 2)
take-pexpire_example =
    take-pexpire whole whole_exact bucket_server (codes "rl:") client_key ten_per_second 9 2 refl
      refl refl (omega arith) (omega arith) unused 1 7
