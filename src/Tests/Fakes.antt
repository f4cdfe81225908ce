-- ===== src/Tests/Fakes.antt =====
-- The fake store of internal/store/storetest, alone and beside a server of Redis.
use forwardlimit.Common.{ℕ, ◌≡◌, refl, sym, Bool, true, inr, ◌+◌, arith}
use forwardlimit.Common.Int.{ℤ, pos, increment, wrap}
use forwardlimit.Common.Text.{codes, text_eq}
use forwardlimit.Common.Assoc.{lookup, insert, remove}
use forwardlimit.Store.{Key, key_string, ok}
use forwardlimit.Store.Redis.Consume.{direct, phase_of}
use forwardlimit.Store.Fake.{Fake, new, roll, count_call, decide, consume, take}
use forwardlimit.Store.{sub_time}
use forwardlimit.Store.Fake.Take.{Has, take-agrees}
use forwardlimit.Tests.Buckets.{
  Rounded, whole, whole_exact, bucket_server, bucket_server_laws, ten_per_second, at, unused, noon,
  HasLeft, passes, unused-HasLeft,
}
use forwardlimit.Store.Fake.Refines.{phase_at}
use forwardlimit.Store.Fake.Consume.{time_of, consume-agrees}
use forwardlimit.Tests.{ticking, five_a_minute}
use forwardlimit.Tests.Redis.{
  server, server_laws, client_key, nobody, nobody-IsTidy, nobody-counting,
}

abbrev idle : Fake ℕ ℕ
idle = new ticking

consume-agrees_example :
    let (r, s) = consume client_key five_a_minute (idle, 7) in
    let (q, u) =
      forwardlimit.Store.Redis.consume server direct
        (codes "rl:")
        client_key
        five_a_minute
        nobody in
    (b : Bool) × (n faked real : ℤ) × (r
      ≡ ok (record { blocked = b; count = n; retry_after = faked }))
    × (q ≡ ok (record { blocked = b; count = n; retry_after = real }))
    × (phase_at (key_string client_key) (time_of (idle, 7)) s.0
        ≡ phase_of server server_laws (codes "rl:") client_key u)
unfolding new lookup
consume-agrees_example =
    consume-agrees server server_laws (codes "rl:") client_key five_a_minute idle 7 nobody refl
      (omega arith) refl nobody-IsTidy (sym nobody-counting)

-- The sixth call within a minute is blocked, with the rule's block to wait.
sixth_call :
    let call = λ (s : Fake ℕ ℕ × ℕ). (consume client_key five_a_minute s).1 in
    (consume client_key five_a_minute (call (call (call (call (call (idle, 7))))))).0
    ≡ ok (record { blocked = true; count = pos 6; retry_after = pos 90_000_000_000 })
unfolding consume decide count_call roll new increment wrap lookup insert remove text_eq
sixth_call = refl

-- A fake that is new, and a server of Redis on which nothing is stored.
abbrev empty_fake : Fake Rounded ℕ
empty_fake = new (record { now = λ w. (w, w) })

take-agrees_example :
    let (r, s) = take whole client_key ten_per_second (empty_fake, 2_000_000_000) in
    let (q, y) =
      forwardlimit.Store.Redis.Tokens.take whole bucket_server direct
        (codes "rl:")
        client_key
        ten_per_second
        (at 1000 unused) in
    (b : Bool) × (left : ℕ) × (faked real : ℤ) × (r
      ≡ ok (record { allowed = b; remaining = pos left; retry_after = faked }))
    × (q ≡ ok (record { allowed = b; remaining = pos left; retry_after = real }))
    × Has whole whole_exact client_key ten_per_second 9 2 refl refl
        (omega arith)
        (omega arith)
        left
        2_000_000_000
        s.0
    × HasLeft left (noon + 1000) y
unfolding new lookup sub_time
take-agrees_example =
    take-agrees whole whole_exact bucket_server bucket_server_laws (codes "rl:") client_key
      ten_per_second 9 2 refl refl refl (omega arith) (omega arith) 2 1 noon 1_000_000_000
      empty_fake 2_000_000_000 unused (at 1000 unused) refl (omega arith) (inr (refl, refl))
      (record { passed = refl; short = omega arith; room = omega arith }) unused-HasLeft
      (passes 0 10 unused (omega arith) (omega arith))
