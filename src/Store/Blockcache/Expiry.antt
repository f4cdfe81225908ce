-- ===== src/Store/Blockcache/Expiry.antt =====
-- For how long the cache of internal/store/blockcache trusts an entry, and what a sweep removes.
use forwardlimit.Common.{
  ◌≤◌, ◌<◌, ◌≡◌, refl, Option, none, some, List, [], ◌∷◌, arith, ltb, ltb→lt, All, All-map,
  Bool-cases, Option-cases, inl, inr,
}
use forwardlimit.Common.Int.{ℤ, pos, ◌<ℤ◌}
use forwardlimit.Common.Text.{Text}
use forwardlimit.Common.Assoc.{lookup, keep, lookup-keep, keep_option}
use forwardlimit.Store.{
  Store, Clock, Time, Key, key_string, Rule, Result, Reply, ok, err, panicked, add_time,
}
use forwardlimit.Store.Blockcache.Entries.{IsBounded}
use forwardlimit.Store.Blockcache.Verdicts.{store_verdict-All, consume_miss, consume_hit}
use forwardlimit.Store.Blockcache.{Blockcache, live, remember, store_verdict, serve, consume, sweep}

-- The reading that the clock would give next.
abbrev pub reading : {W : Type 0} → Clock W → W → Time
reading clock w = (clock.now w).0

-- The clock never runs back: Go's readings are monotonic.
abbrev pub IsMonotone : {W : Type 0} → Clock W → Type 0
IsMonotone {W} clock = (w : W) → reading clock w ≤ reading clock (clock.now w).1

-- Every deadline lies at most `m` behind the moment `t`.
abbrev pub ExpiresBy : Time → Blockcache → Type 0
ExpiresBy bound c = All (λ e. e.1 ≤ bound) c.entries

ExpiresBy-mono :
    {s t : Time} (m : List (Text × Time)) → s ≤ t → All (λ e. e.1 ≤ s) m → All (λ e. e.1 ≤ t) m
ExpiresBy-mono {s} {t} m h a =
    All-map (λ (e : Text × Time). e.1 ≤ s) (λ e. e.1 ≤ t) m (λ e q. omega arith) a

module _ {W : Type 0} (clock : Clock W) (mono : IsMonotone clock) where
  live-reading : (o : Option Time) (w : W) → reading clock w ≤ reading clock (live clock o w).1
  unfolding live
  live-reading none w = omega arith
  live-reading (some u) w = mono w

  store_verdict-reading :
      (k : Text) (r : Reply Result) (c : Blockcache) (w : W)
      → reading clock w ≤ reading clock (store_verdict clock k r c w).1
  unfolding store_verdict remember
  store_verdict-reading k (ok res) c w = ground (arith, mono w)
  store_verdict-reading k (err e) c w = omega arith
  store_verdict-reading k panicked c w = omega arith

  store_verdict-max_ttl :
      (k : Text) (r : Reply Result) (c : Blockcache) (w : W)
      → (store_verdict clock k r c w).0.max_ttl ≡ c.max_ttl
  unfolding store_verdict remember
  store_verdict-max_ttl k (ok res) c w = ground arith
  store_verdict-max_ttl k (err e) c w = refl
  store_verdict-max_ttl k panicked c w = refl

  add_time_mono : (s t : Time) (d : ℤ) → s ≤ t → add_time s d ≤ add_time t d
  add_time_mono s t d h = ground arith

  store_verdict-ExpiresBy :
      (k : Text) (r : Reply Result) (c : Blockcache) (w : W)
      → pos 0 <ℤ c.max_ttl
      → ExpiresBy (add_time (reading clock w) c.max_ttl) c
      → ExpiresBy (add_time (reading clock w) c.max_ttl) (store_verdict clock k r c w).0
  store_verdict-ExpiresBy k r c w h a =
      store_verdict-All clock (λ _ u. u ≤ add_time (reading clock w) c.max_ttl) k r c w
        (λ _ u _ _ _ q. q h) a

  -- With a positive `MaxTTL`, a call keeps it so that every entry runs out within `MaxTTL` of the present
  -- moment, however long the store's block is, over any store whose calls do not turn the clock back. So
  -- a manual unblock takes effect within `MaxTTL`. Without a positive `MaxTTL` nothing is cut.
  pub consume-ExpiresBy :
      (inner : Store W) (key : Key) (rule : Rule) (c : Blockcache) (w : W)
      → ((v : W) → reading clock v ≤ reading clock (inner.consume key rule v).1)
      → pos 0 <ℤ c.max_ttl
      → ExpiresBy (add_time (reading clock w) c.max_ttl) c
      → let (r, (c', w')) = consume clock inner key rule (c, w) in
        (c'.max_ttl ≡ c.max_ttl) × ExpiresBy (add_time (reading clock w') c'.max_ttl) c'
  unfolding serve
  consume-ExpiresBy inner key rule c w later h a =
      let k = key_string key in
      let asked = live clock (lookup k c.entries) w in
      let reply = inner.consume key rule asked.1 in
      let first = live-reading (lookup k c.entries) w in
      let second = later asked.1 in
      elim (Option-cases asked.0) [
        | inl e ↦
            let after = store_verdict clock k reply.0 c reply.1 in
            let same = store_verdict-max_ttl k reply.0 c reply.1 in
            let third = store_verdict-reading k reply.0 c reply.1 in
            rw (consume_miss clock inner key rule c w e) (
              same,
              rw same (
                  ExpiresBy-mono after.0.entries
                    (add_time_mono (reading clock reply.1) (reading clock after.1) c.max_ttl third)
                    (store_verdict-ExpiresBy k reply.0 c reply.1 h (
                      ExpiresBy-mono c.entries
                        (add_time_mono (reading clock w) (reading clock reply.1) c.max_ttl
                          (omega arith))
                        a))),
            )
        | inr (until, e) ↦ rw (consume_hit clock inner key rule c w until e) (
          refl,
          ExpiresBy-mono c.entries
              (add_time_mono (reading clock w) (reading clock (clock.now asked.1).1) c.max_ttl
                (omega (arith, mono asked.1)))
              a,
        )
      ]

live_later :
    {W : Type 0} (clock : Clock W) (t : Time) (o : Option Time) (v : W)
    → t ≤ reading clock v
    → (live clock (keep_option (λ until. ltb t until) o) v).0 ≡ (live clock o v).0
unfolding live
live_later clock t none v h = refl
live_later clock t (some u) v h = ground arith

keep_late : (t : Time) (m : List (Text × Time)) → All (λ e. t < e.1) (keep (λ until. ltb t until) m)
unfolding keep
keep_late t [] = tt
keep_late t ((j, u) ∷ m) = elim (Bool-cases (ltb t u)) [
  | inl e ↦ rw e (ltb→lt t u e, keep_late t m)
  | inr e ↦ rw e (keep_late t m)
]

-- A sweep is invisible: at any later reading each bucket has the verdict that it would have had
-- without it. It leaves no entry whose time has come.
live-sweep :
    {W : Type 0} (clock : Clock W) (k : Text) (c : Blockcache) (w v : W)
    → IsBounded c
    → reading clock w ≤ reading clock v
    → let swept = (sweep clock c w).0 in
      ((live clock (lookup k swept.entries) v).0 ≡ (live clock (lookup k c.entries) v).0)
      × All (λ e. reading clock w < e.1) swept.entries
unfolding sweep
live-sweep clock k c w v b h = (
  rw (lookup-keep (λ until. ltb (reading clock w) until) k c.entries b.distinct)
      (live_later clock (reading clock w) (lookup k c.entries) v h),
  keep_late (reading clock w) c.entries,
)
