-- ===== src/Store/Blockcache.antt =====
-- internal/store/blockcache/blockcache.go. The decorated store's world is the cache's fields beside
-- the inner store's world. `context.Context`, the locks and the goroutine are left out: a method is
-- one step, and the sweeper is `sweep`, which the scheduler may call at any time until `Close`.
pub mod Steps
pub mod Entries
pub mod Verdicts
pub mod Expiry
use forwardlimit.Common.{
  ℕ, Bool, true, false, ◌&&◌, not, Option, none, some, List, [], if◌then◌else◌, ltb, length,
}
use forwardlimit.Common.Int.{ℤ, pos, negsuc, leb_ℤ, ltb_ℤ, increment}
use forwardlimit.Common.Text.{Text}
use forwardlimit.Common.Assoc.{is_some, lookup, insert, keep}
use forwardlimit.Store.{
  Store, Clock, Time, Key, key_string, Rule, Result, Reply, ok, err, panicked, Error, add_time,
  sub_time,
}

-- The fields of `Store` but for the mutex; `stopped` stands for the closed channel `stop`, and
-- `sweep_every` for the ticker's period.
pub record Blockcache : Type 0 where
  pub max_len : ℤ
  pub max_ttl : ℤ
  pub sweep_every : ℤ
  pub entries : List (Text × Time)
  pub hits : ℤ
  pub stopped : Bool

-- `New`: a period that is not positive becomes ten seconds.
unfoldable pub new : ℤ → ℤ → ℤ → Blockcache
new max_entries max_ttl sweep_interval = record {
  max_len = max_entries;
  max_ttl = max_ttl;
  sweep_every = if leb_ℤ sweep_interval (pos 0) then pos 10_000_000_000 else sweep_interval;
  entries = [];
  hits = pos 0;
  stopped = false;
}

-- `Len`
abbrev pub len : Blockcache → ℕ
len c = length c.entries

-- The first test of `remember`, which caps the time to live.
unfoldable pub capped : ℤ → ℤ → ℤ
capped max_ttl ttl = if ltb_ℤ (pos 0) max_ttl && ltb_ℤ max_ttl ttl then max_ttl else ttl

-- Its second test: an entry that is there is always refreshed.
unfoldable pub is_full : Text → Blockcache → Bool
is_full k c =
    not (is_some (lookup k c.entries))
    && (ltb_ℤ (pos 0) c.max_len && leb_ℤ c.max_len (pos (length c.entries)))

module _ {W : Type 0} (clock : Clock W) where
  -- `lookup`: the clock is read only if there is an entry.
  unfoldable pub live : Option Time → W → Option Time × W
  live none w = (none, w)
  live (some until) w = let (t, w') = clock.now w in (if ltb t until then some until else none, w')

  unfoldable pub remember : Text → ℤ → Blockcache → W → Blockcache × W
  unfolding is_full capped
  remember k ttl c w =
      let (t, w') = clock.now w in
      if is_full k c
      then (c, w)
      else (record c { entries = insert k (add_time t (capped c.max_ttl ttl)) c.entries }, w')

  -- Blocks only, and only when it is known how long they last.
  unfoldable pub store_verdict : Text → Reply Result → Blockcache → W → Blockcache × W
  unfolding remember
  store_verdict k (ok res) c w =
      let stored = remember k res.retry_after c w in
      if res.blocked && ltb_ℤ (pos 0) res.retry_after then stored else (c, w)
  store_verdict k (err e) c w = (c, w)
  store_verdict k panicked c w = (c, w)

  -- A hit: the clock is read once more for `RetryAfter`.
  unfoldable pub serve : Time → Blockcache → W → Reply Result × (Blockcache × W)
  unfolding increment sub_time
  serve until c w =
      let (t, w') = clock.now w in
      (
        ok (record { blocked = true; count = negsuc 0; retry_after = sub_time until t }),
        (record c { hits = increment c.hits }, w'),
      )

  unfoldable pub consume : Store W → Key → Rule → Blockcache × W → Reply Result × (Blockcache × W)
  unfolding live store_verdict serve lookup
  consume inner key rule (c, w) =
      let k = key_string key in
      let (found, w') = live (lookup k c.entries) w in
      elim found [
        | some until ↦ serve until c w'
        | none ↦ let (res, w'') = inner.consume key rule w' in (res, store_verdict k res c w'')
      ]

  -- `sweep`: the entries whose time has come are deleted.
  unfoldable pub sweep : Blockcache → W → Blockcache × W
  unfolding keep
  sweep c w =
      let (t, w') = clock.now w in
      (record c { entries = keep (λ until. ltb t until) c.entries }, w')

  -- A tick of the loop that `New` starts, which ends once the cache is closed.
  unfoldable pub sweep_round : Blockcache × W → Blockcache × W
  unfolding sweep
  sweep_round (c, w) = if c.stopped then (c, w) else sweep c w

-- `New`, seen through the interface: `Take` delegates, and `Close` stops the sweeper first.
abbrev pub cache_store : {W : Type 0} → Store W → Clock W → Store (Blockcache × W)
cache_store inner clock = record {
  consume = consume clock inner;
  take = λ k b s. let (r, w) = inner.take k b s.1 in (r, (s.0, w));
  close = λ s. let (e, w) = inner.close s.1 in (e, (record (s.0) { stopped = true }, w));
}
