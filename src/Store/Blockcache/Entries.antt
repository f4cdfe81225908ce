-- ===== src/Store/Blockcache/Entries.antt =====
-- What the cache of internal/store/blockcache holds: its size, and how long an entry is trusted.
use forwardlimit.Common.{Bool, List, [], ◌∷◌, arith, ltb, ◌⊎◌}
use forwardlimit.Common.Int.{ℤ, pos, ◌≤ℤ◌}
use forwardlimit.Common.Text.{Text}
use forwardlimit.Common.Assoc.{
  keep, Distinct, length-insert, insert-Distinct, lookup-keep, length-keep,
}
use forwardlimit.Store.{Clock, Time, add_time}
use forwardlimit.Store.Blockcache.Steps.{Step, hit, remembers, sweeps, stops, Reach, here, next}
use forwardlimit.Store.Blockcache.{Blockcache, len, remember, sweep, new, capped}

-- The map has each key once, and a bounded cache has at most `max_len` entries.
pub record IsBounded (c : Blockcache) : Type 0 where
  pub distinct : Distinct c.entries
  pub bounded : (c.max_len ≤ℤ pos 0) ⊎ (pos (len c) ≤ℤ c.max_len)

empty_bounded : (m : ℤ) → (m ≤ℤ pos 0) ⊎ (pos 0 ≤ℤ m)
empty_bounded m = omega arith

pub new-IsBounded : (m t s : ℤ) → IsBounded (new m t s)
unfolding new
new-IsBounded m t s = record { distinct = tt; bounded = empty_bounded m }

module _ {W : Type 0} (clock : Clock W) where
  remember-IsBounded :
      (k : Text) (ttl : ℤ) (c : Blockcache) (w : W)
      → IsBounded c
      → IsBounded (remember clock k ttl c w).0
  unfolding remember
  remember-IsBounded k ttl c w v =
      let u = add_time (clock.now w).0 (capped c.max_ttl ttl) in
      ground (arith, insert-Distinct k u c.entries v.distinct, length-insert k u c.entries)

  keep-Distinct : (p : Time → Bool) (m : List (Text × Time)) → Distinct m → Distinct (keep p m)
  unfolding keep
  keep-Distinct p [] d = tt
  keep-Distinct p ((k, u) ∷ m) d = ground (arith, keep-Distinct p m d.1, lookup-keep p k m d.1)

  sweep-IsBounded : (c : Blockcache) (w : W) → IsBounded c → IsBounded (sweep clock c w).0
  unfolding sweep
  sweep-IsBounded c w v =
      let after = λ (until : Time). ltb (clock.now w).0 until in
      record {
        distinct = keep-Distinct after c.entries v.distinct;
        bounded = omega (arith, v.bounded, length-keep after c.entries);
      }

  Step-IsBounded : {c d : Blockcache} → Step clock c d → IsBounded c → IsBounded d
  Step-IsBounded hit v = record { distinct = v.distinct; bounded = v.bounded }
  Step-IsBounded {c} (remembers k ttl w h) v = remember-IsBounded k ttl c w v
  Step-IsBounded {c} (sweeps w) v = sweep-IsBounded c w v
  Step-IsBounded stops v = record { distinct = v.distinct; bounded = v.bounded }

  -- However calls, sweeps and `Close` interleave, a cache with `MaxEntries` positive never holds more
  -- than `MaxEntries` entries, and none twice.
  pub Reach-IsBounded : {c d : Blockcache} → IsBounded c → Reach clock c d → IsBounded d
  Reach-IsBounded v here = v
  Reach-IsBounded v (next r s) = Step-IsBounded s (Reach-IsBounded v r)
