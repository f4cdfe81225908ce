-- ===== src/Store/Blockcache/Steps.antt =====
-- The critical sections of internal/store/blockcache, in any order.
use forwardlimit.Common.{true, ◌&&◌, arith, Bool-cases, Option-cases, inl, inr}
use forwardlimit.Common.Int.{ℤ, increment, pos, ltb_ℤ, ◌<ℤ◌}
use forwardlimit.Common.Text.{Text}
use forwardlimit.Common.Assoc.{lookup}
use forwardlimit.Store.{Store, Clock, Key, key_string, Rule, Result, Reply, ok, err, panicked}
use forwardlimit.Store.Blockcache.{Blockcache, live, remember, store_verdict, serve, consume, sweep}

module _ {W : Type 0} (clock : Clock W) where
  -- What any interleaving of calls does to the cache, one critical section at a time: a hit counted,
  -- a verdict remembered, a sweep, and `Close`.
  pub data Step (c : Blockcache) : Blockcache → Type 0 where
    hit : Step c (record c { hits = increment c.hits })
    remembers : (k : Text) (ttl : ℤ) (w : W) → pos 0 <ℤ ttl → Step c (remember clock k ttl c w).0
    sweeps : (w : W) → Step c (sweep clock c w).0
    stops : Step c (record c { stopped = true })

  pub data Reach (c : Blockcache) : Blockcache → Type 0 where
    here : Reach c c
    next : {d e : Blockcache} → Reach c d → Step d e → Reach c e

  store_verdict-Reach :
      (k : Text) (r : Reply Result) (c : Blockcache) (w : W)
      → Reach c (store_verdict clock k r c w).0
  unfolding store_verdict
  store_verdict-Reach k (ok res) c w =
      elim (Bool-cases (res.blocked && ltb_ℤ (pos 0) res.retry_after)) [
        | inl e ↦ rw e (next here (remembers k res.retry_after w (ground arith)))
        | inr e ↦ rw e here
      ]
  store_verdict-Reach k (err e) c w = here
  store_verdict-Reach k panicked c w = here

  -- A call of `Consume`, whatever the store answers, does to the cache what a sequence of the critical
  -- sections of `Step` does.
  consume-Reach :
      (inner : Store W) (key : Key) (rule : Rule) (c : Blockcache) (w : W)
      → Reach c (consume clock inner key rule (c, w)).1.0
  unfolding consume serve
  consume-Reach inner key rule c w =
      let reply = inner.consume key rule (live clock (lookup (key_string key) c.entries) w).1 in
      elim (Option-cases (live clock (lookup (key_string key) c.entries) w).0) [
        | inl e ↦ rw (e, consume) (store_verdict-Reach (key_string key) reply.0 c reply.1)
        | inr (until, e) ↦ rw (e, consume) (next here hit)
      ]
