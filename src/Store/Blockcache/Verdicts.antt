-- ===== src/Store/Blockcache/Verdicts.antt =====
-- What the cache of internal/store/blockcache answers.
use forwardlimit.Common.{
  ◌≤◌, ◌<◌, ◌≡◌, refl, true, ◌&&◌, Option, none, some, arith, ◌⊎◌, All, Bool-cases, Option-cases,
  inl, inr,
}
use forwardlimit.Common.Int.{ℤ, pos, negsuc, ltb_ℤ, ◌<ℤ◌}
use forwardlimit.Common.Text.{Text}
use forwardlimit.Common.Assoc.{lookup, lookup-All, insert-All}
use forwardlimit.Store.{
  Store, Clock, Time, Key, key_string, Rule, Result, Reply, ok, err, panicked, add_time, sub_time,
}
use forwardlimit.Store.Blockcache.{
  Blockcache, live, remember, store_verdict, serve, consume, capped, is_full,
}

capped-le-ttl : (t : Time) (m ttl : ℤ) → add_time t (capped m ttl) ≤ add_time t ttl
unfolding capped
capped-le-ttl t m ttl = ground arith

capped-le-max : (t : Time) (m ttl : ℤ) → pos 0 <ℤ m → add_time t (capped m ttl) ≤ add_time t m
unfolding capped
capped-le-max t m ttl h = ground arith

module _ {W : Type 0} (clock : Clock W) (P : Text → Time → Type 0) where
  -- An entry's deadline is at most `ttl`, and at most `MaxTTL`, behind the moment of writing.
  pub remember-All :
      (k : Text) (ttl : ℤ) (c : Blockcache) (w : W)
      → ((u : Time)
          → u ≤ add_time (clock.now w).0 ttl
          → (pos 0 <ℤ c.max_ttl → u ≤ add_time (clock.now w).0 c.max_ttl)
          → P k u)
      → All (λ e. P e.0 e.1) c.entries
      → All (λ e. P e.0 e.1) (remember clock k ttl c w).0.entries
  unfolding remember
  remember-All k ttl c w h a =
      let t = (clock.now w).0 in
      elim (Bool-cases (is_full k c)) [
        | inl e ↦ rw (e, remember) a
        | inr e ↦
            rw (e, remember)
              (insert-All P k (add_time t (capped c.max_ttl ttl)) c.entries
                (h (add_time t (capped c.max_ttl ttl)) (capped-le-ttl t c.max_ttl ttl)
                  (capped-le-max t c.max_ttl ttl))
                a)
      ]

  pub store_verdict-All :
      (k : Text) (r : Reply Result) (c : Blockcache) (w : W)
      → ((res : Result) (u : Time)
          → r ≡ ok res
          → res.blocked ≡ true
          → u ≤ add_time (clock.now w).0 res.retry_after
          → (pos 0 <ℤ c.max_ttl → u ≤ add_time (clock.now w).0 c.max_ttl)
          → P k u)
      → All (λ e. P e.0 e.1) c.entries
      → All (λ e. P e.0 e.1) (store_verdict clock k r c w).0.entries
  unfolding store_verdict
  store_verdict-All k (ok res) c w h a =
      elim (Bool-cases (res.blocked && ltb_ℤ (pos 0) res.retry_after)) [
        | inl e ↦ rw e (remember-All k res.retry_after c w (λ u. h res u refl (ground arith)) a)
        | inr e ↦ rw e a
      ]
  store_verdict-All k (err e) c w h a = a
  store_verdict-All k panicked c w h a = a

module _ {W : Type 0} (clock : Clock W) (inner : Store W) where
  -- What the cache answers, of the inner store's answer `reply` and the entry `found`: a live entry
  -- is a block until its deadline and the store is not asked; else the answer is the store's own.
  pub consume_miss :
      (key : Key) (rule : Rule) (c : Blockcache) (w : W)
      → let asked = live clock (lookup (key_string key) c.entries) w in
        let reply = inner.consume key rule asked.1 in
        asked.0 ≡ none
        → consume clock inner key rule (c, w)
          ≡ (reply.0, store_verdict clock (key_string key) reply.0 c reply.1)
  unfolding consume
  consume_miss key rule c w e = rw (e, consume) refl

  pub consume_hit :
      (key : Key) (rule : Rule) (c : Blockcache) (w : W) (until : Time)
      → let asked = live clock (lookup (key_string key) c.entries) w in
        asked.0 ≡ some until → consume clock inner key rule (c, w) ≡ serve clock until c asked.1
  unfolding consume
  consume_hit key rule c w until e = rw (e, consume) refl

  pub live-some :
      (o : Option Time) (w : W) (until : Time)
      → (live clock o w).0 ≡ some until
      → (o ≡ some until) × ((clock.now w).0 < until)
  unfolding live
  live-some none w until h = cc
  live-some (some u) w until h = ground arith

  module _ (P : Text → Time → Type 0) where
    -- `P k u` says that the bucket `k` is known to be blocked until `u`. The store is believed when
    -- it answers that a bucket is blocked for so long.
    abbrev pub IsBacked : Type 0
    IsBacked =
        (key : Key) (rule : Rule) (w : W) (res : Result) (u : Time)
        → (inner.consume key rule w).0 ≡ ok res
        → res.blocked ≡ true
        → u ≤ add_time (clock.now (inner.consume key rule w).1).0 res.retry_after
        → P (key_string key) u

    abbrev pub Held : Blockcache → Type 0
    Held c = All (λ e. P e.0 e.1) c.entries

    -- A call never makes up a verdict. Where no live entry is found, the store is asked and its own
    -- answer is returned. Otherwise the answer is a block with the count -1, of a bucket that the
    -- store had said to be blocked until a moment that has not come.
    pub consume-backed :
        (key : Key) (rule : Rule) (c : Blockcache) (w : W)
        → IsBacked
        → Held c
        → let asked = live clock (lookup (key_string key) c.entries) w in
          let r = consume clock inner key rule (c, w) in
          Held r.1.0
          × (((asked.0 ≡ none) × (r.0 ≡ (inner.consume key rule asked.1).0))
              ⊎ ((until : Time) × P (key_string key) until
                  × ((clock.now w).0 < until)
                  × (r.0
                      ≡ ok (record {
                        blocked = true;
                        count = negsuc 0;
                        retry_after = sub_time until (clock.now asked.1).0;
                      }))))
    unfolding serve
    consume-backed key rule c w b h =
        let asked = live clock (lookup (key_string key) c.entries) w in
        elim (Option-cases asked.0) [
          | inl e ↦ rw (consume_miss key rule c w e) (
            store_verdict-All clock P (key_string key) (inner.consume key rule asked.1).0 c
                (inner.consume key rule asked.1).1 (λ res u p q r _. b key rule asked.1 res u p q r)
                h,
            inl (e, refl),
          )
          | inr (until, e) ↦
              let l = live-some (lookup (key_string key) c.entries) w until e in
              rw (consume_hit key rule c w until e)
                (h, inr (until, lookup-All P (key_string key) until c.entries h l.0, l.1, refl))
        ]
