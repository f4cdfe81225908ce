-- ===== src/Server/Harmless.antt =====
-- What the stores that `buildStore` of cmd/forwardlimit/main.go chains keep, while none of them rejects.
use forwardlimit.Common.{◌≡◌, refl, Bool, true, false, none, [], inl, inr, Bool-cases, arith}
use forwardlimit.Common.Int.{pos, ltb_ℤ}
use forwardlimit.Common.Text.{Text}
use forwardlimit.Common.Assoc.{lookup, keep}
use forwardlimit.Store.{
  Store, Clock, Key, key_string, Rule, rule_valid, Bucket, bucket_valid, Result, TakeResult, Reply,
  ok, err, panicked, noop,
}
use forwardlimit.Store.Breaker.{Breaker, allow, record_call, settle, guarded}
use forwardlimit.Store.Blockcache.{
  Blockcache, live, store_verdict, sweep_round, consume, cache_store,
}
use forwardlimit.Settings.{BreakerSettings, CacheSettings}
use forwardlimit.Server.Assembly.{Assembled, plain, with_breaker, with_cache}

-- The answer does not reject: it lets the call through, or there is none.
abbrev pub Passes : Reply Result → Type 0
Passes (ok r) = r.blocked ≡ false
Passes (err e) = Unit
Passes panicked = Unit

abbrev pub PassesTake : Reply TakeResult → Type 0
PassesTake (ok r) = r.allowed ≡ true
PassesTake (err e) = Unit
PassesTake panicked = Unit

-- A condition on the world that holds at the start, that every operation keeps, and under which no
-- answer rejects.
pub record IsHarmless {W : Type 0} (a : Assembled W) : Type 1 where
  pub Keeps : a.World → Type 0
  pub starts : (w : W) → Keeps (a.start w)
  pub sweeps : (s : a.World) → Keeps s → Keeps (a.sweep s)
  pub ticks : (s : a.World) → Keeps s → Keeps (a.clock.now s).1
  pub consumes :
      (k : Key) (r : Rule) (s : a.World)
      → Keeps s
      → Passes (a.store.consume k r s).0 × Keeps (a.store.consume k r s).1
  pub takes :
      (k : Key) (b : Bucket) (s : a.World)
      → Keeps s
      → PassesTake (a.store.take k b s).0 × Keeps (a.store.take k b s).1

module _ {W A : Type 0} (clock : Clock W) (Keeps : W → Type 0) (Good : Reply A → Type 0)
    (ticks : (w : W) → Keeps w → Keeps (clock.now w).1)
    (errs : (e : forwardlimit.Store.Error) → Good (err e)) where
  allow-Keeps : (b : Breaker) (w : W) → Keeps w → Keeps (allow clock b w).2
  unfolding allow
  allow-Keeps b w h = let t = ticks w h in ground arith

  record_call-Keeps :
      (success : Bool) (b : Breaker) (w : W) → Keeps w → Keeps (record_call clock success b w).1
  unfolding record_call
  record_call-Keeps success b w h = let t = ticks w h in ground arith

  settle-Keeps :
      (r : Reply A) (w : W) (b : Breaker)
      → Good r
      → Keeps w
      → Good (settle clock (r, w) b).0 × Keeps (settle clock (r, w) b).1.1
  unfolding settle
  settle-Keeps (ok a) w b g h = (g, record_call-Keeps true b w h)
  settle-Keeps (err e) w b g h = (g, record_call-Keeps false b w h)
  settle-Keeps panicked w b g h = (g, h)

  guarded-Keeps :
      (call : W → Reply A × W) (b : Breaker) (w : W)
      → ((u : W) → Keeps u → Good (call u).0 × Keeps (call u).1)
      → Keeps w
      → Good (guarded clock call (b, w)).0 × Keeps (guarded clock call (b, w)).1.1
  unfolding guarded
  guarded-Keeps call b w calls h = elim (Bool-cases (allow clock b w).0) [
    | inl y ↦
        let (good, keeps) = calls (allow clock b w).2 (allow-Keeps b w h) in
        rw (y, guarded) (settle-Keeps (call (allow clock b w).2).0 _ _ good keeps)
    | inr n ↦ rw (n, guarded) (errs _, allow-Keeps b w h)
  ]

module _ {W : Type 0} where
  live-none :
      (clock : Clock W) (k : Text) (c : Blockcache) (w : W)
      → c.entries ≡ []
      → live clock (lookup k c.entries) w ≡ (none, w)
  unfolding live lookup
  live-none clock k c w e = rw e refl

  store_verdict-Passes :
      (clock : Clock W) (k : Text) (r : Reply Result) (c : Blockcache) (w : W)
      → Passes r
      → store_verdict clock k r c w ≡ (c, w)
  unfolding store_verdict
  store_verdict-Passes clock k (ok res) c w e = rw (e, store_verdict) refl
  store_verdict-Passes clock k (err e) c w h = refl
  store_verdict-Passes clock k panicked c w h = refl

  -- A cache that has nothing passes on what the store says.
  consume-Passes :
      (clock : Clock W) (inner : Store W) (k : Key) (r : Rule) (c : Blockcache) (w : W)
      → c.entries ≡ []
      → Passes (inner.consume k r w).0
      → consume clock inner k r (c, w) ≡ ((inner.consume k r w).0, (c, (inner.consume k r w).1))
  unfolding consume
  consume-Passes clock inner k r c w e h =
      rw (live-none clock (key_string k) c w e, consume)
        (rw
          (
            live-none clock (key_string k) c w e,
            store_verdict-Passes clock (key_string k) (inner.consume k r w).0 c
                (inner.consume k r w).1 h,
          )
          refl)

module _ {W : Type 0} where
  pub noop-IsHarmless : (clock : Clock W) → IsHarmless (plain clock noop)
  noop-IsHarmless clock = record {
    Keeps = λ w. Unit;
    starts = λ w. tt;
    sweeps = λ w h. tt;
    ticks = λ w h. tt;
    consumes = λ k r w h. (refl, tt);
    takes = λ k b w h. (refl, tt);
  }

  pub with_breaker-IsHarmless :
      (o : BreakerSettings) (a : Assembled W) → IsHarmless a → IsHarmless (with_breaker o a)
  with_breaker-IsHarmless o a h = elim (Bool-cases (ltb_ℤ (pos 0) o.threshold)) [
    | inr n ↦ rw n h
    | inl y ↦ rw y (record {
      Keeps = λ s. h.Keeps s.1;
      starts = λ w. h.starts w;
      sweeps = λ s k. h.sweeps s.1 k;
      ticks = λ s k. h.ticks s.1 k;
      consumes = λ k r s keeps.
          guarded-Keeps a.clock h.Keeps Passes h.ticks (λ e. tt) (a.store.consume k r) s.0 s.1
            (h.consumes k r) keeps;
      takes = λ k b s keeps.
          guarded-Keeps a.clock h.Keeps PassesTake h.ticks (λ e. tt) (a.store.take k b) s.0 s.1
            (h.takes k b) keeps;
    })
  ]

  -- There is nothing to sweep.
  sweep_round-Keeps :
      (a : Assembled W) (h : IsHarmless a) (s : Blockcache × a.World)
      → (s.0.entries ≡ []) × h.Keeps s.1
      → let t = sweep_round a.clock s in (t.0.entries ≡ []) × h.Keeps t.1
  unfolding sweep_round keep
  sweep_round-Keeps a h s (empty, keeps) = elim (Bool-cases s.0.stopped) [
    | inl y ↦ rw (y, sweep_round) (empty, keeps)
    | inr n ↦ rw (n, sweep_round, empty) (refl, h.ticks s.1 keeps)
  ]

  pub with_cache-IsHarmless :
      (o : CacheSettings) (a : Assembled W) → IsHarmless a → IsHarmless (with_cache o a)
  unfolding forwardlimit.Store.Blockcache.new
  with_cache-IsHarmless o a h = elim (Bool-cases o.enabled) [
    | inr n ↦ rw n h
    | inl y ↦ rw y (record {
      Keeps = λ s. (s.0.entries ≡ []) × h.Keeps s.1;
      starts = λ w. (refl, h.starts w);
      sweeps = λ s k. sweep_round-Keeps a h s k;
      ticks = λ s k. (k.0, h.ticks s.1 k.1);
      consumes = λ k r s keeps.
          let (passes, kept) = h.consumes k r s.1 keeps.1 in
          rw (consume-Passes a.clock a.store k r s.0 s.1 keeps.0 passes) (passes, (keeps.0, kept));
      takes =
          λ k b s keeps. let (passes, kept) = h.takes k b s.1 keeps.1 in (passes, (keeps.0, kept));
    })
  ]
