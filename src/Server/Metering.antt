-- ===== src/Server/Metering.antt =====
-- Stores of cmd/forwardlimit/main.go that let exactly the first calls for each bucket of a limiter through.
pub mod Cached
use forwardlimit.Common.{
  ℕ, suc, ◌-◌, ◌<◌, ◌≡◌, ◌∙◌, refl, sym, subst, ap, Bool, true, false, ◌++◌, [], ◌∷◌, if◌then◌else◌,
  inl, inr, Bool-cases, Bool-ext, leb, arith,
}
use forwardlimit.Common.Int.{ℤ, pos, ◌<ℤ◌, two_63}
use forwardlimit.Common.Text.{Text, text_eq, text_eq→eq, eq→text_eq}
use forwardlimit.Store.{
  Store, Clock, Key, Rule, rule_valid, Result, Reply, ok, err, panicked, sanitize_bucket,
}
use forwardlimit.Store.Window.{step, counting}
use forwardlimit.Store.Window.Admission.{phase_after, step-phase_after}
use forwardlimit.Store.Breaker.{
  Breaker, breaker_store, is_open, allow, record_call, settle, guarded,
}
use forwardlimit.Store.Redis.{Commands, base, append_cancel, drop_last}
use forwardlimit.Store.Redis.Laws.{Laws}
use forwardlimit.Store.Redis.Consume.{
  direct, phase_of, IsTidyFor, counter_key, marker_key, consume-step,
}
use forwardlimit.Store.Redis.Isolation.{consume-same, consume-apart}
use forwardlimit.Server.Assembly.{beside}

-- The store does not tell buckets apart that differ in braces alone.
abbrev pub same_bucket : Text → Text → Bool
same_bucket x b = text_eq (sanitize_bucket x) (sanitize_bucket b)

-- One more call for the bucket `b`.
abbrev pub bump : Text → (Text → ℕ) → Text → ℕ
bump b count x = if same_bucket x b then suc (count x) else count x

-- `At count w`: `count x` calls for each bucket `x` in play were made to come to `w`. The next for such a
-- bucket is blocked if and only if the limit is at most their number, and the clock does not count.
pub record Meters {W : Type 0} (st : Store W) (clock : Clock W) (name : Text) (rule : Rule)
    (limit : ℕ) (InPlay : Text → Type 0) : Type 1 where
  pub At : (Text → ℕ) → W → Type 0
  pub ticks : (count : Text → ℕ) (w : W) → At count w → At count (clock.now w).1
  pub consumes :
      (b : Text) (count : Text → ℕ) (w : W)
      → InPlay b
      → At count w
      → let r = st.consume (record { limiter = name; bucket = b }) rule w in
        ((res : Result) × (res.blocked ≡ leb limit (count b)) × (r.0 ≡ ok res))
        × At (bump b count) r.1

module _ (prefix name : Text) where
  same_base :
      (x b : Text)
      → base prefix (record { limiter = name; bucket = x })
        ≡ base prefix (record { limiter = name; bucket = b })
      → sanitize_bucket x ≡ sanitize_bucket b
  unfolding base
  same_base x b e =
      let tails = append_cancel name _ _ (append_cancel prefix _ _ e) in
      drop_last (sanitize_bucket x) (sanitize_bucket b) b'}' (ground arith)

  is_same-same_bucket :
      (x b : Text)
      → text_eq
          (base prefix (record { limiter = name; bucket = x }))
          (base prefix (record { limiter = name; bucket = b }))
        ≡ same_bucket x b
  unfolding base
  is_same-same_bucket x b =
      Bool-ext _ _ (λ e. eq→text_eq _ _ (same_base x b (text_eq→eq _ _ e)))
        (λ e.
          eq→text_eq _ _
            (ap (λ s. prefix ++ (name ++ (b':' ∷ b'{' ∷ s ++ (b'}' ∷ [])))) (text_eq→eq _ _ e)))

module _ {W : Type 0} (clock : Clock W) (name : Text) (rule : Rule) (limit : ℕ)
    (InPlay : Text → Type 0) where
  abbrev key_in : Text → Key
  key_in b = record { limiter = name; bucket = b }

  module _ (redis : Commands W) (laws : Laws redis) (prefix : Text) (valid : rule_valid rule ≡ true)
      (limit_is : rule.limit ≡ pos limit) (fits : limit < two_63 - 1) where
    abbrev pub Counted : (Text → ℕ) → W → Type 0
    Counted count w =
        (x : Text)
        → InPlay x
        → (phase_of redis laws prefix (key_in x) w ≡ phase_after limit (count x))
          × IsTidyFor redis laws prefix (key_in x) w

    -- A call of the specification where the phase is known.
    step-known :
        (p : forwardlimit.Store.Window.Phase) (n : ℕ)
        → p ≡ phase_after limit n
        → ((step rule.limit p).rejected ≡ leb limit n)
          × ((step rule.limit p).next ≡ phase_after limit (suc n))
    step-known p n e =
        let same : step rule.limit p ≡ step (pos limit) (phase_after limit n) =
          ap (step rule.limit) e ∙ ap (λ m. step m (phase_after limit n)) limit_is in
        let (rejects, next) = step-phase_after limit n fits in
        (ap (λ x. x.rejected) same ∙ rejects, ap (λ x. x.next) same ∙ next)

    bumped :
        (b : Text) (count : Text → ℕ) (w : W)
        → InPlay b
        → Counted count w
        → Counted
            (bump b count)
            (forwardlimit.Store.Redis.consume redis direct prefix (key_in b) rule w).1
    bumped b count w plays known x plays' =
        let below : rule.limit <ℤ pos (two_63 - 1) = rw limit_is (omega arith) in
        let same = is_same-same_bucket prefix name x b in
        elim (Bool-cases (same_bucket x b)) [
          | inl y ↦
              let (moved, kept) =
                consume-same redis laws prefix (key_in x) (key_in b) rule w valid below (same ∙ y)
                  (known b plays).1 in
              rw y (moved ∙ (step-known _ (count x) (known x plays').0).1, kept)
          | inr n ↦
              let (still, kept) =
                consume-apart redis laws prefix (key_in x) (key_in b) rule w valid (same ∙ n)
                  (known b plays).1 (known x plays').1 in
              rw n (still ∙ (known x plays').0, kept)
        ]

    Counted-consume :
        (b : Text) (count : Text → ℕ) (w : W)
        → InPlay b
        → Counted count w
        → let r = forwardlimit.Store.Redis.consume redis direct prefix (key_in b) rule w in
          ((res : Result) × (res.blocked ≡ leb limit (count b)) × (r.0 ≡ ok res))
          × Counted (bump b count) r.1
    Counted-consume b count w plays known =
        let below : rule.limit <ℤ pos (two_63 - 1) = rw limit_is (omega arith) in
        let (said, moved, kept) =
          consume-step redis laws prefix (key_in b) rule w valid below (known b plays).1 in
        ((_, (step-known _ (count b) (known b plays).0).0, said), bumped b count w plays known)

    -- Redis, as long as reading the clock of the process does not change its keys.
    pub redis-Meters :
        (st : Store W)
        → st.consume ≡ forwardlimit.Store.Redis.consume redis direct prefix
        → ((j : Text) (w : W) → laws.value j (clock.now w).1 ≡ laws.value j w)
        → ((j : Text) (w : W) → laws.left j (clock.now w).1 ≡ laws.left j w)
        → (a : Meters st clock name rule limit InPlay) × ((count : Text → ℕ) (w : W)
            → Counted count w
            → a.At count w)
    redis-Meters st reaches values lefts = (
      record {
        At = Counted;
        ticks = λ count w h x plays. (
          rw
              (
                values (counter_key redis laws prefix (key_in x)) w,
                lefts (marker_key redis laws prefix (key_in x)) w,
              )
              (h x plays).0,
          record {
            timed =
                rw
                  (
                    values (counter_key redis laws prefix (key_in x)) w,
                    lefts (counter_key redis laws prefix (key_in x)) w,
                  )
                  (h x plays).1.timed;
            fits = rw (values (counter_key redis laws prefix (key_in x)) w) (h x plays).1.fits;
          },
        );
        consumes = λ b count w plays h.
            subst
              (λ f.
                let r = f (key_in b) rule w in
                ((res : Result) × (res.blocked ≡ leb limit (count b)) × (r.0 ≡ ok res))
                × Counted (bump b count) r.1)
              (sym reaches) (Counted-consume b count w plays h);
      },
      λ count w h. h,
    )

  allow-closed : (b : Breaker) (w : W) → is_open b ≡ false → allow clock b w ≡ (true, b, w)
  unfolding allow
  allow-closed b w h = ground arith

  settle-closed :
      (b : Breaker) (r : Reply Result) (w : W) (res : Result)
      → is_open b ≡ false
      → r ≡ ok res
      → let (q, s) = settle clock (r, w) b in (q ≡ ok res) × (is_open s.0 ≡ false) × (s.1 ≡ w)
  unfolding settle record_call
  settle-closed b r w res h e = rw (e, settle) (ground arith)

  -- A closed breaker passes every call on, and stays closed while the store answers.
  pub breaker-Meters :
      (st : Store W) (a : Meters st clock name rule limit InPlay)
      → (ad : Meters (breaker_store st clock) (beside clock) name rule limit InPlay)
        × ((count : Text → ℕ) (b : Breaker) (w : W)
            → is_open b ≡ false
            → a.At count w
            → ad.At count (b, w))
  unfolding guarded
  breaker-Meters st a = (
    record {
      At = λ count s. (is_open s.0 ≡ false) × a.At count s.1;
      ticks = λ count s h. (h.0, a.ticks count s.1 h.1);
      consumes = λ b count s plays h.
          let ((res, blocks, e), next) = a.consumes b count s.1 plays h.1 in
          let r = st.consume (key_in b) rule s.1 in
          let (said, shut, same) = settle-closed s.0 r.0 r.1 res h.0 e in
          rw (allow-closed s.0 s.1 h.0, guarded) ((res, blocks, said), (shut, rw same next));
    },
    λ count b w h at. (h, at),
  )
