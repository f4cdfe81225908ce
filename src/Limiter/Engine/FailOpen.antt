-- ===== src/Limiter/Engine/FailOpen.antt =====
-- `Evaluate` of internal/limiter/engine.go over a store that fails, and limiters that do not apply.
use forwardlimit.Common.{
  ◌≡◌, ◌⊎◌, inl, inr, refl, sym, ap, subst, ◌∙◌, Bool, true, false, ◌&&◌, ◌||◌, not, none, some,
  if◌then◌else◌, List, [], ◌∷◌, ◌++◌, append_assoc, append-nil, arith, Bool-cases, Option-cases,
}
use forwardlimit.Common.Text.{Text}
use forwardlimit.Request.{Request}
use forwardlimit.Store.{
  Store, Reply, ok, err, panicked, Key, Rule, Bucket, Result, TakeResult, bucket_valid,
}
use forwardlimit.Limiter.{
  Limiter, active, applies, Keyed, key, skip, panics, Evaluation, Verdict, Decision, no_decision,
}
use forwardlimit.Limiter.Engine.{
  Outcome, from_keyed, bucket_of, from_take, from_consume, Next, go_on, return, judge, apply, visit,
  evaluate_from, evaluate,
}
use forwardlimit.Limiter.Engine.Order.{Next-cases, evaluate_from-go_on}

abbrev pub Fails {ℓ} : {A : Type ℓ} → Reply A → Type 0
Fails (ok a) = ⊥
Fails (err e) = Unit
Fails panicked = Unit

-- Every call of the store returns an error or panics.
pub record IsDown {W : Type 0} (st : Store W) : Type 0 where
  pub consume_fails : (k : Key) (r : Rule) (w : W) → Fails (st.consume k r w).0
  pub take_fails : (k : Key) (b : Bucket) (w : W) → Fails (st.take k b w).0

abbrev pub is_key : Keyed → Bool
is_key (key k) = true
is_key skip = false
is_key panics = false

is_key-none : (k : Keyed) → from_keyed k ≡ none → is_key k ≡ false
is_key-none (key k) h = absurd (ground arith)
is_key-none skip h = refl
is_key-none panics h = refl

is_key-some : (k : Keyed) (b : Text) → from_keyed k ≡ some b → is_key k ≡ true
is_key-some (key k) b h = refl
is_key-some skip b h = absurd (ground arith)
is_key-some panics b h = absurd (ground arith)

-- One failure for each limiter that counts the request: it is enabled, covers the path and the method,
-- and its keyer yields a key. They are in the order of the limiters.
abbrev pub failures : List Limiter → Request → List Evaluation
failures [] req = []
failures (l ∷ ls) req =
    let rest = failures ls req in
    if applies l req.path req.method && active l && is_key (l.keyer req)
    then record { limiter = l.name; verdict = Verdict.failed_open } ∷ rest
    else rest

-- Nothing blocks, and what is recorded is `es`.
pub record IsFailOpen (es : List Evaluation) (d : Decision) : Type 0 where
  pub not_blocked : d.blocked ≡ false
  pub recorded : d.evaluations ≡ es

abbrev FailsOpen : List Evaluation → Next → Type 0
FailsOpen es (go_on d) = IsFailOpen es d
FailsOpen es (return d) = ⊥

judge-FailsOpen :
    (l : Limiter) (r : Reply Outcome) (es : List Evaluation) (d : Decision)
    → Fails r
    → IsFailOpen es d
    → FailsOpen
        (es ++ (record { limiter = l.name; verdict = Verdict.failed_open } ∷ []))
        (judge l r d)
unfolding judge
judge-FailsOpen l (ok res) es d f v = absurd f
judge-FailsOpen l (err e) es d f v = record {
  not_blocked = v.not_blocked;
  recorded = rw v.recorded refl;
}
judge-FailsOpen l panicked es d f v = record {
  not_blocked = v.not_blocked;
  recorded = rw v.recorded refl;
}

abbrev pub PassesOver : Limiter → Request → Type 0
PassesOver l req =
    (applies l req.path req.method ≡ false)
    ⊎ (active l ≡ false)
    ⊎ (l.keyer req ≡ skip)
    ⊎ (l.keyer req ≡ panics)

module _ {W : Type 0} (st : Store W) where
  apply-Fails : (l : Limiter) (b : Text) (w : W) → IsDown st → Fails (apply st l b w).0
  unfolding apply
  apply-Fails l b w h =
      let k : Key = record { limiter = l.name; bucket = b } in
      elim (Bool-cases (bucket_valid l.bucket)) [
        | inl e ↦ rw (e, apply) (taken (st.take k l.bucket w).0 (h.take_fails k l.bucket w))
        | inr e ↦ rw (e, apply) (consumed (st.consume k l.rule w).0 (h.consume_fails k l.rule w))
      ]
    where
      taken : (r : Reply TakeResult) → Fails r → Fails (from_take r)
      taken (ok a) f = f
      taken (err e) f = tt
      taken panicked f = tt

      consumed : (r : Reply Result) → Fails r → Fails (from_consume r)
      consumed (ok a) f = f
      consumed (err e) f = tt
      consumed panicked f = tt

  visit-FailsOpen :
      (l : Limiter) (req : Request) (es : List Evaluation) (d : Decision) (w : W)
      → IsDown st
      → IsFailOpen es d
      → FailsOpen (es ++ failures (l ∷ []) req) (visit st l req d w).0
  unfolding visit
  visit-FailsOpen l req es d w h v =
      elim (Bool-cases (not (applies l req.path req.method) || not (active l))) [
        | inl e ↦
            let out : (applies l req.path req.method && active l && is_key (l.keyer req)) ≡ false =
              ground arith in
            rw (e, visit, out, append-nil es) v
        | inr e ↦ elim (Option-cases (bucket_of l req)) [
          | inl n ↦
              let out : (applies l req.path req.method && active l && is_key (l.keyer req))
                  ≡ false =
                ground (arith, is_key-none (l.keyer req) n) in
              rw (e, n, visit, out, append-nil es) v
          | inr (b, n) ↦
              let counts : (applies l req.path req.method && active l && is_key (l.keyer req))
                  ≡ true =
                ground (arith, is_key-some (l.keyer req) b n) in
              rw (e, n, visit, counts)
                (judge-FailsOpen l (apply st l b w).0 es d (apply-Fails l b w h) v)
        ]
      ]

  failures-cons :
      (l : Limiter) (ls : List Limiter) (req : Request)
      → failures (l ∷ ls) req ≡ failures (l ∷ []) req ++ failures ls req
  failures-cons l ls req =
      elim (Bool-cases (applies l req.path req.method && active l && is_key (l.keyer req))) [
        | inl e ↦ rw e refl
        | inr e ↦ rw e refl
      ]

  evaluate_from-IsFailOpen :
      (ls : List Limiter) (req : Request) (es : List Evaluation) (d : Decision) (w : W)
      → IsDown st
      → IsFailOpen es d
      → IsFailOpen (es ++ failures ls req) (evaluate_from st ls req d w).0
  evaluate_from-IsFailOpen [] req es d w h v = unfold evaluate_from in rw (append-nil es) v
  evaluate_from-IsFailOpen (l ∷ ls) req es d w h v = elim (Next-cases (visit st l req d w).0) [
    | inl (d', e) ↦
        let after = es ++ failures (l ∷ []) req in
        let rest =
          evaluate_from-IsFailOpen ls req after d' (visit st l req d w).1 h
            (rw e at (visit-FailsOpen l req es d w h v)) in
        subst (λ all. IsFailOpen all (evaluate_from st (l ∷ ls) req d w).0)
          (append_assoc es (failures (l ∷ []) req) (failures ls req)
            ∙ ap (λ (fs : List Evaluation). es ++ fs) (sym (failures-cons l ls req)))
          (rw (evaluate_from-go_on st l ls req d d' w e) rest)
    | inr (d', e) ↦ absurd (rw e at (visit-FailsOpen l req es d w h v))
  ]

  pub evaluate-IsFailOpen :
      (ls : List Limiter) (req : Request) (w : W)
      → IsDown st
      → IsFailOpen (failures ls req) (evaluate st ls req w).0
  unfolding evaluate
  evaluate-IsFailOpen ls req w h =
      evaluate_from-IsFailOpen ls req [] no_decision w h
        (record { not_blocked = refl; recorded = refl })

  visit_skip :
      (l : Limiter) (req : Request) (d : Decision) (w : W)
      → PassesOver l req
      → visit st l req d w ≡ (go_on d, w)
  unfolding visit
  visit_skip l req d w (inl e) = rw (e, visit) refl
  visit_skip l req d w (inr (inl e)) = ground arith
  visit_skip l req d w (inr (inr (inl e))) =
      elim (Bool-cases (not (applies l req.path req.method) || not (active l))) [
        | inl h ↦ rw (h, visit) refl
        | inr h ↦ rw (h, e, visit) refl
      ]
  visit_skip l req d w (inr (inr (inr e))) =
      elim (Bool-cases (not (applies l req.path req.method) || not (active l))) [
        | inl h ↦ rw (h, visit) refl
        | inr h ↦ rw (h, e, visit) refl
      ]

  -- A limiter that is out of the request's scope, is disabled, or whose keyer finds no key or panics,
  -- is passed over: the others decide as if it were not there, and the store is not called for it.
  evaluate-skip :
      (l : Limiter) (ls : List Limiter) (req : Request) (w : W)
      → PassesOver l req
      → evaluate st (l ∷ ls) req w ≡ evaluate st ls req w
  unfolding evaluate
  evaluate-skip l ls req w h =
      let same = visit_skip l req no_decision w h in
      evaluate_from-go_on st l ls req no_decision no_decision w (rw same refl) ∙ rw same refl
