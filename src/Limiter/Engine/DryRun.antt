-- ===== src/Limiter/Engine/DryRun.antt =====
-- A dry-run limiter of internal/limiter/engine.go changes nothing that is enforced.
use forwardlimit.Common.{
  ◌≡◌, inl, inr, refl, Bool, true, ◌||◌, not, Option, none, some, List, [], ◌∷◌, if◌then◌else◌,
  Bool-cases, Option-cases,
}
use forwardlimit.Common.Int.{ℤ}
use forwardlimit.Common.Text.{Text}
use forwardlimit.Request.{Request}
use forwardlimit.Store.{Store, Reply, ok, err, panicked}
use forwardlimit.Limiter.{Limiter, active, applies, Decision, no_decision, rejected}
use forwardlimit.Limiter.Engine.{
  Outcome, bucket_of, Next, go_on, return, judge, apply, visit, evaluate_from, evaluate,
}
use forwardlimit.Limiter.Engine.Rejection.{IsOpen}
use forwardlimit.Limiter.Engine.Order.{
  none_yet, IsOpen-rejected, Next-cases, IsOpen-after, evaluate_from-go_on, evaluate_from-return,
}

-- What a rejection says; nothing else of a decision reaches the client.
abbrev pub enforced : Decision → Option (Text × ℤ × ℤ × Bool)
enforced d =
    if rejected d then some (d.limiter, d.count, d.retry_after, d.advise_retry_after) else none

-- Two decisions that lead to the same response.
abbrev pub SameResponse : Decision → Decision → Type 0
SameResponse d e = enforced d ≡ enforced e

abbrev Paired : Next → Next → Type 0
Paired (go_on d) (go_on e) = Unit
Paired (return d) (return e) = SameResponse d e
Paired _ _ = ⊥

judge-Paired :
    (l : Limiter) (r : Reply Outcome) (d e : Decision) → Paired (judge l r d) (judge l r e)
unfolding judge
judge-Paired l (ok res) d e = elim (Bool-cases res.blocked) [
  | inr b ↦ rw (b, judge) tt
  | inl b ↦ elim (Bool-cases l.dry_run) [
    | inl n ↦ rw (b, n, judge) tt
    | inr n ↦ rw (b, n, judge) refl
  ]
]
judge-Paired l (err x) d e = tt
judge-Paired l panicked d e = tt

judge_dry :
    (l : Limiter) (r : Reply Outcome) (d : Decision)
    → l.dry_run ≡ true
    → (d' : Decision) × (judge l r d ≡ go_on d')
unfolding judge
judge_dry l (ok res) d h = elim (Bool-cases res.blocked) [
  | inr b ↦ rw (b, judge) (_, refl)
  | inl b ↦ rw (b, h, judge) (_, refl)
]
judge_dry l (err x) d h = (_, refl)
judge_dry l panicked d h = (_, refl)

module _ {W : Type 0} (st : Store W) where
  -- A round touches the store in the same way whatever was decided before.
  visit-Paired :
      (l : Limiter) (req : Request) (d e : Decision) (w : W)
      → Paired (visit st l req d w).0 (visit st l req e w).0
        × ((visit st l req d w).1 ≡ (visit st l req e w).1)
  unfolding visit
  visit-Paired l req d e w =
      elim (Bool-cases (not (applies l req.path req.method) || not (active l))) [
        | inl h ↦ rw (h, visit) (tt, refl)
        | inr h ↦ elim (Option-cases (bucket_of l req)) [
          | inl n ↦ rw (h, n, visit) (tt, refl)
          | inr (b, n) ↦ rw (h, n, visit) (judge-Paired l (apply st l b w).0 d e, refl)
        ]
      ]

  visit_dry :
      (l : Limiter) (req : Request) (d : Decision) (w : W)
      → l.dry_run ≡ true
      → (d' : Decision) × ((visit st l req d w).0 ≡ go_on d')
  unfolding visit
  visit_dry l req d w r =
      elim (Bool-cases (not (applies l req.path req.method) || not (active l))) [
        | inl h ↦ rw (h, visit) (d, refl)
        | inr h ↦ elim (Option-cases (bucket_of l req)) [
          | inl n ↦ rw (h, n, visit) (d, refl)
          | inr (b, n) ↦ rw (h, n, visit) (judge_dry l (apply st l b w).0 d r)
        ]
      ]

  abbrev SameRun : Decision × W → Decision × W → Type 0
  SameRun r s = SameResponse r.0 s.0 × (r.1 ≡ s.1)

  evaluate_from-SameRun :
      (ls : List Limiter) (req : Request) (d e : Decision) (w : W)
      → IsOpen d
      → IsOpen e
      → SameRun (evaluate_from st ls req d w) (evaluate_from st ls req e w)
  evaluate_from-SameRun [] req d e w v u =
      unfold evaluate_from in (rw (IsOpen-rejected d v, IsOpen-rejected e u) refl, refl)
  evaluate_from-SameRun (l ∷ ls) req d e w v u = elim (Next-cases (visit st l req d w).0) [
    | inl (d', p) ↦ elim (Next-cases (visit st l req e w).0) [
      | inl (e', q) ↦
          rw
            (
              evaluate_from-go_on st l ls req d d' w p,
              evaluate_from-go_on st l ls req e e' w q,
              (visit-Paired l req d e w).1,
            )
            (evaluate_from-SameRun ls req d' e' (visit st l req e w).1
              (IsOpen-after st l req d d' w v p) (IsOpen-after st l req e e' w u q))
      | inr (e', q) ↦ absurd (rw (p, q) at ((visit-Paired l req d e w).0))
    ]
    | inr (d', p) ↦ elim (Next-cases (visit st l req e w).0) [
      | inl (e', q) ↦ absurd (rw (p, q) at ((visit-Paired l req d e w).0))
      | inr (e', q) ↦
          rw (evaluate_from-return st l ls req d d' w p, evaluate_from-return st l ls req e e' w q)
            ((rw (p, q) at ((visit-Paired l req d e w).0)), (visit-Paired l req d e w).1)
    ]
  ]

  -- A dry-run limiter in front of others changes the response to no request: it is the response that
  -- the others give in the state in which the limiter's own store call left the store.
  pub evaluate_dry :
      (l : Limiter) (ls : List Limiter) (req : Request) (w : W)
      → l.dry_run ≡ true
      → let r = evaluate st (l ∷ ls) req w in
        let r' = evaluate st ls req (visit st l req no_decision w).1 in
        (enforced r.0 ≡ enforced r'.0) × (r.1 ≡ r'.1)
  unfolding evaluate
  evaluate_dry l ls req w h =
      let (d', e) = visit_dry l req no_decision w h in
      rw (evaluate_from-go_on st l ls req no_decision d' w e) (
        evaluate_from-SameRun ls req d' no_decision (visit st l req no_decision w).1
          (IsOpen-after st l req no_decision d' w none_yet e) none_yet)
