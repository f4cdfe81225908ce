-- ===== src/Limiter/Engine/Order.antt =====
-- The order in which `Evaluate` of internal/limiter/engine.go consults limiters, and the store.
use forwardlimit.Common.{
  ◌≡◌, ◌⊎◌, inl, inr, refl, true, false, List, [], ◌∷◌, ◌++◌, if◌then◌else◌, arith,
}
use forwardlimit.Request.{Request}
use forwardlimit.Store.{Store}
use forwardlimit.Limiter.{Limiter, Decision, no_decision, rejected}
use forwardlimit.Limiter.Engine.{Next, go_on, return, visit, evaluate_from, evaluate}
use forwardlimit.Limiter.Engine.Rejection.{IsOpen, IsRejection, visit-Judged}

pub none_yet : IsOpen no_decision
none_yet = record { none_blocked = refl; dry_blocked = refl; blocked_dry = refl }

pub IsOpen-rejected : (d : Decision) → IsOpen d → rejected d ≡ false
IsOpen-rejected d v = ground (arith, v.blocked_dry)

pub IsRejection-rejected : (d : Decision) → IsRejection d → rejected d ≡ true
IsRejection-rejected d v = ground (arith, v.blocked, v.enforced)

pub Next-cases : (n : Next) → ((d : Decision) × (n ≡ go_on d)) ⊎ ((d : Decision) × (n ≡ return d))
Next-cases (go_on d) = inl (d, refl)
Next-cases (return d) = inr (d, refl)

module _ {W : Type 0} (st : Store W) where
  pub evaluate_from-go_on :
      (l : Limiter) (ls : List Limiter) (req : Request) (d d' : Decision) (w : W)
      → (visit st l req d w).0 ≡ go_on d'
      → evaluate_from st (l ∷ ls) req d w ≡ evaluate_from st ls req d' (visit st l req d w).1
  unfolding evaluate_from
  evaluate_from-go_on l ls req d d' w e = rw (e, evaluate_from) refl

  pub evaluate_from-return :
      (l : Limiter) (ls : List Limiter) (req : Request) (d d' : Decision) (w : W)
      → (visit st l req d w).0 ≡ return d'
      → evaluate_from st (l ∷ ls) req d w ≡ (d', (visit st l req d w).1)
  unfolding evaluate_from
  evaluate_from-return l ls req d d' w e = rw (e, evaluate_from) refl

  -- Where the loop goes on, after a round, from an open decision.
  pub IsOpen-after :
      (l : Limiter) (req : Request) (d d' : Decision) (w : W)
      → IsOpen d
      → (visit st l req d w).0 ≡ go_on d'
      → IsOpen d'
  IsOpen-after l req d d' w v e = rw e at (visit-Judged st l req d w v)

  pub IsRejection-after :
      (l : Limiter) (req : Request) (d d' : Decision) (w : W)
      → IsOpen d
      → (visit st l req d w).0 ≡ return d'
      → IsRejection d'
  IsRejection-after l req d d' w v e = rw e at (visit-Judged st l req d w v)

  evaluate_from-append :
      (ls more : List Limiter) (req : Request) (d : Decision) (w : W)
      → IsOpen d
      → evaluate_from st (ls ++ more) req d w ≡ (
          let (d', w') = evaluate_from st ls req d w in
          if rejected d' then (d', w') else evaluate_from st more req d' w')
  evaluate_from-append [] more req d w v = unfold evaluate_from in rw (IsOpen-rejected d v) refl
  evaluate_from-append (l ∷ ls) more req d w v =
      let w' = (visit st l req d w).1 in
      elim (Next-cases (visit st l req d w).0) [
        | inl (d', e) ↦
            rw
              (
                evaluate_from-go_on l (ls ++ more) req d d' w e,
                evaluate_from-go_on l ls req d d' w e,
              )
              (evaluate_from-append ls more req d' w' (IsOpen-after l req d d' w v e))
        | inr (d', e) ↦
            rw
              (
                evaluate_from-return l (ls ++ more) req d d' w e,
                evaluate_from-return l ls req d d' w e,
                IsRejection-rejected d' (IsRejection-after l req d d' w v e),
              )
              refl
      ]

  -- The first limiter to reject decides: those behind it change neither the decision nor the store.
  -- Where none of the first limiters rejects, the others are consulted in the state that these left.
  pub evaluate-append :
      (ls more : List Limiter) (req : Request) (w : W)
      → let (d, w') = evaluate st ls req w in
        evaluate st (ls ++ more) req w
        ≡ (if rejected d then (d, w') else evaluate_from st more req d w')
  unfolding evaluate
  evaluate-append ls more req w = evaluate_from-append ls more req no_decision w none_yet
