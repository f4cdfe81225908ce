-- ===== src/Server/Through.antt =====
-- `Evaluate` of internal/limiter/engine.go over a store that does not reject.
use forwardlimit.Common.{
  ◌≡◌, refl, false, ◌||◌, not, List, [], ◌∷◌, inl, inr, Bool-cases, Option-cases,
}
use forwardlimit.Common.Text.{Text}
use forwardlimit.Request.{Request}
use forwardlimit.Store.{Reply, ok, err, panicked, Key, Result, TakeResult, bucket_valid}
use forwardlimit.Limiter.{Limiter, active, applies, Decision, no_decision}
use forwardlimit.Limiter.Engine.{
  Outcome, bucket_of, from_take, from_consume, Next, go_on, return, judge, apply, visit,
  evaluate_from, evaluate,
}
use forwardlimit.Limiter.Engine.Order.{Next-cases, evaluate_from-go_on}
use forwardlimit.Server.Assembly.{Assembled}
use forwardlimit.Server.Harmless.{Passes, PassesTake, IsHarmless}

abbrev PassesOn : Reply Outcome → Type 0
PassesOn (ok o) = o.blocked ≡ false
PassesOn (err e) = Unit
PassesOn panicked = Unit

from_take-PassesOn : (r : Reply TakeResult) → PassesTake r → PassesOn (from_take r)
from_take-PassesOn (ok res) e = rw e refl
from_take-PassesOn (err e) h = tt
from_take-PassesOn panicked h = tt

from_consume-PassesOn : (r : Reply Result) → Passes r → PassesOn (from_consume r)
from_consume-PassesOn (ok res) e = e
from_consume-PassesOn (err e) h = tt
from_consume-PassesOn panicked h = tt

-- The loop goes on, and nothing has been blocked.
abbrev GoesOn : Next → Type 0
GoesOn (go_on d) = d.blocked ≡ false
GoesOn (return d) = ⊥

judge-GoesOn :
    (l : Limiter) (r : Reply Outcome) (d : Decision)
    → PassesOn r
    → d.blocked ≡ false
    → GoesOn (judge l r d)
unfolding judge
judge-GoesOn l (ok o) d h e = rw (h, judge) e
judge-GoesOn l (err x) d h e = e
judge-GoesOn l panicked d h e = e

module _ {W : Type 0} (a : Assembled W) (h : IsHarmless a) where
  apply-PassesOn :
      (l : Limiter) (b : Text) (s : a.World)
      → h.Keeps s
      → PassesOn (apply a.store l b s).0 × h.Keeps (apply a.store l b s).1
  unfolding apply
  apply-PassesOn l b s keeps =
      let k : Key = record { limiter = l.name; bucket = b } in
      elim (Bool-cases (bucket_valid l.bucket)) [
        | inl e ↦
            let (passes, kept) = h.takes k l.bucket s keeps in
            rw (e, apply) (from_take-PassesOn _ passes, kept)
        | inr e ↦
            let (passes, kept) = h.consumes k l.rule s keeps in
            rw (e, apply) (from_consume-PassesOn _ passes, kept)
      ]

  visit-GoesOn :
      (l : Limiter) (req : Request) (d : Decision) (s : a.World)
      → h.Keeps s
      → d.blocked ≡ false
      → GoesOn (visit a.store l req d s).0 × h.Keeps (visit a.store l req d s).1
  unfolding visit
  visit-GoesOn l req d s keeps e =
      elim (Bool-cases (not (applies l req.path req.method) || not (active l))) [
        | inl y ↦ rw (y, visit) (e, keeps)
        | inr n ↦ elim (Option-cases (bucket_of l req)) [
          | inl none_there ↦ rw (n, none_there, visit) (e, keeps)
          | inr (b, there) ↦
              let (passes, kept) = apply-PassesOn l b s keeps in
              rw (n, there, visit) (judge-GoesOn l (apply a.store l b s).0 d passes e, kept)
        ]
      ]

  evaluate_from-passes :
      (ls : List Limiter) (req : Request) (d : Decision) (s : a.World)
      → h.Keeps s
      → d.blocked ≡ false
      → ((evaluate_from a.store ls req d s).0.blocked ≡ false)
        × h.Keeps (evaluate_from a.store ls req d s).1
  evaluate_from-passes [] req d s keeps e = unfold evaluate_from in (e, keeps)
  evaluate_from-passes (l ∷ ls) req d s keeps e =
      let (on, kept) = visit-GoesOn l req d s keeps e in
      elim (Next-cases (visit a.store l req d s).0) [
        | inl (d', g) ↦
            rw (evaluate_from-go_on a.store l ls req d d' s g)
              (evaluate_from-passes ls req d' (visit a.store l req d s).1 kept (rw g at on))
        | inr (d', g) ↦ absurd (rw g at on)
      ]

  pub evaluate-passes :
      (ls : List Limiter) (req : Request) (s : a.World)
      → h.Keeps s
      → ((evaluate a.store ls req s).0.blocked ≡ false) × h.Keeps (evaluate a.store ls req s).1
  unfolding evaluate
  evaluate-passes ls req s keeps = evaluate_from-passes ls req no_decision s keeps refl
