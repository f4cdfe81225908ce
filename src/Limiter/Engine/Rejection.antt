-- ===== src/Limiter/Engine/Rejection.antt =====
-- When `Evaluate` of internal/limiter/engine.go rejects, and what the decision says then.
use forwardlimit.Common.{
  ◌≡◌, ◌⊎◌, inl, inr, refl, ◌∙◌, Bool, true, false, ◌||◌, not, List, [], ◌∷◌, ◌++◌, any, arith,
  Bool-cases, Option-cases,
}
use forwardlimit.Request.{Request}
use forwardlimit.Store.{Store, Reply, ok, err, panicked}
use forwardlimit.Limiter.{
  Limiter, active, applies, Evaluation, Verdict, Decision, no_decision, rejected,
}
use forwardlimit.Limiter.Engine.{
  Outcome, bucket_of, noted, Next, go_on, return, judge, apply, visit, evaluate_from, evaluate,
}

abbrev pub is_blocked : Evaluation → Bool
is_blocked e = elim e.verdict [ Verdict.blocked ↦ true | _ ↦ false ]

abbrev pub is_would_block : Evaluation → Bool
is_would_block e = elim e.verdict [ Verdict.would_block ↦ true | _ ↦ false ]

pub any-append {ℓ} :
    {A : Type ℓ} (p : A → Bool) (xs ys : List A) → any p (xs ++ ys) ≡ (any p xs || any p ys)
any-append p [] ys = refl
any-append p (x ∷ xs) ys = ground (arith, any-append p xs ys)

-- While the loop runs: no block is enforced, and the decision is a dry-run block exactly when an
-- evaluation says so.
pub record IsOpen (d : Decision) : Type 0 where
  pub none_blocked : any is_blocked d.evaluations ≡ false
  pub dry_blocked : d.blocked ≡ any is_would_block d.evaluations
  pub blocked_dry : d.dry_run ≡ d.blocked

-- A rejection: the last evaluation is the one enforced block, and the decision names its limiter.
pub record IsRejection (d : Decision) : Type 0 where
  pub blocked : d.blocked ≡ true
  pub enforced : d.dry_run ≡ false
  pub front : List Evaluation
  pub last :
      d.evaluations ≡ front ++ (record { limiter = d.limiter; verdict = Verdict.blocked } ∷ [])
  pub before : any is_blocked front ≡ false

abbrev pub Judged : Next → Type 0
Judged (go_on d) = IsOpen d
Judged (return d) = IsRejection d

-- What an appended evaluation adds to the two tests.
noted-IsOpen :
    (d e : Decision) (l : Limiter) (v : Verdict)
    → any is_blocked d.evaluations ≡ false
    → is_blocked (record { limiter = l.name; verdict = v }) ≡ false
    → e.evaluations ≡ noted d l v
    → e.blocked ≡ (
        any is_would_block d.evaluations
        || is_would_block (record { limiter = l.name; verdict = v }))
    → e.dry_run ≡ e.blocked
    → IsOpen e
noted-IsOpen d e l v none_blocked enforced_not same says dry =
    let entry : Evaluation = record { limiter = l.name; verdict = v } in
    record {
      none_blocked =
          rw (same, any-append is_blocked d.evaluations (entry ∷ []), none_blocked, enforced_not)
            refl;
      dry_blocked =
          says ∙ rw (same, any-append is_would_block d.evaluations (entry ∷ [])) (ground arith);
      blocked_dry = dry;
    }

judge-Judged : (l : Limiter) (r : Reply Outcome) (d : Decision) → IsOpen d → Judged (judge l r d)
unfolding judge
judge-Judged l (ok res) d v = elim (Bool-cases res.blocked) [
  | inr e ↦
      rw (e, judge)
        (noted-IsOpen d _ l Verdict.allowed v.none_blocked refl refl (ground arith) v.blocked_dry)
  | inl e ↦ elim (Bool-cases l.dry_run) [
    | inr n ↦
        rw (e, n, judge)
          (record {
            blocked = refl;
            enforced = refl;
            front = d.evaluations;
            last = refl;
            before = v.none_blocked;
          })
    | inl n ↦ elim (Bool-cases d.blocked) [
      | inl b ↦
          rw (e, n, b, judge)
            (noted-IsOpen d _ l Verdict.would_block v.none_blocked refl refl (ground arith)
              (ground (arith, v.blocked_dry)))
      | inr b ↦
          rw (e, n, b, judge)
            (noted-IsOpen d _ l Verdict.would_block v.none_blocked refl refl (ground arith) refl)
    ]
  ]
]
judge-Judged l (err e) d v =
    noted-IsOpen d _ l Verdict.failed_open v.none_blocked refl refl (ground arith) v.blocked_dry
judge-Judged l panicked d v =
    noted-IsOpen d _ l Verdict.failed_open v.none_blocked refl refl (ground arith) v.blocked_dry

module _ {W : Type 0} (st : Store W) where
  pub visit-Judged :
      (l : Limiter) (req : Request) (d : Decision) (w : W)
      → IsOpen d
      → Judged (visit st l req d w).0
  unfolding visit
  visit-Judged l req d w v =
      elim (Bool-cases (not (applies l req.path req.method) || not (active l))) [
        | inl e ↦ rw (e, visit) v
        | inr e ↦ elim (Option-cases (bucket_of l req)) [
          | inl n ↦ rw (e, n, visit) v
          | inr (b, n) ↦ rw (e, n, visit) (judge-Judged l (apply st l b w).0 d v)
        ]
      ]

  evaluate_from-Judged :
      (ls : List Limiter) (req : Request) (d : Decision) (w : W)
      → IsOpen d
      → let d' = (evaluate_from st ls req d w).0 in IsOpen d' ⊎ IsRejection d'
  unfolding evaluate_from
  evaluate_from-Judged [] req d w v = inl v
  evaluate_from-Judged (l ∷ ls) req d w v =
      settle (visit st l req d w).0 (visit-Judged l req d w v)
        (λ d' v'. evaluate_from-Judged ls req d' (visit st l req d w).1 v')
    where
      settle :
          (n : Next)
          → Judged n
          → ((d' : Decision)
              → IsOpen d'
              → let e = (evaluate_from st ls req d' (visit st l req d w).1).0 in
                IsOpen e ⊎ IsRejection e)
          → let e : Decision × W = elim n [
            | go_on d' ↦ evaluate_from st ls req d' (visit st l req d w).1
            | return d' ↦ (d', (visit st l req d w).1)
          ] in
            IsOpen e.0 ⊎ IsRejection e.0
      settle (go_on d') v' ih = ih d' v'
      settle (return d') v' ih = inr v'

  -- A request is rejected exactly when some limiter enforced a block. That evaluation is then the last
  -- one, the only one, and the decision names its limiter. Where none did, the decision is a block
  -- exactly when a dry-run limiter would have blocked, and it is marked as a dry run.
  pub evaluate-rejected :
      (ls : List Limiter) (req : Request) (w : W)
      → let d = (evaluate st ls req w).0 in
        (rejected d ≡ any is_blocked d.evaluations)
        × (((rejected d ≡ false)
              × (d.blocked ≡ any is_would_block d.evaluations)
              × (d.dry_run ≡ d.blocked))
            ⊎ ((rejected d ≡ true)
                × ((front : List Evaluation) × (d.evaluations
                      ≡ front ++ (record { limiter = d.limiter; verdict = Verdict.blocked } ∷ []))
                    × (any is_blocked front ≡ false))))
  unfolding evaluate
  evaluate-rejected ls req w =
      let d = (evaluate_from st ls req no_decision w).0 in
      elim (evaluate_from-Judged ls req no_decision w
        (record { none_blocked = refl; dry_blocked = refl; blocked_dry = refl })) [
          | inl v ↦ (
            ground (arith, v.none_blocked, v.blocked_dry),
            inl (ground (arith, v.blocked_dry), v.dry_blocked, v.blocked_dry),
          )
          | inr v ↦ (
            rw
                (
                  v.last,
                  any-append is_blocked v.front
                      (record { limiter = d.limiter; verdict = Verdict.blocked } ∷ []),
                )
                (ground (arith, v.blocked, v.enforced)),
            inr (ground (arith, v.blocked, v.enforced), (v.front, v.last, v.before)),
          )
        ]
