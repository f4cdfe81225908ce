-- ===== src/Server/Enforced.antt =====
-- Requests to "/check" of internal/httpapi that one limiter counts, over a store that admits so many.
use forwardlimit.Common.{
  All, map, ℕ, ◌≡◌, ◌∙◌, refl, sym, subst, ap, true, false, some, List, [], ◌∷◌, if◌then◌else◌, inl,
  inr, Bool-cases, leb, arith,
}
use forwardlimit.Common.Int.{ℤ, pos}
use forwardlimit.Common.Text.{Text}
use forwardlimit.Common.Assoc.{lookup}
use forwardlimit.Request.{Request}
use forwardlimit.Store.{Clock, Key, rule_valid, bucket_valid, Result, ok, Store}
use forwardlimit.Limiter.{Limiter, active, applies, Decision, no_decision, Verdict, rejected}
use forwardlimit.Limiter.Engine.{
  bucket_of, judge, apply, visit, evaluate_from, evaluate, noted, from_consume, Next, go_on, return,
}
use forwardlimit.Observability.{Metrics}
use forwardlimit.Httpapi.{Response, HttpRequest, Handler, Serving}
use forwardlimit.Httpapi.Reading.{read_body}
use forwardlimit.Httpapi.Check.{serve_check, subject, response_of, or_default}
use forwardlimit.Httpapi.Answers.{decision_on, IsFinal, serve_check-status}
use forwardlimit.Httpapi.World.{serve_check-world}
use forwardlimit.Server.Outage.{statuses, fresh}
use forwardlimit.Server.Metering.{Meters, bump}

-- The limiter is in force with a window, counts the request, and finds the bucket `b` in it.
pub record Counts (l : Limiter) (req : Request) (b : Text) : Type 0 where
  pub in_scope : applies l req.path req.method ≡ true
  pub keyed : bucket_of l req ≡ some b
  pub enforcing : l.dry_run ≡ false
  pub windowed : bucket_valid l.bucket ≡ false
  pub valid : rule_valid l.rule ≡ true

abbrev pub key_of : Limiter → Text → Key
key_of l b = record { limiter = l.name; bucket = b }

-- What one limiter decides at the store's result.
abbrev verdict : Limiter → Result → Decision
verdict l res =
    if res.blocked
    then record no_decision {
      blocked = true;
      dry_run = false;
      limiter = l.name;
      count = res.count;
      retry_after = res.retry_after;
      advise_retry_after = l.advise_retry_after;
      evaluations = noted no_decision l Verdict.blocked;
    }
    else record no_decision { evaluations = noted no_decision l Verdict.allowed }

-- The round of that limiter ends the loop, or goes on with an open decision.
abbrev one_round : Limiter → Result → Next
one_round l res = if res.blocked then return (verdict l res) else go_on (verdict l res)

judge-one :
    (l : Limiter) (res : Result)
    → l.dry_run ≡ false
    → judge l (from_consume (ok res)) no_decision ≡ one_round l res
unfolding judge
judge-one l res e = elim (Bool-cases res.blocked) [
  | inl y ↦ rw (y, e, judge) refl
  | inr n ↦ rw (n, judge) refl
]

module _ {W : Type 0} (st : Store W) where
  visit-one :
      (l : Limiter) (req : Request) (b : Text) (w : W)
      → Counts l req b
      → visit st l req no_decision w ≡ (
        judge l (from_consume (st.consume (key_of l b) l.rule w).0) no_decision,
        (st.consume (key_of l b) l.rule w).1,
      )
  unfolding visit apply
  visit-one l req b w c =
      let in_force : active l ≡ true = rw c.valid refl in
      rw (c.in_scope, in_force, c.keyed, visit) (rw (c.windowed, apply) refl)

  evaluate-one :
      (l : Limiter) (req : Request) (b : Text) (res : Result) (w : W)
      → Counts l req b
      → (st.consume (key_of l b) l.rule w).0 ≡ ok res
      → evaluate st (l ∷ []) req w ≡ (verdict l res, (st.consume (key_of l b) l.rule w).1)
  unfolding evaluate evaluate_from
  evaluate-one l req b res w c e =
      let round : visit st l req no_decision w
          ≡ (one_round l res, (st.consume (key_of l b) l.rule w).1) =
        visit-one l req b w c ∙ rw (e, judge-one l res c.enforcing) refl in
      elim (Bool-cases res.blocked) [
        | inl y ↦ rw (round, evaluate_from) (rw (y, round) refl)
        | inr n ↦ rw (round, evaluate_from) (rw (n, round) refl)
      ]

-- The statuses of requests for these buckets: whether each is past the limit.
abbrev pub answers : ℕ → Response → (Text → ℕ) → List Text → List ℤ
answers limit resp count [] = []
answers limit resp count (b ∷ bs) =
    (if leb limit (count b) then resp.status else pos 200) ∷ answers limit resp (bump b count) bs

module _ {W : Type 0} (clock : Clock W) (h : Handler W) (l : Limiter) (limit : ℕ)
    (InPlay : Text → Type 0) (alone : h.limiters ≡ l ∷ [])
    (meters : Meters h.store clock l.name l.rule limit InPlay) where
  -- What a rejected client gets.
  abbrev pub response : Response
  response = or_default (lookup l.name h.responses) h.response

  -- The request counts for the bucket, which is in play.
  abbrev pub Counted : HttpRequest × Text → Type 0
  Counted (r, b) = Counts l (subject h r (read_body h.max_body r.body).0) b × InPlay b

  decided :
      (r : HttpRequest) (b : Text) (count : Text → ℕ) (w : W)
      → Counted (r, b)
      → meters.At count w
      → let d = evaluate h.store h.limiters (subject h r (read_body h.max_body r.body).0) w in
        ((res : Result) × (res.blocked ≡ leb limit (count b)) × (d.0 ≡ verdict l res))
        × meters.At (bump b count) d.1
  decided r b count w (counts, plays) at =
      let ((res, blocks, e), next) = meters.consumes b count w plays at in
      let req = subject h r (read_body h.max_body r.body).0 in
      let one =
        ap (λ ls. evaluate h.store ls req w) alone ∙ evaluate-one h.store l req b res w counts e in
      (
        (res, blocks, ap (λ p. p.0) one),
        subst (meters.At (bump b count)) (sym (ap (λ p. p.1) one)) next,
      )

  status-verdict :
      (d : Decision) (res : Result)
      → d ≡ verdict l res
      → (if rejected d then (response_of h d).status else pos 200)
        ≡ (if res.blocked then response.status else pos 200)
  status-verdict d res e = elim (Bool-cases res.blocked) [
    | inl y ↦ rw (e, y) refl
    | inr n ↦ rw (e, n) refl
  ]

  response-verdict :
      (d : Decision) (res : Result)
      → d ≡ verdict l res
      → rejected d ≡ true
      → response_of h d ≡ response
  response-verdict d res e y = elim (Bool-cases res.blocked) [
    | inl blocks ↦ rw (e, blocks) refl
    | inr passes ↦ absurd (ground (arith, rw (e, passes) at y))
  ]

  -- Over a store that admits the first `limit` calls for each bucket, exactly the first `limit` of the
  -- requests for a bucket are answered with 200, and the later ones with the response that is set for the
  -- limiter.
  pub statuses-answers :
      (rs : List (HttpRequest × Text)) (count : Text → ℕ) (m : Metrics) (w : W)
      → IsFinal h response
      → All Counted rs
      → meters.At count w
      → statuses h (map (λ (r : HttpRequest × Text). r.0) rs) m w
        ≡ answers limit response count (map (λ (r : HttpRequest × Text). r.1) rs)
  statuses-answers [] count m w final counted at = refl
  statuses-answers ((r, b) ∷ rs) count m w final (here, counted) at =
      let s : Serving W = fresh m w in
      let ((res, blocks, d), next) = decided r b count w here at in
      let first =
        serve_check-status h r s refl
          (λ y. subst (IsFinal h) (sym (response-verdict (decision_on h r w) res d y)) final)
        ∙ status-verdict (decision_on h r w) res d
        ∙ ap (λ x. if x then response.status else pos 200) blocks in
      let t = serve_check h r s in
      let rest =
        statuses-answers rs (bump b count) t.metrics t.world final counted
          (subst (meters.At (bump b count)) (sym (serve_check-world h r s)) next) in
      ap (λ c. c ∷ statuses h (map (λ (x : HttpRequest × Text). x.0) rs) t.metrics t.world) first
      ∙ ap (λ cs. (if leb limit (count b) then response.status else pos 200) ∷ cs) rest
