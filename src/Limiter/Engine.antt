-- ===== src/Limiter/Engine.antt =====
-- internal/limiter/engine.go. The log is left out: it is written to and never read.
pub mod Rejection
pub mod Order
pub mod DryRun
pub mod FailOpen
use forwardlimit.Common.{
  Bool, true, false, ◌&&◌, ◌||◌, not, Option, none, some, List, [], ◌∷◌, ◌++◌, if◌then◌else◌,
  length, take, leb,
}
use forwardlimit.Common.Int.{ℤ}
use forwardlimit.Common.Text.{Text, codes}
use forwardlimit.Request.{Request}
use forwardlimit.Store.{
  Store, Key, Reply, ok, err, panicked, store_panicked, Result, TakeResult, bucket_valid,
}
use forwardlimit.Limiter.{
  Limiter, Keyed, key, skip, panics, active, applies, Evaluation, Verdict, Decision, no_decision,
}

-- What the two algorithms of the store have in common.
pub record Outcome : Type 0 where
  pub blocked : Bool
  pub count : ℤ
  pub retry_after : ℤ

abbrev pub from_keyed : Keyed → Option Text
from_keyed (key k) = some k
from_keyed skip = none
from_keyed panics = none

-- `Engine.bucket`: a panic of the keyer is recovered as "does not apply".
abbrev pub bucket_of : Limiter → Request → Option Text
bucket_of l req = from_keyed (l.keyer req)

-- `recover` in `apply`
abbrev pub from_take : Reply TakeResult → Reply Outcome
from_take (ok res) =
    ok (record { blocked = not res.allowed; count = res.remaining; retry_after = res.retry_after })
from_take (err e) = err e
from_take panicked = err store_panicked

abbrev pub from_consume : Reply Result → Reply Outcome
from_consume (ok res) =
    ok (record { blocked = res.blocked; count = res.count; retry_after = res.retry_after })
from_consume (err e) = err e
from_consume panicked = err store_panicked

-- Whether the loop of `Evaluate` goes on, or returns.
pub data Next : Type 0 where
  go_on : Decision → Next
  return : Decision → Next

abbrev pub noted : Decision → Limiter → Verdict → List Evaluation
noted d l v = d.evaluations ++ (record { limiter = l.name; verdict = v } ∷ [])

-- The `switch` of `Evaluate`.
unfoldable pub judge : Limiter → Reply Outcome → Decision → Next
judge l (err e) d = go_on (record d { evaluations = noted d l Verdict.failed_open })
judge l panicked d = go_on (record d { evaluations = noted d l Verdict.failed_open })
judge l (ok res) d =
    if res.blocked && l.dry_run
    then go_on (
        if d.blocked then record d { evaluations = noted d l Verdict.would_block } else record d {
          blocked = true;
          dry_run = true;
          limiter = l.name;
          count = res.count;
          retry_after = res.retry_after;
          evaluations = noted d l Verdict.would_block;
        })
    else if res.blocked
    then return (record d {
      blocked = true;
      dry_run = false;
      limiter = l.name;
      count = res.count;
      retry_after = res.retry_after;
      advise_retry_after = l.advise_retry_after;
      evaluations = noted d l Verdict.blocked;
    })
    else go_on (record d { evaluations = noted d l Verdict.allowed })

module _ {W : Type 0} (st : Store W) where
  unfoldable pub apply : Limiter → Text → W → Reply Outcome × W
  apply l bucket w =
      let k : Key = record { limiter = l.name; bucket = bucket } in
      if bucket_valid l.bucket
      then (let (r, w') = st.take k l.bucket w in (from_take r, w'))
      else (let (r, w') = st.consume k l.rule w in (from_consume r, w'))

  -- One round of the loop.
  unfoldable pub visit : Limiter → Request → Decision → W → Next × W
  unfolding judge apply
  visit l req d w =
      if not (applies l req.path req.method) || not (active l)
      then (go_on d, w)
      else elim (bucket_of l req) [
        | none ↦ (go_on d, w)
        | some bucket ↦ let (r, w') = apply l bucket w in (judge l r d, w')
      ]

  unfoldable pub evaluate_from : List Limiter → Request → Decision → W → Decision × W
  unfolding visit
  evaluate_from [] req d w = (d, w)
  evaluate_from (l ∷ ls) req d w =
      let (n, w') = visit l req d w in
      elim n [ go_on d' ↦ evaluate_from ls req d' w' | return d' ↦ (d', w') ]

  unfoldable pub evaluate : List Limiter → Request → W → Decision × W
  unfolding evaluate_from
  evaluate ls req w = evaluate_from ls req no_decision w

-- `truncate`
unfoldable pub truncate : Text → Text
truncate s = if leb (length s) 12 then s else take 12 s ++ codes "..."
