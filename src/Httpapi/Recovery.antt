-- ===== src/Httpapi/Recovery.antt =====
-- Panics on "/check", and what internal/httpapi counts.
use forwardlimit.Common.{
  ℕ, ◌+◌, ◌≡◌, Bool, true, false, List, [], ◌∷◌, ◌++◌, if◌then◌else◌, length, Bool-cases, inl, inr,
  arith,
}
use forwardlimit.Common.Text.{codes}
use forwardlimit.Limiter.{is_failed_open, Evaluation}
use Prim.Native.Nat.{max}
use forwardlimit.Observability.{Metrics, Event, decision, store_error, record_decision}
use forwardlimit.Httpapi.Check.{record_all, verdict_text, record_evaluation, record_evaluations}

abbrev pub is_store_error : Event → Bool
is_store_error e = elim e [ store_error ↦ true | _ ↦ false ]

abbrev pub is_decision : Event → Bool
is_decision e = elim e [ decision n v ↦ true | _ ↦ false ]

abbrev pub count {ℓ} : {A : Type ℓ} → (A → Bool) → List A → ℕ
count p [] = 0
count p (x ∷ xs) = (if p x then 1 else 0) + count p xs

count-append {ℓ} :
    {A : Type ℓ} (p : A → Bool) (xs ys : List A) → count p (xs ++ ys) ≡ count p xs + count p ys
count-append p [] ys = omega arith
count-append p (x ∷ xs) ys = omega (arith, count-append p xs ys)

abbrev pub failed : Evaluation → Bool
failed e = is_failed_open e.verdict

record_decision-count :
    (p : Event → Bool) (e : Evaluation) (m : Metrics)
    → count p (record_decision e.limiter (verdict_text e.verdict) m)
      ≡ count p m + count p (record_decision e.limiter (verdict_text e.verdict) [])
record_decision-count p e m =
    count-append p m (record_decision e.limiter (verdict_text e.verdict) [])

record_evaluation-count :
    (e : Evaluation) (m : Metrics)
    → (count is_decision (record_evaluation e m) ≡ count is_decision m + 1)
      × (count is_store_error (record_evaluation e m)
          ≡ count is_store_error m + (if failed e then 1 else 0))
record_evaluation-count e m =
    let m' = record_decision e.limiter (verdict_text e.verdict) m in
    let d = record_decision-count is_decision e m in
    let f = record_decision-count is_store_error e m in
    elim (Bool-cases (failed e)) [
      | inl y ↦ rw y (
        omega (arith, d, count-append is_decision m' (store_error ∷ [])),
        omega (arith, f, count-append is_store_error m' (store_error ∷ [])),
      )
      | inr n ↦ rw n (omega (arith, d), omega (arith, f))
    ]

record_evaluations-count :
    (es : List Evaluation) (m : Metrics)
    → (count is_decision (record_evaluations es m) ≡ count is_decision m + length es)
      × (count is_store_error (record_evaluations es m) ≡ count is_store_error m + count failed es)
unfolding record_evaluations
record_evaluations-count [] m = (omega arith, omega arith)
record_evaluations-count (e ∷ es) m =
    let (d, f) = record_evaluation-count e m in
    let (ds, fs) = record_evaluations-count es (record_evaluation e m) in
    (omega (arith, d, ds), omega (arith, f, fs))

-- Each evaluation is counted as one decision, and a request that no limiter applied to as one too;
-- store errors are counted exactly for the evaluations that failed open.
record_all-count :
    (es : List Evaluation) (m : Metrics)
    → (count is_decision (record_all es m) ≡ count is_decision m + max 1 (length es))
      × (count is_store_error (record_all es m) ≡ count is_store_error m + count failed es)
unfolding record_all
record_all-count [] m =
    let said = record_decision [] (codes "allowed") [] in
    (
      omega (arith, count-append is_decision m said),
      omega (arith, count-append is_store_error m said),
    )
record_all-count (e ∷ es) m =
    let (d, f) = record_evaluations-count (e ∷ es) m in (omega (arith, d), f)
