-- ===== src/Limiter.antt =====
-- internal/limiter/limiter.go: limiters, the requests that they apply to, and decisions.
pub mod Scope
pub mod Engine
use forwardlimit.Common.{
  Bool, true, false, ◌&&◌, ◌||◌, not, Option, none, some, List, [], ◌∷◌, ◌++◌, ltb, if◌then◌else◌,
  length, any,
}
use forwardlimit.Common.Int.{ℤ, pos}
use forwardlimit.Common.Text.{
  Text, is_empty, text_eq, to_lower, equal_fold, cut_suffix, trim_suffix, has_prefix,
}
use forwardlimit.Store.{Rule, Bucket, rule_valid, bucket_valid}
use forwardlimit.Request.{Request}

-- `(key, true)`, `("", false)`, or a panic.
pub data Keyed : Type 0 where
  key : Text → Keyed
  skip : Keyed
  panics : Keyed

-- The interface `Keyer`; a `KeyerFunc` is such a function.
abbrev pub Keyer : Type 0
Keyer = Request → Keyed

pub record Limiter : Type 0 where
  pub name : Text
  pub rule : Rule
  pub bucket : Bucket
  pub keyer : Keyer
  pub paths : List Text
  pub methods : List Text
  pub dry_run : Bool
  pub advise_retry_after : Bool

-- `Active`
abbrev pub active : Limiter → Bool
active l = rule_valid l.rule || bucket_valid l.bucket

unfoldable pub normalise_path : Text → Text
unfolding trim_suffix
normalise_path p = if ltb 1 (length p) then trim_suffix p (b'/' ∷ []) else p

-- One round of the loop of `matchesPath`, over the folded path.
unfoldable pub covers : Text → Text → Bool
unfolding to_lower cut_suffix text_eq has_prefix normalise_path
covers path pattern =
    let p = to_lower pattern in
    elim (cut_suffix p (b'/' ∷ b'*' ∷ [])) [
      | some base ↦ is_empty base || text_eq path base || has_prefix path (base ++ (b'/' ∷ []))
      | none ↦ text_eq path (normalise_path p)
    ]

abbrev pub is_nil : List Text → Bool
is_nil [] = true
is_nil (x ∷ xs) = false

unfoldable pub matches_path : Limiter → Text → Bool
unfolding covers
matches_path l path =
    if is_nil l.paths then true else any (covers (to_lower (normalise_path path))) l.paths

unfoldable pub matches_method : Limiter → Text → Bool
unfolding equal_fold
matches_method l method = if is_nil l.methods then true else any (equal_fold method) l.methods

unfoldable pub applies : Limiter → Text → Text → Bool
unfolding matches_path matches_method
applies l path method = matches_path l path && matches_method l method

pub data Verdict : Type 0 where
  allowed blocked would_block failed_open : Verdict

pub record Evaluation : Type 0 where
  pub limiter : Text
  pub verdict : Verdict

pub record Decision : Type 0 where
  pub blocked : Bool
  pub dry_run : Bool
  pub limiter : Text
  pub count : ℤ
  pub retry_after : ℤ
  pub advise_retry_after : Bool
  pub evaluations : List Evaluation

-- The zero value of `Decision`.
abbrev pub no_decision : Decision
no_decision = record {
  blocked = false;
  dry_run = false;
  limiter = [];
  count = pos 0;
  retry_after = pos 0;
  advise_retry_after = false;
  evaluations = [];
}

abbrev pub rejected : Decision → Bool
rejected d = d.blocked && not d.dry_run

abbrev pub is_failed_open : Verdict → Bool
is_failed_open Verdict.failed_open = true
is_failed_open _ = false

-- `Decision.FailedOpen`
abbrev pub any_failed_open : Decision → Bool
any_failed_open d = any (λ e. is_failed_open e.verdict) d.evaluations
