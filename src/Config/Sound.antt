-- ===== src/Config/Sound.antt =====
-- A file of limiters that `File.Validate` of internal/config/file.go accepts, once it is built.
use forwardlimit.Common.{
  ◌≡◌, refl, Bool, true, false, ◌&&◌, not, Option, none, some, List, [], ◌∷◌, ◌++◌, All, All-append,
  subst, Option-cases, Bool-cases, ◌⊎◌, inl, inr, arith,
}
use forwardlimit.Common.Int.{ℤ, pos, ◌≤ℤ◌}
use forwardlimit.Common.Text.{Text}
use forwardlimit.Common.Assoc.{insert-All}
use forwardlimit.Store.{Rule, Bucket}
use forwardlimit.Limiter.{Keyer, active}
use forwardlimit.Httpapi.{Response}
use forwardlimit.Config.{ResponseSpec, KeySpec, LimiterSpec, File, outside}
use forwardlimit.Config.Validation.{
  Problem, fail_if, validate_window, validate_bucket, validate_response, validate_limiter,
  validate_limiters, validate, algorithm_problems, key_problems, response_problems, is_none_left,
  no_limiters, is_zero_ℤ, status_range,
}
use forwardlimit.Config.Build.{
  Built, Building, built, failed, crashed, overridden, resolve_response, algorithm, limiter_from,
  override, build_limiter, build_limiters, build_from, global_response, warn_idle, started,
  default_response,
}

pub append_nil : {A : Type 0} (xs ys : List A) → xs ++ ys ≡ [] → (xs ≡ []) × (ys ≡ [])
append_nil [] ys e = (refl, e)
append_nil (x ∷ xs) ys e = absurd (ground arith)

pub fail_if_nil : (b : Bool) (p : Problem) → fail_if b p ≡ [] → b ≡ false
fail_if_nil b p e = ground arith

abbrev pub IsErrorStatus : ℤ → Type 0
IsErrorStatus s = (pos 400 ≤ℤ s) × (s ≤ℤ pos 599)

-- Every rejection that can be sent is an error, and every limiter enforces one of the algorithms.
pub record IsSound (b : Built) : Type 0 where
  pub default_error : IsErrorStatus b.default.status
  pub override_error : All (λ e. IsErrorStatus e.1.status) b.responses
  pub all_active : All (λ l. active l ≡ true) b.limiters

abbrev Sound : Building → Type 0
Sound (built b) = IsSound b
Sound failed = Unit
Sound crashed = Unit

pub Building-cases : (r : Building) → ((b : Built) × (r ≡ built b)) ⊎ (r ≡ failed) ⊎ (r ≡ crashed)
Building-cases (built b) = inl (b, refl)
Building-cases failed = inr (inl refl)
Building-cases crashed = inr (inr refl)

module _ (exists : Text → Bool) (atoi : Text → Option ℤ) (read_file : Text → Option Text) where
  overridden-IsErrorStatus :
      (r : ResponseSpec) (base : Response)
      → validate_response exists atoi r ≡ []
      → IsErrorStatus base.status
      → IsErrorStatus (overridden read_file r base).status
  unfolding validate_response
  overridden-IsErrorStatus r base e v =
      let status_ok =
        fail_if_nil (not (is_zero_ℤ r.status) && outside (pos 400) (pos 599) r.status) status_range
          (append_nil _ _ (append_nil _ _ e).0).0 in
      ground arith

  resolve_response-IsErrorStatus :
      (r : ResponseSpec) (base out : Response)
      → validate_response exists atoi r ≡ []
      → IsErrorStatus base.status
      → resolve_response read_file r base ≡ some out
      → IsErrorStatus out.status
  unfolding resolve_response
  resolve_response-IsErrorStatus r base out e v q =
      let w = overridden-IsErrorStatus r base e v in ground arith

  algorithm-active :
      (spec : LimiterSpec) (k : Keyer) (chosen : Rule × Bucket)
      → algorithm_problems exists atoi spec.window spec.bucket ≡ []
      → algorithm spec.window spec.bucket ≡ some chosen
      → active (limiter_from spec k chosen) ≡ true
  unfolding validate_window validate_bucket
  algorithm-active spec k chosen e q = ground arith

  override-Sound :
      (spec : LimiterSpec) (b : Built) (make : KeySpec → Option (Keyer × Bool)) (can : Bool)
      → response_problems exists atoi spec.response ≡ []
      → IsSound b
      → Sound (override read_file make can spec b)
  override-Sound spec b make can e v = elim (Option-cases spec.response) [
    | inl n ↦ rw n v
    | inr (r, n) ↦ elim (Option-cases (resolve_response read_file r b.default)) [
      | inl q ↦ rw (n, q, override) tt
      | inr (out, q) ↦
          rw (n, q, override)
            (record {
              default_error = v.default_error;
              override_error =
                  insert-All (λ k o. IsErrorStatus o.status) spec.name out b.responses
                    (resolve_response-IsErrorStatus r b.default out (rw n at e) v.default_error q)
                    v.override_error;
              all_active = v.all_active;
            })
    ]
  ]

  -- What a file without a problem says of its first limiter, and of the others.
  pub validate_limiters_parts :
      (spec : LimiterSpec) (specs : List LimiterSpec) (seen : List Text)
      → validate_limiters exists atoi (spec ∷ specs) seen ≡ []
      → (algorithm_problems exists atoi spec.window spec.bucket ≡ [])
        × (key_problems exists atoi spec.key ≡ [])
        × (response_problems exists atoi spec.response ≡ [])
        × (validate_limiters exists atoi specs (validate_limiter exists atoi spec seen).1 ≡ [])
  unfolding validate_limiters validate_limiter
  validate_limiters_parts spec specs seen e =
      let (here, rest) = append_nil _ _ e in
      let (up_to_methods, response_ok) = append_nil _ _ here in
      let (up_to_paths, methods_ok) = append_nil _ _ up_to_methods in
      let (up_to_key, paths_ok) = append_nil _ _ up_to_paths in
      let (up_to_algorithm, key_ok) = append_nil _ _ up_to_key in
      ((append_nil _ _ up_to_algorithm).1, key_ok, response_ok, rest)

  pub validate_parts :
      (f : File)
      → validate exists atoi f ≡ []
      → (response_problems exists atoi f.response ≡ [])
        × (validate_limiters exists atoi f.limiters [] ≡ [])
  unfolding validate
  validate_parts f e =
      let (before, limiters_ok) = append_nil _ _ e in
      (
        (append_nil (fail_if (is_none_left exists atoi f.limiters) no_limiters) _ before).1,
        limiters_ok,
      )

  module _ (make : KeySpec → Option (Keyer × Bool)) (can : Bool) where
    build_limiter-Sound :
        (spec : LimiterSpec) (b : Built)
        → algorithm_problems exists atoi spec.window spec.bucket ≡ []
        → response_problems exists atoi spec.response ≡ []
        → IsSound b
        → Sound (build_limiter read_file make can spec b)
    unfolding build_limiter
    build_limiter-Sound spec b e f v = elim (Option-cases spec.key) [
      | inl n ↦ rw (n, build_limiter) tt
      | inr (k, n) ↦ elim (Option-cases (make k)) [
        | inl m ↦ rw (n, m, build_limiter) tt
        | inr ((keyer, needs), m) ↦ elim (Bool-cases (needs && not can)) [
          | inl y ↦
              rw (n, m, y, build_limiter)
                (record {
                  default_error = v.default_error;
                  override_error = v.override_error;
                  all_active = v.all_active;
                })
          | inr y ↦ elim (Option-cases (algorithm spec.window spec.bucket)) [
            | inl a ↦ rw (n, m, y, a, build_limiter) tt
            | inr (chosen, a) ↦
                rw (n, m, y, a, build_limiter)
                  (override-Sound spec _ make can f (record {
                    default_error = v.default_error;
                    override_error = v.override_error;
                    all_active =
                        All-append (λ l. active l ≡ true) b.limiters
                          (limiter_from spec keyer chosen ∷ []) v.all_active
                          (algorithm-active spec keyer chosen e a, tt);
                  }))
          ]
        ]
      ]
    ]

    build_limiters-Sound :
        (specs : List LimiterSpec) (seen : List Text) (b : Built)
        → validate_limiters exists atoi specs seen ≡ []
        → IsSound b
        → Sound (build_limiters read_file make can specs b)
    unfolding build_limiters
    build_limiters-Sound [] seen b e v = v
    build_limiters-Sound (spec ∷ specs) seen b e v =
        let (algorithm_ok, key_ok, response_ok, rest) = validate_limiters_parts spec specs seen e in
        let once = build_limiter-Sound spec b algorithm_ok response_ok v in
        elim (Building-cases (build_limiter read_file make can spec b)) [
          | inl (b', q) ↦
              rw (q, build_limiters) (build_limiters-Sound specs _ b' rest (rw q at once))
          | inr (inl q) ↦ rw (q, build_limiters) tt
          | inr (inr q) ↦ rw (q, build_limiters) tt
        ]

    warn_idle-Sound : (r : Building) → Sound r → Sound (warn_idle read_file make can r)
    warn_idle-Sound (built b) v = ground (arith, v.default_error, v.override_error, v.all_active)
    warn_idle-Sound failed v = tt
    warn_idle-Sound crashed v = tt

    -- If a file has no problem and is built, then the response of every rejection, the default and each
    -- limiter's own, has a status from 400 to 599, and every limiter is active: whatever the keyers are.
    pub build_from-IsSound :
        (f : File) (b : Built)
        → validate exists atoi f ≡ []
        → build_from read_file make can f ≡ built b
        → IsSound b
    unfolding build_from
    build_from-IsSound f b e q =
        let (response_ok, limiters_ok) = validate_parts f e in
        elim (Option-cases (global_response read_file make can f.response)) [
          | inl n ↦ absurd (ground (arith, n, q))
          | inr (r, n) ↦
              let start = started read_file make can r in
              let ready : IsSound start = record {
                default_error = global f.response r response_ok n;
                override_error = tt;
                all_active = tt;
              } in
              let looped = build_limiters read_file make can f.limiters start in
              let same : warn_idle read_file make can looped ≡ built b = ground (arith, n, q) in
              subst Sound same (
                warn_idle-Sound looped (build_limiters-Sound f.limiters [] start limiters_ok ready))
        ]
      where
        global :
            (o : Option ResponseSpec) (r : Response)
            → response_problems exists atoi o ≡ []
            → global_response read_file make can o ≡ some r
            → IsErrorStatus r.status
        global none r e n = ground arith
        global (some s) r e n =
            resolve_response-IsErrorStatus s default_response r e (omega arith, omega arith) n
