-- ===== src/Config/Complete.antt =====
-- A file of limiters that `File.Validate` of internal/config/file.go accepts is always built.
use forwardlimit.Common.{
  ◌≡◌, refl, Bool, true, ◌&&◌, not, Option, none, some, List, [], ◌∷◌, Option-cases, Bool-cases,
  inl, inr, arith,
}
use forwardlimit.Common.Int.{ℤ}
use forwardlimit.Common.Text.{Text, is_empty}
use forwardlimit.Request.{Members}
use forwardlimit.Limiter.{Keyer}
use forwardlimit.Keyer.{Normaliser, hmac, available}
use forwardlimit.Httpapi.{Response}
use forwardlimit.Config.{ResponseSpec, KeySpec, LimiterSpec, File}
use forwardlimit.Config.Validation.{
  body_file_unreadable, validate_key, validate_response, validate_limiters, validate,
  algorithm_problems, key_problems, response_problems,
}
use forwardlimit.Config.Sources.{build_keyer}
use forwardlimit.Config.Given.{Given, build_keyer-Given}
use forwardlimit.Config.Build.{
  Built, Building, built, resolve_response, algorithm, override, build_limiter, build_limiters,
  build_from, build, global_response, started, default_response,
}
use forwardlimit.Config.Sound.{
  append_nil, fail_if_nil, IsSound, build_from-IsSound, validate_limiters_parts, validate_parts,
}

abbrev Finished : Building → Type 0
Finished r = (b : Built) × (r ≡ built b)

module _ (exists : Text → Bool) (atoi : Text → Option ℤ) (read_file : Text → Option Text)
    (readable : (p : Text) → exists p ≡ true → Given (read_file p)) where
  resolve_response-Given :
      (r : ResponseSpec) (base : Response)
      → validate_response exists atoi r ≡ []
      → Given (resolve_response read_file r base)
  unfolding validate_response resolve_response
  resolve_response-Given r base e =
      let unreadable =
        fail_if_nil (not (is_empty r.body_file) && not (exists r.body_file)) body_file_unreadable
          (append_nil _ _ e).1 in
      elim (Bool-cases (not (is_empty r.body_file))) [
        | inr n ↦ rw (n, resolve_response) (_, refl)
        | inl y ↦
            let (b, p) = readable r.body_file (ground (arith, unreadable, y)) in
            rw (y, p, resolve_response) (_, refl)
      ]

  module _ (make : KeySpec → Option (Keyer × Bool)) (can : Bool)
      (makes : (k : KeySpec) → validate_key exists atoi k ≡ [] → Given (make k)) where
    override-Finished :
        (spec : LimiterSpec) (b : Built)
        → response_problems exists atoi spec.response ≡ []
        → Finished (override read_file make can spec b)
    override-Finished spec b e = elim (Option-cases spec.response) [
      | inl n ↦ rw (n, override) (_, refl)
      | inr (r, n) ↦
          let (out, q) = resolve_response-Given r b.default (rw n at e) in
          rw (n, q, override) (_, refl)
    ]

    algorithm-Given :
        (spec : LimiterSpec)
        → algorithm_problems exists atoi spec.window spec.bucket ≡ []
        → Given (algorithm spec.window spec.bucket)
    algorithm-Given spec e = elim (Option-cases (algorithm spec.window spec.bucket)) [
      | inl n ↦ absurd (ground (arith, n, e))
      | inr g ↦ g
    ]

    build_limiter-Finished :
        (spec : LimiterSpec) (b : Built)
        → algorithm_problems exists atoi spec.window spec.bucket ≡ []
        → key_problems exists atoi spec.key ≡ []
        → response_problems exists atoi spec.response ≡ []
        → Finished (build_limiter read_file make can spec b)
    unfolding build_limiter
    build_limiter-Finished spec b e k f = elim (Option-cases spec.key) [
      | inl n ↦ absurd (ground (arith, n, k))
      | inr (key, n) ↦
          let ((keyer, needs), m) = makes key (rw n at k) in
          let (chosen, a) = algorithm-Given spec e in
          elim (Bool-cases (needs && not can)) [
            | inl y ↦ rw (n, m, y, build_limiter) (_, refl)
            | inr y ↦ rw (n, m, y, a, build_limiter) (override-Finished spec _ f)
          ]
    ]

    build_limiters-Finished :
        (specs : List LimiterSpec) (seen : List Text) (b : Built)
        → validate_limiters exists atoi specs seen ≡ []
        → Finished (build_limiters read_file make can specs b)
    unfolding build_limiters
    build_limiters-Finished [] seen b e = (b, refl)
    build_limiters-Finished (spec ∷ specs) seen b e =
        let (algorithm_ok, key_ok, response_ok, rest) =
          validate_limiters_parts exists atoi read_file spec specs seen e in
        let (b', q) = build_limiter-Finished spec b algorithm_ok key_ok response_ok in
        rw (q, build_limiters) (build_limiters-Finished specs _ b' rest)

    build_from-Finished :
        (f : File) → validate exists atoi f ≡ [] → Finished (build_from read_file make can f)
    unfolding build_from
    build_from-Finished f e =
        let (response_ok, limiters_ok) = validate_parts exists atoi read_file f e in
        let (r, n) = global f.response response_ok in
        let (b, q) =
          build_limiters-Finished f.limiters [] (started read_file make can r) limiters_ok in
        rw (n, q, build_from) (_, refl)
      where
        global :
            (o : Option ResponseSpec)
            → response_problems exists atoi o ≡ []
            → Given (global_response read_file make can o)
        global none e = (_, refl)
        global (some s) e = resolve_response-Given s default_response e

-- A file in which `Validate` finds no problem is built, as long as every body file that it could stat
-- can be read: `Build` neither fails nor follows a nil pointer. Every rejection, the default and each
-- limiter's own, then has a status from 400 to 599, and every limiter is active.
pub build-Finished :
    (exists : Text → Bool) (atoi : Text → Option ℤ) (read_file : Text → Option Text)
    (subnet : ℤ → ℤ → Normaliser) (decode : Text → Option Members)
    (parse_query : Text → List (Text × List Text)) (mac : Text → Text → Text) (secret : Text)
    (f : File)
    → ((p : Text) → exists p ≡ true → (b : Text) × (read_file p ≡ some b))
    → validate exists atoi f ≡ []
    → (b : Built) × (build read_file atoi subnet decode parse_query mac secret f ≡ built b)
      × IsSound b
unfolding build
build-Finished exists atoi read_file subnet decode parse_query mac secret f readable e =
    let make = build_keyer atoi subnet decode parse_query (hmac mac secret) in
    let (b, q) =
      build_from-Finished exists atoi read_file readable make (available secret)
        (build_keyer-Given exists atoi subnet decode parse_query (hmac mac secret)) f e in
    (b, q, build_from-IsSound exists atoi read_file make (available secret) f b e q)
