-- ===== src/Tests/Keys.antt =====
-- Keys: how internal/limiter/keyer derives them, and how internal/store/store.go renders them.
use forwardlimit.Common.{◌≡◌, refl, true, false, none, some, List, [], ◌∷◌, ◌++◌, arith}
use forwardlimit.Common.Text.{trim_space, text_eq, Text, codes, join}
use forwardlimit.Request.{Request, end}
use forwardlimit.Limiter.{Keyer, key, skip}
use forwardlimit.Store.{Key}
use forwardlimit.Keyer.{hmac, header, query_param, first, composite, collect}
use forwardlimit.Keyer.Hashed.{IsImage}
use forwardlimit.Config.{KeySpecs, key_spec, done, child, parse_normaliser}
use forwardlimit.Config.Sources.{kind_fn, build_keyer, from_source}
use forwardlimit.Config.Hashing.{build_keyer-IsImage}
use forwardlimit.Keyer.Combined.{composite-injective}
use forwardlimit.Tests.{post_login}

abbrev login_key : Key
login_key = record { limiter = codes "login"; bucket = codes "a:b" }

abbrev yields : Text → Keyer
yields v r = key v

abbrev nothing : Keyer
nothing r = skip

abbrev user_and_tenant : List Keyer
user_and_tenant = yields (codes "ada") ∷ yields (codes "acme") ∷ []

-- Stands in for HMAC-SHA256.
abbrev prefixed : Text → Text → Text
prefixed secret v = secret ++ v

-- The first of a header and a parameter, neither of which hashes by itself.
abbrev either : KeySpecs
either =
    child (key_spec [] (codes "X-User" ∷ []) [] done done [] [] false)
      (child (key_spec [] [] (codes "user" ∷ []) done done [] [] false) done)

build_keyer-IsImage_example :
    let h = hmac prefixed (codes "s") in
    (true ≡ true)
    × ((r : Request)
        → IsImage h (
            first none
              (some h)
              (header none none (codes "X-User" ∷ [])
                ∷ query_param none none (λ q. []) (codes "user" ∷ [])
                ∷ [])
              r))
unfolding build_keyer from_source parse_normaliser trim_space text_eq kind_fn
build_keyer-IsImage_example =
    build_keyer-IsImage (λ s. none) (λ v4 v6 s. s) (λ b. some end) (λ q. [])
      (hmac prefixed (codes "s")) [] [] [] either done [] [] _ true refl

abbrev ada_acme : List Text
ada_acme = codes "ada" ∷ codes "acme" ∷ []

composite-injective_example : ada_acme ≡ ada_acme
unfolding composite collect join
composite-injective_example =
    composite-injective user_and_tenant post_login post_login ada_acme ada_acme (codes "ada:acme")
      (refl, (refl, tt)) (refl, (refl, tt)) (ground arith) (ground arith) refl refl
