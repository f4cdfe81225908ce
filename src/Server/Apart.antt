-- ===== src/Server/Apart.antt =====
-- The limiters of one file, in internal/config/file.go, and the keys that they use in Redis, in
-- internal/store/redisstore/redisstore.go.
use forwardlimit.Common.{
  ◌≡◌, ◌≢◌, ◌∙◌, sym, ap, Bool, false, Option, List, [], ◌∷◌, ◌++◌, All, map, inl, inr, Bool-cases,
  subst,
}
use mathlib.Core.List.{map-append}
use forwardlimit.Common.Int.{ℤ}
use forwardlimit.Common.Text.{Text, Lacks, text_eq, text_eq→eq}
use forwardlimit.Store.{Key}
use forwardlimit.Store.Redis.{base, base-injective}
use forwardlimit.Config.{LimiterSpec, File}
use forwardlimit.Config.Validation.{validate}
use forwardlimit.Config.Names.{AllNew, validate_names}

All-middle {ℓ κ} :
    {A : Type ℓ} (P : A → Type κ) (before : List A) (x : A) (after : List A)
    → All P (before ++ (x ∷ after))
    → P x × All P after
All-middle P [] x after h = h
All-middle P (y ∷ before) x after h = All-middle P before x after h.1

-- A name is none of those that were seen before it.
AllNew-seen :
    (seen between : List Text) (m : Text) (after : List Text)
    → AllNew seen (between ++ (m ∷ after))
    → All (λ s. m ≢ s) seen
AllNew-seen seen [] m after h = h.0
AllNew-seen seen (b ∷ between) m after h = (AllNew-seen (b ∷ seen) between m after h.1).1

AllNew-ne :
    (seen before : List Text) (n : Text) (between : List Text) (m : Text) (after : List Text)
    → AllNew seen (before ++ (n ∷ (between ++ (m ∷ after))))
    → m ≢ n
AllNew-ne seen [] n between m after h = (AllNew-seen (n ∷ seen) between m after h.1).0
AllNew-ne seen (b ∷ before) n between m after h = AllNew-ne (b ∷ seen) before n between m after h.1

abbrev name_of : LimiterSpec → Text
name_of l = l.name

-- Limiters never share a counter: in a file in which `Validate` finds no problem, whatever the buckets, two
-- limiters use different keys in Redis, as the texts of all keys of a bucket go on from its base.
pub limiters_apart :
    (exists : Text → Bool) (atoi : Text → Option ℤ) (f : File)
    (before between after : List LimiterSpec) (l m : LimiterSpec) (prefix a b : Text)
    → validate exists atoi f ≡ []
    → f.limiters ≡ before ++ (l ∷ (between ++ (m ∷ after)))
    → text_eq
        (base prefix (record { limiter = l.name; bucket = a }))
        (base prefix (record { limiter = m.name; bucket = b }))
      ≡ false
limiters_apart exists atoi f before between after l m prefix a b good here =
    let (lacking, new) = validate_names exists atoi f good in
    let split : map name_of f.limiters
        ≡ map name_of before ++ (l.name ∷ (map name_of between ++ (m.name ∷ map name_of after))) =
      ap (map name_of) here ∙ simp map-append in
    let (l_lacks, rest) =
      All-middle (Lacks b':') (map name_of before) l.name _
        (subst (All (Lacks b':')) split lacking) in
    let (m_lacks, rest') = All-middle (Lacks b':') (map name_of between) m.name _ rest in
    let differ =
      AllNew-ne [] (map name_of before) l.name (map name_of between) m.name (map name_of after)
        (subst (AllNew []) split new) in
    let j : Key = record { limiter = l.name; bucket = a } in
    let k : Key = record { limiter = m.name; bucket = b } in
    elim (Bool-cases (text_eq (base prefix j) (base prefix k))) [
      | inr n ↦ n
      | inl y ↦
          absurd (differ (sym (base-injective prefix j k l_lacks m_lacks (text_eq→eq _ _ y)).0))
    ]
