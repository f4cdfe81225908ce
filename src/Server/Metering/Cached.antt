-- ===== src/Server/Metering/Cached.antt =====
-- A cache, of internal/store/blockcache, before a store that lets exactly the first calls through.
use forwardlimit.Common.{
  ℕ, suc, ◌≡◌, ◌∙◌, refl, sym, subst, ap, Bool, true, false, Option, none, some, List, [], ◌∷◌, ◌⊎◌,
  inl, inr, All, Bool-cases, Option-cases, if◌then◌else◌, leb, arith,
}
use forwardlimit.Common.Int.{ℤ}
use forwardlimit.Common.Text.{Text, text_eq→eq}
use forwardlimit.Common.Assoc.{lookup, lookup-All}
use forwardlimit.Store.{
  Store, Clock, Time, Key, key_string, Rule, Result, Reply, ok, err, panicked, sanitize_bucket,
}
use forwardlimit.Store.Redis.{append_cancel}
use forwardlimit.Store.Blockcache.{
  Blockcache, cache_store, live, remember, store_verdict, serve, consume,
}
use forwardlimit.Store.Blockcache.Verdicts.{store_verdict-All, consume_miss, consume_hit, live-some}
use forwardlimit.Server.Assembly.{beside}
use forwardlimit.Server.Metering.{Meters, same_bucket, bump}

module _ {W : Type 0} (clock : Clock W) (P : W → Type 0)
    (ticks : (w : W) → P w → P (clock.now w).1) where
  live-keeps : (o : Option Time) (w : W) → P w → P (live clock o w).1
  unfolding live
  live-keeps none w h = h
  live-keeps (some until) w h = ticks w h

  remember-keeps :
      (j : Text) (ttl : ℤ) (c : Blockcache) (w : W) → P w → P (remember clock j ttl c w).1
  unfolding remember
  remember-keeps j ttl c w h = let t = ticks w h in ground arith

  store_verdict-keeps :
      (j : Text) (r : Reply Result) (c : Blockcache) (w : W)
      → P w
      → P (store_verdict clock j r c w).1
  unfolding store_verdict
  store_verdict-keeps j (ok res) c w h =
      let stored = remember-keeps j res.retry_after c w h in ground arith
  store_verdict-keeps j (err e) c w h = h
  store_verdict-keeps j panicked c w h = h

module _ (limit : ℕ) where
  -- The calls that were made, and those that came to the store: the same, or past the limit.
  abbrev Agrees : (Text → ℕ) → (Text → ℕ) → Type 0
  Agrees count m =
      (x : Text) → (count x ≡ m x) ⊎ ((leb limit (count x) ≡ true) × (leb limit (m x) ≡ true))

  -- Buckets that the store does not tell apart have the same number of calls.
  abbrev pub IsCoherent : (Text → ℕ) → Type 0
  IsCoherent count = (x y : Text) → same_bucket x y ≡ true → count x ≡ count y

  bump-IsCoherent : (b : Text) (count : Text → ℕ) → IsCoherent count → IsCoherent (bump b count)
  bump-IsCoherent b count h x y e =
      let one = text_eq→eq (sanitize_bucket x) (sanitize_bucket y) e in
      rw one (ap (λ n. if same_bucket y b then suc n else n) (h x y e))

  Agrees-leb :
      (count m : Text → ℕ) (x : Text) → Agrees count m → leb limit (count x) ≡ leb limit (m x)
  Agrees-leb count m x h = elim (h x) [ inl e ↦ ap (leb limit) e | inr (p, q) ↦ p ∙ sym q ]

  bump-over :
      (b : Text) (count : Text → ℕ) (x : Text)
      → leb limit (count x) ≡ true
      → leb limit (bump b count x) ≡ true
  bump-over b count x h = ground arith

  -- A call that the cache answers, and one that comes to the store.
  Agrees-hit :
      (b : Text) (count m : Text → ℕ)
      → IsCoherent count
      → leb limit (count b) ≡ true
      → Agrees count m
      → Agrees (bump b count) m
  Agrees-hit b count m coherent over h x = elim (Bool-cases (same_bucket x b)) [
    | inr n ↦ rw n (h x)
    | inl y ↦
        let here = ap (leb limit) (coherent x b y) ∙ over in
        inr (bump-over b count x here, sym (Agrees-leb count m x h) ∙ here)
  ]

  Agrees-miss : (b : Text) (count m : Text → ℕ) → Agrees count m → Agrees (bump b count) (bump b m)
  Agrees-miss b count m h x = elim (h x) [
    | inl e ↦ inl (ap (λ n. if same_bucket x b then suc n else n) e)
    | inr (p, q) ↦ inr (bump-over b count x p, bump-over b m x q)
  ]

abbrev is_blocked : Reply Result → Bool
is_blocked (ok r) = r.blocked
is_blocked (err e) = false
is_blocked panicked = false

module _ {W : Type 0} (clock : Clock W) (name : Text) (rule : Rule) (limit : ℕ)
    (InPlay : Text → Type 0) (st : Store W) (a : Meters st clock name rule limit InPlay) where
  abbrev key_in : Text → Key
  key_in b = record { limiter = name; bucket = b }

  -- An entry is of a bucket that is past the limit.
  abbrev IsOver : (Text → ℕ) → Text → Time → Type 0
  IsOver count k u = (x : Text) → k ≡ key_string (key_in x) → leb limit (count x) ≡ true

  abbrev Holds : (Text → ℕ) → Blockcache → Type 0
  Holds count c = All (λ e. IsOver count e.0 e.1) c.entries

  record CacheAt (count : Text → ℕ) (s : Blockcache × W) : Type 0 where
    coherent : IsCoherent limit count
    holds : Holds count s.0
    store_count : Text → ℕ
    agrees : Agrees limit count store_count
    at : a.At store_count s.1

  All-weaken {ℓ κ} :
      {A : Type ℓ} (P Q : A → Type κ) (xs : List A) → ((x : A) → P x → Q x) → All P xs → All Q xs
  All-weaken P Q [] f h = tt
  All-weaken P Q (x ∷ xs) f h = (f x h.0, All-weaken P Q xs f h.1)

  bump-Holds :
      (b : Text) (count : Text → ℕ) (c : Blockcache) → Holds count c → Holds (bump b count) c
  bump-Holds b count c h =
      All-weaken _ _ c.entries (λ e over x same. bump-over limit b count x (over x same)) h

  own_bucket : (b x : Text) → key_string (key_in b) ≡ key_string (key_in x) → b ≡ x
  own_bucket b x e = let tails = append_cancel name _ _ e in ground arith

  new_entry :
      (b : Text) (count : Text → ℕ) (res res' : Result) (x : Text)
      → res.blocked ≡ leb limit (count b)
      → ok res ≡ ok res'
      → res'.blocked ≡ true
      → key_string (key_in b) ≡ key_string (key_in x)
      → leb limit (bump b count x) ≡ true
  new_entry b count res res' x blocks one blocked same =
      let over : leb limit (count b) ≡ true = sym blocks ∙ ap is_blocked one ∙ blocked in
      subst (λ y. leb limit (bump b count y) ≡ true) (own_bucket b x same)
        (bump-over limit b count b over)

  cache-consumes :
      (b : Text) (count : Text → ℕ) (c : Blockcache) (w : W)
      → InPlay b
      → CacheAt count (c, w)
      → let r = consume clock st (key_in b) rule (c, w) in
        ((res : Result) × (res.blocked ≡ leb limit (count b)) × (r.0 ≡ ok res))
        × CacheAt (bump b count) r.1
  unfolding serve
  cache-consumes b count c w plays h =
      let o = lookup (key_string (key_in b)) c.entries in
      let w' = (live clock o w).1 in
      let at' = live-keeps clock (a.At h.store_count) (a.ticks h.store_count) o w h.at in
      elim (Option-cases (live clock o w).0) [
        | inr (until, there) ↦
            let old = live-some clock st o w until there in
            let over =
              lookup-All (IsOver count) (key_string (key_in b)) until c.entries h.holds old.0 b
                refl in
            rw (consume_hit clock st (key_in b) rule c w until there) (
              (_, sym over, refl),
              record {
                coherent = bump-IsCoherent limit b count h.coherent;
                holds = bump-Holds b count c h.holds;
                store_count = h.store_count;
                agrees = Agrees-hit limit b count h.store_count h.coherent over h.agrees;
                at = a.ticks h.store_count w' at';
              },
            )
        | inl missed ↦
            let ((res, blocks, e), next) = a.consumes b h.store_count w' plays at' in
            let same = sym (Agrees-leb limit count h.store_count b h.agrees) in
            rw (consume_miss clock st (key_in b) rule c w missed) (
              (res, blocks ∙ same, e),
              record {
                coherent = bump-IsCoherent limit b count h.coherent;
                holds =
                    store_verdict-All clock (IsOver (bump b count)) (key_string (key_in b))
                      (st.consume (key_in b) rule w').0 c (st.consume (key_in b) rule w').1
                      (λ res' u said blocked _ _ x one.
                        new_entry b count res res' x (blocks ∙ same) (sym e ∙ said) blocked one)
                      (bump-Holds b count c h.holds);
                store_count = bump b h.store_count;
                agrees = Agrees-miss limit b count h.store_count h.agrees;
                at =
                    store_verdict-keeps clock (a.At (bump b h.store_count))
                      (a.ticks (bump b h.store_count)) (key_string (key_in b))
                      (st.consume (key_in b) rule w').0 c (st.consume (key_in b) rule w').1 next;
              },
            )
      ]

  pub cache-Meters :
      (ad : Meters (cache_store st clock) (beside clock) name rule limit InPlay) × ((count : Text
            → ℕ)
          (c : Blockcache) (w : W)
        → c.entries ≡ []
        → IsCoherent limit count
        → a.At count w
        → ad.At count (c, w))
  cache-Meters = (
    record {
      At = CacheAt;
      ticks = λ count s h. record {
        coherent = h.coherent;
        holds = h.holds;
        store_count = h.store_count;
        agrees = h.agrees;
        at = a.ticks h.store_count s.1 h.at;
      };
      consumes = λ b count s plays h. cache-consumes b count s.0 s.1 plays h;
    },
    λ count c w empty coherent at. record {
      coherent = coherent;
      holds = rw empty tt;
      store_count = count;
      agrees = λ x. inl refl;
      at = at;
    },
  )
