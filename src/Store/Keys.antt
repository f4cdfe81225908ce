-- ===== src/Store/Keys.antt =====
-- `Key.String` and `SanitizeBucket` of internal/store/store.go.
use forwardlimit.Common.{
  ◌≡◌, ◌≢◌, refl, ap, sym, ◌∙◌, false, ◌||◌, inl, inr, Bool-cases, [], ◌∷◌, arith, All,
}
use forwardlimit.Common.Text.{Text, Lacks, cut_byte-append, cut_byte, contains_byte}
use forwardlimit.Store.{Key, key_string, sanitize_bucket, strip_braces}

-- Two keys render alike only if they are the same, as long as no limiter's name holds a colon; so the
-- block cache, whose map is keyed by the rendering, never mixes two buckets of such limiters.
pub key_string-injective :
    (j k : Key) → Lacks b':' j.limiter → Lacks b':' k.limiter → key_string j ≡ key_string k → j ≡ k
key_string-injective j k hj hk e =
    let cut =
      sym (cut_byte-append b':' j.limiter j.bucket hj)
      ∙ ap (cut_byte b':') e
      ∙ cut_byte-append b':' k.limiter k.bucket hk in
    ground arith

-- Braces do not survive in a bucket, and all else does, in its order.
abbrev pub NoBrace : Text → Type 0
NoBrace = All (λ c. (c ≢ b'{') × (c ≢ b'}'))

strip_braces-NoBrace : (s : Text) → NoBrace (strip_braces s)
unfolding strip_braces
strip_braces-NoBrace [] = tt
strip_braces-NoBrace (c ∷ s) = ground (arith, strip_braces-NoBrace s)

contains→NoBrace : (s : Text) → (contains_byte b'{' s || contains_byte b'}' s) ≡ false → NoBrace s
unfolding contains_byte
contains→NoBrace [] h = tt
contains→NoBrace (c ∷ s) h = ground (arith, contains→NoBrace s)

strip_braces-NoBrace_id : (s : Text) → NoBrace s → strip_braces s ≡ s
unfolding strip_braces
strip_braces-NoBrace_id [] h = refl
strip_braces-NoBrace_id (c ∷ s) h = ground (arith, strip_braces-NoBrace_id s)

sanitize_bucket_cases :
    (s : Text) → NoBrace (sanitize_bucket s) × (NoBrace s → sanitize_bucket s ≡ s)
unfolding sanitize_bucket
sanitize_bucket_cases s = elim (Bool-cases (contains_byte b'{' s || contains_byte b'}' s)) [
  | inl e ↦ rw e (strip_braces-NoBrace s, strip_braces-NoBrace_id s)
  | inr e ↦ rw e (contains→NoBrace s e, λ _. refl)
]

-- A sanitised bucket holds no brace, so the hash tag that the store wraps round it ends where it
-- should, and sanitising it again changes nothing.
sanitize_bucket-NoBrace :
    (s : Text)
    → NoBrace (sanitize_bucket s) × (sanitize_bucket (sanitize_bucket s) ≡ sanitize_bucket s)
sanitize_bucket-NoBrace s =
    let clean = (sanitize_bucket_cases s).0 in
    (clean, (sanitize_bucket_cases (sanitize_bucket s)).1 clean)
