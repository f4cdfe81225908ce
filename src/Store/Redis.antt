-- ===== src/Store/Redis.antt =====
-- internal/store/redisstore/redisstore.go: `Consume`, `seconds` and the script of the window. The
-- commands of Redis and the client that runs a script are parameters.
pub mod Laws
pub mod Refines
pub mod Consume
pub mod Tokens
pub mod Refill
pub mod Grants
pub mod Expiry
pub mod Isolation
pub mod Spending
pub mod Connect
use forwardlimit.Common.{
  ℕ, suc, ◌+◌, ◌-◌, ◌*◌, ◌/◌, ◌≡◌, refl, ap, sym, ◌∙◌, ◌&&◌, not, List, [], ◌∷◌, ◌++◌,
  if◌then◌else◌, arith,
}
use forwardlimit.Common.Int.{ℤ, pos, negsuc, ltb_ℤ, leb_ℤ, wrap}
use forwardlimit.Common.Text.{Text, codes, Lacks, cut_byte, cut_byte-append}
use forwardlimit.Store.{
  Key, Rule, rule_valid, Result, Reply, ok, err, panicked, other_error, sanitize_bucket,
}

-- The commands that the script calls: TTL, INCR, EXPIRE, SET with EX, and DEL.
pub record Commands (W : Type 0) : Type 0 where
  pub ttl : Text → W → ℤ × W
  pub incr : Text → W → ℤ × W
  pub expire : Text → ℤ → W → W
  pub set_ex : Text → Text → ℤ → W → W
  pub del : Text → W → W

unfoldable pub seconds : ℤ → ℤ
seconds (pos n) = if leb_ℤ (pos n) (pos 0) then pos 1 else pos ((n + 999_999_999) / 1_000_000_000)
seconds (negsuc n) = pos 1

-- `time.Duration(n) * time.Second`
unfoldable pub of_seconds : ℤ → ℤ
unfolding wrap
of_seconds (pos n) = wrap (pos (n * 1_000_000_000))
of_seconds (negsuc n) = wrap (negsuc (suc n * 1_000_000_000 - 1))

-- What both keys of a bucket start with; the braces make its hash tag.
unfoldable pub base : Text → Key → Text
unfolding sanitize_bucket
base prefix k = prefix ++ (k.limiter ++ (b':' ∷ b'{' ∷ sanitize_bucket k.bucket ++ (b'}' ∷ [])))

abbrev pub from_script : Reply (List ℤ) → Reply Result
from_script (ok (b ∷ n ∷ t ∷ [])) =
    ok (record {
      blocked = leb_ℤ b (pos 1) && leb_ℤ (pos 1) b;
      count = n;
      retry_after = of_seconds t;
    })
from_script (ok raw) = err (other_error (codes "unexpected script result length"))
from_script (err e) = err e
from_script panicked = panicked

module _ {W : Type 0} (redis : Commands W) where
  -- The script `decide`.
  unfoldable pub decide : Text → Text → ℤ → ℤ → ℤ → W → List ℤ × W
  decide counter marker limit window block w =
      let (block_ttl, w1) = redis.ttl marker w in
      let (count, w2) = redis.incr counter w1 in
      let w3 =
        if leb_ℤ count (pos 1) && leb_ℤ (pos 1) count then redis.expire counter window w2 else w2 in
      if ltb_ℤ (pos 0) block_ttl
      then (pos 1 ∷ negsuc 0 ∷ block_ttl ∷ [], w1)
      else if ltb_ℤ limit count
      then (
        pos 1 ∷ count ∷ block ∷ [],
        redis.del counter (redis.set_ex marker (codes "1") block w3),
      )
      else (pos 0 ∷ count ∷ pos 0 ∷ [], w3)

  -- `Consume`; `run` is the client, which reaches the server or fails.
  unfoldable pub consume :
      ((W → List ℤ × W) → W → Reply (List ℤ) × W) → Text → Key → Rule → W → Reply Result × W
  unfolding base seconds decide
  consume run prefix k rule w =
      let b = base prefix k in
      let script =
        decide (b ++ codes ":c") (b ++ codes ":b") rule.limit (seconds rule.window)
          (seconds rule.block) in
      let (raw, w') = run script w in
      if not (rule_valid rule)
      then (err (other_error (codes "invalid rule")), w)
      else (from_script raw, w')

pub append_cancel : (p s t : Text) → p ++ s ≡ p ++ t → s ≡ t
append_cancel [] s t e = e
append_cancel (c ∷ p) s t e = append_cancel p s t (ground arith)

pub drop_last : (s t : Text) (c : ℕ) → s ++ (c ∷ []) ≡ t ++ (c ∷ []) → s ≡ t
drop_last [] [] c e = refl
drop_last [] (d ∷ []) c e = absurd (ground arith)
drop_last [] (d ∷ f ∷ t) c e = absurd (ground arith)
drop_last (d ∷ []) [] c e = absurd (ground arith)
drop_last (d ∷ f ∷ s) [] c e = absurd (ground arith)
drop_last (d ∷ s) (f ∷ t) c e = let rest = drop_last s t c (ground arith) in ground arith

-- Two buckets share their keys in Redis only if they are of the same limiter and are the same but for
-- braces, as long as no limiter's name holds a colon.
pub base-injective :
    (prefix : Text) (j k : Key)
    → Lacks b':' j.limiter
    → Lacks b':' k.limiter
    → base prefix j ≡ base prefix k
    → (j.limiter ≡ k.limiter) × (sanitize_bucket j.bucket ≡ sanitize_bucket k.bucket)
unfolding base
base-injective prefix j k hj hk e =
    let after = λ (b : Text). b'{' ∷ sanitize_bucket b ++ (b'}' ∷ []) in
    let whole = append_cancel prefix _ _ e in
    let cut =
      sym (cut_byte-append b':' j.limiter (after j.bucket) hj)
      ∙ ap (cut_byte b':') whole
      ∙ cut_byte-append b':' k.limiter (after k.bucket) hk in
    let tails : sanitize_bucket j.bucket ++ (b'}' ∷ []) ≡ sanitize_bucket k.bucket ++ (b'}' ∷ []) =
      ground arith in
    (ground arith, drop_last _ _ b'}' tails)
