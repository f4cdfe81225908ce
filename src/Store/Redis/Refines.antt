-- ===== src/Store/Redis/Refines.antt =====
-- The script of the window in internal/store/redisstore against its specification.
use forwardlimit.Common.{
  ℕ, suc, ◌-◌, ◌≡◌, ◌∙◌, refl, ap, Bool, true, false, ◌&&◌, none, some, List, [], ◌∷◌,
  if◌then◌else◌, ◌⊎◌, inl, inr, Bool-cases, Option-cases, arith,
}
use forwardlimit.Common.Int.{ℤ, pos, negsuc, ltb_ℤ, leb_ℤ, increment, increment-pos, ◌<ℤ◌, two_63}
use forwardlimit.Common.Text.{Text, codes, text_eq, text_eq_sym, text_eq_refl}
use forwardlimit.Common.Assoc.{is_some, or_zero}
use forwardlimit.Store.Window.{Phase, counting, blocked, Verdict, step}
use forwardlimit.Store.Redis.{Commands, decide}
use forwardlimit.Store.Redis.Laws.{Laws}

module _ {W : Type 0} (redis : Commands W) (laws : Laws redis) (counter marker : Text) where
  -- The bucket is blocked while the marker has time left.
  abbrev pub phase : W → Phase
  phase w =
      if ltb_ℤ (pos 0) (laws.left marker w)
      then blocked
      else counting (or_zero (laws.value counter w))

  -- No key stays for ever: a counter that is there expires.
  abbrev pub IsTimed : W → Type 0
  IsTimed w = (laws.value counter w ≡ none) ⊎ (pos 0 <ℤ laws.left counter w)

  -- What every call keeps of a bucket: its counter expires, and has not reached the largest int64.
  pub record IsTidy (w : W) : Type 0 where
    pub timed : IsTimed w
    pub fits : or_zero (laws.value counter w) <ℤ pos (two_63 - 1)

-- How long a rejected caller has to wait: `left` where the block stands, `block` where it is new.
abbrev pub wait : ℤ → ℤ → Phase → Verdict → ℤ
wait left block blocked v = left
wait left block (counting n) v = if v.rejected then block else pos 0

-- The three numbers that stand for a verdict.
abbrev pub reply_of : ℤ → ℤ → Phase → Verdict → List ℤ
reply_of left block p v = (if v.rejected then pos 1 else pos 0) ∷ v.count ∷ wait left block p v ∷ []

module _ {W : Type 0} (redis : Commands W) (laws : Laws redis) (counter marker : Text)
    (apart : text_eq counter marker ≡ false) (limit : ℤ) (m n : ℕ) (w : W)
    (fits : or_zero (laws.value counter w) <ℤ pos (two_63 - 1)) where
  abbrev after : List ℤ × W
  after = decide redis counter marker limit (pos (suc m)) (pos (suc n)) w

  decide-blocked :
      ltb_ℤ (pos 0) (laws.left marker w) ≡ true
      → after ≡ (pos 1 ∷ negsuc 0 ∷ laws.left marker w ∷ [], (redis.ttl marker w).1)
  unfolding decide
  decide-blocked h = ground (arith, laws.ttl_reply marker w)

  -- The states between the commands, where the bucket is not blocked.
  abbrev asked : W
  asked = (redis.ttl marker w).1

  abbrev total : ℤ
  total = increment (or_zero (laws.value counter w))

  abbrev counted : W
  counted = (redis.incr counter asked).1

  abbrev is_first : Bool
  is_first = leb_ℤ total (pos 1) && leb_ℤ (pos 1) total

  abbrev timed : W
  timed = if is_first then redis.expire counter (pos (suc m)) counted else counted

  fits_asked : or_zero (laws.value counter asked) <ℤ pos (two_63 - 1)
  fits_asked = rw (laws.ttl_value counter marker w) fits

  incr-total : (redis.incr counter asked).0 ≡ total
  incr-total =
      laws.incr_reply counter asked fits_asked
      ∙ ap (λ o. increment (or_zero o)) (laws.ttl_value counter marker w)

  value-counted : laws.value counter counted ≡ some total
  value-counted = ground (
    arith,
    laws.incr_value counter counter asked fits_asked,
    laws.ttl_value counter marker w,
    text_eq_refl counter,
  )

  left-counted :
      laws.left counter counted
      ≡ (if is_some (laws.value counter w) then laws.left counter w else negsuc 0)
  left-counted = ground (
    arith,
    laws.incr_left counter counter asked fits_asked,
    laws.ttl_value counter marker w,
    laws.ttl_left counter marker w,
    text_eq_refl counter,
  )

  marker-counted : laws.left marker counted ≡ laws.left marker w
  marker-counted = ground (
    arith,
    laws.incr_left marker counter asked fits_asked,
    laws.ttl_left marker marker w,
    text_eq_sym marker counter,
  )

  value-timed : laws.value counter timed ≡ some total
  value-timed = ground (arith, value-counted, laws.expire_value counter counter m counted)

  left-timed : laws.left counter timed ≡ (
      if is_first
      then pos (suc m)
      else if is_some (laws.value counter w)
      then laws.left counter w
      else negsuc 0)
  left-timed = ground (
    arith,
    value-counted,
    left-counted,
    laws.expire_left counter counter m counted,
    text_eq_refl counter,
  )

  marker-timed : laws.left marker timed ≡ laws.left marker w
  marker-timed =
      ground (
        arith,
        marker-counted,
        laws.expire_left marker counter m counted,
        text_eq_sym marker counter,
      )

  -- The state that a new block leaves.
  abbrev shut : W
  shut = redis.del counter (redis.set_ex marker (codes "1") (pos (suc n)) timed)

  value-shut : laws.value counter shut ≡ none
  value-shut = ground (
    arith,
    laws.del_value counter counter (redis.set_ex marker (codes "1") (pos (suc n)) timed),
    text_eq_refl counter,
  )

  marker-shut : laws.left marker shut ≡ pos (suc n)
  marker-shut = ground (
    arith,
    laws.del_left marker counter (redis.set_ex marker (codes "1") (pos (suc n)) timed),
    laws.set_left marker marker (codes "1") n timed,
    text_eq_refl marker,
    text_eq_sym marker counter,
  )

  decide-counting :
      ltb_ℤ (pos 0) (laws.left marker w) ≡ false
      → after ≡ (
          if ltb_ℤ limit total
          then (pos 1 ∷ total ∷ pos (suc n) ∷ [], shut)
          else (pos 0 ∷ total ∷ pos 0 ∷ [], timed))
  unfolding decide
  decide-counting h = rw (laws.ttl_reply marker w, h, incr-total, decide) refl

  first_total : increment (pos 0) ≡ pos 1
  first_total = increment-pos 0 (omega arith)

  new_counter : laws.value counter w ≡ none → pos 0 <ℤ laws.left counter timed
  new_counter e = rw left-timed (rw (e, first_total) (ground arith))

  -- Where it counts, a counter keeps its time, and a new one gets that of the window.
  timed-IsTimed : IsTimed redis laws counter marker w → IsTimed redis laws counter marker timed
  timed-IsTimed (inl none_yet) = inr (new_counter none_yet)
  timed-IsTimed (inr running) = elim (Option-cases (laws.value counter w)) [
    | inl e ↦ inr (new_counter e)
    | inr (k, e) ↦ inr (rw left-timed (ground (arith, e, running)))
  ]

  pub decide-step :
      limit <ℤ pos (two_63 - 1)
      → IsTimed redis laws counter marker w
      → let v = step limit (phase redis laws counter marker w) in
        (after.0
          ≡ reply_of (laws.left marker w) (pos (suc n)) (phase redis laws counter marker w) v)
        × (phase redis laws counter marker after.1 ≡ v.next)
        × IsTidy redis laws counter marker after.1
  decide-step below t = elim (Bool-cases (ltb_ℤ (pos 0) (laws.left marker w))) [
    | inl shut_before ↦
        rw (decide-blocked shut_before, shut_before)
          (
            refl,
            rw (laws.ttl_left marker marker w, shut_before) refl,
            record {
              timed = rw (laws.ttl_value counter marker w, laws.ttl_left counter marker w) t;
              fits = fits_asked;
            },
          )
    | inr open_before ↦ elim (Bool-cases (ltb_ℤ limit total)) [
      | inl over ↦
          rw (decide-counting open_before, open_before, over)
            (
              refl,
              rw marker-shut (ground arith),
              record { timed = inl value-shut; fits = rw value-shut (omega arith) },
            )
      | inr within ↦
          rw (decide-counting open_before, open_before, within)
            (
              refl,
              rw (marker-timed, open_before, value-timed) refl,
              record { timed = timed-IsTimed t; fits = rw value-timed (ground (arith, within)) },
            )
    ]
  ]
