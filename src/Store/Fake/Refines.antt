-- ===== src/Store/Fake/Refines.antt =====
-- `Consume` of internal/store/storetest against the specification of a window.
use forwardlimit.Common.{
  ◌≡◌, ◌∙◌, refl, true, false, Option, none, some, if◌then◌else◌, inl, inr, Bool-cases,
  Option-cases, ltb, arith,
}
use forwardlimit.Common.Int.{ℤ, pos, negsuc, ltb_ℤ, increment}
use forwardlimit.Common.Text.{Text, text_eq, text_eq_refl}
use forwardlimit.Common.Assoc.{lookup, insert, remove, or_zero, lookup-insert, lookup-remove}
use forwardlimit.Store.{Time, Rule, rule_valid, Result, add_time, sub_time}
use forwardlimit.Store.Window.{Phase, counting, blocked, Verdict, step}
use forwardlimit.Store.Fake.{Fake, is_ahead, roll, count_call, decide}

-- How long a rejected caller has to wait: what is left of a block that stands, or a new one.
abbrev pub wait : Option Time → Time → ℤ → Verdict → ℤ
wait none t block v = if v.rejected then block else pos 0
wait (some until) t block v =
    if ltb t until then sub_time until t else if v.rejected then block else pos 0

wait-over :
    (o : Option Time) (t : Time) (block : ℤ) (v : Verdict)
    → is_ahead o t ≡ false
    → wait o t block v ≡ (if v.rejected then block else pos 0)
wait-over none t block v h = refl
wait-over (some until) t block v h = rw h refl

ahead_after : (t : Time) (d : ℤ) → ltb_ℤ (pos 0) d ≡ true → is_ahead (some (add_time t d)) t ≡ true
ahead_after t (pos n) h = ground arith
ahead_after t (negsuc n) h = absurd (ground arith)

module _ {F W : Type 0} where
  -- The phase of a bucket at a time: a count whose window is over is none.
  abbrev pub phase_at : Text → Time → Fake F W → Phase
  phase_at k t f =
      if is_ahead (lookup k f.blocked) t
      then blocked
      else counting (if is_ahead (lookup k f.expires) t then or_zero (lookup k f.counts) else pos 0)

  roll-current :
      (k : Text) (window : ℤ) (t : Time) (f : Fake F W)
      → ltb_ℤ (pos 0) window ≡ true
      → let g = roll k window t f in
        (is_ahead (lookup k g.expires) t ≡ true)
        × (or_zero (lookup k g.counts)
            ≡ (if is_ahead (lookup k f.expires) t then or_zero (lookup k f.counts) else pos 0))
        × (g.blocked ≡ f.blocked)
  unfolding roll
  roll-current k window t f h = elim (Bool-cases (is_ahead (lookup k f.expires) t)) [
    | inl e ↦ rw (e, roll) (e, refl, refl)
    | inr e ↦
        rw
          (
            e,
            roll,
            lookup-insert k k (pos 0) f.counts,
            lookup-insert k k (add_time t window) f.expires,
            text_eq_refl k,
          )
          (ahead_after t window h, refl, refl)
  ]

  count_call-step :
      (k : Text) (rule : Rule) (t : Time) (f : Fake F W)
      → rule_valid rule ≡ true
      → is_ahead (lookup k f.blocked) t ≡ false
      → let v = step rule.limit (phase_at k t f) in
        let (r, g) = count_call k rule t f in
        (r ≡ record {
          blocked = v.rejected;
          count = v.count;
          retry_after = if v.rejected then rule.block else pos 0;
        })
        × (phase_at k t g ≡ v.next)
  unfolding count_call
  count_call-step k rule t f valid h =
      let (running, current, same) = roll-current k rule.window t f (ground arith) in
      let n = increment (or_zero (lookup k (roll k rule.window t f).counts)) in
      elim (Bool-cases (ltb_ℤ rule.limit n)) [
        | inl over ↦
            rw (h, ← current, over, count_call)
              (rw
                (
                  lookup-insert k k (add_time t rule.block) (roll k rule.window t f).blocked,
                  text_eq_refl k,
                  ahead_after t rule.block (ground arith),
                )
                (refl, refl))
        | inr within ↦
            rw (h, ← current, within, count_call)
              (rw
                (
                  same,
                  h,
                  running,
                  lookup-insert k k n (roll k rule.window t f).counts,
                  text_eq_refl k,
                )
                (refl, refl))
      ]

  decide-unblocked :
      (k : Text) (rule : Rule) (t : Time) (f : Fake F W)
      → lookup k f.blocked ≡ none
      → decide k rule t f ≡ count_call k rule t f
  unfolding decide
  decide-unblocked k rule t f e = rw (e, decide) refl

  decide-freed :
      (k : Text) (rule : Rule) (t until : Time) (f : Fake F W)
      → lookup k f.blocked ≡ some until
      → ltb t until ≡ false
      → decide k rule t f ≡ count_call k rule t (record f { blocked = remove k f.blocked })
  unfolding decide
  decide-freed k rule t until f e n = rw (e, n, decide) refl

  abbrev Steps : Text → Rule → Time → Fake F W → Result × Fake F W → Type 0
  Steps k rule t f (r, g) =
      let v = step rule.limit (phase_at k t f) in
      (r ≡ record {
        blocked = v.rejected;
        count = v.count;
        retry_after = wait (lookup k f.blocked) t rule.block v;
      })
      × (phase_at k t g ≡ v.next)

  -- A block that is over, whether its entry is still there or not.
  free-step :
      (k : Text) (rule : Rule) (t : Time) (f g : Fake F W)
      → rule_valid rule ≡ true
      → is_ahead (lookup k f.blocked) t ≡ false
      → is_ahead (lookup k g.blocked) t ≡ false
      → phase_at k t g ≡ phase_at k t f
      → Steps k rule t f (count_call k rule t g)
  free-step k rule t f g valid over free same =
      let (said, moved) = count_call-step k rule t g valid free in
      rw
        (
          wait-over (lookup k f.blocked) t rule.block (step rule.limit (phase_at k t f)) over,
          ← same,
        )
        (said, moved)

  pub decide-step :
      (k : Text) (rule : Rule) (t : Time) (f : Fake F W)
      → rule_valid rule ≡ true
      → Steps k rule t f (decide k rule t f)
  unfolding decide
  decide-step k rule t f valid = elim (Option-cases (lookup k f.blocked)) [
    | inl e ↦
        rw (decide-unblocked k rule t f e)
          (free-step k rule t f f valid (rw e refl) (rw e refl) refl)
    | inr (until, e) ↦ elim (Bool-cases (ltb t until)) [
      | inl y ↦ rw (e, y, decide) (refl, rw (e, y) refl)
      | inr n ↦
          let freed = record f { blocked = remove k f.blocked } in
          let gone : lookup k freed.blocked ≡ none =
            lookup-remove k k f.blocked ∙ rw (text_eq_refl k) refl in
          rw (decide-freed k rule t until f e n) (
            free-step k rule t f freed valid (rw (e, n) refl) (rw gone refl) (rw (gone, e, n) refl))
    ]
  ]

  -- Two states that hold the same for a bucket.
  abbrev Same : Text → Fake F W → Fake F W → Type 0
  Same j g f =
      (lookup j g.counts ≡ lookup j f.counts)
      × (lookup j g.expires ≡ lookup j f.expires)
      × (lookup j g.blocked ≡ lookup j f.blocked)

  roll-other :
      (j k : Text) (window : ℤ) (t : Time) (f : Fake F W)
      → text_eq k j ≡ false
      → Same j (roll k window t f) f
  unfolding roll
  roll-other j k window t f e =
      ground
        (arith, lookup-insert k j (pos 0) f.counts, lookup-insert k j (add_time t window) f.expires)

  count_call-other :
      (j k : Text) (rule : Rule) (t : Time) (f : Fake F W)
      → text_eq k j ≡ false
      → Same j (count_call k rule t f).1 f
  unfolding count_call
  count_call-other j k rule t f e =
      let (c, x, b) = roll-other j k rule.window t f e in
      let g = roll k rule.window t f in
      let n = increment (or_zero (lookup k g.counts)) in
      elim (Bool-cases (ltb_ℤ rule.limit n)) [
        | inl over ↦
            rw (over, count_call)
              (rw
                (
                  lookup-remove k j (insert k n g.counts),
                  lookup-remove k j g.expires,
                  lookup-insert k j n g.counts,
                  lookup-insert k j (add_time t rule.block) g.blocked,
                  e,
                )
                (c, x, b))
        | inr within ↦ rw (within, count_call) (rw (lookup-insert k j n g.counts, e) (c, x, b))
      ]

  pub decide-other :
      (j k : Text) (rule : Rule) (t : Time) (f : Fake F W)
      → text_eq k j ≡ false
      → Same j (decide k rule t f).1 f
  unfolding decide
  decide-other j k rule t f e = elim (Option-cases (lookup k f.blocked)) [
    | inl none_yet ↦ rw (decide-unblocked k rule t f none_yet) (count_call-other j k rule t f e)
    | inr (until, there) ↦ elim (Bool-cases (ltb t until)) [
      | inl y ↦ rw (there, y, decide) (refl, refl, refl)
      | inr n ↦
          let freed = record f { blocked = remove k f.blocked } in
          let (c, x, b) = count_call-other j k rule t freed e in
          rw (decide-freed k rule t until f there n)
            (c, x, b ∙ lookup-remove k j f.blocked ∙ rw e refl)
    ]
  ]
