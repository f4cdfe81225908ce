-- ===== src/Tests/Redis.antt =====
-- A server that keeps, for each key, an integer and the seconds that are left, and what
-- internal/store/redisstore does with it.
use forwardlimit.Common.{
  suc, ◌≡◌, ◌∙◌, ap, sym, refl, Option, none, some, List, [], ◌∷◌, if◌then◌else◌, arith, inl, inr,
  Bool-cases,
}
use forwardlimit.Common.Int.{ℤ, pos, negsuc, increment}
use forwardlimit.Common.Text.{Text, codes, text_eq, text_eq→eq}
use forwardlimit.Common.Assoc.{is_some, or_zero}
use forwardlimit.Store.{Key, Rule, ok}
use forwardlimit.Store.Redis.Isolation.{AreTidy, own, run, consume-run}
use forwardlimit.Store.Window.{counting, step}
use forwardlimit.Store.Redis.{Commands, consume, seconds, of_seconds}
use forwardlimit.Store.Redis.Laws.{Laws}
use forwardlimit.Store.Redis.Refines.{wait}
use forwardlimit.Store.Redis.Consume.{direct, marker_key, phase_of, IsTidyFor, consume-step}
use forwardlimit.Tests.{five_a_minute}

abbrev pub Table : Type 0
Table = Text → Option (ℤ × ℤ)

abbrev put : Text → Option (ℤ × ℤ) → Table → Table
put k o t j = if text_eq j k then o else t j

abbrev number_of : Option (ℤ × ℤ) → Option ℤ
number_of none = none
number_of (some (n, s)) = some n

abbrev seconds_of : Option (ℤ × ℤ) → ℤ
seconds_of none = negsuc 1
seconds_of (some (n, s)) = s

abbrev bumped : Option (ℤ × ℤ) → ℤ × ℤ
bumped none = (increment (pos 0), negsuc 0)
bumped (some (n, s)) = (increment n, s)

abbrev timed : ℤ → Option (ℤ × ℤ) → Option (ℤ × ℤ)
timed s none = none
timed s (some (n, r)) = some (n, s)

abbrev pub server : Commands Table
server = record {
  ttl = λ k t. (seconds_of (t k), t);
  incr = λ k t. ((bumped (t k)).0, put k (some (bumped (t k))) t);
  expire = λ k s t. put k (timed s (t k)) t;
  set_ex = λ k v s t. put k (some (pos 1, s)) t;
  del = λ k t. put k none t;
}

incr_value :
    (j k : Text) (t : Table)
    → number_of (put k (some (bumped (t k))) t j)
      ≡ (if text_eq j k then some (increment (or_zero (number_of (t k)))) else number_of (t j))
incr_value j k t = ground arith

incr_left :
    (j k : Text) (t : Table)
    → seconds_of (put k (some (bumped (t k))) t j) ≡ (
        if text_eq j k
        then (if is_some (number_of (t k)) then seconds_of (t k) else negsuc 0)
        else seconds_of (t j))
incr_left j k t = ground arith

number_of-timed : (s : ℤ) (o : Option (ℤ × ℤ)) → number_of (timed s o) ≡ number_of o
number_of-timed s none = refl
number_of-timed s (some (n, r)) = refl

expire_value :
    (j k : Text) (s : ℤ) (t : Table) → number_of (put k (timed s (t k)) t j) ≡ number_of (t j)
expire_value j k s t = elim (Bool-cases (text_eq j k)) [
  | inl e ↦ rw e (number_of-timed s (t k) ∙ ap (λ i. number_of (t i)) (sym (text_eq→eq j k e)))
  | inr e ↦ rw e refl
]

expire_left :
    (j k : Text) (s : ℤ) (t : Table)
    → seconds_of (put k (timed s (t k)) t j) ≡ (
        if text_eq j k
        then (if is_some (number_of (t k)) then s else seconds_of (t k))
        else seconds_of (t j))
expire_left j k s t = ground arith

pub server_laws : Laws server
server_laws = record {
  value = λ k t. number_of (t k);
  left = λ k t. seconds_of (t k);
  ttl_reply = λ k t. refl;
  ttl_value = λ j k t. refl;
  ttl_left = λ j k t. refl;
  incr_reply = λ k t h. ground arith;
  incr_value = λ j k t h. incr_value j k t;
  incr_left = λ j k t h. incr_left j k t;
  expire_value = λ j k n t. expire_value j k (pos (suc n)) t;
  expire_left = λ j k n t. expire_left j k (pos (suc n)) t;
  set_value = λ j k v n t h. ground arith;
  set_left = λ j k v n t. ground arith;
  del_value = λ j k t. ground arith;
  del_left = λ j k t. ground arith;
}

abbrev pub nobody : Table
nobody j = none

abbrev pub client_key : Key
client_key = record { limiter = codes "login"; bucket = codes "client" }

pub nobody-IsTidy : IsTidyFor server server_laws (codes "rl:") client_key nobody
unfolding server_laws
nobody-IsTidy = record { timed = inl refl; fits = omega arith }

pub nobody-counting : phase_of server server_laws (codes "rl:") client_key nobody ≡ counting (pos 0)
unfolding server_laws
nobody-counting = refl

consume-step_example :
    let laws = server_laws in
    let p = phase_of server laws (codes "rl:") client_key nobody in
    let v = step (pos 5) p in
    let (r, w) = consume server direct (codes "rl:") client_key five_a_minute nobody in
    (r
      ≡ ok (record {
        blocked = v.rejected;
        count = v.count;
        retry_after = of_seconds (wait (negsuc 1) (seconds (pos 90_000_000_000)) p v);
      }))
    × (phase_of server laws (codes "rl:") client_key w ≡ v.next)
    × IsTidyFor server laws (codes "rl:") client_key w
unfolding server_laws
consume-step_example =
    consume-step server server_laws (codes "rl:") client_key five_a_minute nobody refl (omega arith)
      nobody-IsTidy

-- Another client's bucket of the same limiter.
abbrev other_key : Key
other_key = record { limiter = codes "login"; bucket = codes "visitor" }

pub nobody-AreTidy : AreTidy server server_laws (codes "rl:") nobody
unfolding server_laws
nobody-AreTidy k = record { timed = inl refl; fits = omega arith }

abbrev mixed : List (Key × Rule)
mixed = (client_key, five_a_minute) ∷ (other_key, five_a_minute) ∷ (client_key, five_a_minute) ∷ []

consume-run_example :
    let p =
      own server server_laws
        (codes "rl:")
        client_key
        mixed
        (phase_of server server_laws (codes "rl:") client_key nobody) in
    let v = step (pos 5) p in
    let w = run server server_laws (codes "rl:") mixed nobody in
    (consume server direct (codes "rl:") client_key five_a_minute w).0
    ≡ ok (record {
      blocked = v.rejected;
      count = v.count;
      retry_after = of_seconds (
          wait
            (server_laws.left (marker_key server server_laws (codes "rl:") client_key) w)
            (seconds five_a_minute.block)
            p
            v);
    })
consume-run_example =
    consume-run server server_laws (codes "rl:") client_key five_a_minute mixed nobody
      (refl, omega arith, ground arith)
      (
        (refl, omega arith, ground arith),
        ((refl, omega arith, ground arith), ((refl, omega arith, ground arith), tt)),
      )
      nobody-AreTidy

pub nobody-starts :
    (k : Key) → phase_of server server_laws (codes "rl:") k nobody ≡ counting (pos 0)
unfolding server_laws
nobody-starts k = refl
