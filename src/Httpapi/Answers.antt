-- ===== src/Httpapi/Answers.antt =====
-- What a client of internal/httpapi gets from "/check".
use forwardlimit.Common.{
  ℕ, ◌+◌, ◌-◌, ◌*◌, ◌/◌, ◌≤◌, ◌<◌, ◌≡◌, refl, ◌∙◌, true, false, none, some, if◌then◌else◌, ◌==◌,
  Bool-cases, ◌⊎◌, inl, inr, arith,
}
use forwardlimit.Common.Int.{ℤ, pos, ◌≤ℤ◌}
use forwardlimit.Common.Text.{Text}
use forwardlimit.Limiter.{Decision, rejected}
use forwardlimit.Limiter.Engine.{evaluate}
use forwardlimit.Limiter.Engine.FailOpen.{IsDown, evaluate-IsFailOpen}
use forwardlimit.Observability.{Metrics, observe_check}
use forwardlimit.Httpapi.{
  Response, HttpRequest, Handler, Serving, Ended, finished, crashed, write_header, write,
  put_status, final_status,
}
use forwardlimit.Httpapi.Reading.{read_body}
use forwardlimit.Httpapi.Check.{
  handle_check, recover_and_allow, serve_check, write_blocked, blocked_headers, response_of,
  subject, retry_after_seconds, if_metrics, map_ended, then_write, respond,
}

-- `Retry-After` is the wait in whole seconds, rounded up, and at least one second.
retry_after_seconds_bounds :
    (n : ℕ)
    → (s : ℕ) × (retry_after_seconds (pos n) ≡ pos s)
      × (1 ≤ s)
      × (n ≤ s * 1_000_000_000)
      × ((s ≡ 1) ⊎ ((s - 1) * 1_000_000_000 < n))
unfolding retry_after_seconds
retry_after_seconds_bounds n = elim (Bool-cases (n == 0)) [
  | inl e ↦ (1, ground arith, omega arith, ground arith, inl refl)
  | inr e ↦
      let positive : 1 ≤ n = ground arith in
      ((n + 999_999_999) / 1_000_000_000, ground arith, omega arith, omega arith, inr (omega arith))
]

module _ {W : Type 0} (h : Handler W) where
  -- The decision on a request: on the body as far as it is read.
  abbrev pub decision_on : HttpRequest → W → Decision
  decision_on r w = (evaluate h.store h.limiters (subject h r (read_body h.max_body r.body).0) w).0

  -- A response that a client can be sent: a final status of three digits.
  abbrev pub IsFinal : Response → Type 0
  IsFinal resp = (pos 200 ≤ℤ resp.status) × (resp.status ≤ℤ pos 999)

  blocked_headers-status :
      (d : Decision) (s : Serving W) → ((blocked_headers h d s).writer.status ≡ s.writer.status)
  unfolding blocked_headers
  blocked_headers-status d s = ground arith

  -- The handler ended, and the status `c` is out.
  abbrev Sends : ℤ → Ended (Serving W) → Type 0
  Sends c (finished s) = s.writer.status ≡ some c
  Sends c (crashed s) = ⊥

  write_header-Sends :
      (c : ℤ) (s : Serving W)
      → pos 200 ≤ℤ c
      → c ≤ℤ pos 999
      → s.writer.status ≡ none
      → Sends c (write_header c s)
  unfolding write_header put_status
  write_header-Sends c s l u e = rw (e, write_header, put_status) (ground arith)

  write-Sends :
      (c : ℤ) (b : Text) (s : Serving W)
      → s.writer.status ≡ some c
      → (write b s).writer.status ≡ some c
  unfolding write put_status
  write-Sends c b s e = ground arith

  then_write-Sends :
      (c : ℤ) (b : Text) (r : Ended (Serving W)) → Sends c r → Sends c (then_write h b r)
  then_write-Sends c b (finished s) e = write-Sends c b s e
  then_write-Sends c b (crashed s) e = e

  write_blocked-Sends :
      (d : Decision) (s : Serving W)
      → IsFinal (response_of h d)
      → s.writer.status ≡ none
      → Sends (response_of h d).status (write_blocked h d s)
  unfolding write_blocked
  write_blocked-Sends d s f e =
      let resp = response_of h d in
      then_write-Sends resp.status resp.body (write_header resp.status (blocked_headers h d s)) (
        write_header-Sends resp.status (blocked_headers h d s) f.0 f.1
          (blocked_headers-status d s ∙ e))

  respond-Sends :
      (d : Decision) (s : Serving W)
      → (rejected d ≡ true → IsFinal (response_of h d))
      → s.writer.status ≡ none
      → Sends (if rejected d then (response_of h d).status else pos 200) (respond h d s)
  respond-Sends d s f e = elim (Bool-cases (rejected d)) [
    | inl y ↦ rw y (write_blocked-Sends d s (f y) e)
    | inr n ↦ rw n (write_header-Sends (pos 200) s (omega arith) (omega arith) e)
  ]

  pub Ended-cases :
      (r : Ended (Serving W))
      → ((s : Serving W) × (r ≡ finished s)) ⊎ ((s : Serving W) × (r ≡ crashed s))
  Ended-cases (finished s) = inl (s, refl)
  Ended-cases (crashed s) = inr (s, refl)

  recover-Sends :
      (c : ℤ) (next : Serving W → Ended (Serving W)) (s : Serving W)
      → Sends c (next s)
      → final_status (recover_and_allow h next s).writer ≡ c
  unfolding recover_and_allow
  recover-Sends c next s v = elim (Ended-cases (next s)) [
    | inl (s', e) ↦ rw (e, recover_and_allow) (sent c s' (rw e at v))
    | inr (s', e) ↦ absurd (rw e at v)
  ]
    where
      sent : (c : ℤ) (s' : Serving W) → s'.writer.status ≡ some c → final_status s'.writer ≡ c
      sent c s' q = rw q refl

  observe-Sends :
      (c : ℤ) (f : Metrics → Metrics) (r : Ended (Serving W))
      → Sends c r
      → Sends c (map_ended h (if_metrics h f) r)
  observe-Sends c f (finished s) v = ground arith
  observe-Sends c f (crashed s) v = v

  handle_check-Sends :
      (r : HttpRequest) (s : Serving W)
      → s.writer.status ≡ none
      → (rejected (decision_on r s.world) ≡ true → IsFinal (response_of h (decision_on r s.world)))
      → let d = decision_on r s.world in
        Sends (if rejected d then (response_of h d).status else pos 200) (handle_check h r s)
  unfolding handle_check
  handle_check-Sends r s e f =
      let d = decision_on r s.world in
      let c : ℤ = if rejected d then (response_of h d).status else pos 200 in
      observe-Sends c observe_check (respond h d _) (respond-Sends d _ f e)

  -- On "/check" a client to which no status has been sent gets the status of the response that is set
  -- for the limiter that rejected, if one did, and else 200; where one rejected, that response is to
  -- have a final status of three digits.
  pub serve_check-status :
      (r : HttpRequest) (s : Serving W)
      → s.writer.status ≡ none
      → (rejected (decision_on r s.world) ≡ true → IsFinal (response_of h (decision_on r s.world)))
      → let d = decision_on r s.world in
        final_status (serve_check h r s).writer
        ≡ (if rejected d then (response_of h d).status else pos 200)
  unfolding serve_check
  serve_check-status r s e f = recover-Sends _ (handle_check h r) s (handle_check-Sends r s e f)

  -- While every call of the store fails, a client to which no status has been sent gets 200, whatever
  -- limiters are configured.
  pub serve_check_down :
      (r : HttpRequest) (s : Serving W)
      → s.writer.status ≡ none
      → IsDown h.store
      → final_status (serve_check h r s).writer ≡ pos 200
  serve_check_down r s e down =
      let d = decision_on r s.world in
      let open_ : rejected d ≡ false = ground (
        arith,
        (evaluate-IsFailOpen h.store h.limiters (subject h r (read_body h.max_body r.body).0)
            s.world down).not_blocked,
      ) in
      serve_check-status r s e (λ y. absurd (ground arith)) ∙ rw open_ refl
