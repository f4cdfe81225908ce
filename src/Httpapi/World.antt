-- ===== src/Httpapi/World.antt =====
-- What serving a request on "/check" in internal/httpapi does to the world.
use forwardlimit.Common.{◌≡◌, ◌∙◌, refl, Bool-cases, if◌then◌else◌, inl, inr, arith}
use forwardlimit.Common.Text.{Text}
use forwardlimit.Limiter.{Decision, rejected}
use forwardlimit.Limiter.Engine.{evaluate}
use forwardlimit.Observability.{Metrics, observe_check}
use forwardlimit.Httpapi.{
  HttpRequest, Handler, Serving, Ended, finished, crashed, write_header, write,
}
use forwardlimit.Httpapi.Reading.{read_body}
use forwardlimit.Common.Int.{ℤ, pos}
use forwardlimit.Httpapi.Check.{
  handle_check, recover_and_allow, serve_check, write_blocked, blocked_headers, response_of,
  subject, if_metrics, map_ended, then_write, respond, record_truncated, record_all,
}
use forwardlimit.Httpapi.Answers.{Ended-cases}

module _ {W : Type 0} (h : Handler W) where
  abbrev world_of : Ended (Serving W) → W
  world_of (finished s) = s.world
  world_of (crashed s) = s.world

  write_header-world : (c : ℤ) (s : Serving W) → world_of (write_header c s) ≡ s.world
  unfolding write_header
  write_header-world c s = ground arith

  blocked_headers-world : (d : Decision) (s : Serving W) → (blocked_headers h d s).world ≡ s.world
  unfolding blocked_headers
  blocked_headers-world d s = ground arith

  then_write-world : (b : Text) (r : Ended (Serving W)) → world_of (then_write h b r) ≡ world_of r
  unfolding write
  then_write-world b (finished s) = refl
  then_write-world b (crashed s) = refl

  respond-world : (d : Decision) (s : Serving W) → world_of (respond h d s) ≡ s.world
  unfolding write_blocked
  respond-world d s = elim (Bool-cases (rejected d)) [
    | inl y ↦ rw y (
        then_write-world (response_of h d).body
          (write_header (response_of h d).status (blocked_headers h d s))
        ∙ write_header-world (response_of h d).status (blocked_headers h d s)
        ∙ blocked_headers-world d s)
    | inr n ↦ rw n (write_header-world (pos 200) s)
  ]

  map_ended-world :
      (f : Metrics → Metrics) (r : Ended (Serving W))
      → world_of (map_ended h (if_metrics h f) r) ≡ world_of r
  map_ended-world f (finished s) = refl
  map_ended-world f (crashed s) = refl

  recover-world :
      (next : Serving W → Ended (Serving W)) (s : Serving W)
      → (recover_and_allow h next s).world ≡ world_of (next s)
  unfolding recover_and_allow
  recover-world next s = elim (Ended-cases h (next s)) [
    | inl (t, e) ↦ rw (e, recover_and_allow) refl
    | inr (t, e) ↦ rw (e, recover_and_allow) (ground arith)
  ]

  -- The engine alone touches the world.
  pub serve_check-world :
      (r : HttpRequest) (s : Serving W)
      → (serve_check h r s).world
        ≡ (evaluate h.store h.limiters (subject h r (read_body h.max_body r.body).0) s.world).1
  unfolding serve_check handle_check
  serve_check-world r s =
      let (body, truncated) = read_body h.max_body r.body in
      let s' = if_metrics h (λ m. if truncated then record_truncated m else m) s in
      let (d, w) = evaluate h.store h.limiters (subject h r body) s'.world in
      let s'' = if_metrics h (record_all d.evaluations) (record s' { world = w }) in
      recover-world (handle_check h r) s
      ∙ map_ended-world observe_check (respond h d s'')
      ∙ respond-world d s''
