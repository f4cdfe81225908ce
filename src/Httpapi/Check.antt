-- ===== src/Httpapi/Check.antt =====
-- `handleCheck`, `record`, `writeBlocked`, `handleHealth` and `recoverAndAllow` of
-- internal/httpapi/httpapi.go.
use forwardlimit.Common.{◌+◌, ◌/◌, Option, none, some, List, [], ◌∷◌, if◌then◌else◌, ◌==◌}
use forwardlimit.Common.Int.{ℤ, pos, negsuc}
use forwardlimit.Common.Text.{Text, codes, is_empty}
use forwardlimit.Common.Assoc.{lookup}
use forwardlimit.Common.Decimal.{format_int}
use forwardlimit.Request.{Request}
use forwardlimit.Limiter.{Decision, Verdict, Evaluation, rejected, is_failed_open}
use forwardlimit.Limiter.Engine.{evaluate}
use forwardlimit.Observability.{Metrics, record_decision, record_store_error, observe_check}
use forwardlimit.Httpapi.{
  Response, HttpRequest, Handler, Serving, Ended, finished, crashed, write_header, write,
  set_header, put_status,
}
use forwardlimit.Httpapi.Forwarded.{original_path, original_query, original_method}
use forwardlimit.Httpapi.Reading.{read_body}

abbrev pub verdict_text : Verdict → Text
verdict_text Verdict.allowed = codes "allowed"
verdict_text Verdict.blocked = codes "blocked"
verdict_text Verdict.would_block = codes "would_block"
verdict_text Verdict.failed_open = codes "failed_open"

-- One round of the loop of `record`.
abbrev pub record_evaluation : Evaluation → Metrics → Metrics
record_evaluation e m =
    let counted = record_decision e.limiter (verdict_text e.verdict) m in
    if is_failed_open e.verdict then record_store_error counted else counted

unfoldable pub record_evaluations : List Evaluation → Metrics → Metrics
record_evaluations [] m = m
record_evaluations (e ∷ es) m = record_evaluations es (record_evaluation e m)

-- `record`, where there are metrics.
unfoldable pub record_all : List Evaluation → Metrics → Metrics
unfolding record_evaluations
record_all [] m = record_decision [] (codes "allowed") m
record_all (e ∷ es) m = record_evaluations (e ∷ es) m

-- A body that was cut off is counted, since it cannot be inspected.
abbrev pub record_truncated : Metrics → Metrics
record_truncated = record_decision (codes "body") (codes "failed_open")

-- Whole seconds, rounded up, and at least one.
unfoldable pub retry_after_seconds : ℤ → ℤ
retry_after_seconds (pos n) = if n == 0 then pos 1 else pos ((n + 999_999_999) / 1_000_000_000)
retry_after_seconds (negsuc n) = pos 1

abbrev pub or_default : Option Response → Response → Response
or_default none r = r
or_default (some override) r = override

module _ {W : Type 0} (h : Handler W) where
  -- `if h.metrics != nil { … }`
  abbrev pub if_metrics : (Metrics → Metrics) → Serving W → Serving W
  if_metrics f s = record s { metrics = if h.has_metrics then f s.metrics else s.metrics }

  abbrev pub map_ended : (Serving W → Serving W) → Ended (Serving W) → Ended (Serving W)
  map_ended f (finished s) = finished (f s)
  map_ended f (crashed s) = crashed (f s)

  -- The response of a limiter that rejects.
  abbrev pub response_of : Decision → Response
  response_of d = or_default (lookup d.limiter h.responses) h.response

  -- The headers that `writeBlocked` sets.
  unfoldable pub blocked_headers : Decision → Serving W → Serving W
  unfolding lookup retry_after_seconds
  blocked_headers d s =
      let resp = response_of d in
      let typed =
        if is_empty resp.content_type
        then s
        else set_header (codes "Content-Type") resp.content_type s in
      if d.advise_retry_after
      then set_header (codes "Retry-After") (format_int (retry_after_seconds d.retry_after)) typed
      else typed

  abbrev pub then_write : Text → Ended (Serving W) → Ended (Serving W)
  then_write b (finished s) = finished (write b s)
  then_write b (crashed s) = crashed s

  unfoldable pub write_blocked : Decision → Serving W → Ended (Serving W)
  write_blocked d s =
      let resp = response_of d in
      then_write resp.body (write_header resp.status (blocked_headers d s))

  -- The request that the engine sees.
  unfoldable pub subject : HttpRequest → Text → Request
  subject r body = record {
    method = original_method r;
    path = original_path r;
    header = r.header;
    body = body;
    raw_query = original_query r;
  }

  abbrev pub respond : Decision → Serving W → Ended (Serving W)
  respond d s = if rejected d then write_blocked d s else write_header (pos 200) s

  -- The deferred `ObserveCheck` runs on a panic too.
  unfoldable pub handle_check : HttpRequest → Serving W → Ended (Serving W)
  handle_check r s =
      let (body, truncated) = read_body h.max_body r.body in
      let s' = if_metrics (λ m. if truncated then record_truncated m else m) s in
      let (d, w) = evaluate h.store h.limiters (subject r body) s'.world in
      let s'' = if_metrics (record_all d.evaluations) (record s' { world = w }) in
      map_ended (if_metrics observe_check) (respond d s'')

  unfoldable pub handle_health : Serving W → Ended (Serving W)
  unfolding write_header write
  handle_health s = then_write (codes "ok") (
      write_header (pos 200)
        (set_header (codes "Content-Type") (codes "text/plain; charset=utf-8") s))

  -- `recoverAndAllow`: a status goes out only if the handler had not written.
  unfoldable pub recover_and_allow : (Serving W → Ended (Serving W)) → Serving W → Serving W
  unfolding put_status
  recover_and_allow next s = elim (next s) [
    | finished s' ↦ s'
    | crashed s' ↦
        let counted =
          if_metrics
            (λ m. record_store_error (record_decision (codes "panic") (codes "failed_open") m))
            s' in
        if s'.wrote
        then counted
        else record counted { writer = put_status (pos 200) counted.writer }
  ]

  -- What is served on "/check".
  unfoldable pub serve_check : HttpRequest → Serving W → Serving W
  serve_check r s = recover_and_allow (handle_check r) s
