-- ===== src/Httpapi.antt =====
-- internal/httpapi/httpapi.go: the ForwardAuth endpoint. A handler turns the state of the server into
-- the next one, or crashes in a state; the log is left out, since it is never read.
pub mod Forwarded
pub mod Reading
pub mod Check
pub mod Answers
pub mod Recovery
pub mod World
use forwardlimit.Common.{
  ℕ, suc, ◌+◌, ◌-◌, ◌/◌, Bool, true, false, ◌&&◌, ◌||◌, not, Option, none, some, List, [], ◌∷◌,
  ◌++◌, if◌then◌else◌, ltb, leb, ◌==◌, length, take,
}
use forwardlimit.Common.Int.{ℤ, pos, negsuc, leb_ℤ, ltb_ℤ, increment}
use forwardlimit.Common.Text.{Text, codes, is_empty, cut_byte}
use forwardlimit.Common.Assoc.{is_some, lookup, insert}
use forwardlimit.Common.Decimal.{format_int}
use forwardlimit.Request.{Request, header_get}
use forwardlimit.Store.{Store}
use forwardlimit.Limiter.{Limiter, Decision, Verdict, Evaluation, rejected}
use forwardlimit.Limiter.Engine.{evaluate}
use forwardlimit.Observability.{Metrics, record_decision, record_store_error, observe_check}

pub record Response : Type 0 where
  pub status : ℤ
  pub content_type : Text
  pub body : Text

-- What reading the body yields: the bytes that arrive, and whether an error ends them.
pub data Body : Type 0 where
  absent : Body
  stream : Text → Bool → Body

-- The parts of `*http.Request` that the handler reads.
pub record HttpRequest : Type 0 where
  pub method : Text
  pub url_path : Text
  pub url_raw_query : Text
  pub header : List (Text × List Text)
  pub body : Body

-- `Handler`, with the engine's limiters and store; `has_metrics` is `h.metrics != nil`.
pub record Handler (W : Type 0) : Type 0 where
  pub limiters : List Limiter
  pub store : Store W
  pub has_metrics : Bool
  pub max_body : ℤ
  pub response : Response
  pub responses : List (Text × Response)

abbrev pub default_body : Text
default_body = codes "{\"error\":\"rate_limited\"}"

-- The response that `New` settles on.
unfoldable pub default_response : Response → Response
default_response r = record {
  status = if leb_ℤ r.status (pos 0) && leb_ℤ (pos 0) r.status then pos 429 else r.status;
  content_type =
      if is_empty r.body && is_empty r.content_type
      then codes "application/json"
      else r.content_type;
  body = if is_empty r.body then default_body else r.body;
}

-- `New`
unfoldable pub new : {W : Type 0} → Handler W → Handler W
unfolding default_response
new o = record o {
  max_body = if leb_ℤ o.max_body (pos 0) then pos 262144 else o.max_body;
  response = default_response o.response;
}

-- `http.ResponseWriter`: the status line that went out, the headers, the body.
pub record Writer : Type 0 where
  pub status : Option ℤ
  pub headers : List (Text × Text)
  pub sent : Text

abbrev pub new_writer : Writer
new_writer = record { status = none; headers = []; sent = [] }

-- The state of a request being served: `wrote` is the field of `allowWriter`.
pub record Serving (W : Type 0) : Type 0 where
  pub writer : Writer
  pub wrote : Bool
  pub metrics : Metrics
  pub world : W

pub data Ended {ℓ} (S : Type ℓ) : Type ℓ where
  finished : S → Ended S
  crashed : S → Ended S

-- `WriteHeader` of net/http: the first final status stands, 1xx but 101 is informational.
unfoldable pub put_status : ℤ → Writer → Writer
put_status code w = elim w.status [
  | some s ↦ w
  | none ↦
      if leb_ℤ code (pos 199) && not (leb_ℤ code (pos 101) && leb_ℤ (pos 101) code)
      then w
      else record w { status = some code }
]

-- Any other code panics, if no final status is out.
abbrev pub valid_code : ℤ → Bool
valid_code code = leb_ℤ (pos 100) code && leb_ℤ code (pos 999)

-- The status that the client sees when the handler has returned.
abbrev pub final_status : Writer → ℤ
final_status w = elim w.status [ some s ↦ s | none ↦ pos 200 ]

module _ {W : Type 0} where
  -- `allowWriter.WriteHeader` and `allowWriter.Write`
  unfoldable pub write_header : ℤ → Serving W → Ended (Serving W)
  unfolding put_status
  write_header code s =
      if is_some s.writer.status || valid_code code
      then finished (record s { wrote = true; writer = put_status code s.writer })
      else crashed (record s { wrote = true })

  unfoldable pub write : Text → Serving W → Serving W
  unfolding put_status
  write b s =
      let w = put_status (pos 200) s.writer in
      record s { wrote = true; writer = record w { sent = w.sent ++ b } }

  abbrev pub set_header : Text → Text → Serving W → Serving W
  set_header k v s = record s {
    writer = record (s.writer) { headers = insert k v s.writer.headers };
  }
