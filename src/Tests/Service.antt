-- ===== src/Tests/Service.antt =====
-- Requests to a server, as internal/httpapi and internal/limiter/engine.go serve them.
use forwardlimit.Common.{
  ℕ, ◌-◌, ◌≡◌, ◌≢◌, refl, ◌⊎◌, true, false, List, [], ◌∷◌, ◌++◌, if◌then◌else◌, ltb, length, take,
  any, arith,
}
use forwardlimit.Common.Int.{pos, two_63}
use forwardlimit.Common.Text.{codes, Lacks}
use forwardlimit.Common.Assoc.{lookup}
use forwardlimit.Store.{Store}
use forwardlimit.Limiter.{Evaluation, Verdict, rejected, no_decision}
use forwardlimit.Limiter.Engine.{evaluate, evaluate_from, visit}
use forwardlimit.Limiter.Engine.Rejection.{evaluate-rejected, is_blocked, is_would_block}
use forwardlimit.Limiter.Engine.Order.{evaluate-append}
use forwardlimit.Limiter.Engine.DryRun.{evaluate_dry, enforced}
use forwardlimit.Limiter.Engine.FailOpen.{IsDown}
use forwardlimit.Httpapi.{
  HttpRequest, Handler, Serving, stream, default_body, new_writer, final_status,
}
use forwardlimit.Httpapi.Forwarded.{
  original_path, original_query, original_path-query, forwarded_uri,
}
use forwardlimit.Httpapi.Reading.{read_body, read_body-bounded, read_body_overflow}
use forwardlimit.Httpapi.Check.{serve_check, response_of}
use forwardlimit.Httpapi.Answers.{decision_on, serve_check-status, serve_check_down}
use forwardlimit.Tests.{counting, broken, login, limiter_of, post_login}

abbrev server : Store ℕ → Handler ℕ
server st = record {
  limiters = login ∷ [];
  store = st;
  has_metrics = true;
  max_body = pos 1024;
  response = record {
    status = pos 429;
    content_type = codes "application/json";
    body = default_body;
  };
  responses = [];
}

abbrev forwarded : HttpRequest
forwarded = record {
  method = codes "GET";
  url_path = codes "/check";
  url_raw_query = [];
  header = (codes "X-Forwarded-Uri", codes "/login?next=home" ∷ []) ∷ [];
  body = stream (codes "{}") false;
}

-- The ninth call of the store.
abbrev arriving : Serving ℕ
arriving = record { writer = new_writer; wrote = false; metrics = []; world = 9 }

serve_check-status_example :
    let d = decision_on (server counting) forwarded 9 in
    final_status (serve_check (server counting) forwarded arriving).writer
    ≡ (if rejected d then (response_of (server counting) d).status else pos 200)
unfolding lookup
serve_check-status_example =
    serve_check-status (server counting) forwarded arriving refl (λ _. (omega arith, omega arith))

broken-IsDown : IsDown broken
broken-IsDown = record { consume_fails = λ k r w. tt; take_fails = λ k b w. tt }

serve_check_down_example :
    final_status (serve_check (server broken) forwarded arriving).writer ≡ pos 200
serve_check_down_example = serve_check_down (server broken) forwarded arriving refl broken-IsDown

evaluate-rejected_example :
    let d = (evaluate counting (login ∷ []) post_login 9).0 in
    (rejected d ≡ any is_blocked d.evaluations)
    × (((rejected d ≡ false)
          × (d.blocked ≡ any is_would_block d.evaluations)
          × (d.dry_run ≡ d.blocked))
        ⊎ ((rejected d ≡ true)
            × ((front : List Evaluation) × (d.evaluations
                  ≡ front ++ (record { limiter = d.limiter; verdict = Verdict.blocked } ∷ []))
                × (any is_blocked front ≡ false))))
evaluate-rejected_example = evaluate-rejected counting (login ∷ []) post_login 9

evaluate_dry_example :
    let r = evaluate counting (limiter_of true ∷ login ∷ []) post_login 9 in
    let r' =
      evaluate counting
        (login ∷ [])
        post_login
        (visit counting (limiter_of true) post_login no_decision 9).1 in
    (enforced r.0 ≡ enforced r'.0) × (r.1 ≡ r'.1)
evaluate_dry_example = evaluate_dry counting (limiter_of true) (login ∷ []) post_login 9 refl

evaluate-append_example :
    let (d, w) = evaluate counting (login ∷ []) post_login 9 in
    evaluate counting (login ∷ login ∷ []) post_login 9
    ≡ (if rejected d then (d, w) else evaluate_from counting (login ∷ []) post_login d w)
evaluate-append_example = evaluate-append counting (login ∷ []) (login ∷ []) post_login 9

read_body-bounded_example : read_body (pos 2) (stream (codes "abc") true) ≡ (
    if ltb 2 (length (codes "abc"))
    then (take 2 (codes "abc"), true)
    else if true
    then ([], false)
    else (codes "abc", false))
read_body-bounded_example = read_body-bounded 2 (codes "abc") true (omega arith)

read_body_overflow_example : read_body (pos (two_63 - 1)) (stream (codes "abc") false) ≡ ([], false)
read_body_overflow_example = read_body_overflow (codes "abc")

original_path-query_example :
    ((forwarded_uri forwarded ≡ [])
      × (original_path forwarded ≡ forwarded.url_path)
      × (original_query forwarded ≡ forwarded.url_raw_query))
    ⊎ ((forwarded_uri forwarded ≢ [])
        × Lacks b'?' (original_path forwarded)
        × (((original_path forwarded ≡ forwarded_uri forwarded) × (original_query forwarded ≡ []))
            ⊎ (forwarded_uri forwarded
                ≡ original_path forwarded ++ (b'?' ∷ original_query forwarded))))
original_path-query_example = original_path-query forwarded

abbrev two_verdicts : List Evaluation
two_verdicts =
    record { limiter = codes "login"; verdict = Verdict.failed_open }
    ∷ record { limiter = codes "api"; verdict = Verdict.allowed }
    ∷ []
