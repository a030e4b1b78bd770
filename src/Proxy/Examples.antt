-- ===== src/Proxy/Examples.antt =====
-- A virtual model with two targets: one is rate limited, the other serves.
use tiller_router.Prelude.{
  ℕ, ◌+◌, ◌*◌, String, str_eq, ◌==◌, ◌≡◌, refl, true, false, not, ◌&&◌, none, List, [], ◌∷◌, ◌++◌,
  if◌then◌else◌, length, arith,
}
use tiller_router.Prelude.Text.{nul_free}
use tiller_router.Cooldown.{new_cooldown_store, cooled}
use tiller_router.Cooldown.WellFormed.{WellFormed-new}
use tiller_router.Prelude.Table.{get}
use tiller_router.Fallback.{fallback_status, Row, alive, row_account_id}
use tiller_router.Proxy.{
  Target, met, Checks, within, usable, Answer, answered, World, Request, Run, ordered,
}
use tiller_router.Proxy.Attempt.{configured, is_skipped, requires_keyless}
use tiller_router.Proxy.Loop.{route_request}
use tiller_router.Proxy.Relay.{Relay, proxy, relay_response}
use tiller_router.Proxy.Ends.{Answered, route_request-ends}
use tiller_router.Proxy.Serves.{Delivered, proxy-serves}
use tiller_router.Proxy.Prefers.{FirstChoice, route_request-first}
use tiller_router.Proxy.Fixed.{proxy-no_cooldown}
use tiller_router.Proxy.Tells.{Orderly, Told}
use tiller_router.Proxy.Errors.{NoClaim, route_request-Told}
use tiller_router.Proxy.Invariants.{RouteKeeps}
use tiller_router.Proxy.Balance.{ClosedWith, proxy-legs}
use tiller_router.Proxy.Stores.{legs}
use tiller_router.Proxy.Isolation.{completes, relay_response-releases, proxy-isolates}
use tiller_router.Proxy.Refreshes.{
  RenewedOnce, RenewedOnceAtStop, RenewedOnceAtChoice, route_request-refreshes,
}
use tiller_router.Proxy.Successes.{CountsSuccess, proxy-successes}

abbrev fine : Checks
fine = record {
  free_model = false;
  speaks = true;
  translation = none;
  normalized = true;
  min_output = met;
  has_endpoint = true;
  builds = true;
}

abbrev answer : ℕ → Answer
answer status = record {
  status = status;
  timed_out = false;
  body_read = true;
  body_empty = false;
  context_limit = false;
  roundtrip = false;
  free_tier = false;
  refreshes = false;
  streaming = true;
  preflight = within;
  probe = usable;
}

abbrev target : String → Target
target id = record {
  candidate = record { provider_model_id = id; provider_name = "p"; upstream_model_id = id };
  provider_id = "p1";
  provider_type = "openai";
  credential = "k";
  oauth = true;
  available = true;
}

-- The target "good" serves, the others are rate limited.
abbrev world : World
world = record {
  http_class = λ status. "http_429";
  http_message = λ class. "";
  find = λ n t. record {
    started = alive;
    now = 1000;
    checks = fine;
    response = answered (answer (if str_eq t.candidate.provider_model_id "good" then 200 else 429));
    context = alive;
    failed_at = 1000;
  };
}

abbrev request : String → Request
request mode = record {
  client_key_id = "c";
  route = record { virtual = true; routing_mode = mode; route_model_id = "v" };
  cooldown_seconds = 60;
  non_streaming = false;
}

abbrev row : Row
row = record {
  account_id = "acc";
  client_request_id = "r1";
  attempts = [];
  http_status = 0;
  error_text = none;
  fallback_used = false;
  fallback_reason = none;
}

abbrev run : Run
run = record {
  cooldown = new_cooldown_store;
  tracker = record { client_states = []; target_states = [] };
  row = row;
  refreshed = [];
  protocol_unavailable = false;
  translation_failure_class = "";
  non_translation_failure = false;
  terminal_preflight_class = "";
  skipped_cooled = false;
  committed = false;
  tick = 0;
}

abbrev relay : Relay
relay = record {
  translated = false;
  is_json = false;
  error = none;
  timed_out = false;
  context = alive;
}

abbrev both : List Target
both = target "bad" ∷ target "good" ∷ []

abbrev fallback : Request
fallback = request "ordered_fallback"

proxy-serves_example :
    Delivered (proxy world relay fallback ((target "bad" ∷ []) ++ (target "good" ∷ [])) run)
unfolding requires_keyless fallback_status
proxy-serves_example =
    proxy-serves world relay fallback (target "bad" ∷ []) [] (target "good") run refl refl
      (λ n t. (refl, refl, refl, refl)) (λ n. (refl, refl, refl, refl, refl, refl, refl, refl))

route_request-ends_example :
    Answered (run.tick + 4 * length both) (route_request world fallback both run)
route_request-ends_example = route_request-ends world fallback both run

proxy-successes_example : CountsSuccess (proxy world relay fallback both run)
proxy-successes_example = proxy-successes world relay fallback both run refl

proxy-legs_example :
    ClosedWith
      (λ r. legs r.tracker "k" ≡ legs run.tracker "k")
      (proxy world relay fallback both run)
proxy-legs_example = proxy-legs "k" world relay fallback both run

proxy-no_cooldown_example :
    ClosedWith (λ r. r.cooldown ≡ run.cooldown) (proxy world relay (request "fixed") both run)
unfolding configured ordered
proxy-no_cooldown_example = proxy-no_cooldown world relay (request "fixed") both run refl

proxy-isolates_example :
    ClosedWith
      (λ r. cooled r.cooldown "acc" "other" 2000 ≡ cooled run.cooldown "acc" "other" 2000)
      (proxy world relay fallback both run)
unfolding nul_free row_account_id
proxy-isolates_example =
    proxy-isolates world relay fallback both run "acc" "other" 2000 WellFormed-new refl refl refl
      (λ n t. omega arith) (refl, (refl, tt))

relay_response-releases_example :
    cooled
      (relay_response fallback (target "good") (answer 200) relay run).0.cooldown
      "acc"
      "good"
      2000
    ≡ (cooled run.cooldown "acc" "good" 2000
        && not (
            completes relay.error
            && configured fallback
            && not (str_eq "good" "")
            && str_eq "acc" "acc"
            && str_eq "good" "good"))
unfolding nul_free
relay_response-releases_example =
    relay_response-releases fallback (target "good") (answer 200) relay run "acc" "good" 2000
      WellFormed-new.distinct refl refl

route_request-Told_example :
    RouteKeeps
      (Orderly fallback)
      Told
      NoClaim
      (route_request world fallback (target "bad" ∷ []) run)
route_request-Told_example = route_request-Told world fallback (target "bad" ∷ []) run refl refl

-- The credentials are stale at the first turn, and can be renewed.
abbrev stale : World
stale = record world {
  find = λ n t. record (world.find n t) {
    response = answered (record (answer (if n == 0 then 401 else 200)) { refreshes = true });
  };
}

route_request-refreshes_example :
    RouteKeeps
      (RenewedOnce (λ id. "p1") "p1")
      (RenewedOnceAtStop (λ id. "p1") "p1")
      (RenewedOnceAtChoice (λ id. "p1") "p1")
      (route_request stale fallback both run)
route_request-refreshes_example =
    route_request-refreshes (λ id. "p1") "p1" stale fallback both run refl (refl, (refl, tt))

route_request-first_example :
    FirstChoice
      (target "good")
      (run.tick + 1)
      (route_request world fallback (target "good" ∷ target "bad" ∷ []) run)
unfolding requires_keyless is_skipped cooled new_cooldown_store fallback_status get
route_request-first_example =
    route_request-first world fallback (target "good") (target "bad" ∷ []) run
      (refl, refl, refl, refl) (refl, refl, refl, refl, refl, refl, refl, refl) refl
