-- ===== src/Proxy/Relay.antt =====
-- internal/server/client.go, `proxy`: the relay of the chosen target's response, and what is deferred to
-- the end of the request. How the relay ends is an argument; the bytes that it writes are left out.
use tiller_router.Prelude.{
  String, str_eq, Bool, true, false, not, ◌&&◌, ◌||◌, Option, none, some, List, [], ◌∷◌,
  if◌then◌else◌,
}
use tiller_router.Prelude.Text.{◌+++◌}
use tiller_router.Cooldown.{remove}
use tiller_router.Inflight.{client_resolved, client_streaming, client_end}
use tiller_router.Fallback.{Attempt, ClientContext, client_failure_class}
use tiller_router.Proxy.{Target, Answer, World, Request, Run}
use tiller_router.Proxy.Attempt.{timeout_or, configured, end_leg}
use tiller_router.Proxy.Loop.{Outcome, chosen, replied, passed, out_of_fuel, route_request}

-- The errors of the readers of the upstream's body.
pub data RelayError : Type 0 where
  stream_error stream_incomplete stream_eof stream_read translation : RelayError

-- What the relay meets: whether the request was translated, whether the body is JSON, the error that
-- ended the copy, the timer of the attempt, and the client's context then.
pub record Relay : Type 0 where
  pub translated : Bool
  pub is_json : Bool
  pub error : Option RelayError
  pub timed_out : Bool
  pub context : ClientContext

-- What the client has at the end: the body, an error reply, a failure frame, or an answer that breaks off.
pub data Ending : Type 0 where
  complete : Ending
  json_error frame broken_off : String → Ending

unfoldable pub mark_last_attempt_failed : List Attempt → String → List Attempt
mark_last_attempt_failed [] class = []
mark_last_attempt_failed (a ∷ []) class = record a { result = "failed"; failure_class = class } ∷ []
mark_last_attempt_failed (a ∷ b ∷ attempts) class =
    a ∷ mark_last_attempt_failed (b ∷ attempts) class

unfoldable pub translated_stream_failure_class : RelayError → String
translated_stream_failure_class stream_error = "upstream_stream_error"
translated_stream_failure_class stream_incomplete = "upstream_stream_incomplete"
translated_stream_failure_class stream_eof = "upstream_stream_eof"
translated_stream_failure_class stream_read = "upstream_read_error"
translated_stream_failure_class translation = "translation_error"

abbrev pub is_stream_error : RelayError → Bool
is_stream_error stream_error = true
is_stream_error stream_incomplete = false
is_stream_error stream_eof = false
is_stream_error stream_read = false
is_stream_error translation = false

unfoldable pub clear_selected_cooldown : Request → Target → Run → Run
unfolding configured
clear_selected_cooldown req t run =
    if configured req && not (str_eq t.candidate.provider_model_id "")
    then (record run {
      cooldown = remove run.cooldown run.row.account_id t.candidate.provider_model_id;
    })
    else run

-- The row of a relay that broke: `class` for the row, `marked` for its last attempt.
unfoldable pub break_relay : Run → String → String → Run
unfolding mark_last_attempt_failed
break_relay run class marked = record run {
  row = record run.row {
    http_status = 502;
    error_text = some class;
    attempts = mark_last_attempt_failed run.row.attempts marked;
  };
}

unfoldable pub finish_relay : Request → Target → Answer → Run → Run
unfolding clear_selected_cooldown
finish_relay req t a run =
    clear_selected_cooldown req t (record run { row = record run.row { http_status = a.status } })

abbrev pub failure_of : Relay → String → String
failure_of relay class = client_failure_class relay.context (timeout_or relay.timed_out class)

-- A stream for a client that asked for one body.
unfoldable pub relay_aggregated :
    Request → Target → Answer → Relay → Run → Option RelayError → Run × Ending
unfolding break_relay finish_relay
relay_aggregated req t a relay run none = (finish_relay req t a run, complete)
relay_aggregated req t a relay run (some e) =
    let marked = failure_of relay "upstream_read_error" in
    let class = if is_stream_error e then "upstream_stream_error" else marked in
    (break_relay run class marked, json_error class)

-- A body that is translated before the status is written, or a stream that is translated.
unfoldable pub relay_translated :
    Request → Target → Answer → Relay → Run → Option RelayError → Run × Ending
unfolding break_relay finish_relay translated_stream_failure_class
relay_translated req t a relay run none = (finish_relay req t a run, complete)
relay_translated req t a relay run (some e) =
    let early = not a.streaming && not run.committed && relay.is_json in
    let class =
      failure_of relay (if early then "translation_error" else translated_stream_failure_class e) in
    (
      break_relay run class class,
      if early then json_error class else if a.streaming then frame class else broken_off class,
    )

-- A stream, or a body, in the client's own protocol.
unfoldable pub relay_plain :
    Request → Target → Answer → Relay → Run → Option RelayError → Run × Ending
unfolding break_relay finish_relay
relay_plain req t a relay run none = (finish_relay req t a run, complete)
relay_plain req t a relay run (some e) =
    let class = failure_of relay "upstream_read_error" in
    (
      break_relay run class class,
      if a.streaming || run.committed then frame class else broken_off class,
    )

-- The tracker and the stream before the copy.
unfoldable pub open_stream : Request → Answer → Run → Run
open_stream req a run =
    if a.streaming
    then (record run {
      tracker =
          (client_streaming run.tracker run.row.account_id req.client_key_id
            req.route.route_model_id).0;
      committed = true;
    })
    else run

unfoldable pub resolve_client : Request → Target → Run → Run
resolve_client req t run = record run {
  tracker =
      (client_resolved run.tracker run.row.account_id req.client_key_id req.route.route_model_id
        ((t.candidate.provider_name +++ "/") +++ t.candidate.upstream_model_id)).0;
}

unfoldable pub relay_response : Request → Target → Answer → Relay → Run → Run × Ending
unfolding relay_aggregated relay_translated relay_plain open_stream resolve_client
relay_response req t a relay run =
    let resolved = resolve_client req t run in
    if a.streaming && req.non_streaming
    then relay_aggregated req t a relay resolved relay.error
    else if relay.translated
    then relay_translated req t a relay (open_stream req a resolved) relay.error
    else relay_plain req t a relay (open_stream req a resolved) relay.error

-- The deferred calls: the ticket of the client, and the leg of the target that was chosen.
unfoldable pub end_ticket : Request → Bool → Run → Run
end_ticket req streamed run = record run {
  tracker =
      (client_end run.tracker run.row.account_id req.client_key_id req.route.route_model_id
        streamed).0;
}

-- streamed
abbrev pub streams : Request → Answer → Bool
streams req a = a.streaming && not req.non_streaming

unfoldable pub close_request : Relay → Request → Outcome → Option (Run × Ending)
unfolding relay_response end_ticket
close_request relay req (chosen run t a) =
    let (relayed, ending) = relay_response req t a relay run in
    some (end_leg req t (end_ticket req (streams req a) relayed), ending)
close_request relay req (replied run reply) =
    some
      (end_ticket req false run, if reply.framed then frame reply.code else json_error reply.code)
close_request relay req (passed run) = none
close_request relay req out_of_fuel = none

-- The request from its first turn to its end.
unfoldable pub proxy : World → Relay → Request → List Target → Run → Option (Run × Ending)
unfolding close_request
proxy w relay req ts run = close_request relay req (route_request w req ts run)
