-- ===== src/Proxy/Balance.antt =====
-- The request leaves the legs of the in-flight tracker as it found them.
use tiller_router.Prelude.{
  ◌+◌, String, str_eq, ◌≡◌, refl, Bool, false, Option, none, some, List, arith,
}
use tiller_router.Inflight.{InflightTracker, client_resolved, client_streaming, client_end}
use tiller_router.Proxy.{
  Target, Answer, World, Request, Run, Reply, Step, next, again, stop, select,
}
use tiller_router.Proxy.Attempt.{end_leg, target_id}
use tiller_router.Proxy.Loop.{
  Outcome, chosen, replied, passed, out_of_fuel, turn, no_target, route_request,
}
use tiller_router.Proxy.Relay.{
  RelayError, Relay, Ending, clear_selected_cooldown, break_relay, finish_relay, relay_aggregated,
  relay_translated, relay_plain, open_stream, resolve_client, relay_response, end_ticket, streams,
  close_request, proxy,
}
use tiller_router.Proxy.Stores.{legs, one_if, legs-target_end}
use tiller_router.Proxy.Legs.{leg_key, SameAccount, Holds, try_target-Holds}
use tiller_router.Proxy.Invariants.{
  StepKeeps, RouteKeeps, AnyTarget, everywhere, route_request-keeps,
}

-- The request came to its end, and its last state is so.
abbrev pub ClosedWith : (Run → Type 0) → Option (Run × Ending) → Type 0
ClosedWith P none = ⊥
ClosedWith P (some (r, ending)) = P r

abbrev SameLegs : Run → Run → Type 0
SameLegs run r =
    (r.row.account_id ≡ run.row.account_id) × (r.tracker.target_states ≡ run.tracker.target_states)

clear-SameLegs :
    (req : Request) (t : Target) (run : Run) → SameLegs run (clear_selected_cooldown req t run)
unfolding clear_selected_cooldown
clear-SameLegs req t run = ground arith

aggregated-SameLegs :
    (req : Request) (t : Target) (a : Answer) (relay : Relay) (run : Run) (e : Option RelayError)
    → SameLegs run (relay_aggregated req t a relay run e).0
unfolding relay_aggregated break_relay finish_relay clear_selected_cooldown
aggregated-SameLegs req t a relay run none = ground arith
aggregated-SameLegs req t a relay run (some e) = (refl, refl)

translated-SameLegs :
    (req : Request) (t : Target) (a : Answer) (relay : Relay) (run : Run) (e : Option RelayError)
    → SameLegs run (relay_translated req t a relay run e).0
unfolding relay_translated break_relay finish_relay clear_selected_cooldown
translated-SameLegs req t a relay run none = ground arith
translated-SameLegs req t a relay run (some e) = (refl, refl)

Plain-SameLegs :
    (req : Request) (t : Target) (a : Answer) (relay : Relay) (run : Run) (e : Option RelayError)
    → SameLegs run (relay_plain req t a relay run e).0
unfolding relay_plain break_relay finish_relay clear_selected_cooldown
Plain-SameLegs req t a relay run none = ground arith
Plain-SameLegs req t a relay run (some e) = (refl, refl)

resolve-SameLegs :
    (req : Request) (t : Target) (run : Run) → SameLegs run (resolve_client req t run)
unfolding resolve_client client_resolved
resolve-SameLegs req t run = ground arith

open-SameLegs : (req : Request) (a : Answer) (run : Run) → SameLegs run (open_stream req a run)
unfolding open_stream client_streaming
open-SameLegs req a run = ground arith

relay-SameLegs :
    (req : Request) (t : Target) (a : Answer) (relay : Relay) (run : Run)
    → SameLegs run (relay_response req t a relay run).0
unfolding relay_response
relay-SameLegs req t a relay run =
    let resolved = resolve_client req t run in
    let opened = open_stream req a resolved in
    ground (
      arith,
      resolve-SameLegs req t run,
      open-SameLegs req a resolved,
      aggregated-SameLegs req t a relay resolved relay.error,
      translated-SameLegs req t a relay opened relay.error,
      Plain-SameLegs req t a relay opened relay.error,
    )

ticket-SameLegs :
    (req : Request) (streamed : Bool) (run : Run) → SameLegs run (end_ticket req streamed run)
unfolding end_ticket client_end
ticket-SameLegs req streamed run = ground arith

legs-same :
    (tracker tracker' : InflightTracker) (key : String)
    → tracker'.target_states ≡ tracker.target_states
    → legs tracker' key ≡ legs tracker key
unfolding legs
legs-same tracker tracker' key e = ground (arith, e)

module _ (key : String) (run : Run) where
  abbrev SameCount : Run → Type 0
  SameCount r = SameAccount run r × (legs r.tracker key ≡ legs run.tracker key)

  abbrev StoppedCount : Run → Reply → Type 0
  StoppedCount r reply = legs r.tracker key ≡ legs run.tracker key

  -- The target that was chosen holds its leg.
  abbrev OneMore : Request → Run → Target → Answer → Type 0
  OneMore req r t a =
      SameAccount run r
      × (legs r.tracker key
          ≡ legs run.tracker key + one_if (str_eq (leg_key req t run.row.account_id) key))

  holds :
      (req : Request) (r : Run) (t : Target) (step : Step)
      → SameCount r
      → Holds key req t r step
      → StepKeeps SameCount StoppedCount (OneMore req) t step
  unfolding leg_key
  holds req r t (next r') (a, e) (b, f) = (ground (arith, a, b), ground (arith, e, f))
  holds req r t (again r') (a, e) (b, f) = (ground (arith, a, b), ground (arith, e, f))
  holds req r t (stop r' reply) (a, e) f = ground (arith, e, f)
  holds req r t (select r' answer) (a, e) (b, f) = (ground (arith, a, b), ground (arith, a, e, f))

  closed :
      (relay : Relay) (req : Request) (o : Outcome)
      → RouteKeeps SameCount StoppedCount (OneMore req) o
      → ClosedWith (λ r. legs r.tracker key ≡ legs run.tracker key) (close_request relay req o)
  unfolding close_request end_leg leg_key
  closed relay req (chosen r t a) (b, e) =
      let relayed = (relay_response req t a relay r).0 in
      let ended = end_ticket req (streams req a) relayed in
      let same = relay-SameLegs req t a relay r in
      let same' = ticket-SameLegs req (streams req a) relayed in
      ground (
        arith,
        b,
        e,
        same,
        same',
        legs-same r.tracker relayed.tracker key,
        legs-same relayed.tracker ended.tracker key,
        legs-target_end ended.tracker ended.row.account_id req.route.route_model_id (target_id t)
            key,
      )
  closed relay req (replied r reply) e =
      let ended = end_ticket req false r in
      ground (arith, e, ticket-SameLegs req false r, legs-same r.tracker ended.tracker key)
  closed relay req (passed r) e = absurd e
  closed relay req out_of_fuel e = absurd e

-- Every request comes to its end, and leaves the number of requests on every leg of every account as it
-- found it, whichever targets it tried, skipped, retried or chose, and however the relay ended.
pub proxy-legs :
    (key : String) (w : World) (relay : Relay) (req : Request) (ts : List Target) (run : Run)
    → ClosedWith (λ r. legs r.tracker key ≡ legs run.tracker key) (proxy w relay req ts run)
unfolding proxy
proxy-legs key w relay req ts run = closed key run relay req (route_request w req ts run) (
    route_request-keeps (SameCount key run) (StoppedCount key run) (OneMore key run req) w req
      AnyTarget
      (λ bypass t advances r g i.
        unfold turn in
        holds key run req r t _ i (
          try_target-Holds key w req bypass t advances (w.find r.tick t)
            (record r { tick = r.tick + 1 })))
      (λ r i. unfold no_target in i.1) ts run (everywhere ts) (refl, refl))
