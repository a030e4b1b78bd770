-- ===== src/Proxy/Fixed.antt =====
-- A request that has no cooldowns configured, as every one to a fixed or a direct route, leaves the store
-- of the cooldowns alone.
use mathlib.Core.Path.{subst, sym, ◌∙◌}
use tiller_router.Prelude.{
  ◌+◌, String, ◌≡◌, refl, inl, inr, Bool, true, false, Option, none, some, List, arith,
}
use tiller_router.Cooldown.{CooldownStore}
use tiller_router.Fallback.{record_pre_output_failure, settle_row}
use tiller_router.Proxy.{
  Target, Turn, World, Request, Run, Step, next, again, stop, select, Answer, Response, unreached,
  answered, Reply, ordered,
}
use tiller_router.Proxy.Loop.{
  Outcome, chosen, replied, passed, out_of_fuel, turn, no_target, route_request,
}
use tiller_router.Proxy.Invariants.{
  StepKeeps, RouteKeeps, AnyTarget, everywhere, route_request-keeps,
}
use tiller_router.Proxy.Sends.{Plain, try_target-SendsOrPlain}
use tiller_router.Proxy.Relay.{
  Relay, clear_selected_cooldown, break_relay, finish_relay, relay_aggregated, relay_translated,
  relay_plain, open_stream, resolve_client, relay_response, end_ticket, close_request, proxy,
}
use tiller_router.Proxy.Balance.{ClosedWith}
use tiller_router.Proxy.Attempt.{
  add_attempt, fail_with, client_gone, fall_back, start_leg, end_leg, configured, cool,
  on_unreached, reject, on_rejected, preflight_class, on_preflight_failure, probe_class,
  goes_on_or_stops, on_no_output, choose, after_probe, after_preflight, commit, on_response,
  try_target,
}

abbrev Same : CooldownStore → Step → Type 0
Same c (next r) = r.cooldown ≡ c
Same c (again r) = r.cooldown ≡ c
Same c (stop r reply) = r.cooldown ≡ c
Same c (select r a) = r.cooldown ≡ c

module _ (w : World) (req : Request) (t : Target) (o : Turn) (run : Run)
    (off : configured req ≡ false) where
  unreached-Same : (timed_out : Bool) → Same run.cooldown (on_unreached w req t o run timed_out)
  unfolding on_unreached client_gone fail_with fall_back add_attempt end_leg cool
  unreached-Same timed_out = ground (arith, off)

  rejected-Same : (a : Answer) → Same run.cooldown (on_rejected w req t o run a)
  unfolding on_rejected reject fail_with fall_back add_attempt end_leg cool
  rejected-Same a = ground (arith, off)

  preflight-Same : (class : String) → Same run.cooldown (on_preflight_failure w req t o run class)
  unfolding on_preflight_failure fail_with fall_back add_attempt end_leg cool
  preflight-Same class = ground (arith, off)

  no_output-Same :
      (a : Answer) (class : String)
      → ordered req.route ≡ true
      → Same run.cooldown (on_no_output w req t o run a class)
  unfolding on_no_output goes_on_or_stops end_leg record_pre_output_failure settle_row configured
  no_output-Same a class virtual = ground (arith, off)

  after_probe-Same :
      (a : Answer) (class : Option String)
      → ordered req.route ≡ true
      → Same run.cooldown (after_probe w req t o run a class)
  unfolding after_probe choose add_attempt
  after_probe-Same a none v = refl
  after_probe-Same a (some class) v = no_output-Same a class v

  after_preflight-Same :
      (a : Answer) (class : Option String)
      → Same run.cooldown (after_preflight w req t o run a class)
  unfolding after_preflight choose add_attempt
  after_preflight-Same a none = ground (arith, after_probe-Same a (probe_class a o.context a.probe))
  after_preflight-Same a (some class) = preflight-Same class

response-Same :
    (w : World) (req : Request) (t : Target) (o : Turn) (run : Run) (response : Response)
    → configured req ≡ false
    → Same run.cooldown (on_response w req t o run response)
unfolding on_response commit
response-Same w req t o run (unreached timed_out) off = unreached-Same w req t o run off timed_out
response-Same w req t o run (answered a) off = ground (
  arith,
  rejected-Same w req t o run off a,
  after_preflight-Same w req t o (commit req a run) off a (preflight_class a o.context a.preflight),
)

Plain-Same : (run : Run) (step : Step) → Plain run step → Same run.cooldown step
Plain-Same run (next r) (a, c, e) = c
Plain-Same run (again r) p = absurd p
Plain-Same run (stop r reply) (a, c, e) = c
Plain-Same run (select r a) p = absurd p

try_target-Same :
    (w : World) (req : Request) (bypass : Bool) (t : Target) (advances : Bool) (o : Turn)
    (run : Run)
    → configured req ≡ false
    → Same run.cooldown (try_target w req bypass t advances o run)
unfolding start_leg
try_target-Same w req bypass t advances o run off =
    elim (try_target-SendsOrPlain w req bypass t advances o run) [
      | inl e ↦
          subst (Same run.cooldown) (sym e)
            (response-Same w req t o (start_leg req t run) o.response off)
      | inr p ↦ Plain-Same run _ p
    ]

module _ (c : CooldownStore) where
  abbrev HasStore : Run → Type 0
  HasStore r = r.cooldown ≡ c

  abbrev HasStoreAtStop : Run → Reply → Type 0
  HasStoreAtStop r reply = r.cooldown ≡ c

  abbrev HasStoreAtChoice : Run → Target → Answer → Type 0
  HasStoreAtChoice r t a = r.cooldown ≡ c

  same :
      (run : Run) (t : Target) (step : Step)
      → run.cooldown ≡ c
      → Same run.cooldown step
      → StepKeeps HasStore HasStoreAtStop HasStoreAtChoice t step
  same run t (next r) e h = h ∙ e
  same run t (again r) e h = h ∙ e
  same run t (stop r reply) e h = h ∙ e
  same run t (select r a) e h = h ∙ e

relay-Same :
    (req : Request) (t : Target) (a : Answer) (relay : Relay) (run : Run)
    → configured req ≡ false
    → (relay_response req t a relay run).0.cooldown ≡ run.cooldown
unfolding relay_response relay_aggregated relay_translated relay_plain break_relay finish_relay
    clear_selected_cooldown open_stream resolve_client
relay-Same req t a relay run off = ground (arith, off)

closed :
    (c : CooldownStore) (relay : Relay) (req : Request) (o : Outcome)
    → configured req ≡ false
    → RouteKeeps (HasStore c) (HasStoreAtStop c) (HasStoreAtChoice c) o
    → ClosedWith (λ r. r.cooldown ≡ c) (close_request relay req o)
unfolding close_request end_ticket end_leg
closed c relay req (chosen r t a) off e = relay-Same req t a relay r off ∙ e
closed c relay req (replied r reply) off e = e
closed c relay req (passed r) off h = absurd h
closed c relay req out_of_fuel off h = absurd h

-- A request with no cooldown seconds, or to a route that has no ordered fallback, comes to its end with the
-- very store of the cooldowns that it found: it opens none and releases none.
pub proxy-no_cooldown :
    (w : World) (relay : Relay) (req : Request) (ts : List Target) (run : Run)
    → configured req ≡ false
    → ClosedWith (λ r. r.cooldown ≡ run.cooldown) (proxy w relay req ts run)
unfolding proxy
proxy-no_cooldown w relay req ts run off =
    let c = run.cooldown in
    closed c relay req (route_request w req ts run) off (
      route_request-keeps (HasStore c) (HasStoreAtStop c) (HasStoreAtChoice c) w req AnyTarget
        (λ bypass t advances r g i.
          unfold turn in
          same c (record r { tick = r.tick + 1 }) t _ i
            (try_target-Same w req bypass t advances (w.find r.tick t)
              (record r { tick = r.tick + 1 }) off))
        (λ r i. unfold no_target in i) ts run (everywhere ts) refl)
