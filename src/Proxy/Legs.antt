-- ===== src/Proxy/Legs.antt =====
-- The legs of the in-flight tracker: a turn leaves one more request on the leg of its target exactly if it
-- chooses the target.
use tiller_router.Prelude.{
  ◌+◌, ◌-◌, String, str_eq, ◌≡◌, inl, inr, refl, Bool, none, some, Option, arith,
}
use mathlib.Core.Path.{subst, sym}
use tiller_router.Inflight.{inflight_target_key}
use tiller_router.Fallback.{record_pre_output_failure, settle_row}
use tiller_router.Proxy.{
  Target, Turn, World, Request, Run, Step, next, again, stop, select, Answer, Response, unreached,
  answered,
}
use tiller_router.Proxy.Stores.{legs, one_if, legs-target_start, legs-target_end}
use tiller_router.Proxy.Sends.{Plain, try_target-SendsOrPlain}
use tiller_router.Proxy.Attempt.{
  add_attempt, fail_with, client_gone, fall_back, target_id, start_leg, end_leg, cool, on_unreached,
  reject, on_rejected, preflight_class, on_preflight_failure, probe_class, goes_on_or_stops,
  on_no_output, choose, after_probe, after_preflight, commit, on_response, try_target,
}

unfoldable pub leg_key : Request → Target → String → String
leg_key req t account = inflight_target_key account req.route.route_model_id (target_id t)

abbrev pub SameAccount : Run → Run → Type 0
SameAccount run r = r.row.account_id ≡ run.row.account_id

-- The step of a response, from a run in which the leg was started.
abbrev Ends : String → Request → Target → Run → Step → Type 0
Ends key req t run (next r) =
    SameAccount run r
    × (legs r.tracker key
        ≡ legs run.tracker key - one_if (str_eq (leg_key req t run.row.account_id) key))
Ends key req t run (again r) =
    SameAccount run r
    × (legs r.tracker key
        ≡ legs run.tracker key - one_if (str_eq (leg_key req t run.row.account_id) key))
Ends key req t run (stop r reply) =
    legs r.tracker key
    ≡ legs run.tracker key - one_if (str_eq (leg_key req t run.row.account_id) key)
Ends key req t run (select r a) = SameAccount run r × (legs r.tracker key ≡ legs run.tracker key)

module _ (key : String) (w : World) (req : Request) (t : Target) (o : Turn) (run : Run) where
  end_leg-legs :
      legs (end_leg req t run).tracker key
      ≡ legs run.tracker key - one_if (str_eq (leg_key req t run.row.account_id) key)
  unfolding end_leg leg_key
  end_leg-legs =
      legs-target_end run.tracker run.row.account_id req.route.route_model_id (target_id t) key

  unreached-Ends : (timed_out : Bool) → Ends key req t run (on_unreached w req t o run timed_out)
  unfolding on_unreached client_gone fail_with fall_back add_attempt end_leg cool
  unreached-Ends timed_out = ground (arith, end_leg-legs)

  rejected-Ends : (a : Answer) → Ends key req t run (on_rejected w req t o run a)
  unfolding on_rejected reject fail_with fall_back add_attempt end_leg cool
  rejected-Ends a = ground (arith, end_leg-legs)

  preflight-Ends : (class : String) → Ends key req t run (on_preflight_failure w req t o run class)
  unfolding on_preflight_failure fail_with fall_back add_attempt end_leg cool
  preflight-Ends class = ground (arith, end_leg-legs)

  no_output-Ends :
      (a : Answer) (class : String) → Ends key req t run (on_no_output w req t o run a class)
  unfolding on_no_output goes_on_or_stops end_leg record_pre_output_failure settle_row
  no_output-Ends a class = ground (arith, end_leg-legs)

  after_probe-Ends :
      (a : Answer) (class : Option String) → Ends key req t run (after_probe w req t o run a class)
  unfolding after_probe choose add_attempt
  after_probe-Ends a none = (refl, refl)
  after_probe-Ends a (some class) = no_output-Ends a class

  after_preflight-Ends :
      (a : Answer) (class : Option String)
      → Ends key req t run (after_preflight w req t o run a class)
  unfolding after_preflight choose add_attempt
  after_preflight-Ends a none = ground (arith, after_probe-Ends a (probe_class a o.context a.probe))
  after_preflight-Ends a (some class) = preflight-Ends class

response-Ends :
    (key : String) (w : World) (req : Request) (t : Target) (o : Turn) (run : Run)
    (response : Response)
    → Ends key req t run (on_response w req t o run response)
unfolding on_response commit
response-Ends key w req t o run (unreached timed_out) = unreached-Ends key w req t o run timed_out
response-Ends key w req t o run (answered a) = ground (
  arith,
  rejected-Ends key w req t o run a,
  after_preflight-Ends key w req t o (commit req a run) a (preflight_class a o.context a.preflight),
)

-- A turn keeps the requests on each leg, but for that of the target that it chooses.
abbrev pub Holds : String → Request → Target → Run → Step → Type 0
Holds key req t run (next r) = SameAccount run r × (legs r.tracker key ≡ legs run.tracker key)
Holds key req t run (again r) = SameAccount run r × (legs r.tracker key ≡ legs run.tracker key)
Holds key req t run (stop r reply) = legs r.tracker key ≡ legs run.tracker key
Holds key req t run (select r a) =
    SameAccount run r
    × (legs r.tracker key
        ≡ legs run.tracker key + one_if (str_eq (leg_key req t run.row.account_id) key))

start_leg-legs :
    (key : String) (req : Request) (t : Target) (run : Run)
    → legs (start_leg req t run).tracker key
      ≡ legs run.tracker key + one_if (str_eq (leg_key req t run.row.account_id) key)
unfolding start_leg leg_key
start_leg-legs key req t run =
    legs-target_start run.tracker run.row.account_id req.route.route_model_id (target_id t) key

sent-Holds :
    (key : String) (req : Request) (t : Target) (run : Run) (step : Step)
    → Ends key req t (start_leg req t run) step
    → Holds key req t run step
unfolding start_leg
sent-Holds key req t run (next r) (a, e) = (a, ground (arith, start_leg-legs key req t run))
sent-Holds key req t run (again r) (a, e) = (a, ground (arith, start_leg-legs key req t run))
sent-Holds key req t run (stop r reply) e = ground (arith, start_leg-legs key req t run)
sent-Holds key req t run (select r answer) (a, e) =
    (a, ground (arith, start_leg-legs key req t run))

Plain-Holds :
    (key : String) (req : Request) (t : Target) (run : Run) (step : Step)
    → Plain run step
    → Holds key req t run step
Plain-Holds key req t run (next r) (a, c, e) = (a, ground (arith, e))
Plain-Holds key req t run (again r) p = absurd p
Plain-Holds key req t run (stop r reply) (a, c, e) = ground (arith, e)
Plain-Holds key req t run (select r answer) p = absurd p

pub try_target-Holds :
    (key : String) (w : World) (req : Request) (bypass : Bool) (t : Target) (advances : Bool)
    (o : Turn) (run : Run)
    → Holds key req t run (try_target w req bypass t advances o run)
try_target-Holds key w req bypass t advances o run =
    elim (try_target-SendsOrPlain w req bypass t advances o run) [
      | inl e ↦ subst (Holds key req t run) (sym e) (
          sent-Holds key req t run _ (response-Ends key w req t o (start_leg req t run) o.response))
      | inr p ↦ Plain-Holds key req t run _ p
    ]
