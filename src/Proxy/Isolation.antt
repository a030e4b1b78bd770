-- ===== src/Proxy/Isolation.antt =====
-- The request opens and closes cooldowns of its own account and targets only.
use tiller_router.Prelude.{
  ℕ, ◌+◌, ◌≤◌, String, str_eq, eq_iff, ◌≡◌, refl, Bool, true, false, not, ◌&&◌, Option, none, some,
  List, arith,
}
use mathlib.Core.Path.{◌∙◌}
use tiller_router.Prelude.Text.{nul_free}
use tiller_router.Prelude.Table.{Distinct}
use tiller_router.Cooldown.{CooldownStore, cooled}
use tiller_router.Cooldown.Windows.{cooled-remove}
use tiller_router.Cooldown.WellFormed.{WellFormed}
use tiller_router.Fallback.{row_account_id}
use tiller_router.Proxy.{
  Target, Answer, World, Request, Run, Reply, Step, next, again, stop, select,
}
use tiller_router.Proxy.Attempt.{configured, end_leg}
use tiller_router.Proxy.Loop.{
  Outcome, chosen, replied, passed, out_of_fuel, turn, no_target, route_request,
}
use tiller_router.Proxy.Relay.{
  RelayError, Relay, clear_selected_cooldown, break_relay, finish_relay, relay_aggregated,
  relay_translated, relay_plain, open_stream, resolve_client, relay_response, end_ticket,
  close_request, proxy,
}
use tiller_router.Proxy.Effects.{KeepsRun, Keeps, elsewhere, try_target-Keeps}
use tiller_router.Proxy.Balance.{ClosedWith}
use tiller_router.Proxy.Invariants.{StepKeeps, RouteKeeps, Everywhere, route_request-keeps}

module _ (req : Request) (t : Target) where
  -- The cooldown store after a relay: that of `clear_selected_cooldown` where it completed.
  relayed_store : Run → Option RelayError → CooldownStore
  relayed_store run none = (clear_selected_cooldown req t run).cooldown
  relayed_store run (some e) = run.cooldown

  relay-cooldown :
      (a : Answer) (relay : Relay) (run : Run)
      → (relay_response req t a relay run).0.cooldown ≡ relayed_store run relay.error
  unfolding relay_response relay_aggregated relay_translated relay_plain break_relay finish_relay
      clear_selected_cooldown open_stream resolve_client relayed_store
  relay-cooldown a relay run = ground arith

abbrev pub completes : Option RelayError → Bool
completes none = true
completes (some e) = false

-- Where no key of the cooldown map stands twice, for accounts without NUL, at every time: after the relay
-- of a target's response, a target is cooling exactly if it was, unless it is this target of the
-- request's account, cooldowns are configured and the relay completed. A relay that breaks off releases
-- nothing.
pub relay_response-releases :
    (req : Request) (t : Target) (a : Answer) (relay : Relay) (run : Run) (account id : String)
    (time : ℕ)
    → Distinct run.cooldown.until
    → nul_free run.row.account_id ≡ true
    → nul_free account ≡ true
    → cooled (relay_response req t a relay run).0.cooldown account id time ≡ (
        cooled run.cooldown account id time
        && not (
            completes relay.error
            && configured req
            && not (str_eq t.candidate.provider_model_id "")
            && str_eq run.row.account_id account
            && str_eq t.candidate.provider_model_id id))
unfolding relayed_store clear_selected_cooldown
relay_response-releases req t a relay run account id time d own free =
    rw (relay-cooldown req t a relay run) (store relay.error)
  where
    store :
        (e : Option RelayError)
        → cooled (relayed_store req t run e) account id time ≡ (
            cooled run.cooldown account id time
            && not (
                completes e
                && configured req
                && not (str_eq t.candidate.provider_model_id "")
                && str_eq run.row.account_id account
                && str_eq t.candidate.provider_model_id id))
    store none = ground (
      arith,
      cooled-remove run.cooldown d run.row.account_id t.candidate.provider_model_id account id time
          own free,
    )
    store (some e) = ground arith

module _ (account id : String) (time : ℕ) (run : Run) where
  abbrev StillKept : Run → Type 0
  StillKept r = KeepsRun account id time run r

  abbrev KeptAtStop : Run → Reply → Type 0
  KeptAtStop r reply = StillKept r

  -- The target that was chosen is not the one that the claim is about.
  abbrev KeptByChoice : Run → Target → Answer → Type 0
  KeptByChoice r t a = StillKept r × (elsewhere run t account id ≡ true)

  keeps :
      (r : Run) (t : Target) (step : Step)
      → elsewhere run t account id ≡ true
      → StillKept r
      → Keeps account id time r step
      → StepKeeps StillKept KeptAtStop KeptByChoice t step
  keeps r t (next r') g (a, (d, e)) (b, (f, h)) = (b ∙ a, (f, h ∙ e))
  keeps r t (again r') g (a, (d, e)) (b, (f, h)) = (b ∙ a, (f, h ∙ e))
  keeps r t (stop r' reply) g (a, (d, e)) (b, (f, h)) = (b ∙ a, (f, h ∙ e))
  keeps r t (select r' answer) g (a, (d, e)) (b, (f, h)) = ((b ∙ a, (f, h ∙ e)), g)

  turn-keeps :
      (w : World) (req : Request) (bypass : Bool) (t : Target) (advances : Bool) (r : Run)
      → ((n : ℕ) (t : Target) → (w.find n t).failed_at ≤ time)
      → nul_free account ≡ true
      → nul_free (row_account_id run.row) ≡ true
      → elsewhere run t account id ≡ true
      → StillKept r
      → StepKeeps StillKept KeptAtStop KeptByChoice t (turn w req bypass t advances r)
  unfolding turn row_account_id
  turn-keeps w req bypass t advances r later free own g (a, (d, e)) =
      keeps r t _ g (a, (d, e))
        (try_target-Keeps w req t (w.find r.tick t) account id time free (later r.tick t) bypass
          advances (record r { tick = r.tick + 1 }) d (ground (arith, a)) (ground (arith, a)))

  closed :
      (relay : Relay) (req : Request) (o : Outcome)
      → nul_free account ≡ true
      → nul_free run.row.account_id ≡ true
      → str_eq run.row.account_id "" ≡ false
      → RouteKeeps StillKept KeptAtStop KeptByChoice o
      → ClosedWith
          (λ r. cooled r.cooldown account id time ≡ cooled run.cooldown account id time)
          (close_request relay req o)
  unfolding close_request end_leg end_ticket row_account_id
  closed relay req (chosen r t a) free own named ((b, (d, e)), g) = ground (
    arith,
    b,
    e,
    g,
    own,
    named,
    eq_iff run.row.account_id account,
    relay_response-releases req t a relay r account id time d.distinct (ground (arith, b, own))
        free,
  )
  closed relay req (replied r reply) free own named (b, (d, e)) = e
  closed relay req (passed r) free own named h = absurd h
  closed relay req out_of_fuel free own named h = absurd h

-- For a well-formed cooldown map (no key stands twice, and each entry stands under the key of its own id and
-- an account without NUL), and for accounts without NUL, that of the request named: at every time from the
-- failures on, a target of any account that is not one of the request's targets under its own account is
-- cooling after the request exactly if it was before.
pub proxy-isolates :
    (w : World) (relay : Relay) (req : Request) (ts : List Target) (run : Run) (account id : String)
    (time : ℕ)
    → WellFormed run.cooldown
    → nul_free run.row.account_id ≡ true
    → str_eq run.row.account_id "" ≡ false
    → nul_free account ≡ true
    → ((n : ℕ) (t : Target) → (w.find n t).failed_at ≤ time)
    → Everywhere (λ t. elsewhere run t account id ≡ true) ts
    → ClosedWith
        (λ r. cooled r.cooldown account id time ≡ cooled run.cooldown account id time)
        (proxy w relay req ts run)
unfolding proxy row_account_id
proxy-isolates w relay req ts run account id time d own named free later others =
    closed account id time run relay req (route_request w req ts run) free own named (
      route_request-keeps (StillKept account id time run) (KeptAtStop account id time run)
        (KeptByChoice account id time run) w req (λ t. elsewhere run t account id ≡ true)
        (λ bypass t advances r g i.
          turn-keeps account id time run w req bypass t advances r later free (ground (arith, own))
            g i)
        (λ r i. unfold no_target in i) ts run others (refl, (d, refl)))
