-- ===== src/Proxy/Refreshes.antt =====
-- No provider's credentials are renewed twice in a request: the recovered attempts of the log row.
use tiller_router.Prelude.{
  ℕ, ◌+◌, ◌≤◌, String, str_eq, eq_iff, ◌≡◌, refl, ◌&&◌, List, [], if◌then◌else◌, arith,
}
use tiller_router.Fallback.{Attempt}
use tiller_router.Proxy.{
  Target, Answer, World, Request, Run, Reply, Step, next, again, stop, select,
}
use tiller_router.Proxy.Attempt.{member, attempt_of}
use tiller_router.Proxy.Loop.{turn, no_target, route_request}
use tiller_router.Proxy.Ends.{Retry, try_target-Retry}
use tiller_router.Proxy.Records.{weigh, weigh-add, Records, try_target-Records}
use tiller_router.Proxy.Invariants.{StepKeeps, RouteKeeps, Everywhere, route_request-keeps}

-- `owner` gives the provider of a target's id. An attempt that recovered is one whose provider's credentials
-- `ForceOAuthRefresh` has renewed.
abbrev pub renewal : (String → String) → String → Attempt → ℕ
renewal owner provider a =
    if a.recovered && str_eq (owner a.provider_model_id) provider then 1 else 0

abbrev pub renewals : (String → String) → String → Run → ℕ
renewals owner provider r = weigh (renewal owner provider) r.row.attempts

module _ (owner : String → String) (provider : String) where
  abbrev pub RenewedOnce : Run → Type 0
  RenewedOnce r = renewals owner provider r ≤ 1

  abbrev pub RenewedOnceAtStop : Run → Reply → Type 0
  RenewedOnceAtStop r reply = RenewedOnce r

  abbrev pub RenewedOnceAtChoice : Run → Target → Answer → Type 0
  RenewedOnceAtChoice r t a = RenewedOnce r

  -- Between the turns: a provider that was renewed is one that the loop knows.
  abbrev Known : Run → Type 0
  Known r = renewals owner provider r ≤ (if member provider r.refreshed then 1 else 0)

  renewed :
      (run : Run) (t : Target) (step : Step)
      → owner t.candidate.provider_model_id ≡ t.provider_id
      → Known run
      → Retry run t step
      → Records (renewal owner provider) run t step
      → StepKeeps Known RenewedOnceAtStop RenewedOnceAtChoice t step
  unfolding member
  renewed run t (next r) g k (same, tick) e = ground (arith, k, same, e)
  renewed run t (again r) g k (fresh, noted, tick) (status, class, e) =
      ground (arith, g, k, fresh, noted, e, eq_iff t.provider_id provider)
  renewed run t (stop r reply) g k (same, tick) e = ground (arith, k, same, e)
  renewed run t (select r a) g k (same, tick) e = rw e (
      ground (
        arith,
        k,
        weigh-add (renewal owner provider) run.row.attempts (attempt_of t "success" a.status ""),
      ))

-- Whatever the upstreams answer, for a request whose log row starts with no attempt, if each target's id
-- belongs to the target's provider: of the attempts that the request notes, over both passes and all the
-- targets that share a provider, at most one has the provider's credentials renewed. A refresh that fails
-- renews nothing and is not counted.
pub route_request-refreshes :
    (owner : String → String) (provider : String) (w : World) (req : Request) (ts : List Target)
    (run : Run)
    → run.row.attempts ≡ []
    → Everywhere (λ t. owner t.candidate.provider_model_id ≡ t.provider_id) ts
    → RouteKeeps
        (RenewedOnce owner provider)
        (RenewedOnceAtStop owner provider)
        (RenewedOnceAtChoice owner provider)
        (route_request w req ts run)
unfolding weigh
route_request-refreshes owner provider w req ts run e owned =
    route_request-keeps (Known owner provider) (RenewedOnceAtStop owner provider)
      (RenewedOnceAtChoice owner provider) w req
      (λ t. owner t.candidate.provider_model_id ≡ t.provider_id)
      (λ bypass t advances r g i.
        unfold turn in
        renewed owner provider (record r { tick = r.tick + 1 }) t _ g i
          (try_target-Retry w req bypass t advances (w.find r.tick t)
            (record r { tick = r.tick + 1 }))
          (try_target-Records (renewal owner provider) (λ t status class. refl) (λ t class. refl) w
            req bypass t advances (w.find r.tick t) (record r { tick = r.tick + 1 })))
      (λ r i. unfold no_target in ground (arith, i)) ts run owned (ground (arith, e))
