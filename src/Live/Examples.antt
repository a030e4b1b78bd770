-- ===== src/Live/Examples.antt =====
-- The live hub on concrete steps.
use tiller_router.Prelude.{String, List, [], ◌∷◌}
use tiller_router.Live.{
  new_hub, HubEvent, subscribes, unsubscribes, emits_outcome, emits_activity, dispatches_outcome,
  broadcasts, run,
}
use tiller_router.Live.Hub.{Sound, run-Sound}

abbrev encode : String → String → String
encode event payload = payload

abbrev two_tabs : List HubEvent
two_tabs =
    subscribes "acme"
    ∷ subscribes "acme"
    ∷ emits_outcome "acme" "ok"
    ∷ emits_activity "other" "start"
    ∷ dispatches_outcome
    ∷ unsubscribes "acme" 0
    ∷ broadcasts "acme" "snapshot"
    ∷ []

run-Sound_example : Sound (run encode new_hub two_tabs)
run-Sound_example = run-Sound encode two_tabs
