-- ===== src/Proxy/Successes.antt =====
-- The attempts of the log row at the end of a request: exactly one of them is a success if the client has
-- the whole response, and none otherwise.
use tiller_router.Prelude.{
  ℕ, ◌+◌, String, ◌≡◌, refl, Bool, true, false, not, ◌&&◌, Option, none, some, List, [], ◌∷◌, ◌++◌,
  if◌then◌else◌, arith,
}
use tiller_router.Fallback.{Attempt}
use tiller_router.Proxy.{
  Target, World, Request, Run, Step, next, again, stop, select, Answer, Reply,
}
use tiller_router.Proxy.Attempt.{attempt_of, end_leg}
use tiller_router.Proxy.Loop.{
  Outcome, chosen, replied, passed, out_of_fuel, turn, no_target, route_request,
}
use tiller_router.Proxy.Invariants.{
  StepKeeps, RouteKeeps, AnyTarget, everywhere, route_request-keeps,
}
use tiller_router.Proxy.Relay.{
  Relay, RelayError, Ending, complete, json_error, frame, broken_off, mark_last_attempt_failed,
  clear_selected_cooldown, break_relay, finish_relay, relay_aggregated, relay_translated,
  relay_plain, open_stream, resolve_client, relay_response, end_ticket, failure_of,
  translated_stream_failure_class, close_request, proxy,
}
use tiller_router.Proxy.Records.{
  is_success, weigh, successes, successes-add, successes-mark, Records, try_target-Records,
}

abbrev success : Target → Answer → Attempt
success t a = attempt_of t "success" a.status ""

-- What the log row counts at the end.
abbrev pub one_if_complete : Ending → ℕ
one_if_complete complete = 1
one_if_complete (json_error code) = 0
one_if_complete (frame code) = 0
one_if_complete (broken_off code) = 0

abbrev pub CountsSuccess : Option (Run × Ending) → Type 0
CountsSuccess none = ⊥
CountsSuccess (some (r, ending)) = successes r.row.attempts ≡ one_if_complete ending

abbrev NoSuccess : Run → Type 0
NoSuccess r = successes r.row.attempts ≡ 0

abbrev NoSuccessAtStop : Run → Reply → Type 0
NoSuccessAtStop r reply = NoSuccess r

-- The last attempt is the success of the target that was chosen.
abbrev LastSucceeds : Run → Target → Answer → Type 0
LastSucceeds r t a =
    (before : List Attempt) × (r.row.attempts ≡ before ++ (success t a ∷ []))
    × (successes before ≡ 0)

records :
    (run : Run) (t : Target) (step : Step)
    → NoSuccess run
    → Records is_success run t step
    → StepKeeps NoSuccess NoSuccessAtStop LastSucceeds t step
records run t (next r) n e = ground (arith, n, e)
records run t (again r) n (status, class, e) = ground (arith, n, e)
records run t (stop r reply) n e = ground (arith, n, e)
records run t (select r a) n e = (run.row.attempts, e, n)

mark-NoSuccess :
    (attempts before : List Attempt) (last : Attempt) (class : String)
    → attempts ≡ before ++ (last ∷ [])
    → successes before ≡ 0
    → successes (mark_last_attempt_failed attempts class) ≡ 0
mark-NoSuccess attempts before last class e n =
    rw e (ground (arith, successes-mark before last class, n))

one-success :
    (attempts before : List Attempt) (t : Target) (a : Answer)
    → attempts ≡ before ++ (success t a ∷ [])
    → successes before ≡ 0
    → successes attempts ≡ 1
one-success attempts before t a e n = rw e (ground (arith, successes-add before (success t a), n))

module _ (req : Request) (t : Target) (a : Answer) (relay : Relay) (before : List Attempt)
    (n : successes before ≡ 0) where
  abbrev Recorded : Run → Type 0
  Recorded run = run.row.attempts ≡ before ++ (success t a ∷ [])

  abbrev Counts : Run × Ending → Type 0
  Counts (r, ending) = successes r.row.attempts ≡ one_if_complete ending

  finish-attempts :
      (run : Run) → Recorded run → successes (finish_relay req t a run).row.attempts ≡ 1
  unfolding finish_relay clear_selected_cooldown
  finish-attempts run e = ground (arith, one-success run.row.attempts before t a e n)

  aggregated-Counts :
      (run : Run) (e : Option RelayError)
      → Recorded run
      → Counts (relay_aggregated req t a relay run e)
  unfolding relay_aggregated break_relay
  aggregated-Counts run none h = finish-attempts run h
  aggregated-Counts run (some e) h = mark-NoSuccess run.row.attempts before _ _ h n

  translated-Counts :
      (run : Run) (e : Option RelayError)
      → Recorded run
      → Counts (relay_translated req t a relay run e)
  unfolding relay_translated break_relay
  translated-Counts run none h = finish-attempts run h
  translated-Counts run (some e) h =
      let early = not a.streaming && not run.committed && relay.is_json in
      let class =
        failure_of relay
          (if early then "translation_error" else translated_stream_failure_class e) in
      ground (arith, mark-NoSuccess run.row.attempts before (success t a) class h n)

  plain-Counts :
      (run : Run) (e : Option RelayError) → Recorded run → Counts (relay_plain req t a relay run e)
  unfolding relay_plain break_relay
  plain-Counts run none h = finish-attempts run h
  plain-Counts run (some e) h =
      let class = failure_of relay "upstream_read_error" in
      ground (arith, mark-NoSuccess run.row.attempts before (success t a) class h n)

  open-row : (run : Run) → (open_stream req a run).row ≡ run.row
  unfolding open_stream
  open-row run = ground arith

  relay-Counts : (run : Run) → Recorded run → Counts (relay_response req t a relay run)
  unfolding relay_response resolve_client
  relay-Counts run h =
      let resolved = resolve_client req t run in
      let opened = open_stream req a resolved in
      let e = open-row resolved in
      ground (
        arith,
        h,
        e,
        aggregated-Counts resolved relay.error h,
        translated-Counts opened relay.error (rw e h),
        plain-Counts opened relay.error (rw e h),
      )

closed :
    (relay : Relay) (req : Request) (o : Outcome)
    → RouteKeeps NoSuccess NoSuccessAtStop LastSucceeds o
    → CountsSuccess (close_request relay req o)
unfolding close_request end_ticket end_leg
closed relay req (chosen r t a) (before, e, n) = relay-Counts req t a relay before n r e
closed relay req (replied r reply) n = framed reply.framed reply.code n
  where
    framed :
        {k : ℕ} (b : Bool) (code : String)
        → k ≡ 0
        → k ≡ one_if_complete (if b then frame code else json_error code)
    framed true code h = h
    framed false code h = h
closed relay req (passed r) h = absurd h
closed relay req out_of_fuel h = absurd h

-- A request whose log row starts with no attempt comes to its end, and then exactly one attempt of the row
-- is a success if the client has the whole response, and none if the client has an error, a failure
-- frame or a response that broke off.
pub proxy-successes :
    (w : World) (relay : Relay) (req : Request) (ts : List Target) (run : Run)
    → run.row.attempts ≡ []
    → CountsSuccess (proxy w relay req ts run)
unfolding proxy weigh
proxy-successes w relay req ts run e = closed relay req (route_request w req ts run) (
    route_request-keeps NoSuccess NoSuccessAtStop LastSucceeds w req AnyTarget
      (λ bypass t advances r g i.
        unfold turn in
        records (record r { tick = r.tick + 1 }) t _ i
          (try_target-Records is_success (λ t status class. refl) (λ t class. refl) w req bypass t
            advances (w.find r.tick t) (record r { tick = r.tick + 1 })))
      (λ r i. unfold no_target in i) ts run (everywhere ts) (rw e refl))
