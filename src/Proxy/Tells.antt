-- ===== src/Proxy/Tells.antt =====
-- The errors of one turn: what the client is told, and what the log row keeps of it.
use tiller_router.Prelude.{
  String, str_eq, eq_iff, ◌≡◌, refl, Bool, true, false, not, ◌&&◌, none, some, Option, [], ◌∷◌,
  ◌++◌, arith,
}
use tiller_router.Fallback.{
  Row, fallback_status, client_failure_class, settle_row, record_pre_output_failure, ClientContext,
  alive, deadline_exceeded, cancelled,
}
use tiller_router.Proxy.{
  Target, Answer, Response, unreached, answered, Turn, World, Request, Run, Step, Reply, next,
  again, stop, select, Preflight, within, too_large, unread, Untranslated, unsupported, other_error,
  translation_code,
}
use mathlib.Core.Path.{subst}
use tiller_router.Proxy.Attempt.{
  attempt_of, timeout_or, text_or_empty, attempt_of, add_attempt, mark_fallback,
  record_skipped_attempt, refuse, fail_with, client_gone, fall_back, start_leg, end_leg, cool,
  unreached_class, on_unreached, rejection_class, reject, on_rejected, preflight_class,
  on_preflight_failure, probe_class, goes_on_or_stops, on_no_output, choose, after_probe,
  after_preflight, commit, on_response, send, fit_min_output, translate, prepare, try_target,
}

-- The client's stream is committed for virtual models only, and the class of a failed translation is
-- not that of a body that cannot be normalized.
abbrev pub Orderly : Request → Run → Type 0
Orderly req run =
    ((run.committed && not req.route.virtual) ≡ false)
    × (str_eq run.translation_failure_class "invalid_request" ≡ false)

-- The row has the status and the code of the reply, the status is not 2xx, and the reply is a frame
-- exactly if the stream is committed and the body could be normalized.
abbrev pub Told : Run → Reply → Type 0
Told run reply =
    (run.row.http_status ≡ reply.status)
    × (run.row.error_text ≡ some reply.code)
    × (fallback_status reply.status ≡ true)
    × (reply.framed ≡ (run.committed && not (str_eq reply.code "invalid_request")))

abbrev pub Tells : Request → Step → Type 0
Tells req (next r) = Orderly req r
Tells req (again r) = Orderly req r
Tells req (stop r reply) = Told r reply
Tells req (select r a) = Unit

-- The codes that the source writes out.
abbrev pub Differs : String → Type 0
Differs code = str_eq code "invalid_request" ≡ false

client-Differs :
    (context : ClientContext) (class : String)
    → Differs class
    → Differs (client_failure_class context class)
unfolding client_failure_class
client-Differs alive class h = h
client-Differs deadline_exceeded class h = refl
client-Differs cancelled class h = refl

-- recordPreOutputFailure stops with 502 and the client's class.
settle_row-stops :
    (row : Row) (context : ClientContext) (class : String)
    → (settle_row row context class).1 ≡ false
    → let settled = (settle_row row context class).0 in
      (settled.http_status ≡ 502)
      × (settled.error_text ≡ some (text_or_empty settled.error_text))
      × Differs (text_or_empty settled.error_text)
unfolding settle_row
settle_row-stops row alive class h = absurd (cc)
settle_row-stops row deadline_exceeded class h = (refl, refl, refl)
settle_row-stops row cancelled class h = (refl, refl, refl)

timeout-Differs : (timed_out : Bool) → Differs (timeout_or timed_out "upstream_read_error")
timeout-Differs true = refl
timeout-Differs false = refl

unreached_class-Differs :
    (timed_out : Bool) (context : ClientContext) → Differs (unreached_class timed_out context)
unfolding unreached_class
unreached_class-Differs true context = client-Differs context "upstream_timeout" refl
unreached_class-Differs false context = client-Differs context "upstream_unreachable" refl

preflight_class-Differs :
    (a : Answer) (context : ClientContext) (p : Preflight) (class : String)
    → preflight_class a context p ≡ some class
    → Differs class
unfolding preflight_class
preflight_class-Differs a context within class e = absurd (cc)
preflight_class-Differs a context too_large class e =
    subst (λ (o : Option String). Differs (text_or_empty o)) e refl
preflight_class-Differs a context unread class e =
    subst (λ (o : Option String). Differs (text_or_empty o)) e
      (client-Differs context (timeout_or a.timed_out "upstream_read_error")
        (timeout-Differs a.timed_out))

module _ (w : World) (req : Request) (t : Target) (o : Turn) (run : Run)
    (orderly : Orderly req run) where
  unreached-Tells : (timed_out : Bool) → Tells req (on_unreached w req t o run timed_out)
  unfolding on_unreached client_gone fail_with fall_back add_attempt end_leg cool fallback_status
  unreached-Tells timed_out = ground (arith, unreached_class-Differs timed_out o.context)

  rejected-Tells :
      (a : Answer) → fallback_status a.status ≡ true → Tells req (on_rejected w req t o run a)
  unfolding on_rejected reject fail_with fall_back add_attempt end_leg cool fallback_status
  rejected-Tells a rejected =
      let class = rejection_class w a in
      ground
        (arith, eq_iff class "context_limit_exceeded", eq_iff class "reasoning_roundtrip_required")

  preflight-Tells :
      (class : String)
      → str_eq class "invalid_request" ≡ false
      → Tells req (on_preflight_failure w req t o run class)
  unfolding on_preflight_failure fail_with fall_back add_attempt end_leg cool fallback_status
  preflight-Tells class e = ground arith

  no_output-Tells : (a : Answer) (class : String) → Tells req (on_no_output w req t o run a class)
  unfolding on_no_output goes_on_or_stops end_leg record_pre_output_failure fallback_status
  no_output-Tells a class =
      let row' = record run.row {
        attempts = run.row.attempts ++ (attempt_of t "failed" a.status class ∷ []);
      } in
      ground (arith, settle_row-stops row' o.context class)

  after_probe-Tells :
      (a : Answer) (class : Option String) → Tells req (after_probe w req t o run a class)
  unfolding after_probe choose
  after_probe-Tells a none = tt
  after_probe-Tells a (some class) = no_output-Tells a class

  after_preflight-Tells :
      (a : Answer) (class : Option String)
      → preflight_class a o.context a.preflight ≡ class
      → Tells req (after_preflight w req t o run a class)
  unfolding after_preflight choose
  after_preflight-Tells a none e =
      ground (arith, after_probe-Tells a (probe_class a o.context a.probe))
  after_preflight-Tells a (some class) e =
      preflight-Tells class (preflight_class-Differs a o.context a.preflight class e)

response-Tells :
    (w : World) (req : Request) (t : Target) (o : Turn) (run : Run) (response : Response)
    → Orderly req run
    → Tells req (on_response w req t o run response)
unfolding on_response fallback_status
response-Tells w req t o run (unreached timed_out) p = unreached-Tells w req t o run p timed_out
response-Tells w req t o run (answered a) p =
    let run' = commit req a run in
    let p' : Orderly req run' = (unfold commit in ground arith, p.1) in
    ground (
      arith,
      rejected-Tells w req t o run p a,
      after_preflight-Tells w req t o run' p' a (preflight_class a o.context a.preflight) refl,
    )

translation_code-Differs : (e : Untranslated) → Differs (translation_code e)
unfolding translation_code
translation_code-Differs unsupported = refl
translation_code-Differs other_error = refl

translate-Tells :
    (w : World) (req : Request) (t : Target) (advances : Bool) (o : Turn) (run : Run)
    (failure : Option Untranslated)
    → Orderly req run
    → Tells req (translate w req t advances o run failure)
unfolding translate refuse record_skipped_attempt add_attempt mark_fallback fit_min_output send
    start_leg fallback_status
translate-Tells w req t advances o run none p =
    ground (arith, response-Tells w req t o (start_leg req t run) o.response p)
translate-Tells w req t advances o run (some e) p = ground (arith, translation_code-Differs e)

pub try_target-Tells :
    (w : World) (req : Request) (bypass : Bool) (t : Target) (advances : Bool) (o : Turn)
    (run : Run)
    → Orderly req run
    → Tells req (try_target w req bypass t advances o run)
unfolding try_target client_gone fail_with refuse record_skipped_attempt add_attempt mark_fallback
    prepare fallback_status
try_target-Tells w req bypass t advances o run p = ground (
  arith,
  client-Differs o.started "" refl,
  translate-Tells w req t advances o run o.checks.translation p,
)
