-- ===== src/Proxy/Survives.antt =====
-- Which turns let the request go on, and which end with the choice of their target.
use tiller_router.Prelude.{String, ◌≡◌, Bool, true, false, not, ◌&&◌, none, some, Option, arith}
use tiller_router.Fallback.{is_alive, fallback_status, settle_row, record_pre_output_failure}
use tiller_router.Proxy.{
  Target, MinOutput, met, unreadable, below, Answer, Response, unreached, answered, Turn, World,
  Request, Run, Step, next, again, stop, select, Preflight, within, Probe, usable,
}
use tiller_router.Proxy.Attempt.{
  add_attempt, mark_fallback, record_skipped_attempt, fall_back, start_leg, end_leg, cool,
  on_unreached, on_rejected, preflight_class, on_preflight_failure, probe_class, goes_on_or_stops,
  on_no_output, choose, after_probe, after_preflight, commit, on_response, send, fit_min_output,
  translate, requires_keyless, prepare, is_skipped, try_target,
}

abbrev pub readable : MinOutput → Bool
readable met = true
readable unreadable = false
readable below = true

-- The client stays, and the body can be normalized: what would end the request before its targets are
-- all tried.
abbrev pub Patient : Turn → Type 0
Patient o =
    (is_alive o.started ≡ true)
    × (is_alive o.context ≡ true)
    × (o.checks.normalized ≡ true)
    × (readable o.checks.min_output ≡ true)

abbrev pub is_within : Preflight → Bool
is_within within = true
is_within Preflight.too_large = false
is_within Preflight.unread = false

abbrev pub is_usable : Probe → Bool
is_usable usable = true
is_usable Probe.stream_error = false
is_usable Probe.empty = false
is_usable Probe.broken = false

abbrev pub delivers : Response → Bool
delivers (unreached timed_out) = false
delivers (answered a) = not (fallback_status a.status) && is_within a.preflight && is_usable a.probe

-- What the turn of a target that can serve the request finds.
abbrev pub Able : Target → Turn → Type 0
Able t o =
    (t.available ≡ true)
    × (requires_keyless t o.checks ≡ false)
    × (o.checks.speaks ≡ true)
    × (o.checks.translation ≡ none)
    × (o.checks.min_output ≡ met)
    × (o.checks.has_endpoint ≡ true)
    × (o.checks.builds ≡ true)
    × (delivers o.response ≡ true)

-- A step of a turn that does not end the request with an error.
abbrev pub Survives : Run → Step → Type 0
Survives run (next r) = run.skipped_cooled ≡ true → r.skipped_cooled ≡ true
Survives run (again r) = run.skipped_cooled ≡ true → r.skipped_cooled ≡ true
Survives run (stop r reply) = ⊥
Survives run (select r a) = fallback_status a.status ≡ false

module _ (w : World) (req : Request) (t : Target) (o : Turn) (run : Run)
    (alive_after : is_alive o.context ≡ true) (virtual : req.route.virtual ≡ true) where
  unreached-Survives : (timed_out : Bool) → Survives run (on_unreached w req t o run timed_out)
  unfolding on_unreached fall_back add_attempt end_leg cool
  unreached-Survives timed_out = ground arith

  rejected-Survives :
      (a : Answer) → fallback_status a.status ≡ true → Survives run (on_rejected w req t o run a)
  unfolding on_rejected fall_back add_attempt end_leg cool
  rejected-Survives a rejected = ground arith

  preflight-Survives : (class : String) → Survives run (on_preflight_failure w req t o run class)
  unfolding on_preflight_failure fall_back add_attempt end_leg cool
  preflight-Survives class = ground arith

  no_output-Survives :
      (a : Answer) (class : String) → Survives run (on_no_output w req t o run a class)
  unfolding on_no_output goes_on_or_stops end_leg record_pre_output_failure settle_row
  no_output-Survives a class = ground arith

  after_probe-Survives :
      (a : Answer) (class : Option String)
      → fallback_status a.status ≡ false
      → Survives run (after_probe w req t o run a class)
  unfolding after_probe choose
  after_probe-Survives a none ok = ok
  after_probe-Survives a (some class) ok = no_output-Survives a class

  after_preflight-Survives :
      (a : Answer) (class : Option String)
      → fallback_status a.status ≡ false
      → Survives run (after_preflight w req t o run a class)
  unfolding after_preflight choose
  after_preflight-Survives a none ok =
      ground (arith, after_probe-Survives a (probe_class a o.context a.probe) ok)
  after_preflight-Survives a (some class) ok = preflight-Survives class

response-Survives :
    (w : World) (req : Request) (t : Target) (o : Turn) (run : Run) (response : Response)
    → is_alive o.context ≡ true
    → req.route.virtual ≡ true
    → Survives run (on_response w req t o run response)
unfolding on_response commit fallback_status
response-Survives w req t o run (unreached timed_out) p v =
    unreached-Survives w req t o run p v timed_out
response-Survives w req t o run (answered a) p v = ground (
  arith,
  rejected-Survives w req t o run p v a,
  after_preflight-Survives w req t o (commit req a run) p v a
      (preflight_class a o.context a.preflight),
)

pub try_target-Survives :
    (w : World) (req : Request) (bypass : Bool) (t : Target) (advances : Bool) (o : Turn)
    (run : Run)
    → Patient o
    → req.route.virtual ≡ true
    → Survives run (try_target w req bypass t advances o run)
unfolding try_target record_skipped_attempt add_attempt mark_fallback prepare translate
    fit_min_output send start_leg
try_target-Survives w req bypass t advances o run (s, c, n, m) v =
    ground (arith, response-Survives w req t o (start_leg req t run) o.response c v)

-- A step of the turn of a target that can serve: it is chosen, or passed over for its cooldown.
abbrev pub Wins : Bool → Step → Type 0
Wins bypass (next r) = (r.skipped_cooled ≡ true) × (bypass ≡ false)
Wins bypass (again r) = ⊥
Wins bypass (stop r reply) = ⊥
Wins bypass (select r a) = fallback_status a.status ≡ false

response-Wins :
    (w : World) (req : Request) (bypass : Bool) (t : Target) (o : Turn) (run : Run)
    (response : Response)
    → delivers response ≡ true
    → Wins bypass (on_response w req t o run response)
unfolding on_response after_preflight after_probe choose fallback_status preflight_class probe_class
response-Wins w req bypass t o run (unreached timed_out) d = ground arith
response-Wins w req bypass t o run (answered a) d = ground arith

pub try_target-Wins :
    (w : World) (req : Request) (bypass : Bool) (t : Target) (advances : Bool) (o : Turn)
    (run : Run)
    → Patient o
    → Able t o
    → Wins bypass (try_target w req bypass t advances o run)
unfolding try_target is_skipped record_skipped_attempt add_attempt mark_fallback prepare translate
    fit_min_output send
try_target-Wins w req bypass t advances o run (s, c, n, m) (a, k, p, e, f, h, b, d) =
    ground (arith, response-Wins w req bypass t o (start_leg req t run) o.response d)
