-- ===== src/Proxy/Sends.antt =====
-- A turn that does not send a request upstream leaves the stores as they are.
use tiller_router.Prelude.{◌≡◌, ◌⊎◌, Bool, arith}
use tiller_router.Proxy.{Target, Turn, World, Request, Run, Step, next, again, stop, select}
use tiller_router.Proxy.Attempt.{
  add_attempt, mark_fallback, record_skipped_attempt, refuse, fail_with, client_gone, start_leg,
  on_response, send, fit_min_output, translate, prepare, try_target,
}

abbrev pub Untouched : Run → Run → Type 0
Untouched run r =
    (r.row.account_id ≡ run.row.account_id)
    × (r.cooldown ≡ run.cooldown)
    × (r.tracker ≡ run.tracker)

abbrev pub Plain : Run → Step → Type 0
Plain run (next r) = Untouched run r
Plain run (again r) = ⊥
Plain run (stop r reply) = Untouched run r
Plain run (select r a) = ⊥

-- The step is that of the upstream's response, or a plain one.
abbrev pub SendsOrPlain : World → Request → Target → Turn → Run → Step → Type 0
SendsOrPlain w req t o run step =
    (step ≡ on_response w req t o (start_leg req t run) o.response) ⊎ Plain run step

pub try_target-SendsOrPlain :
    (w : World) (req : Request) (bypass : Bool) (t : Target) (advances : Bool) (o : Turn)
    (run : Run)
    → SendsOrPlain w req t o run (try_target w req bypass t advances o run)
unfolding try_target client_gone fail_with refuse record_skipped_attempt add_attempt mark_fallback
    prepare translate fit_min_output send
try_target-SendsOrPlain w req bypass t advances o run = ground arith
