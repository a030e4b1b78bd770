-- ===== src/LogWriter/Examples.antt =====
-- Two requests of an account, then the deletion of its key.
use tiller_router.Prelude.{String, ◌≡◌, List, [], ◌∷◌}
use tiller_router.LogWriter.{
  LogWrite, new_log_writer, LogEvent, enqueues, takes, flushes, discards, after, run,
}
use tiller_router.LogWriter.Order.{rows_for, accepted, flush-in_order}
use tiller_router.LogWriter.Discards.{counted, covered, discards-final}
use tiller_router.LogWriter.Bounds.{Bounded, run-Bounded_writer}

abbrev row : String → LogWrite
row id = record { account_id = "acc"; client_key_id = "k"; request_id = id }

abbrev events : List LogEvent
events = enqueues (row "r1") ∷ takes ∷ enqueues (row "r2") ∷ []

flush-in_order_example :
    rows_for "acc" (after (run new_log_writer events) flushes).batches
    ≡ accepted "acc" new_log_writer events
flush-in_order_example = flush-in_order "acc" events

discards-final_example :
    let w' = after (run new_log_writer events) (discards "acc" "k") in
    counted (covered "acc" "k") (run w' events).batches ≡ counted (covered "acc" "k") w'.batches
discards-final_example = discards-final (run new_log_writer events) "acc" "k" events

run-Bounded_writer_example : Bounded (run new_log_writer events)
run-Bounded_writer_example = run-Bounded_writer events
