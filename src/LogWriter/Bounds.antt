-- ===== src/LogWriter/Bounds.antt =====
-- The bounds of the queue and of the rows that wait for a batch.
use tiller_router.Prelude.{
  ◌≤◌, ◌<◌, str_eq, ◌≡◌, refl, Bool, true, false, List, [], ◌∷◌, ◌++◌, if◌then◌else◌, length,
  length-append, arith,
}
use tiller_router.Prelude.Table.{get, put, total, total-put}
use tiller_router.LogWriter.{
  LogWrite, LogWriter, new_log_writer, or_empty, enqueue, add_pending, write_pending, drain,
  take_item, tick, discard_and_drain, LogEvent, enqueues, takes, ticks, flushes, discards, stops,
  after, run, log_write_batch_size, log_write_queue_size,
}
use tiller_router.LogWriter.Order.{queue-add_all}

-- The queue holds its size at most, `total` counts the rows that are pending, and they are less than a batch.
abbrev pub Bounded : LogWriter → Type 0
Bounded w =
    (length w.queue ≤ log_write_queue_size)
    × (w.total ≡ total (λ _ rows. length rows) w.pending)
    × (w.total < log_write_batch_size)

abbrev Counted : LogWriter → Type 0
Counted w = w.total ≡ total (λ _ rows. length rows) w.pending

add_pending-Counted : (w : LogWriter) (item : LogWrite) → Counted w → Counted (add_pending w item)
unfolding add_pending
add_pending-Counted w item e =
    let old = or_empty (get w.pending item.account_id) in
    ground (
      arith,
      e,
      length-append old (item ∷ []),
      total-put (λ _ rows. length rows) w.pending item.account_id (old ++ (item ∷ [])),
    )

drain-Bounded : (w : LogWriter) → Bounded (drain w)
unfolding drain write_pending total
drain-Bounded w = ground (arith, queue-add_all (record w { queue = [] }) w.queue refl)

take-Bounded :
    (w : LogWriter) (items : List LogWrite)
    → w.queue ≡ items
    → Bounded w
    → Bounded (take_item w items)
unfolding take_item write_pending total
take-Bounded w [] e h = h
take-Bounded w (item ∷ items) e (q, c, b) =
    let counted = add_pending-Counted (record w { queue = items }) item c in
    unfold add_pending in ground (arith, q, e, b, c, counted)

if-Bounded : (b : Bool) (x y : LogWriter) → Bounded x → Bounded y → Bounded (if b then x else y)
if-Bounded true x y p q = p
if-Bounded false x y p q = q

after-Bounded : (w : LogWriter) (e : LogEvent) → Bounded w → Bounded (after w e)
unfolding after enqueue tick write_pending discard_and_drain total
after-Bounded w (enqueues item) (q, c, b) = ground (arith, length-append w.queue (item ∷ []))
after-Bounded w takes h = take-Bounded w w.queue refl h
after-Bounded w ticks (q, c, b) = ground arith
after-Bounded w flushes h = drain-Bounded w
after-Bounded w (discards account key) h =
    let all = record w { discarded_accounts = account ∷ w.discarded_accounts } in
    let keys = key ∷ or_empty (get w.discarded_keys account) in
    let one = record w { discarded_keys = put w.discarded_keys account keys } in
    if-Bounded (str_eq key "") (drain all) (drain one) (drain-Bounded all) (drain-Bounded one)
after-Bounded w stops h = drain-Bounded (record w { stopping = true })

run-from : (w : LogWriter) (events : List LogEvent) → Bounded w → Bounded (run w events)
unfolding run
run-from w [] h = h
run-from w (e ∷ events) h = run-from (after w e) events (after-Bounded w e h)

-- After any events, the queue is within its size, the counter is the number of rows that are pending, and
-- fewer rows are pending than make a batch.
pub run-Bounded_writer : (events : List LogEvent) → Bounded (run new_log_writer events)
unfolding new_log_writer total
run-Bounded_writer events = run-from new_log_writer events (ground arith)
