-- ===== src/LogWriter.antt =====
-- internal/server/logwriter.go: the queue of finished log rows and the goroutine that writes them in
-- batches. A row is its item. What InsertRequestLogs is called with is kept as `batches`, whether the
-- insertion succeeds or not, since the source drops a batch that fails. A step of `run` is one case of
-- its select; `flush` and `discardAndDrain` hold the lock until the drain is acknowledged, so no row
-- enters in between, and are one step each.
mod Order
mod Discards
mod Bounds
mod Examples
use tiller_router.Prelude.{
  ℕ, ◌+◌, String, str_eq, Bool, true, false, not, ◌&&◌, ◌||◌, Option, none, some, List, [], ◌∷◌,
  ◌++◌, ltb, leb, if◌then◌else◌, length,
}
use tiller_router.Prelude.Table.{Table, get, put}

abbrev pub log_write_queue_size : ℕ
log_write_queue_size = 1024

abbrev pub log_write_batch_size : ℕ
log_write_batch_size = 64

pub record LogWrite : Type 0 where
  pub account_id : String
  pub client_key_id : String
  pub request_id : String

pub record LogWriter : Type 0 where
  pub queue : List LogWrite
  pub pending : Table (List LogWrite)
  pub total : ℕ
  pub discarded_accounts : List String
  pub discarded_keys : Table (List String)
  pub dropped : ℕ
  pub stopped : ℕ
  pub stopping : Bool
  pub batches : List (String × List LogWrite)

unfoldable pub new_log_writer : LogWriter
new_log_writer = record {
  queue = [];
  pending = [];
  total = 0;
  discarded_accounts = [];
  discarded_keys = [];
  dropped = 0;
  stopped = 0;
  stopping = false;
  batches = [];
}

unfoldable pub has : List String → String → Bool
has [] x = false
has (y ∷ ys) x = str_eq y x || has ys x

abbrev pub or_empty {ℓ} : {A : Type ℓ} → Option (List A) → List A
or_empty none = []
or_empty (some l) = l

unfoldable pub discarded : LogWriter → LogWrite → Bool
unfolding has
discarded w item =
    has w.discarded_accounts item.account_id
    || has (or_empty (get w.discarded_keys item.account_id)) item.client_key_id

-- Whether `enqueue` puts the row into the queue.
unfoldable pub accepts : LogWriter → LogWrite → Bool
accepts w item =
    not (discarded w item) && not w.stopping && ltb (length w.queue) log_write_queue_size

unfoldable pub enqueue : LogWriter → LogWrite → LogWriter
enqueue w item =
    if discarded w item
    then w
    else if w.stopping
    then (record w { stopped = w.stopped + 1 })
    else if ltb (length w.queue) log_write_queue_size
    then (record w { queue = w.queue ++ (item ∷ []) })
    else (record w { dropped = w.dropped + 1 })

-- pending[item.accountID] = append(pending[item.accountID], item.row); total++
unfoldable pub add_pending : LogWriter → LogWrite → LogWriter
add_pending w item = record w {
  pending = put w.pending item.account_id (or_empty (get w.pending item.account_id) ++ (item ∷ []));
  total = w.total + 1;
}

-- The closure `flush` of `run`.
unfoldable pub write_pending : LogWriter → LogWriter
write_pending w = record w { batches = w.batches ++ w.pending; pending = []; total = 0 }

unfoldable pub add_all : LogWriter → List LogWrite → LogWriter
unfolding add_pending
add_all w [] = w
add_all w (item ∷ items) = add_all (add_pending w item) items

-- The closure `drain`.
unfoldable pub drain : LogWriter → LogWriter
unfolding add_all write_pending
drain w = write_pending (add_all (record w { queue = [] }) w.queue)

-- case item := <-w.ch
unfoldable pub take_item : LogWriter → List LogWrite → LogWriter
unfolding add_pending write_pending
take_item w [] = w
take_item w (item ∷ items) =
    let w' = add_pending (record w { queue = items }) item in
    if leb log_write_batch_size w'.total then write_pending w' else w'

-- case <-ticker.C
unfoldable pub tick : LogWriter → LogWriter
unfolding write_pending
tick w = if ltb 0 w.total then write_pending w else w

unfoldable pub discard_and_drain : LogWriter → String → String → LogWriter
unfolding drain
discard_and_drain w account key =
    if str_eq key ""
    then drain (record w { discarded_accounts = account ∷ w.discarded_accounts })
    else drain (record w {
      discarded_keys = put w.discarded_keys account (key ∷ or_empty (get w.discarded_keys account));
    })

-- What happens to the writer: a request ends, the goroutine takes a row, its ticker fires, and the calls of
-- `flush`, `discardAndDrain` and `stop`.
pub data LogEvent : Type 0 where
  enqueues : LogWrite → LogEvent
  takes ticks flushes : LogEvent
  discards : String → String → LogEvent
  stops : LogEvent

unfoldable pub after : LogWriter → LogEvent → LogWriter
unfolding enqueue take_item tick drain discard_and_drain
after w (enqueues item) = enqueue w item
after w takes = take_item w w.queue
after w ticks = tick w
after w flushes = drain w
after w (discards account key) = discard_and_drain w account key
after w stops = drain (record w { stopping = true })

unfoldable pub run : LogWriter → List LogEvent → LogWriter
unfolding after
run w [] = w
run w (e ∷ events) = run (after w e) events
