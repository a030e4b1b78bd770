-- ===== src/LogWriter/Order.antt =====
-- The order of the rows: an account's rows reach the database in the order in which they were accepted.
use mathlib.Core.Path.{subst, sym, ◌∙◌, ap}
use tiller_router.Prelude.{
  String, str_eq, eq_iff, ◌≡◌, refl, Bool, true, false, none, List, [], ◌∷◌, ◌++◌, ltb, leb,
  if◌then◌else◌, arith,
}
use tiller_router.Prelude.Table.{Table, get, put, Distinct, get-put, Distinct-put}
use tiller_router.LogWriter.{
  LogWrite, LogWriter, new_log_writer, or_empty, accepts, enqueue, add_pending, write_pending,
  add_all, drain, take_item, tick, discard_and_drain, LogEvent, enqueues, takes, ticks, flushes,
  discards, stops, after, run, log_write_batch_size,
}

append_assoc : {A : Type 0} (xs ys zs : List A) → (xs ++ ys) ++ zs ≡ xs ++ (ys ++ zs)
append_assoc [] ys zs = refl
append_assoc (x ∷ xs) ys zs = ap (λ l. x ∷ l) (append_assoc xs ys zs)

append_nil : {A : Type 0} (xs : List A) → xs ++ [] ≡ xs
append_nil [] = refl
append_nil (x ∷ xs) = ap (λ l. x ∷ l) (append_nil xs)

-- The rows of an account, in batches and in a list.
unfoldable pub rows_for : String → List (String × List LogWrite) → List LogWrite
rows_for account [] = []
rows_for account ((k, rows) ∷ batches) =
    if str_eq k account then rows ++ rows_for account batches else rows_for account batches

unfoldable pub of_account : String → List LogWrite → List LogWrite
of_account account [] = []
of_account account (item ∷ items) =
    if str_eq item.account_id account
    then item ∷ of_account account items
    else of_account account items

rows_for-append :
    (account : String) (b c : List (String × List LogWrite))
    → rows_for account (b ++ c) ≡ rows_for account b ++ rows_for account c
unfolding rows_for
rows_for-append account [] c = refl
rows_for-append account ((k, rows) ∷ b) c = ground (
  arith,
  rows_for-append account b c,
  append_assoc rows (rows_for account b) (rows_for account c),
)

of_account-append :
    (account : String) (b c : List LogWrite)
    → of_account account (b ++ c) ≡ of_account account b ++ of_account account c
unfolding of_account
of_account-append account [] c = refl
of_account-append account (x ∷ b) c = ground (arith, of_account-append account b c)

rows_for-missing :
    (account : String) (m : Table (List LogWrite)) → get m account ≡ none → rows_for account m ≡ []
unfolding rows_for get
rows_for-missing account [] e = refl
rows_for-missing account ((k, rows) ∷ m) e =
    ground (arith, eq_iff k account, rows_for-missing account m)

rows_for-get :
    (account : String) (m : Table (List LogWrite))
    → Distinct m
    → rows_for account m ≡ or_empty (get m account)
unfolding rows_for get
rows_for-get account [] d = refl
rows_for-get account ((k, rows) ∷ m) d = ground (
  arith,
  eq_iff k account,
  d.0,
  rows_for-missing account m,
  append_nil rows,
  rows_for-get account m d.1,
)

-- The rows of an account that are with the writer: handed on, pending, and queued.
unfoldable pub held : String → LogWriter → List LogWrite
held account w =
    rows_for account w.batches ++ (or_empty (get w.pending account) ++ of_account account w.queue)

held-add_pending :
    (account : String) (w : LogWriter) (item : LogWrite) (items : List LogWrite)
    → held account (add_pending (record w { queue = items }) item)
      ≡ held account (record w { queue = item ∷ items })
unfolding held add_pending of_account
held-add_pending account w item items =
    let old = or_empty (get w.pending item.account_id) in
    ground (
      arith,
      eq_iff item.account_id account,
      get-put w.pending item.account_id account (old ++ (item ∷ [])),
      append_assoc old (item ∷ []) (of_account account items),
    )

held-write_pending :
    (account : String) (w : LogWriter)
    → Distinct w.pending
    → held account (write_pending w) ≡ held account w
unfolding held write_pending get
held-write_pending account w d = ground (
  arith,
  rows_for-append account w.batches w.pending,
  rows_for-get account w.pending d,
  append_assoc (rows_for account w.batches) (or_empty (get w.pending account))
      (of_account account w.queue),
)

Distinct-add_pending :
    (w : LogWriter) (item : LogWrite) → Distinct w.pending → Distinct (add_pending w item).pending
unfolding add_pending
Distinct-add_pending w item d = Distinct-put w.pending item.account_id _ d

-- What the writer holds of the account, and that no account is pending twice.
abbrev pub Holding : String → List LogWrite → LogWriter → Type 0
Holding account rows w = (held account w ≡ rows) × Distinct w.pending

Holding-add_all :
    (account : String) (w : LogWriter) (items : List LogWrite) (rows : List LogWrite)
    → Holding account rows (record w { queue = items })
    → Holding account rows (add_all (record w { queue = [] }) items)
unfolding add_all
Holding-add_all account w [] rows h = h
Holding-add_all account w (item ∷ items) rows (h, d) =
    let w' = add_pending (record w { queue = [] }) item in
    Holding-add_all account w' items rows (
      unfold add_pending in held-add_pending account w item items ∙ h,
      Distinct-add_pending w item d,
    )

Holding-write_pending :
    (account : String) (w : LogWriter) (rows : List LogWrite)
    → Holding account rows w
    → Holding account rows (write_pending w)
unfolding write_pending
Holding-write_pending account w rows (h, d) =
    (unfold write_pending in held-write_pending account w d ∙ h, tt)

Holding-drain :
    (account : String) (w : LogWriter) (rows : List LogWrite)
    → Holding account rows w
    → Holding account rows (drain w)
unfolding drain
Holding-drain account w rows h =
    Holding-write_pending account _ rows (Holding-add_all account w w.queue rows h)

-- The rows of the account that the events let in, in order.
unfoldable pub lets_in : LogWriter → LogEvent → List LogWrite
unfolding accepts
lets_in w (enqueues item) = if accepts w item then item ∷ [] else []
lets_in w takes = []
lets_in w ticks = []
lets_in w flushes = []
lets_in w (discards account key) = []
lets_in w stops = []

unfoldable pub accepted : String → LogWriter → List LogEvent → List LogWrite
unfolding lets_in of_account after
accepted account w [] = []
accepted account w (e ∷ events) =
    of_account account (lets_in w e) ++ accepted account (after w e) events

Holding-enqueue :
    (account : String) (w : LogWriter) (item : LogWrite) (rows : List LogWrite)
    → Holding account rows w
    → Holding account (rows ++ of_account account (lets_in w (enqueues item))) (enqueue w item)
unfolding enqueue lets_in accepts held of_account
Holding-enqueue account w item rows (h, d) =
    let handed = rows_for account w.batches in
    let waiting = or_empty (get w.pending account) in
    let queued = of_account account w.queue in
    let more = of_account account (item ∷ []) in
    (
      ground (
        arith,
        h,
        append_nil rows,
        of_account-append account w.queue (item ∷ []),
        append_assoc handed (waiting ++ queued) more,
        append_assoc waiting queued more,
      ),
      ground (arith, d),
    )

Holding-if :
    (account : String) (rows : List LogWrite) (b : Bool) (x y : LogWriter)
    → Holding account rows x
    → Holding account rows y
    → Holding account rows (if b then x else y)
Holding-if account rows true x y p q = p
Holding-if account rows false x y p q = q

Holding-take :
    (account : String) (w : LogWriter) (items : List LogWrite) (rows : List LogWrite)
    → w.queue ≡ items
    → Holding account rows w
    → Holding account rows (take_item w items)
unfolding take_item
Holding-take account w [] rows e h = h
Holding-take account w (item ∷ items) rows e (h, d) =
    let w' = add_pending (record w { queue = items }) item in
    let p : Holding account rows w' = (
      held-add_pending account w item items ∙ (unfold held in ground (arith, h, e)),
      Distinct-add_pending (record w { queue = items }) item d,
    ) in
    Holding-if account rows (leb log_write_batch_size w'.total) (write_pending w') w'
      (Holding-write_pending account w' rows p) p

Holding-discard :
    (account : String) (w : LogWriter) (of key : String) (rows : List LogWrite)
    → Holding account rows w
    → Holding account rows (discard_and_drain w of key)
unfolding discard_and_drain
Holding-discard account w of key rows (h, d) =
    Holding-if account rows (str_eq key "") _ _
      (Holding-drain account (record w { discarded_accounts = of ∷ w.discarded_accounts }) rows
        (unfold held in h, d))
      (Holding-drain account
        (record w {
          discarded_keys = put w.discarded_keys of (key ∷ or_empty (get w.discarded_keys of));
        })
        rows (unfold held in h, d))

Holding-after :
    (account : String) (w : LogWriter) (e : LogEvent) (rows : List LogWrite)
    → Holding account rows w
    → Holding account (rows ++ of_account account (lets_in w e)) (after w e)
unfolding after lets_in of_account tick
Holding-after account w (enqueues item) rows h = Holding-enqueue account w item rows h
Holding-after account w takes rows h =
    subst (λ l. Holding account l (take_item w w.queue)) (sym (append_nil rows))
      (Holding-take account w w.queue rows refl h)
Holding-after account w ticks rows h =
    subst (λ l. Holding account l (tick w)) (sym (append_nil rows))
      (Holding-if account rows (ltb 0 w.total) (write_pending w) w
        (Holding-write_pending account w rows h) h)
Holding-after account w flushes rows h =
    subst (λ l. Holding account l (drain w)) (sym (append_nil rows))
      (Holding-drain account w rows h)
Holding-after account w (discards of key) rows h =
    subst (λ l. Holding account l (discard_and_drain w of key)) (sym (append_nil rows))
      (Holding-discard account w of key rows h)
Holding-after account w stops rows (h, d) =
    subst (λ l. Holding account l (drain (record w { stopping = true }))) (sym (append_nil rows))
      (Holding-drain account (record w { stopping = true }) rows (unfold held in h, d))

Holding-run :
    (account : String) (w : LogWriter) (events : List LogEvent) (rows : List LogWrite)
    → Holding account rows w
    → Holding account (rows ++ accepted account w events) (run w events)
unfolding run accepted
Holding-run account w [] rows h = subst (λ l. Holding account l w) (sym (append_nil rows)) h
Holding-run account w (e ∷ events) rows h =
    let new = of_account account (lets_in w e) in
    subst (λ l. Holding account l (run (after w e) events))
      (append_assoc rows new (accepted account (after w e) events))
      (Holding-run account (after w e) events (rows ++ new) (Holding-after account w e rows h))

pub queue-add_all :
    (w : LogWriter) (items : List LogWrite) → w.queue ≡ [] → (add_all w items).queue ≡ []
unfolding add_all add_pending
queue-add_all w [] e = e
queue-add_all w (item ∷ items) e = queue-add_all (add_pending w item) items e

held-drain :
    (account : String) (w : LogWriter) → held account (drain w) ≡ rows_for account (drain w).batches
unfolding held drain write_pending get of_account
held-drain account w = ground (
  arith,
  queue-add_all (record w { queue = [] }) w.queue refl,
  append_nil (rows_for account (drain w).batches),
)

Holding-new : (account : String) → Holding account [] new_log_writer
unfolding held new_log_writer rows_for of_account get
Holding-new account = (refl, tt)

-- After any sequence of requests that end, turns of the goroutine, flushes, discards and a stop: once the
-- writer is flushed, what was handed on for an account is exactly the rows of it that were accepted,
-- each once, in the order in which they were accepted, whatever the batches were.
pub flush-in_order :
    (account : String) (events : List LogEvent)
    → rows_for account (after (run new_log_writer events) flushes).batches
      ≡ accepted account new_log_writer events
unfolding after
flush-in_order account events =
    let w = run new_log_writer events in
    let h = Holding-run account new_log_writer events [] (Holding-new account) in
    sym (held-drain account w) ∙ (Holding-drain account w _ h).0
