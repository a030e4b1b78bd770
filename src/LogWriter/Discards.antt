-- ===== src/LogWriter/Discards.antt =====
-- The discard of a deleted account or key: after it, no row of it is written any more.
use tiller_router.Prelude.{
  ℕ, ◌+◌, String, str_eq, eq_iff, ◌≡◌, refl, Bool, true, false, ◌&&◌, ◌||◌, List, [], ◌∷◌, ◌++◌,
  ltb, leb, if◌then◌else◌, length, arith,
}
use tiller_router.Prelude.Table.{Table, get, put, get-put, total, total-put}
use mathlib.Core.Path.{subst}
use tiller_router.LogWriter.Order.{queue-add_all}
use tiller_router.LogWriter.{
  log_write_queue_size, LogWrite, LogWriter, has, or_empty, enqueue, add_pending, write_pending,
  add_all, drain, take_item, tick, discard_and_drain, LogEvent, enqueues, takes, ticks, flushes,
  discards, stops, after, run, discarded, log_write_batch_size,
}

module _ (p : LogWrite → Bool) where
  unfoldable pub count : List LogWrite → ℕ
  count [] = 0
  count (item ∷ items) = (if p item then 1 else 0) + count items

  count-append : (a b : List LogWrite) → count (a ++ b) ≡ count a + count b
  unfolding count
  count-append [] b = omega arith
  count-append (x ∷ a) b = ground (arith, count-append a b)

  -- The rows in batches.
  abbrev pub counted : Table (List LogWrite) → ℕ
  counted batches = total (λ _ rows. count rows) batches

  counted-append : (a b : Table (List LogWrite)) → counted (a ++ b) ≡ counted a + counted b
  unfolding total
  counted-append [] b = omega arith
  counted-append ((k, rows) ∷ a) b = ground (arith, counted-append a b)

  -- Every such row is refused, none waits, and so many are handed on.
  abbrev Quiet : ℕ → LogWriter → Type 0
  Quiet n w =
      ((item : LogWrite) → p item ≡ true → discarded w item ≡ true)
      × (count w.queue ≡ 0)
      × (counted w.pending ≡ 0)
      × (counted w.batches ≡ n)

  module _ (n : ℕ) where
    Quiet-add_pending :
        (w : LogWriter) (item : LogWrite)
        → p item ≡ false
        → Quiet n w
        → Quiet n (add_pending w item)
    unfolding add_pending discarded
    Quiet-add_pending w item other (d, q, m, b) =
        let old = or_empty (get w.pending item.account_id) in
        (
          d,
          q,
          (unfold count in
              ground (
                arith,
                other,
                m,
                count-append old (item ∷ []),
                total-put (λ _ rows. count rows) w.pending item.account_id (old ++ (item ∷ [])),
              )),
          b,
        )

    Quiet-write_pending : (w : LogWriter) → Quiet n w → Quiet n (write_pending w)
    unfolding write_pending total discarded
    Quiet-write_pending w (d, q, m, b) =
        (d, q, refl, ground (arith, counted-append w.batches w.pending, m, b))

    Quiet-add_all :
        (w : LogWriter) (items : List LogWrite)
        → count items ≡ 0
        → Quiet n w
        → Quiet n (add_all w items)
    unfolding add_all count
    Quiet-add_all w [] c h = h
    Quiet-add_all w (item ∷ items) c h =
        Quiet-add_all (add_pending w item) items (ground arith)
          (Quiet-add_pending w item (ground (arith, c)) h)

    Quiet-drain : (w : LogWriter) → Quiet n w → Quiet n (drain w)
    unfolding drain count discarded
    Quiet-drain w (d, q, m, b) =
        Quiet-write_pending (add_all (record w { queue = [] }) w.queue)
          (Quiet-add_all (record w { queue = [] }) w.queue q (d, refl, m, b))

    Quiet-if :
        (b : Bool) (x y : LogWriter)
        → (b ≡ true → Quiet n x)
        → (b ≡ false → Quiet n y)
        → Quiet n (if b then x else y)
    Quiet-if true x y h k = h refl
    Quiet-if false x y h k = k refl

    Quiet-enqueue : (w : LogWriter) (item : LogWrite) → Quiet n w → Quiet n (enqueue w item)
    unfolding enqueue discarded count
    Quiet-enqueue w item (d, q, m, b) =
        let stopped = record w { stopped = w.stopped + 1 } in
        let queued = record w { queue = w.queue ++ (item ∷ []) } in
        let dropped = record w { dropped = w.dropped + 1 } in
        let fits = ltb (length w.queue) log_write_queue_size in
        Quiet-if (discarded w item) w
          (if w.stopping then stopped else if fits then queued else dropped) (λ _. (d, q, m, b))
          (λ fresh.
            Quiet-if w.stopping stopped (if fits then queued else dropped) (λ _. (d, q, m, b))
              (λ _.
                Quiet-if fits queued dropped
                  (λ _.
                    (d, ground (arith, q, fresh, d item, count-append w.queue (item ∷ [])), m, b))
                  (λ _. (d, q, m, b))))

    Quiet-take :
        (w : LogWriter) (items : List LogWrite)
        → w.queue ≡ items
        → Quiet n w
        → Quiet n (take_item w items)
    unfolding take_item discarded count
    Quiet-take w [] e h = h
    Quiet-take w (item ∷ items) e (d, q, m, b) =
        let w' = add_pending (record w { queue = items }) item in
        let none_of_it = subst (λ l. count l ≡ 0) e q in
        let h : Quiet n w' =
          Quiet-add_pending (record w { queue = items }) item (ground (arith, none_of_it))
            (d, ground (arith, none_of_it), m, b) in
        Quiet-if (leb log_write_batch_size w'.total) (write_pending w') w'
          (λ _. Quiet-write_pending w' h) (λ _. h)

    Quiet-discard :
        (w : LogWriter) (account key : String)
        → Quiet n w
        → Quiet n (discard_and_drain w account key)
    unfolding discard_and_drain discarded has
    Quiet-discard w account key (d, q, m, b) =
        let all = record w { discarded_accounts = account ∷ w.discarded_accounts } in
        let keys = key ∷ or_empty (get w.discarded_keys account) in
        let one = record w { discarded_keys = put w.discarded_keys account keys } in
        Quiet-if (str_eq key "") (drain all) (drain one)
          (λ _. Quiet-drain all ((λ item h. ground (arith, d item h)), q, m, b))
          (λ _. Quiet-drain one (
            (λ item h. ground (
              arith,
              d item h,
              eq_iff account item.account_id,
              get-put w.discarded_keys account item.account_id keys,
            )),
            q,
            m,
            b,
          ))

    Quiet-after : (w : LogWriter) (e : LogEvent) → Quiet n w → Quiet n (after w e)
    unfolding after tick discarded
    Quiet-after w (enqueues item) h = Quiet-enqueue w item h
    Quiet-after w takes h = Quiet-take w w.queue refl h
    Quiet-after w ticks h =
        Quiet-if (ltb 0 w.total) (write_pending w) w (λ _. Quiet-write_pending w h) (λ _. h)
    Quiet-after w flushes h = Quiet-drain w h
    Quiet-after w (discards account key) h = Quiet-discard w account key h
    Quiet-after w stops (d, q, m, b) = Quiet-drain (record w { stopping = true }) (d, q, m, b)

    Quiet-run : (w : LogWriter) (events : List LogEvent) → Quiet n w → Quiet n (run w events)
    unfolding run
    Quiet-run w [] h = h
    Quiet-run w (e ∷ events) h = Quiet-run (after w e) events (Quiet-after w e h)

-- The rows that a discard is about: of the account, or of one of its keys.
abbrev pub covered : String → String → LogWrite → Bool
covered account key item =
    str_eq item.account_id account && (str_eq key "" || str_eq item.client_key_id key)

add_all-lists :
    (w : LogWriter) (items : List LogWrite)
    → ((add_all w items).discarded_accounts ≡ w.discarded_accounts)
      × ((add_all w items).discarded_keys ≡ w.discarded_keys)
unfolding add_all add_pending
add_all-lists w [] = (refl, refl)
add_all-lists w (item ∷ items) = add_all-lists (add_pending w item) items

discards-covered :
    (w : LogWriter) (account key : String) (item : LogWrite)
    → covered account key item ≡ true
    → discarded (discard_and_drain w account key) item ≡ true
unfolding discard_and_drain discarded has drain write_pending
discards-covered w account key item c =
    let all = record w { discarded_accounts = account ∷ w.discarded_accounts; queue = [] } in
    let keys = key ∷ or_empty (get w.discarded_keys account) in
    let one = record w { discarded_keys = put w.discarded_keys account keys; queue = [] } in
    ground (
      arith,
      c,
      add_all-lists all w.queue,
      add_all-lists one w.queue,
      eq_iff item.account_id account,
      eq_iff account item.account_id,
      eq_iff item.client_key_id key,
      eq_iff key item.client_key_id,
      get-put w.discarded_keys account item.account_id keys,
    )

abbrev Drained : (LogWrite → Bool) → LogWriter → Type 0
Drained p w = (count p w.queue ≡ 0) × (counted p w.pending ≡ 0)

drained : (p : LogWrite → Bool) (w : LogWriter) → Drained p (drain w)
unfolding drain write_pending count total
drained p w = (ground (arith, queue-add_all (record w { queue = [] }) w.queue refl), refl)

Drained-if :
    (p : LogWrite → Bool) (b : Bool) (x y : LogWriter)
    → Drained p x
    → Drained p y
    → Drained p (if b then x else y)
Drained-if p true x y h k = h
Drained-if p false x y h k = k

discard-Drained :
    (p : LogWrite → Bool) (w : LogWriter) (account key : String)
    → Drained p (discard_and_drain w account key)
unfolding discard_and_drain
discard-Drained p w account key =
    let all = record w { discarded_accounts = account ∷ w.discarded_accounts } in
    let keys = key ∷ or_empty (get w.discarded_keys account) in
    let one = record w { discarded_keys = put w.discarded_keys account keys } in
    Drained-if p (str_eq key "") (drain all) (drain one) (drained p all) (drained p one)

-- From any state: once the discard of an account, or of a key of it, has drained the queue, no row of it is
-- handed on any more, whatever requests end, batches are written or other discards come afterwards.
pub discards-final :
    (w : LogWriter) (account key : String) (events : List LogEvent)
    → let w' = after w (discards account key) in
      counted (covered account key) (run w' events).batches
      ≡ counted (covered account key) w'.batches
unfolding after
discards-final w account key events =
    let p = covered account key in
    let w' = discard_and_drain w account key in
    let (q, m) = discard-Drained p w account key in
    (Quiet-run p (counted p w'.batches) w' events (discards-covered w account key, q, m, refl)).3
