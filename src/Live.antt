-- ===== src/Live.antt =====
-- internal/server/live.go: the subscribers of the live dashboards, per account, and what is queued for them.
-- A method holds the hub's mutex throughout and is one step. A channel is a number, with the messages that
-- wait in it; a new one is numbered by `made`. The events' contents are texts.
mod Subscribers
mod Hub
mod Examples
use tiller_router.Prelude.{
  ℕ, ◌+◌, String, str_eq, Bool, true, false, not, ◌&&◌, Option, none, some, List, [], ◌∷◌, ◌++◌,
  map, ltb, leb, ◌==◌, if◌then◌else◌, length,
}
use tiller_router.Prelude.Table.{Table, get, put, delete}

abbrev pub max_live_subscribers_per_account : ℕ
max_live_subscribers_per_account = 8

-- make(chan []byte, 8)
abbrev pub subscriber_buffer : ℕ
subscriber_buffer = 8

abbrev pub live_outcome_buffer : ℕ
live_outcome_buffer = 64

pub record Subscriber : Type 0 where
  pub channel : ℕ
  pub waiting : List String

-- `dispatching` says that `cancel` is set; the queues are `outcomeCh` and `activityCh`.
pub record LiveHub : Type 0 where
  pub subs : Table (List Subscriber)
  pub made : ℕ
  pub dispatching : Bool
  pub outcomes : List (String × String)
  pub activities : List (String × String)

unfoldable pub new_hub : LiveHub
new_hub = record { subs = []; made = 0; dispatching = false; outcomes = []; activities = [] }

abbrev pub or_empty : Option (List Subscriber) → List Subscriber
or_empty none = []
or_empty (some set) = set

-- The hub, and the channel if the account is not at its limit.
unfoldable pub subscribe : LiveHub → String → LiveHub × Option ℕ
subscribe h account =
    let set = or_empty (get h.subs account) in
    if leb max_live_subscribers_per_account (length set) then (h, none) else (
      record h {
        subs = put h.subs account (record { channel = h.made; waiting = [] } ∷ set);
        made = h.made + 1;
        dispatching = true;
      },
      some h.made,
    )

unfoldable pub without : ℕ → List Subscriber → List Subscriber
without channel [] = []
without channel (s ∷ set) =
    if s.channel == channel then without channel set else s ∷ without channel set

abbrev pub is_empty {ℓ} : {A : Type ℓ} → List A → Bool
is_empty [] = true
is_empty (x ∷ xs) = false

-- delete(set, ch), and the account with its last subscriber
unfoldable pub leave :
    Table (List Subscriber) → String → Option (List Subscriber) → ℕ → Table (List Subscriber)
unfolding without
leave subs account none channel = subs
leave subs account (some set) channel =
    let rest = without channel set in
    if is_empty rest then delete subs account else put subs account rest

unfoldable pub unsubscribe : LiveHub → String → ℕ → LiveHub
unfolding leave
unsubscribe h account channel =
    let subs = leave h.subs account (get h.subs account) channel in
    record h { subs = subs; dispatching = h.dispatching && not (is_empty subs) }

unfoldable pub emit_outcome : LiveHub → String → String → LiveHub
emit_outcome h account delta =
    if length (or_empty (get h.subs account)) == 0
    then h
    else if ltb (length h.outcomes) live_outcome_buffer
    then (record h { outcomes = h.outcomes ++ ((account, delta) ∷ []) })
    else h

unfoldable pub emit_activity : LiveHub → String → String → LiveHub
emit_activity h account delta =
    if length (or_empty (get h.subs account)) == 0
    then h
    else if ltb (length h.activities) live_outcome_buffer
    then (record h { activities = h.activities ++ ((account, delta) ∷ []) })
    else h

-- A full subscriber drops the message.
unfoldable pub offer : String → Subscriber → Subscriber
offer message s =
    if ltb (length s.waiting) subscriber_buffer
    then (record s { waiting = s.waiting ++ (message ∷ []) })
    else s

unfoldable pub offer_all : String → List Subscriber → List Subscriber
unfolding offer
offer_all message [] = []
offer_all message (s ∷ set) = offer message s ∷ offer_all message set

unfoldable pub deliver :
    Table (List Subscriber) → String → String → Option (List Subscriber) → Table (List Subscriber)
unfolding offer_all
deliver subs account message none = subs
deliver subs account message (some set) = put subs account (offer_all message set)

unfoldable pub broadcast : LiveHub → String → String → LiveHub
unfolding deliver
broadcast h account message = record h {
  subs = deliver h.subs account message (get h.subs account);
}

-- The cases of the dispatcher that take an event: `encode` writes the message of an event and its payload.
unfoldable pub dispatch_outcome :
    (String → String → String) → LiveHub → List (String × String) → LiveHub
unfolding broadcast
dispatch_outcome encode h [] = h
dispatch_outcome encode h ((account, delta) ∷ outcomes) =
    broadcast (record h { outcomes = outcomes }) account (encode "outcome" delta)

unfoldable pub dispatch_activity :
    (String → String → String) → LiveHub → List (String × String) → LiveHub
unfolding broadcast
dispatch_activity encode h [] = h
dispatch_activity encode h ((account, delta) ∷ activities) =
    broadcast (record h { activities = activities }) account (encode "activity" delta)

pub data HubEvent : Type 0 where
  subscribes : String → HubEvent
  unsubscribes : String → ℕ → HubEvent
  emits_outcome emits_activity : String → String → HubEvent
  dispatches_outcome dispatches_activity : HubEvent
  broadcasts : String → String → HubEvent

unfoldable pub after : (String → String → String) → LiveHub → HubEvent → LiveHub
unfolding subscribe unsubscribe emit_outcome emit_activity dispatch_outcome dispatch_activity
    broadcast
after encode h (subscribes account) = (subscribe h account).0
after encode h (unsubscribes account channel) = unsubscribe h account channel
after encode h (emits_outcome account delta) = emit_outcome h account delta
after encode h (emits_activity account delta) = emit_activity h account delta
after encode h dispatches_outcome = dispatch_outcome encode h h.outcomes
after encode h dispatches_activity = dispatch_activity encode h h.activities
after encode h (broadcasts account message) = broadcast h account message

unfoldable pub run : (String → String → String) → LiveHub → List HubEvent → LiveHub
unfolding after
run encode h [] = h
run encode h (e ∷ events) = run encode (after encode h e) events
