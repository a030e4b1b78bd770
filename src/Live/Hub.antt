-- ===== src/Live/Hub.antt =====
-- The invariant of the live hub: the limits of its subscribers and queues, and when its dispatcher runs.
use mathlib.Core.Path.{ap}
use tiller_router.Prelude.{
  ℕ, ◌+◌, ◌≤◌, ◌<◌, String, ◌≡◌, refl, Bool, true, false, not, Option, none, some, List, [], ◌∷◌,
  ◌++◌, ltb, leb, ◌==◌, if◌then◌else◌, length, length-append, arith,
}
use tiller_router.Prelude.Table.{Table, get, put, delete}
use tiller_router.Live.{
  max_live_subscribers_per_account, live_outcome_buffer, Subscriber, LiveHub, new_hub, or_empty,
  subscribe, without, is_empty, leave, unsubscribe, emit_outcome, emit_activity, offer_all, deliver,
  broadcast, dispatch_outcome, dispatch_activity, HubEvent, subscribes, unsubscribes, emits_outcome,
  emits_activity, dispatches_outcome, dispatches_activity, broadcasts, after, run,
}
use tiller_router.Live.Subscribers.{
  Fits, AllAdmitted, AllAdmitted-put, AllAdmitted-delete, AllAdmitted-get, put-nonempty,
  get-nonempty, without-le, without-Fits, offer_all-Fits,
}

-- The accounts are admitted, the dispatcher runs exactly while someone is subscribed, and the queues fit.
abbrev pub Sound : LiveHub → Type 0
Sound h =
    AllAdmitted h.subs
    × (h.dispatching ≡ not (is_empty h.subs))
    × (length h.outcomes ≤ live_outcome_buffer)
    × (length h.activities ≤ live_outcome_buffer)

if-Sound :
    (b : Bool) (x y : LiveHub)
    → (b ≡ true → Sound x)
    → (b ≡ false → Sound y)
    → Sound (if b then x else y)
if-Sound true x y p q = p refl
if-Sound false x y p q = q refl

set-Fits :
    (subs : Table (List Subscriber)) (account : String) (found : Option (List Subscriber))
    → AllAdmitted subs
    → get subs account ≡ found
    → Fits (or_empty found)
set-Fits subs account none a e = tt
set-Fits subs account (some set) a e = (AllAdmitted-get subs account set a e).2

if-first :
    (b : Bool) (x y : LiveHub × Option ℕ)
    → (b ≡ true → Sound x.0)
    → (b ≡ false → Sound y.0)
    → Sound (if b then x else y).0
if-first true x y p q = p refl
if-first false x y p q = q refl

subscribe-Sound : (h : LiveHub) (account : String) → Sound h → Sound (subscribe h account).0
unfolding subscribe
subscribe-Sound h account (a, d, o, c) =
    let set = or_empty (get h.subs account) in
    let subscriber : Subscriber = record { channel = h.made; waiting = [] } in
    let joined = record h {
      subs = put h.subs account (subscriber ∷ set);
      made = h.made + 1;
      dispatching = true;
    } in
    if-first (leb max_live_subscribers_per_account (length set)) (h, none) (joined, some h.made)
      (λ _. (a, d, o, c))
      (λ room. (
        AllAdmitted-put h.subs account (subscriber ∷ set)
            (ground arith, ground (arith, room), (omega arith, set-Fits h.subs account _ a refl)) a,
        ground (arith, put-nonempty h.subs account (subscriber ∷ set)),
        o,
        c,
      ))

nonempty-length : (set : List Subscriber) → is_empty set ≡ false → 0 < length set
nonempty-length [] h = absurd (cc)
nonempty-length (s ∷ set) h = omega arith

leave-if :
    (b : Bool) (subs : Table (List Subscriber)) (account : String) (rest : List Subscriber)
    → AllAdmitted (delete subs account)
    → (b ≡ false → AllAdmitted (put subs account rest))
    → AllAdmitted (if b then delete subs account else put subs account rest)
leave-if true subs account rest p q = p
leave-if false subs account rest p q = q refl

leave-AllAdmitted :
    (subs : Table (List Subscriber)) (account : String) (found : Option (List Subscriber))
    (channel : ℕ)
    → AllAdmitted subs
    → get subs account ≡ found
    → AllAdmitted (leave subs account found channel)
unfolding leave
leave-AllAdmitted subs account none channel a e = a
leave-AllAdmitted subs account (some set) channel a e =
    let (p, l, f) = AllAdmitted-get subs account set a e in
    let rest = without channel set in
    let kept =
      leave-if (is_empty rest) subs account rest (AllAdmitted-delete subs account a) (λ some_left.
        AllAdmitted-put subs account rest
          (
            nonempty-length rest some_left,
            ground (arith, l, without-le channel set),
            without-Fits channel set f,
          )
          a) in
    kept

leave-empty :
    (subs : Table (List Subscriber)) (account : String) (found : Option (List Subscriber))
    (channel : ℕ)
    → is_empty subs ≡ true
    → get subs account ≡ found
    → is_empty (leave subs account found channel) ≡ true
unfolding leave get
leave-empty [] account none channel e g = refl
leave-empty [] account (some set) channel e g = absurd (cc)
leave-empty (entry ∷ subs) account found channel e g = absurd (cc)

unsubscribe-Sound :
    (h : LiveHub) (account : String) (channel : ℕ) → Sound h → Sound (unsubscribe h account channel)
unfolding unsubscribe
unsubscribe-Sound h account channel (a, d, o, c) = (
  leave-AllAdmitted h.subs account (get h.subs account) channel a refl,
  ground (arith, d, leave-empty h.subs account (get h.subs account) channel),
  o,
  c,
)

deliver-AllAdmitted :
    (subs : Table (List Subscriber)) (account message : String) (found : Option (List Subscriber))
    → AllAdmitted subs
    → get subs account ≡ found
    → AllAdmitted (deliver subs account message found)
      × (is_empty (deliver subs account message found) ≡ is_empty subs)
unfolding deliver
deliver-AllAdmitted subs account message none a e = (a, refl)
deliver-AllAdmitted subs account message (some set) a e =
    let (p, l, f) = AllAdmitted-get subs account set a e in
    let (g, k) = offer_all-Fits message set f in
    (
      AllAdmitted-put subs account (offer_all message set)
          (ground (arith, p, k), ground (arith, l, k), g) a,
      ground (
        arith,
        put-nonempty subs account (offer_all message set),
        get-nonempty subs account set e,
      ),
    )

broadcast-Sound :
    (h : LiveHub) (account message : String) → Sound h → Sound (broadcast h account message)
unfolding broadcast
broadcast-Sound h account message (a, d, o, c) =
    let (b, e) = deliver-AllAdmitted h.subs account message (get h.subs account) a refl in
    (b, ground (arith, d, e), o, c)

emit_outcome-Sound :
    (h : LiveHub) (account delta : String) → Sound h → Sound (emit_outcome h account delta)
unfolding emit_outcome
emit_outcome-Sound h account delta (a, d, o, c) =
    let event : String × String = (account, delta) in
    let queued = record h { outcomes = h.outcomes ++ (event ∷ []) } in
    let fits = ltb (length h.outcomes) live_outcome_buffer in
    if-Sound (length (or_empty (get h.subs account)) == 0) h (if fits then queued else h)
      (λ _. (a, d, o, c))
      (λ _.
        if-Sound fits queued h
          (λ room. (a, d, ground (arith, room, length-append h.outcomes (event ∷ [])), c))
          (λ _. (a, d, o, c)))

emit_activity-Sound :
    (h : LiveHub) (account delta : String) → Sound h → Sound (emit_activity h account delta)
unfolding emit_activity
emit_activity-Sound h account delta (a, d, o, c) =
    let event : String × String = (account, delta) in
    let queued = record h { activities = h.activities ++ (event ∷ []) } in
    let fits = ltb (length h.activities) live_outcome_buffer in
    if-Sound (length (or_empty (get h.subs account)) == 0) h (if fits then queued else h)
      (λ _. (a, d, o, c))
      (λ _.
        if-Sound fits queued h
          (λ room. (a, d, o, ground (arith, room, length-append h.activities (event ∷ []))))
          (λ _. (a, d, o, c)))

dispatch_outcome-Sound :
    (encode : String → String → String) (h : LiveHub) (queued : List (String × String))
    → Sound h
    → h.outcomes ≡ queued
    → Sound (dispatch_outcome encode h queued)
unfolding dispatch_outcome
dispatch_outcome-Sound encode h [] s e = s
dispatch_outcome-Sound encode h ((account, delta) ∷ outcomes) (a, d, o, c) e =
    broadcast-Sound (record h { outcomes = outcomes }) account (encode "outcome" delta)
      (a, d, ground (arith, o, ap length e), c)

dispatch_activity-Sound :
    (encode : String → String → String) (h : LiveHub) (queued : List (String × String))
    → Sound h
    → h.activities ≡ queued
    → Sound (dispatch_activity encode h queued)
unfolding dispatch_activity
dispatch_activity-Sound encode h [] s e = s
dispatch_activity-Sound encode h ((account, delta) ∷ activities) (a, d, o, c) e =
    broadcast-Sound (record h { activities = activities }) account (encode "activity" delta)
      (a, d, o, ground (arith, c, ap length e))

after-Sound :
    (encode : String → String → String) (h : LiveHub) (e : HubEvent)
    → Sound h
    → Sound (after encode h e)
unfolding after
after-Sound encode h (subscribes account) s = subscribe-Sound h account s
after-Sound encode h (unsubscribes account channel) s = unsubscribe-Sound h account channel s
after-Sound encode h (emits_outcome account delta) s = emit_outcome-Sound h account delta s
after-Sound encode h (emits_activity account delta) s = emit_activity-Sound h account delta s
after-Sound encode h dispatches_outcome s = dispatch_outcome-Sound encode h h.outcomes s refl
after-Sound encode h dispatches_activity s = dispatch_activity-Sound encode h h.activities s refl
after-Sound encode h (broadcasts account message) s = broadcast-Sound h account message s

Sound-run :
    (encode : String → String → String) (h : LiveHub) (events : List HubEvent)
    → Sound h
    → Sound (run encode h events)
unfolding run
Sound-run encode h [] s = s
Sound-run encode h (e ∷ events) s =
    Sound-run encode (after encode h e) events (after-Sound encode h e s)

-- After any sequence of the hub's steps from the empty hub, every account in it has from one to eight
-- subscribers, none with more than eight messages waiting, the dispatcher runs exactly if some account has
-- a subscriber, and each of the two queues holds at most 64 events.
pub run-Sound :
    (encode : String → String → String) (events : List HubEvent) → Sound (run encode new_hub events)
unfolding new_hub
run-Sound encode events = Sound-run encode new_hub events (tt, refl, omega arith, omega arith)
