-- ===== src/Live/Subscribers.antt =====
-- The subscribers of the live hub, account by account: how many there are and what waits for them.
use mathlib.Core.Path.{subst}
use tiller_router.Prelude.{
  Bool-cases, inl, inr, ℕ, ◌≤◌, ◌<◌, String, str_eq, ◌≡◌, refl, Bool, true, false, some, List, [],
  ◌∷◌, ◌==◌, if◌then◌else◌, length, length-append, arith,
}
use tiller_router.Prelude.Table.{Table, get, put, delete}
use tiller_router.Live.{
  max_live_subscribers_per_account, subscriber_buffer, Subscriber, without, is_empty, offer,
  offer_all,
}

-- No channel holds more messages than it has room for.
abbrev pub Fits : List Subscriber → Type 0
Fits [] = Unit
Fits (s ∷ set) = (length s.waiting ≤ subscriber_buffer) × Fits set

-- The subscribers of an account: one at least, and no more than the limit.
abbrev pub Admitted : List Subscriber → Type 0
Admitted set = (0 < length set) × (length set ≤ max_live_subscribers_per_account) × Fits set

abbrev pub AllAdmitted : Table (List Subscriber) → Type 0
AllAdmitted [] = Unit
AllAdmitted ((account, set) ∷ subs) = Admitted set × AllAdmitted subs

if-AllAdmitted :
    (b : Bool) (x y : Table (List Subscriber))
    → AllAdmitted x
    → AllAdmitted y
    → AllAdmitted (if b then x else y)
if-AllAdmitted true x y p q = p
if-AllAdmitted false x y p q = q

pub AllAdmitted-put :
    (subs : Table (List Subscriber)) (account : String) (set : List Subscriber)
    → Admitted set
    → AllAdmitted subs
    → AllAdmitted (put subs account set)
unfolding put
AllAdmitted-put [] account set s a = (s, tt)
AllAdmitted-put ((k, old) ∷ subs) account set s (o, a) =
    if-AllAdmitted (str_eq k account) ((k, set) ∷ subs) ((k, old) ∷ put subs account set) (s, a)
      (o, AllAdmitted-put subs account set s a)

pub AllAdmitted-delete :
    (subs : Table (List Subscriber)) (account : String)
    → AllAdmitted subs
    → AllAdmitted (delete subs account)
unfolding delete
AllAdmitted-delete [] account a = a
AllAdmitted-delete ((k, old) ∷ subs) account (o, a) =
    let rest = AllAdmitted-delete subs account a in
    if-AllAdmitted (str_eq k account) (delete subs account) ((k, old) ∷ delete subs account) rest
      (o, rest)

pub AllAdmitted-get :
    (subs : Table (List Subscriber)) (account : String) (set : List Subscriber)
    → AllAdmitted subs
    → get subs account ≡ some set
    → Admitted set
unfolding get
AllAdmitted-get [] account set a h = absurd (cc)
AllAdmitted-get ((k, old) ∷ subs) account set (o, a) h = elim (Bool-cases (str_eq k account)) [
  | inl e ↦ subst Admitted (ground (arith, h, e)) o
  | inr e ↦ AllAdmitted-get subs account set a (ground (arith, h, e))
]

pub put-nonempty :
    (subs : Table (List Subscriber)) (account : String) (set : List Subscriber)
    → is_empty (put subs account set) ≡ false
unfolding put
put-nonempty [] account set = refl
put-nonempty ((k, old) ∷ subs) account set = ground arith

pub get-nonempty :
    (subs : Table (List Subscriber)) (account : String) (set : List Subscriber)
    → get subs account ≡ some set
    → is_empty subs ≡ false
unfolding get
get-nonempty [] account set h = absurd (cc)
get-nonempty (entry ∷ subs) account set h = refl

pub without-le : (channel : ℕ) (set : List Subscriber) → length (without channel set) ≤ length set
unfolding without
without-le channel [] = omega arith
without-le channel (s ∷ set) = ground (arith, without-le channel set)

pub without-Fits : (channel : ℕ) (set : List Subscriber) → Fits set → Fits (without channel set)
unfolding without
without-Fits channel [] f = f
without-Fits channel (s ∷ set) (r, f) =
    if-Fits (s.channel == channel) (without channel set) s (without-Fits channel set f) r
  where
    if-Fits :
        (b : Bool) (rest : List Subscriber) (s : Subscriber)
        → Fits rest
        → length s.waiting ≤ 8
        → Fits (if b then rest else s ∷ rest)
    if-Fits true rest s f r = f
    if-Fits false rest s f r = (r, f)

pub offer_all-Fits :
    (message : String) (set : List Subscriber)
    → Fits set
    → Fits (offer_all message set) × (length (offer_all message set) ≡ length set)
unfolding offer_all offer
offer_all-Fits message [] f = (f, refl)
offer_all-Fits message (s ∷ set) (r, f) =
    let (g, e) = offer_all-Fits message set f in
    ((ground (arith, length-append s.waiting (message ∷ []), r), g), ground (arith, e))
