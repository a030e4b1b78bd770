-- ===== src/Auth/Tokens/Cache.antt =====
-- What the cache holds after the operations that only drop or renew entries.
use tiller_router.Prelude.{
  ℕ, ◌+◌, String, eq_iff, ◌≡◌, refl, ◌∙◌, Bool, none, some, [], ◌∷◌, ltb, leb, length, arith,
  Bool-cases, Option-cases, inl, inr,
}
use tiller_router.Prelude.Table.{
  Table, get, keep, Distinct, get-put, get-delete, get-keep, Distinct-put, Distinct-delete,
  Distinct-keep,
}
use tiller_router.Auth.Tokens.{
  CacheEntry, Authenticator, lookup, sweep_expired, drop_to, ensure_cache_room, expired_at,
}

-- What stands in the first map under a key has the identity of what stands in the second.
abbrev pub Within : Table CacheEntry → Table CacheEntry → Type 0
Within m' m =
    (k : String) (e : CacheEntry)
    → get m' k ≡ some e
    → (x : CacheEntry) × (get m k ≡ some x) × (x.identity ≡ e.identity)

pub keep-Within :
    (p : String → CacheEntry → Bool) (m : Table CacheEntry) → Distinct m → Within (keep p m) m
keep-Within p m d k e h = elim (Option-cases (get m k)) [
  | inl absent ↦ cc (get-keep p m k d)
  | inr (x, held) ↦ (x, held, ground (arith, get-keep p m k d, h, held))
]

pub drop_to-Within : (bound : ℕ) (m : Table CacheEntry) → Distinct m → Within (drop_to bound m) m
unfolding drop_to get
drop_to-Within bound [] d k e h = (e, h, refl)
drop_to-Within bound ((j, x) ∷ m) d k e h =
    let below = drop_to-Within bound m d.1 k e in
    elim (Bool-cases (leb bound (length m + 1))) [
      | inl full ↦
          let (x', held, same) = below (ground (arith, h, full)) in
          (x', ground (arith, held, d.0, eq_iff j k), same)
      | inr fits ↦ (e, ground (arith, h, fits), refl)
    ]

get-drop_to_absent :
    (bound : ℕ) (m : Table CacheEntry) (k : String)
    → get m k ≡ none
    → get (drop_to bound m) k ≡ none
unfolding drop_to get
get-drop_to_absent bound [] k h = h
get-drop_to_absent bound ((j, x) ∷ m) k h = ground (arith, h, get-drop_to_absent bound m k)

pub Distinct-drop_to : (bound : ℕ) (m : Table CacheEntry) → Distinct m → Distinct (drop_to bound m)
unfolding drop_to
Distinct-drop_to bound [] d = d
Distinct-drop_to bound ((j, x) ∷ m) d = elim (Bool-cases (leb bound (length m + 1))) [
  | inl full ↦ rw full (Distinct-drop_to bound m d.1)
  | inr fits ↦ rw fits d
]

pub Distinct-ensure_cache_room :
    (a : Authenticator) (now : ℕ) → Distinct a.entries → Distinct (ensure_cache_room a now).entries
unfolding ensure_cache_room sweep_expired
Distinct-ensure_cache_room a now d = elim (Bool-cases (ltb (length a.entries) a.max_entries)) [
  | inl room ↦ rw room d
  | inr full ↦ rw full (
      Distinct-drop_to a.max_entries (sweep_expired a now).entries
        (Distinct-keep (λ _ e. ltb now e.expires) a.entries d))
]

pub ensure_cache_room-Within :
    (a : Authenticator) (now : ℕ)
    → Distinct a.entries
    → Within (ensure_cache_room a now).entries a.entries
unfolding ensure_cache_room sweep_expired
ensure_cache_room-Within a now d k e = elim (Bool-cases (ltb (length a.entries) a.max_entries)) [
  | inl room ↦ rw room (λ h. (e, h, refl))
  | inr full ↦ rw full (λ h.
      let kept = Distinct-keep (λ _ e. ltb now e.expires) a.entries d in
      let (x, held, same) = drop_to-Within a.max_entries (sweep_expired a now).entries kept k e h in
      let (y, held', same') = keep-Within (λ _ e. ltb now e.expires) a.entries d k x held in
      (y, held', same' ∙ same))
]

pub lookup-Within :
    (a : Authenticator) (key : String) (now : ℕ) → Within (lookup a key now).0.entries a.entries
unfolding lookup
lookup-Within a key now k e = elim (Option-cases (get a.entries key)) [
  | inl absent ↦ rw absent (λ h. (e, h, refl))
  | inr (entry, found) ↦
      let renewed = get-put a.entries key k (record entry { expires = now + a.ttl }) in
      let dropped = get-delete a.entries key k in
      rw found (λ h. elim (Option-cases (get a.entries k)) [
        | inl absent ↦ absurd (ground (arith, absent, found, h, renewed, dropped, eq_iff key k))
        | inr (x, held) ↦ (x, held, ground (arith, held, found, h, renewed, dropped, eq_iff key k))
      ])
]

pub Distinct-lookup :
    (a : Authenticator) (key : String) (now : ℕ)
    → Distinct a.entries
    → Distinct (lookup a key now).0.entries
unfolding lookup
Distinct-lookup a key now d = elim (Option-cases (get a.entries key)) [
  | inl absent ↦ rw absent d
  | inr (entry, found) ↦ rw found (elim (Bool-cases (ltb now entry.expires)) [
    | inr over ↦ rw over (Distinct-delete a.entries key d)
    | inl live ↦ rw live (elim (Bool-cases (expired_at now entry.identity)) [
      | inl past ↦ rw past (Distinct-delete a.entries key d)
      | inr still ↦ rw still (Distinct-put a.entries key (record entry { expires = now + a.ttl }) d)
    ])
  ])
]
