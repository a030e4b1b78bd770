-- ===== src/Auth/Tokens/Slots.antt =====
-- Any sequence of calls on the authenticator, and the bounds they keep.
use tiller_router.Prelude.{
  ℕ, ◌+◌, ◌≤◌, ◌<◌, String, str_eq, ◌≡◌, refl, Bool, not, Option, none, some, List, [], ◌∷◌, ltb,
  length, arith, Option-cases, inl, inr,
}
use tiller_router.Prelude.Table.{Table, get, length-keep, length-delete, length-put, length-put_old}
use tiller_router.Auth.Tokens.{
  Identity, CacheEntry, Authenticator, slots, lookup, begin_verification, sweep_expired, drop_to,
  ensure_cache_room, publish_locked, publish, invalidate, invalidate_with, invalidate_all,
}

pub data Call : Type 0 where
  looked_up : String → ℕ → Call
  begun : Bool → Call
  published : String → ℕ → ℕ → Option Identity → Call
  swept : ℕ → Call
  mutated : String → Bool → Call
  revoked_all : Call

unfoldable pub step : Authenticator → Call → Authenticator
step a (looked_up key now) = (lookup a key now).0
step a (begun cancelled) = (begin_verification a cancelled).0
step a (published key generation now verified) = (publish a key generation now verified).0
step a (swept now) = sweep_expired a now
step a (mutated id ok) = invalidate_with a id ok
step a revoked_all = invalidate_all a

unfoldable pub run : Authenticator → List Call → Authenticator
run a [] = a
run a (call ∷ calls) = run (step a call) calls

-- The cache has room for what it holds, and no more slots are taken than there are.
record Bounded (bound : ℕ) (a : Authenticator) : Type 0 where
  room : a.max_entries ≡ bound
  entries : length a.entries ≤ bound
  verifying : a.verifying ≤ slots

length-drop_to : (bound : ℕ) (m : Table CacheEntry) → 0 < bound → length (drop_to bound m) < bound
unfolding drop_to
length-drop_to bound [] h = h
length-drop_to bound ((k, e) ∷ m) h = ground (arith, length-drop_to bound m h)

length-ensure_cache_room :
    (a : Authenticator) (now : ℕ)
    → 0 < a.max_entries
    → length (ensure_cache_room a now).entries < a.max_entries
unfolding ensure_cache_room
length-ensure_cache_room a now h =
    ground (arith, length-drop_to a.max_entries (sweep_expired a now).entries h)

lookup-Bounded :
    (bound : ℕ) (a : Authenticator) (key : String) (now : ℕ)
    → Bounded bound a
    → Bounded bound (lookup a key now).0
unfolding lookup
lookup-Bounded bound a key now b = elim (Option-cases (get a.entries key)) [
  | inl none_found ↦ rw none_found b
  | inr (entry, found) ↦
      let renewed =
        length-put_old a.entries key (record entry { expires = now + a.ttl }) entry found in
      let fewer = length-delete a.entries key in
      rw found (record {
        room = ground (arith, b.room);
        entries = ground (arith, renewed, fewer, b.entries);
        verifying = ground (arith, b.verifying);
      })
]

publish-Bounded :
    (bound : ℕ) (a : Authenticator) (key : String) (generation now : ℕ) (verified : Option Identity)
    → 0 < bound
    → Bounded bound a
    → Bounded bound (publish a key generation now verified).0
unfolding publish publish_locked ensure_cache_room sweep_expired
publish-Bounded bound a key generation now none h b = record {
  room = b.room;
  entries = b.entries;
  verifying = omega (arith, b.verifying);
}
publish-Bounded bound a key generation now (some i) h b =
    let fits = length-ensure_cache_room a now (omega (arith, b.room, h)) in
    let entry : CacheEntry = record { identity = i; expires = now + a.ttl } in
    let grown = length-put (ensure_cache_room a now).entries key entry in
    record {
      room = ground (arith, b.room);
      entries = ground (arith, fits, grown, b.entries, b.room);
      verifying = ground (arith, b.verifying);
    }

step-Bounded :
    (bound : ℕ) (a : Authenticator) (call : Call)
    → 0 < bound
    → Bounded bound a
    → Bounded bound (step a call)
unfolding begin_verification sweep_expired invalidate_with invalidate invalidate_all step lookup
step-Bounded bound a (looked_up key now) h b = lookup-Bounded bound a key now b
step-Bounded bound a (begun cancelled) h b = record {
  room = ground (arith, b.room);
  entries = ground (arith, b.entries);
  verifying = ground (arith, b.verifying);
}
step-Bounded bound a (published key generation now verified) h b =
    publish-Bounded bound a key generation now verified h b
step-Bounded bound a (swept now) h b =
    let fewer = length-keep (λ _ e. ltb now e.expires) a.entries in
    record { room = b.room; entries = omega (arith, fewer, b.entries); verifying = b.verifying }
step-Bounded bound a (mutated id ok) h b =
    let fewer = length-keep (λ _ e. not (str_eq e.identity.id id)) a.entries in
    record {
      room = ground (arith, b.room);
      entries = ground (arith, fewer, b.entries);
      verifying = ground (arith, b.verifying);
    }
step-Bounded bound a revoked_all h b = record {
  room = b.room;
  entries = omega arith;
  verifying = b.verifying;
}

run_from-Bounded :
    (bound : ℕ) (a : Authenticator) (calls : List Call)
    → 0 < bound
    → Bounded bound a
    → Bounded bound (run a calls)
unfolding run
run_from-Bounded bound a [] h b = b
run_from-Bounded bound a (call ∷ calls) h b =
    run_from-Bounded bound (step a call) calls h (step-Bounded bound a call h b)

abbrev pub new_authenticator : ℕ → ℕ → Authenticator
new_authenticator ttl bound = record {
  ttl = ttl;
  entries = [];
  max_entries = bound;
  verifying = 0;
  rev = 0;
}

-- Whatever the calls, in whatever order, the cache of verified tokens never holds more than its bound,
-- if that is positive, and at most four verifications run at once.
pub run-entries_le_max :
    (ttl bound : ℕ) (calls : List Call)
    → 0 < bound
    → (length (run (new_authenticator ttl bound) calls).entries ≤ bound)
      × ((run (new_authenticator ttl bound) calls).verifying ≤ slots)
run-entries_le_max ttl bound calls h =
    let b =
      run_from-Bounded bound (new_authenticator ttl bound) calls h
        (record { room = refl; entries = omega arith; verifying = omega arith }) in
    (b.entries, b.verifying)
