-- ===== src/Auth/Tokens/Granted/Fresh.antt =====
-- A grant is what a verification would find in the store: the induction over the steps.
use mathlib.Core.List.{Memᴰ}
use mathlib.Core.Path.{subst}
use tiller_router.Prelude.{
  ℕ, suc, ◌+◌, ◌<◌, String, str_eq, ◌≡◌, refl, false, not, some, List, [], ◌∷◌, ltb, length, arith,
  Option-cases, inl, inr,
}
use tiller_router.Prelude.Table.{get, Distinct-keep}
use tiller_router.Auth.Tokens.{
  Identity, CacheEntry, Authenticator, lookup, hit, begin_verification, release_slot, sweep_expired,
  granted, expired_at, publish_locked, publish, invalidate, invalidate_with, invalidate_all,
}
use tiller_router.Auth.Tokens.Cache.{keep-Within, lookup-Within, Distinct-lookup}
use tiller_router.Auth.Tokens.Race.{rev-lookup, modulus}
use tiller_router.Auth.Tokens.Granted.{
  Backend, Window, steady, changing_all, changing, fresh, System, Event, Enabled, after, run,
  AllEnabled, new_system, looks_up, begins, reads, refuses, publishes, sweeps, writes, invalidates,
  write_fails, revokes, invalidates_all,
}
use tiller_router.Auth.Tokens.Granted.Faithful.{
  Valid, Faithful, shrunk-Faithful, start-Faithful, publish-Faithful, begin-same, begins-Faithful,
  reads-Faithful, opens-Faithful, closes-Faithful, invalidate-CacheValid,
}

module _ (b : Backend)
    (injective : (raw raw' : String) → b.cache_key raw ≡ b.cache_key raw' → raw ≡ raw') where
  after-Faithful :
      (n : ℕ) (s : System b) (event : Event b)
      → suc n < modulus
      → Enabled b s event
      → Faithful b n s
      → Faithful b (suc n) (after b s event)
  unfolding after sweep_expired invalidate_with invalidate invalidate_all publish
  after-Faithful n s (looks_up raw now) few h f =
      shrunk-Faithful b n s (lookup s.auth (b.cache_key raw) now).0
        (rev-lookup s.auth (b.cache_key raw) now)
        (Distinct-lookup s.auth (b.cache_key raw) now f.distinct)
        (lookup-Within s.auth (b.cache_key raw) now) f
  after-Faithful n s (begins raw cancelled generation) few h f =
      let (same, entries, now) = begin-same b s.auth cancelled generation h in
      begins-Faithful b n s raw generation (begin_verification s.auth cancelled).0 same entries now
        f
  after-Faithful n s (reads raw generation i) few h f =
      reads-Faithful b n s raw generation i h.0 h.1 f
  after-Faithful n s (refuses raw generation now) few h f =
      shrunk-Faithful b n s (release_slot s.auth) refl f.distinct (λ k e found. (e, found, refl)) f
  after-Faithful n s (publishes raw generation now i) few h f =
      publish-Faithful b injective n s raw generation now i h f
  after-Faithful n s (sweeps now) few h f =
      shrunk-Faithful b n s (sweep_expired s.auth now) refl
        (Distinct-keep (λ _ e. ltb now e.expires) s.auth.entries f.distinct)
        (keep-Within (λ _ e. ltb now e.expires) s.auth.entries f.distinct) f
  after-Faithful n s (writes id db') few h f = opens-Faithful b n s db' (changing id) h.0 h.1 f
  after-Faithful n s (invalidates id) few h f =
      closes-Faithful b n s (invalidate s.auth id) (omega (arith, f.steps, few))
        (Distinct-keep (λ _ e. not (str_eq e.identity.id id)) s.auth.entries f.distinct)
        (invalidate-CacheValid b s.db id s.auth.entries f.distinct (λ raw e found.
          subst (λ (w : Window). Valid b w s.db raw e.identity) h (f.cached raw e found)))
        f
  after-Faithful n s (write_fails id) few h f =
      shrunk-Faithful b n s s.auth refl f.distinct (λ k e found. (e, found, refl)) f
  after-Faithful n s (revokes db') few h f =
      opens-Faithful b n s db' changing_all h (λ raw i found. tt) f
  after-Faithful n s invalidates_all few h f =
      closes-Faithful b n s (invalidate_all s.auth) (omega (arith, f.steps, few)) tt
        (unfold get in λ raw e found. absurd (cc)) f

  run-Faithful :
      (n : ℕ) (s : System b) (events : List (Event b))
      → n + length events < modulus
      → AllEnabled b s events
      → Faithful b n s
      → Faithful b (n + length events) (run b s events)
  unfolding run
  run-Faithful n s [] few h f = subst (λ (m : ℕ). Faithful b m s) (omega arith) f
  run-Faithful n s (event ∷ events) few h f =
      subst (λ (m : ℕ). Faithful b m (run b (after b s event) events)) (omega arith)
        (run-Faithful (suc n) (after b s event) events (omega (arith, few)) h.1
          (after-Faithful n s event (omega (arith, few)) h.0 f))

lookup-hit :
    (a : Authenticator) (key : String) (now : ℕ) (i : Identity)
    → (lookup a key now).1 ≡ hit i
    → (e : CacheEntry) × (get a.entries key ≡ some e)
      × (e.identity ≡ i)
      × (expired_at now i ≡ false)
unfolding lookup
lookup-hit a key now i = elim (Option-cases (get a.entries key)) [
  | inl absent ↦ rw absent (λ h. absurd (cc))
  | inr (e, held) ↦ rw held (λ h. (e, refl, ground (arith, h), ground (arith, h)))
]

-- Where the HMAC of the cache key does not collide: after any fewer than 2^64 steps of any interleaving
-- of look-ups, verifications, sweeps and changes of tokens, of which each keeps what a verification
-- finds of the other tokens, and with no change under way, a look-up that is answered from the cache
-- grants the identity that a verification of the token would find in the store, not expired. So a token
-- that was revoked or narrowed is never granted as it was.
pub lookup-hit_is_fresh :
    (b : Backend)
    → ((raw raw' : String) → b.cache_key raw ≡ b.cache_key raw' → raw ≡ raw')
    → (ttl bound : ℕ) (db : b.Db) (events : List (Event b)) → length events < modulus
    → AllEnabled b (new_system b ttl bound db) events
    → (run b (new_system b ttl bound db) events).window ≡ steady
    → (raw : String) (now : ℕ) (i : Identity)
    → (lookup (run b (new_system b ttl bound db) events).auth (b.cache_key raw) now).1 ≡ hit i
    → (fresh b (run b (new_system b ttl bound db) events).db raw ≡ some i)
      × (expired_at now i ≡ false)
lookup-hit_is_fresh b injective ttl bound db events few r closed raw now i h =
    let s = run b (new_system b ttl bound db) events in
    let f =
      run-Faithful b injective 0 (new_system b ttl bound db) events (omega (arith, few)) r
        (start-Faithful b ttl bound db) in
    let (e, held, same, still) = lookup-hit s.auth (b.cache_key raw) now i h in
    let valid =
      subst (λ (w : Window). Valid b w s.db raw e.identity) closed (f.cached raw e held) in
    (subst (λ (j : Identity). fresh b s.db raw ≡ some j) same valid, still)

-- Where the HMAC of the cache key does not collide: after any fewer than 2^64 steps of any such
-- interleaving, with no change of a token under way, a verification in flight that is granted grants
-- what a new one would find in the store, not expired, however long ago it read its row.
pub publish-granted_is_fresh :
    (b : Backend)
    → ((raw raw' : String) → b.cache_key raw ≡ b.cache_key raw' → raw ≡ raw')
    → (ttl bound : ℕ) (db : b.Db) (events : List (Event b)) → length events < modulus
    → AllEnabled b (new_system b ttl bound db) events
    → (run b (new_system b ttl bound db) events).window ≡ steady
    → (raw : String) (generation now : ℕ) (read i : Identity)
    → Memᴰ (raw, generation, read) (run b (new_system b ttl bound db) events).judged
    → (publish
        (run b (new_system b ttl bound db) events).auth
        (b.cache_key raw)
        generation
        now
        (some read)).1
      ≡ granted i
    → (fresh b (run b (new_system b ttl bound db) events).db raw ≡ some i)
      × (expired_at now i ≡ false)
unfolding publish publish_locked
publish-granted_is_fresh b injective ttl bound db events few r closed raw generation now read i m
      h =
    let s = run b (new_system b ttl bound db) events in
    let f =
      run-Faithful b injective 0 (new_system b ttl bound db) events (omega (arith, few)) r
        (start-Faithful b ttl bound db) in
    let current : generation ≡ s.auth.rev = ground (arith, h) in
    let same : read ≡ i = ground (arith, h) in
    let still : expired_at now read ≡ false = ground (arith, h) in
    let valid =
      subst (λ (w : Window). Valid b w s.db raw read) closed
        ((f.judged (raw, generation, read) m).1 current) in
    subst (λ (j : Identity). (fresh b s.db raw ≡ some j) × (expired_at now j ≡ false)) same
      (valid, still)
