-- ===== src/Auth/Tokens/Race.antt =====
-- A verification that a mutation overtakes.
use tiller_router.Prelude.{
  ℕ, ◌+◌, ◌%◌, ◌<◌, String, ◌≡◌, ◌≢◌, refl, false, Option, none, some, List, [], ◌∷◌, if◌then◌else◌,
  arith, Option-cases,
}
use tiller_router.Prelude.Table.{get}
use tiller_router.Auth.Tokens.{
  Identity, Authenticator, lookup, begin_verification, release_slot, sweep_expired,
  ensure_cache_room, Outcome, invalid, expired, expired_at, publish_locked, publish, invalidate,
  invalidate_with, invalidate_all,
}
use tiller_router.Auth.Tokens.Slots.{
  Call, looked_up, begun, published, swept, mutated, revoked_all, step, run,
}

-- Whether the call raises the revision.
unfoldable pub raises : Call → ℕ
raises (looked_up key now) = 0
raises (begun cancelled) = 0
raises (published key generation now verified) = 0
raises (swept now) = 0
raises (mutated id ok) = if ok then 1 else 0
raises revoked_all = 1

unfoldable pub mutations : List Call → ℕ
mutations [] = 0
mutations (call ∷ calls) = raises call + mutations calls

pub rev-lookup : (a : Authenticator) (key : String) (now : ℕ) → (lookup a key now).0.rev ≡ a.rev
unfolding lookup
rev-lookup a key now = ground (arith, Option-cases (get a.entries key))

pub rev-publish :
    (a : Authenticator) (key : String) (generation now : ℕ) (verified : Option Identity)
    → (publish a key generation now verified).0.rev ≡ a.rev
unfolding publish publish_locked ensure_cache_room sweep_expired
rev-publish a key generation now none = refl
rev-publish a key generation now (some i) = ground arith

abbrev pub modulus : ℕ
modulus = 18446744073709551616

rev-step :
    (a : Authenticator) (call : Call)
    → a.rev < modulus
    → (step a call).rev ≡ (a.rev + raises call) % modulus
unfolding step raises begin_verification sweep_expired invalidate_with invalidate invalidate_all
rev-step a (looked_up key now) h = omega (arith, rev-lookup a key now, h)
rev-step a (begun cancelled) h = ground (arith, h)
rev-step a (published key generation now verified) h =
    omega (arith, rev-publish a key generation now verified, h)
rev-step a (swept now) h = omega (arith, h)
rev-step a (mutated id ok) h = ground (arith, h)
rev-step a revoked_all h = refl

rev-run :
    (a : Authenticator) (calls : List Call)
    → a.rev < modulus
    → (run a calls).rev ≡ (a.rev + mutations calls) % modulus
unfolding run mutations
rev-run a [] h = omega (arith, h)
rev-run a (call ∷ calls) h =
    let stepped = rev-step a call h in
    omega (arith, stepped, rev-run (step a call) calls (omega (arith, stepped)))

-- The answer to a verification that is not granted.
abbrev pub refusal : ℕ → Option Identity → Outcome
refusal now none = invalid
refusal now (some i) = if expired_at now i then expired else invalid

publish-stale :
    (a : Authenticator) (key : String) (generation now : ℕ) (verified : Option Identity)
    → a.rev ≢ generation
    → publish a key generation now verified ≡ (release_slot a, refusal now verified)
unfolding publish publish_locked
publish-stale a key generation now none h = refl
publish-stale a key generation now (some i) h = ground (arith, h)

rev-begun :
    (a : Authenticator) (generation : ℕ)
    → (begin_verification a false).1 ≡ some generation
    → ((begin_verification a false).0.rev ≡ a.rev) × (a.rev ≡ generation)
unfolding begin_verification
rev-begun a generation h = ground (arith, h)

-- A verification that takes a free slot and is overtaken by a mutation, of whatever token, and by
-- fewer than 2^64 of them (the revision has 64 bits), grants nothing and caches nothing, whatever it
-- has read meanwhile: it ends as invalid, or as expired, and only gives its slot back.
pub publish-overtaken :
    (a : Authenticator) (calls : List Call) (generation : ℕ) (key : String) (now : ℕ)
    (verified : Option Identity)
    → a.rev < modulus
    → (begin_verification a false).1 ≡ some generation
    → 0 < mutations calls
    → mutations calls < modulus
    → publish (run (begin_verification a false).0 calls) key generation now verified
      ≡ (release_slot (run (begin_verification a false).0 calls), refusal now verified)
publish-overtaken a calls generation key now verified h began some_mutation few =
    let (same, read) = rev-begun a generation began in
    let after = rev-run (begin_verification a false).0 calls (omega (arith, same, h)) in
    publish-stale (run (begin_verification a false).0 calls) key generation now verified
      (λ e. omega (arith, e, same, read, after, h, some_mutation, few))
