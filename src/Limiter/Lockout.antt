-- ===== src/Limiter/Lockout.antt =====
-- An active lockout holds until it expires, whatever else is recorded meanwhile.
use tiller_router.Prelude.{
  ℕ, ◌+◌, ◌-◌, ◌<◌, String, str_eq, eq_iff, ◌≡◌, true, false, some, List, [], ◌∷◌, ltb, leb, ◌==◌,
  arith, Bool-cases, Option-cases, inl, inr, length, lt→ltb,
}
use tiller_router.Prelude.Table.{
  get, delete, Distinct, get-put, get-delete, Distinct-put, Distinct-delete,
}
use tiller_router.Limiter.{
  LoginFailure, LoginLimiter, max_limiter_entries, purge, purge_attempts, evict_counting,
  overflow_allow, locked, failure_when_full, new_failure, next_failure, set_failure, forget_attempt,
  record_failure, attempt_when_full, new_attempt, next_attempt, allow_attempt, success,
}
use tiller_router.Limiter.Tables.{
  Distinct-purge_table, get-purge_table_locked, get-evict_counting_locked, Distinct-evict_counting,
}
use tiller_router.Limiter.History.{Call, checked, failed, attempted, succeeded, step, run}

-- The key is locked out until `u`.
pub record LockedUntil (key : String) (u : ℕ) (l : LoginLimiter) : Type 0 where
  pub distinct : Distinct l.failures
  pub entry : LoginFailure
  pub held : get l.failures key ≡ some entry
  pub expiry : entry.until ≡ u

module _ (key : String) (u : ℕ) where
  put-LockedUntil :
      (l : LoginLimiter) (j : String) (f : LoginFailure)
      → str_eq j key ≡ false
      → LockedUntil key u l
      → LockedUntil key u (set_failure l j f)
  put-LockedUntil l j f other h = record {
    distinct = Distinct-put l.failures j f h.distinct;
    entry = h.entry;
    held = ground (arith, get-put l.failures j key f, h.held);
    expiry = h.expiry;
  }

  delete-LockedUntil :
      (l : LoginLimiter) (j : String)
      → str_eq j key ≡ false
      → LockedUntil key u l
      → LockedUntil key u (record l { failures = delete l.failures j })
  delete-LockedUntil l j other h = record {
    distinct = Distinct-delete l.failures j h.distinct;
    entry = h.entry;
    held = ground (arith, get-delete l.failures j key, h.held);
    expiry = h.expiry;
  }

  purge-LockedUntil :
      (l : LoginLimiter) (now : ℕ) → now < u → LockedUntil key u l → LockedUntil key u (purge l now)
  unfolding purge
  purge-LockedUntil l now before h = record {
    distinct = Distinct-purge_table l.window now l.failures h.distinct;
    entry = h.entry;
    held =
        get-purge_table_locked l.window now l.failures key h.entry h.distinct h.held
          (omega (arith, h.expiry));
    expiry = h.expiry;
  }

  evict-LockedUntil :
      (l : LoginLimiter)
      → 0 < u
      → LockedUntil key u l
      → LockedUntil key u (record l { failures = (evict_counting l.failures).0 })
  evict-LockedUntil l positive h = record {
    distinct = Distinct-evict_counting l.failures h.distinct;
    entry = h.entry;
    held = get-evict_counting_locked l.failures key h.entry h.held (omega (arith, h.expiry));
    expiry = h.expiry;
  }

  -- The maps of failures are what counts.
  same-LockedUntil :
      (l l' : LoginLimiter) → l'.failures ≡ l.failures → LockedUntil key u l → LockedUntil key u l'
  same-LockedUntil l l' same h = record {
    distinct = rw same h.distinct;
    entry = h.entry;
    held = rw same h.held;
    expiry = h.expiry;
  }

  failures-overflow_allow :
      (l : LoginLimiter) (now : ℕ) → (overflow_allow l now).0.failures ≡ l.failures
  unfolding overflow_allow
  failures-overflow_allow l now = ground arith

  failure_when_full-LockedUntil :
      (l : LoginLimiter) (j : String) (now : ℕ)
      → str_eq j key ≡ false
      → now < u
      → LockedUntil key u l
      → LockedUntil key u (failure_when_full l j now).0
  unfolding failure_when_full
  failure_when_full-LockedUntil l j now other before h =
      elim (Bool-cases (evict_counting l.failures).1) [
        | inl evicted ↦ rw evicted (
            put-LockedUntil (record l { failures = (evict_counting l.failures).0 }) j _ other
              (evict-LockedUntil l (omega arith) h))
        | inr kept ↦
            rw kept (same-LockedUntil l (overflow_allow l now).0 (failures-overflow_allow l now) h)
      ]

  new_failure-LockedUntil :
      (l : LoginLimiter) (j : String) (now : ℕ)
      → str_eq j key ≡ false
      → now < u
      → LockedUntil key u l
      → LockedUntil key u (new_failure l j now).0
  unfolding new_failure
  new_failure-LockedUntil l j now other before h =
      let h' = purge-LockedUntil l now before h in
      elim (Bool-cases (leb max_limiter_entries (length l.failures))) [
        | inr room ↦ rw room (put-LockedUntil l j _ other h)
        | inl full ↦
            rw full (elim (Bool-cases (leb max_limiter_entries (length (purge l now).failures))) [
              | inr room ↦ rw room (put-LockedUntil (purge l now) j _ other h')
              | inl still_full ↦
                  rw still_full (failure_when_full-LockedUntil (purge l now) j now other before h')
            ])
      ]

  next_failure-LockedUntil :
      (l : LoginLimiter) (j : String) (now : ℕ) (f : LoginFailure)
      → str_eq j key ≡ false
      → LockedUntil key u l
      → LockedUntil key u (next_failure l j now f).0
  unfolding next_failure
  next_failure-LockedUntil l j now f other h = elim (Bool-cases (ltb now f.until)) [
    | inl is_locked ↦ rw is_locked h
    | inr open_now ↦ rw open_now (elim (Bool-cases (ltb l.window (now - f.first))) [
      | inl elapsed ↦ rw elapsed (put-LockedUntil l j _ other h)
      | inr counting ↦ rw counting (elim (Bool-cases (leb l.max (f.count + 1))) [
        | inl reached ↦ rw reached (put-LockedUntil l j _ other h)
        | inr below ↦ rw below (put-LockedUntil l j _ other h)
      ])
    ])
  ]

  -- Another key's failure, or a failure of the locked key itself.
  record_failure-LockedUntil :
      (l : LoginLimiter) (j : String) (now : ℕ)
      → now < u
      → LockedUntil key u l
      → LockedUntil key u (record_failure l j now).0
  unfolding record_failure
  record_failure-LockedUntil l j now before h = elim (Bool-cases (str_eq j key)) [
    | inl same ↦
        let at_j : get l.failures j ≡ some h.entry = rw ((eq_iff j key).0 same) h.held in
        rw at_j (unfold next_failure in rw (lt→ltb now h.entry.until (omega (arith, h.expiry))) h)
    | inr other ↦ elim (Option-cases (get l.failures j)) [
      | inl absent ↦ rw absent (new_failure-LockedUntil l j now other before h)
      | inr (f, old) ↦ rw old (next_failure-LockedUntil l j now f other h)
    ]
  ]

  -- The locked key is refused, and the entry stays.
  locked-held :
      (l : LoginLimiter) (now : ℕ) → now < u → LockedUntil key u l → locked l key now ≡ (l, true)
  unfolding locked
  locked-held l now before h = rw h.held (ground (arith, h.expiry))

  locked-LockedUntil :
      (l : LoginLimiter) (j : String) (now : ℕ)
      → now < u
      → LockedUntil key u l
      → LockedUntil key u (locked l j now).0
  locked-LockedUntil l j now before h = elim (Bool-cases (str_eq j key)) [
    | inl same ↦ rw ((eq_iff j key).0 same, locked-held l now before h) h
    | inr other ↦ elim (Option-cases (get l.failures j)) [
      | inl absent ↦ unfold locked in rw absent h
      | inr (f, old) ↦
          unfold locked in
          rw old (elim (Bool-cases (f.until == 0)) [
            | inl counting ↦ rw counting h
            | inr lockout ↦ rw lockout (elim (Bool-cases (ltb now f.until)) [
              | inl is_locked ↦ rw is_locked h
              | inr over ↦ rw over (delete-LockedUntil l j other h)
            ])
          ])
    ]
  ]

failures-new_attempt :
    (l : LoginLimiter) (j : String) (now : ℕ) → (new_attempt l j now).0.failures ≡ l.failures
unfolding new_attempt attempt_when_full purge_attempts overflow_allow
failures-new_attempt l j now = ground arith

failures-allow_attempt :
    (l : LoginLimiter) (j : String) (now : ℕ) → (allow_attempt l j now).0.failures ≡ l.failures
unfolding allow_attempt next_attempt
failures-allow_attempt l j now =
    ground (arith, failures-new_attempt l j now, failures-new_attempt (forget_attempt l j) j now)

-- The call comes before `u`, and does not clear the key.
abbrev pub Before : String → ℕ → Call → Type 0
Before key u (checked j now) = now < u
Before key u (failed j now) = now < u
Before key u (attempted j now) = Unit
Before key u (succeeded j) = str_eq j key ≡ false

abbrev pub AllBefore : String → ℕ → List Call → Type 0
AllBefore key u [] = Unit
AllBefore key u (call ∷ calls) = Before key u call × AllBefore key u calls

step-LockedUntil :
    (key : String) (u : ℕ) (l : LoginLimiter) (call : Call)
    → Before key u call
    → LockedUntil key u l
    → LockedUntil key u (step l call)
unfolding step
step-LockedUntil key u l (checked j now) p h = locked-LockedUntil key u l j now p h
step-LockedUntil key u l (failed j now) p h = record_failure-LockedUntil key u l j now p h
step-LockedUntil key u l (attempted j now) p h =
    same-LockedUntil key u l (allow_attempt l j now).0 (failures-allow_attempt l j now) h
step-LockedUntil key u l (succeeded j) p h = unfold success in delete-LockedUntil key u l j p h

run-LockedUntil :
    (key : String) (u : ℕ) (l : LoginLimiter) (calls : List Call)
    → AllBefore key u calls
    → LockedUntil key u l
    → LockedUntil key u (run l calls)
unfolding run
run-LockedUntil key u l [] p h = h
run-LockedUntil key u l (call ∷ calls) p h =
    run-LockedUntil key u (step l call) calls p.1 (step-LockedUntil key u l call p.0 h)

-- A key that is locked out until `u` is refused at every time before `u`, after any calls before `u`
-- that do not report a success of the key: failures of any keys, a full table and its evictions
-- included. A failure that is recorded for it meanwhile reports the lockout too.
pub lockout_holds :
    (key : String) (u : ℕ) (l : LoginLimiter) (calls : List Call) (now : ℕ)
    → LockedUntil key u l
    → AllBefore key u calls
    → now < u
    → ((locked (run l calls) key now).1 ≡ true)
      × (record_failure (run l calls) key now ≡ (run l calls, true))
unfolding record_failure
lockout_holds key u l calls now h p before =
    let h' = run-LockedUntil key u l calls p h in
    (
      rw (locked-held key u (run l calls) now before h'),
      rw h'.held (unfold next_failure in ground (arith, h'.expiry)),
    )
