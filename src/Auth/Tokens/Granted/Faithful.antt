-- ===== src/Auth/Tokens/Granted/Faithful.antt =====
-- Every grant is what a verification of the token would find in the store at that time.
use mathlib.Core.List.{Memᴰ}
use mathlib.Core.List.Memᴰ.{head, tail}
use mathlib.Core.Path.{subst}
use tiller_router.Prelude.{
  ℕ, suc, ◌+◌, ◌≤◌, String, str_eq, eq_iff, ◌≡◌, ◌≢◌, refl, sym, Bool, false, not, some, ◌∷◌, ◌==◌,
  arith, Bool-cases, Option-cases, inl, inr,
}
use tiller_router.Prelude.Table.{Table, get, put, keep, Distinct, get-put, get-keep, Distinct-put}
use tiller_router.Auth.Tokens.{
  Identity, CacheEntry, Authenticator, begin_verification, release_slot, sweep_expired,
  ensure_cache_room, expired_at, publish_locked, publish,
}
use tiller_router.Auth.Tokens.Cache.{Within, ensure_cache_room-Within, Distinct-ensure_cache_room}
use tiller_router.Auth.Tokens.Granted.{
  Backend, Window, steady, changing_all, changing, fresh, System, new_system,
}

module _ (b : Backend) where
  -- What a cached or judged identity is worth: it is what the store says, unless a change of the token
  -- is under way.
  abbrev pub Valid : Window → b.Db → String → Identity → Type 0
  Valid steady db raw i = fresh b db raw ≡ some i
  Valid (changing id) db raw i = i.id ≢ id → fresh b db raw ≡ some i
  Valid changing_all db raw i = Unit

  fresh-Valid :
      (w : Window) (db : b.Db) (raw : String) (i : Identity)
      → fresh b db raw ≡ some i
      → Valid w db raw i
  fresh-Valid steady db raw i h = h
  fresh-Valid (changing id) db raw i h = λ other. h
  fresh-Valid changing_all db raw i h = tt

  abbrev CacheValid : Window → b.Db → Table CacheEntry → Type 0
  CacheValid w db m =
      (raw : String) (e : CacheEntry) → get m (b.cache_key raw) ≡ some e → Valid w db raw e.identity

  Within-CacheValid :
      (w : Window) (db : b.Db) (m m' : Table CacheEntry)
      → Within m' m
      → CacheValid w db m
      → CacheValid w db m'
  Within-CacheValid w db m m' within c raw e h =
      let (x, held, same) = within (b.cache_key raw) e h in
      subst (λ (i : Identity). Valid w db raw i) same (c raw x held)

  abbrev JudgedValid : ℕ → Window → b.Db → String × ℕ × Identity → Type 0
  JudgedValid rev w db (raw, generation, i) =
      (generation ≤ rev) × (generation ≡ rev → Valid w db raw i)

  pub record Faithful (n : ℕ) (s : System b) : Type 0 where
    pub steps : s.auth.rev ≤ n
    pub distinct : Distinct s.auth.entries
    pub cached : CacheValid s.window s.db s.auth.entries
    pub begun : (v : String × ℕ) → Memᴰ v s.begun → v.1 ≤ s.auth.rev
    pub judged :
        (v : String × ℕ × Identity) → Memᴰ v s.judged → JudgedValid s.auth.rev s.window s.db v

  -- A step that only shrinks the cache and keeps the revision.
  pub shrunk-Faithful :
      (n : ℕ) (s : System b) (a : Authenticator)
      → a.rev ≡ s.auth.rev
      → Distinct a.entries
      → Within a.entries s.auth.entries
      → Faithful n s
      → Faithful (suc n) (record s { auth = a })
  shrunk-Faithful n s a same d within f = record {
    steps = omega (arith, same, f.steps);
    distinct = d;
    cached = Within-CacheValid s.window s.db s.auth.entries a.entries within f.cached;
    begun = λ v m. rw same (f.begun v m);
    judged = λ v m. rw same (f.judged v m);
  }

  rev-ensure_cache_room : (a : Authenticator) (now : ℕ) → (ensure_cache_room a now).rev ≡ a.rev
  unfolding ensure_cache_room sweep_expired
  rev-ensure_cache_room a now = ground arith

  publish-CacheValid :
      ((raw raw' : String) → b.cache_key raw ≡ b.cache_key raw' → raw ≡ raw')
      → (w : Window) (db : b.Db) (a : Authenticator) (raw : String) (now : ℕ) (i : Identity)
      → Distinct a.entries
      → Valid w db raw i
      → CacheValid w db a.entries
      → CacheValid w db (
          put
            (ensure_cache_room a now).entries
            (b.cache_key raw)
            (record { identity = i; expires = now + a.ttl }))
  publish-CacheValid injective w db a raw now i d valid c raw' e =
      let entry : CacheEntry = record { identity = i; expires = now + a.ttl } in
      let room = (ensure_cache_room a now).entries in
      let c' = Within-CacheValid w db a.entries room (ensure_cache_room-Within a now d) c raw' e in
      elim (Bool-cases (str_eq (b.cache_key raw) (b.cache_key raw'))) [
        | inl same ↦ λ h.
            let i_same : i ≡ e.identity =
              ground (arith, h, get-put room (b.cache_key raw) (b.cache_key raw') entry, same) in
            let raw_same =
              injective raw raw' ((eq_iff (b.cache_key raw) (b.cache_key raw')).0 same) in
            subst (λ (r : String). Valid w db r e.identity) raw_same
              (subst (λ (j : Identity). Valid w db raw j) i_same valid)
        | inr other ↦ λ h.
            c' (ground (arith, h, get-put room (b.cache_key raw) (b.cache_key raw') entry, other))
      ]

  pub start-Faithful : (ttl bound : ℕ) (db : b.Db) → Faithful 0 (new_system b ttl bound db)
  unfolding get
  start-Faithful ttl bound db = record {
    steps = omega arith;
    distinct = tt;
    cached = λ raw e h. absurd (cc);
    begun = λ v m. elim m [ ];
    judged = λ v m. elim m [ ];
  }

  pub publish-Faithful :
      ((raw raw' : String) → b.cache_key raw ≡ b.cache_key raw' → raw ≡ raw')
      → (n : ℕ) (s : System b) (raw : String) (generation now : ℕ) (i : Identity)
      → Memᴰ (raw, generation, i) s.judged
      → Faithful n s
      → Faithful
          (suc n)
          (record s { auth = (publish s.auth (b.cache_key raw) generation now (some i)).0 })
  unfolding publish publish_locked
  publish-Faithful injective n s raw generation now i m f = elim (Bool-cases (expired_at now i)) [
    | inl past ↦
        rw past
          (shrunk-Faithful n s (release_slot s.auth) refl f.distinct (λ k e h. (e, h, refl)) f)
    | inr still ↦ rw still (elim (Bool-cases (s.auth.rev == generation)) [
      | inr overtaken ↦
          rw overtaken
            (shrunk-Faithful n s (release_slot s.auth) refl f.distinct (λ k e h. (e, h, refl)) f)
      | inl current ↦ rw current (record {
        steps = ground (arith, f.steps, rev-ensure_cache_room s.auth now);
        distinct =
            Distinct-put (ensure_cache_room s.auth now).entries (b.cache_key raw)
              (record { identity = i; expires = now + s.auth.ttl })
              (Distinct-ensure_cache_room s.auth now f.distinct);
        cached =
            publish-CacheValid injective s.window s.db s.auth raw now i f.distinct
              ((f.judged (raw, generation, i) m).1 (ground (arith, current))) f.cached;
        begun = λ v m'. rw (rev-ensure_cache_room s.auth now) (f.begun v m');
        judged = λ v m'. rw (rev-ensure_cache_room s.auth now) (f.judged v m');
      })
    ])
  ]

  pub begin-same :
      (a : Authenticator) (cancelled : Bool) (generation : ℕ)
      → (begin_verification a cancelled).1 ≡ some generation
      → ((begin_verification a cancelled).0.rev ≡ a.rev)
        × ((begin_verification a cancelled).0.entries ≡ a.entries)
        × (generation ≡ a.rev)
  unfolding begin_verification
  begin-same a cancelled generation h = ground (arith, h)

  pub begins-Faithful :
      (n : ℕ) (s : System b) (raw : String) (generation : ℕ) (a : Authenticator)
      → a.rev ≡ s.auth.rev
      → a.entries ≡ s.auth.entries
      → generation ≡ s.auth.rev
      → Faithful n s
      → Faithful (suc n) (record s { auth = a; begun = (raw, generation) ∷ s.begun })
  begins-Faithful n s raw generation a same entries now f = record {
    steps = omega (arith, same, f.steps);
    distinct = rw entries f.distinct;
    cached = rw entries f.cached;
    begun = λ v m. elim m [
      | head e ↦ subst (λ (u : String × ℕ). u.1 ≤ a.rev) (sym e) (omega (arith, now, same))
      | tail m' ↦ omega (arith, same, f.begun v m')
    ];
    judged = λ v m. rw same (f.judged v m);
  }

  pub reads-Faithful :
      (n : ℕ) (s : System b) (raw : String) (generation : ℕ) (i : Identity)
      → Memᴰ (raw, generation) s.begun
      → fresh b s.db raw ≡ some i
      → Faithful n s
      → Faithful (suc n) (record s { judged = (raw, generation, i) ∷ s.judged })
  reads-Faithful n s raw generation i m h f = record {
    steps = omega (arith, f.steps);
    distinct = f.distinct;
    cached = f.cached;
    begun = f.begun;
    judged = λ v m'. elim m' [
      | head e ↦
          subst (λ (u : String × ℕ × Identity). JudgedValid s.auth.rev s.window s.db u) (sym e)
            (f.begun (raw, generation) m, λ _. fresh-Valid s.window s.db raw i h)
      | tail m'' ↦ f.judged v m''
    ];
  }

  -- The window opens: what was worth something is still worth something.
  pub opens-Faithful :
      (n : ℕ) (s : System b) (db' : b.Db) (w : Window)
      → s.window ≡ steady
      → ((raw : String) (i : Identity) → Valid steady s.db raw i → Valid w db' raw i)
      → Faithful n s
      → Faithful (suc n) (record s { db = db'; window = w })
  opens-Faithful n s db' w closed weaker f = record {
    steps = omega (arith, f.steps);
    distinct = f.distinct;
    cached = λ raw e h.
        weaker raw e.identity
          (subst (λ (u : Window). Valid u s.db raw e.identity) closed (f.cached raw e h));
    begun = f.begun;
    judged = λ (raw, generation, i) m. (
      (f.judged (raw, generation, i) m).0,
      λ h. weaker raw i (
          subst (λ (u : Window). Valid u s.db raw i) closed
            ((f.judged (raw, generation, i) m).1 h)),
    );
  }

  -- The window closes with a new revision: no verification in flight is worth anything.
  pub closes-Faithful :
      (n : ℕ) (s : System b) (a : Authenticator)
      → a.rev ≡ s.auth.rev + 1
      → Distinct a.entries
      → CacheValid steady s.db a.entries
      → Faithful n s
      → Faithful (suc n) (record s { auth = a; window = steady })
  closes-Faithful n s a raised d c f = record {
    steps = omega (arith, raised, f.steps);
    distinct = d;
    cached = c;
    begun = λ v m. omega (arith, raised, f.begun v m);
    judged = λ (raw, generation, i) m. (
      omega (arith, raised, (f.judged (raw, generation, i) m).0),
      λ h. absurd (omega (arith, raised, h, (f.judged (raw, generation, i) m).0)),
    );
  }

  pub invalidate-CacheValid :
      (db : b.Db) (id : String) (m : Table CacheEntry)
      → Distinct m
      → CacheValid (changing id) db m
      → CacheValid steady db (keep (λ _ e. not (str_eq e.identity.id id)) m)
  invalidate-CacheValid db id m d c raw e h =
      let kept = get-keep (λ _ x. not (str_eq x.identity.id id)) m (b.cache_key raw) d in
      elim (Option-cases (get m (b.cache_key raw))) [
        | inl absent ↦ absurd (ground (arith, kept, absent, h))
        | inr (x, held) ↦
            let same : x ≡ e = ground (arith, kept, held, h) in
            let other : str_eq x.identity.id id ≡ false = ground (arith, kept, held, h) in
            subst (λ (y : CacheEntry). fresh b db raw ≡ some y.identity) same
              (c raw x held (ground (arith, other, eq_iff x.identity.id id)))
      ]
