-- ===== src/Pool/Reaper/Handed.antt =====
-- A pool that `poolFor` has handed out stays open for the time that a pool may be idle.
use mathlib.Core.List.{Nodup, Mem, mem-cons_self, mem-cons_of_mem, Nodup-append}
use mathlib.Core.List.Perm
use mathlib.Core.Option
use pg_shard_router.Base.{
  ℕ, ◌+◌, ◌≤◌, true, false, some, List, [], ◌∷◌, ◌++◌, ◌≡◌, refl, ap, subst, ◌∙◌, arith, All, inl,
  inr, Option-cases, Bool-cases, ◌==◌,
}
use pg_shard_router.Base.Bytes.{Bytes, bytes_eq, bytes_beq_iff}
use pg_shard_router.Base.Dict.{Dict, get, get-put, beq_refl}
use pg_shard_router.Pool.{
  Config, Entry, Manager, find_pool, install, kept, reap_once, pools_of, is_idle,
}
use pg_shard_router.Pool.Ownership.{owned, finds-owned}
use pg_shard_router.Pool.Reaper.Created.{created, run-Perm}
use pg_shard_router.Pool.Reaper.{
  Running, Event, looks_up, installs, ticks, returns, shuts, ttl_of, step, run,
}

-- The manager holds pool `p` under the key, used at `t` or later.
pub record Holds (key : Bytes) (p t : ℕ) (m : Manager) : Type 0 where
  pub entry : Entry
  pub known : get key m.pools ≡ some entry
  pub pool : entry.pool ≡ p
  pub used : t ≤ entry.last_used

-- Events that do not close a pool that was used at `t`: the clock does not go back, no tick comes more than
-- the time to live after `t`, and the manager is not closed.
abbrev pub IsEarly : ℕ → ℕ → Event → Type 0
IsEarly t ttl (looks_up key now) = t ≤ now
IsEarly t ttl (installs key pool now) = Unit
IsEarly t ttl (ticks now) = now ≤ t + ttl
IsEarly t ttl returns = Unit
IsEarly t ttl shuts = ⊥

get-kept :
    (key : Bytes) (e : Entry) (ttl now : ℕ) (es : Dict Bytes Entry)
    → get key es ≡ some e
    → is_idle ttl now e ≡ false
    → get key (kept ttl now es) ≡ some e
unfolding get kept
get-kept key e ttl now [] h idle = cc
get-kept key e ttl now ((k, d) ∷ es) h idle = ground (arith, get-kept key e ttl now es)

module _ (cfg : Config) (key : Bytes) (p t : ℕ) where
  one_entry :
      (k : Bytes) (e : Entry) (m : Manager) (h : Holds key p t m)
      → get k m.pools ≡ some e
      → (k == key) ≡ true
      → e ≡ h.entry
  one_entry k e m h there same =
      cc (ap (λ x. get x m.pools) ((bytes_beq_iff k key).0 same), there, h.known)

  find_pool-Holds :
      (k : Bytes) (now : ℕ) (m : Manager)
      → t ≤ now
      → Holds key p t m
      → Holds key p t (find_pool k now m).0
  unfolding find_pool
  find_pool-Holds k now m late h = elim (Option-cases (get k m.pools)) [
    | inl missing ↦ rw (missing, find_pool) h
    | inr (e, there) ↦
        rw (there, find_pool)
          (elim (Bool-cases (k == key)) [
            | inl same ↦ record {
              entry = record e { last_used = now };
              known = rw (get-put k key (record e { last_used = now }) m.pools, same) refl;
              pool = ap (λ (x : Entry). x.pool) (one_entry k e m h there same) ∙ h.pool;
              used = late;
            }
            | inr other ↦ record {
              entry = h.entry;
              known = rw (get-put k key (record e { last_used = now }) m.pools, other) h.known;
              pool = h.pool;
              used = h.used;
            }
          ])
  ]

  install-Holds :
      (k : Bytes) (new_pool now : ℕ) (m : Manager)
      → Holds key p t m
      → Holds key p t (install k new_pool now m).0
  unfolding install
  install-Holds k new_pool now m h = elim (Option-cases (get k m.pools)) [
    | inr (e, there) ↦
        rw (there, install)
          (record { entry = h.entry; known = h.known; pool = h.pool; used = h.used })
    | inl missing ↦
        rw (missing, install)
          (record {
            entry = h.entry;
            known = ground (
              arith,
              get-put k key (record { pool = new_pool; last_used = now }) m.pools,
              missing,
              h.known,
              bytes_beq_iff k key,
            );
            pool = h.pool;
            used = h.used;
          })
  ]

  reap_once-Holds :
      (ttl now : ℕ) (m : Manager)
      → now ≤ t + ttl
      → Holds key p t m
      → Holds key p t (reap_once ttl now m)
  unfolding reap_once
  reap_once-Holds ttl now m early h = record {
    entry = h.entry;
    known = get-kept key h.entry ttl now m.pools h.known (ground (arith, h.used));
    pool = h.pool;
    used = h.used;
  }

  -- After the events the pool is held.
  record Outcome (s : Running) (es : List Event) : Type 0 where
    after : Running
    reached : run cfg s es ≡ some after
    holds : Holds key p t after.manager

  advance :
      (s s' : Running) (e : Event) (es : List Event)
      → step cfg s e ≡ some s'
      → Outcome s' es
      → Outcome s (e ∷ es)
  unfolding run
  advance s s' e es stepped o = record {
    after = o.after;
    reached = rw (stepped, run) o.reached;
    holds = o.holds;
  }

  run-Outcome :
      (es : List Event) (s : Running)
      → All (IsEarly t (ttl_of cfg)) es
      → Holds key p t s.manager
      → Outcome s es
  unfolding run step
  run-Outcome [] s early h = record { after = s; reached = refl; holds = h }
  run-Outcome (looks_up k now ∷ es) s early h =
      let s' = record s { manager = (find_pool k now s.manager).0 } in
      advance s s' (looks_up k now) es refl
        (run-Outcome es s' early.1 (find_pool-Holds k now s.manager early.0 h))
  run-Outcome (installs k pool now ∷ es) s early h =
      let s' = record s { manager = (install k pool now s.manager).0 } in
      advance s s' (installs k pool now) es refl
        (run-Outcome es s' early.1 (install-Holds k pool now s.manager h))
  run-Outcome (ticks now ∷ es) s early h = elim (Bool-cases s.reaping) [
    | inl alive ↦
        let s' = record s { manager = reap_once (ttl_of cfg) now s.manager } in
        advance s s' (ticks now) es (rw alive refl)
          (run-Outcome es s' early.1 (reap_once-Holds (ttl_of cfg) now s.manager early.0 h))
    | inr gone ↦ advance s s (ticks now) es (rw gone refl) (run-Outcome es s early.1 h)
  ]
  run-Outcome (returns ∷ es) s early h = elim (Bool-cases s.stopped) [
    | inl closed ↦
        let s' = record s { reaping = false } in
        advance s s' returns es (rw closed refl) (run-Outcome es s' early.1 h)
    | inr open_channel ↦ advance s s returns es (rw open_channel refl) (run-Outcome es s early.1 h)
  ]
  run-Outcome (shuts ∷ es) s early h = elim early.0 [ ]

get-Mem :
    (key : Bytes) (e : Entry) (es : Dict Bytes Entry)
    → get key es ≡ some e
    → Mem e.pool (pools_of es)
unfolding get
get-Mem key e [] h = cc
get-Mem key e ((k, d) ∷ es) h = elim (Bool-cases (k == key)) [
  | inl same ↦ subst (λ x. Mem x (pools_of ((k, d) ∷ es))) (same_pool same) mem-cons_self
  | inr other ↦ mem-cons_of_mem d.pool (get-Mem key e es (ground (arith, h)))
]
  where
    same_pool : (k == key) ≡ true → d.pool ≡ e.pool
    same_pool same = ground (arith, h)

find_pool-Holds_found :
    (key : Bytes) (p now : ℕ) (m : Manager)
    → (find_pool key now m).1 ≡ some p
    → Holds key p now (find_pool key now m).0
unfolding find_pool
find_pool-Holds_found key p now m h = elim (Option-cases (get key m.pools)) [
  | inl missing ↦ cc
  | inr (e, there) ↦
      rw (there, find_pool)
        (record {
          entry = record e { last_used = now };
          known = rw (get-put key key (record e { last_used = now }) m.pools, beq_refl key) refl;
          pool = cc;
          used = ground arith;
        })
]

-- The manager's goroutines can take the events, and then the pool is held under the key and was not closed.
pub record StaysOpen (cfg : Config) (key : Bytes) (p : ℕ) (s : Running) (es : List Event)
    : Type 0 where
  pub after : Running
  pub reached : run cfg s es ≡ some after
  pub held : Option.map (λ (e : Entry). e.pool) (get key after.manager.pools) ≡ some p
  pub not_closed : ¬ Mem p after.manager.closed

-- Where the pools that exist and those that the driver creates are all different: the pool that `poolFor` finds
-- for a key stays open while other goroutines look pools up and install them, the loop ticks and its goroutine
-- runs, as long as no lookup comes before that moment, no tick comes later than the time to live after it, and
-- nobody calls `Close`. None of these panics, the key still has that pool, and it was not closed.
pub find_pool-StaysOpen :
    (cfg : Config) (key : Bytes) (p now : ℕ) (s : Running) (es : List Event)
    → (find_pool key now s.manager).1 ≡ some p
    → All (IsEarly now (ttl_of cfg)) es
    → Nodup (owned s.manager ++ created es)
    → StaysOpen cfg key p (record s { manager = (find_pool key now s.manager).0 }) es
find_pool-StaysOpen cfg key p now s es found early fresh =
    let s' = record s { manager = (find_pool key now s.manager).0 } in
    let o =
      run-Outcome cfg key p now es s' early (find_pool-Holds_found key p now s.manager found) in
    let fresh' : Nodup (owned s'.manager ++ created es) = rw finds-owned fresh in
    let apart =
      (Nodup-append.0 (Perm.nodup (Perm.symm (run-Perm cfg es s' o.after o.reached)) fresh')).2 in
    record {
      after = o.after;
      reached = o.reached;
      held = rw o.holds.known (ap some o.holds.pool);
      not_closed = λ shut.
          apart p
            (subst (λ x. Mem x (pools_of o.after.manager.pools)) o.holds.pool
              (get-Mem key o.holds.entry o.after.manager.pools o.holds.known))
            shut;
    }
