-- ===== src/Pool/Reaper/Created.antt =====
-- No pool is lost while the manager's goroutine runs: what is held or closed is what was created.
use mathlib.Core.List.{Perm, append-nil}
use mathlib.Core.List.Perm
use mathlib.Core.Option.{some_inj}
use pg_shard_router.Base.{
  ℕ, true, false, Option, none, some, List, [], ◌∷◌, ◌++◌, ◌≡◌, refl, subst, ◌∙◌, sym, inl, inr,
  Option-cases, Bool-cases,
}
use pg_shard_router.Pool.{Config, find_pool, install, reap_once, close}
use pg_shard_router.Pool.Ownership.{owned, finds-owned, installs-Perm, reaps-Perm}
use pg_shard_router.Pool.Reaper.{
  Running, Event, looks_up, installs, ticks, returns, shuts, ttl_of, step, run,
}

-- The pools that the driver has created for the events.
abbrev pub created : List Event → List ℕ
created [] = []
created (installs key pool now ∷ es) = pool ∷ created es
created (looks_up key now ∷ es) = created es
created (ticks now ∷ es) = created es
created (returns ∷ es) = created es
created (shuts ∷ es) = created es

module _ (cfg : Config) (es : List Event) where
  -- The pools of `s'` and those of `es` are the pools `ps`.
  abbrev Leads : List ℕ → Running → Type 0
  Leads ps s' = Perm (owned s'.manager ++ created es) ps

  to_Leads :
      (ps : List ℕ) (s s' : Running) (x : Option Running)
      → x ≡ some s
      → x ≡ some s'
      → Leads ps s
      → Leads ps s'
  to_Leads ps s s' x h h' = subst (Leads ps) (some_inj.0 (sym h ∙ h'))

  step-Perm :
      (s : Running) (e : Event) (s' : Running)
      → step cfg s e ≡ some s'
      → Leads (owned s.manager ++ created (e ∷ es)) s'
  unfolding step close
  step-Perm s (looks_up k now) s' h =
      let s1 = record s { manager = (find_pool k now s.manager).0 } in
      to_Leads _ s1 s' (some s1) refl h (rw (finds-owned k now s.manager) (Perm.refl _))
  step-Perm s (installs k pool now) s' h =
      let s1 = record s { manager = (install k pool now s.manager).0 } in
      to_Leads _ s1 s' (some s1) refl h (installs-Perm k pool now s.manager (created es))
  step-Perm s (ticks now) s' h = elim (Bool-cases s.reaping) [
    | inl alive ↦
        to_Leads _ (record s { manager = reap_once (ttl_of cfg) now s.manager }) s' _
          (rw alive refl) h (Perm.append_right (created es) (reaps-Perm (ttl_of cfg) now s.manager))
    | inr gone ↦ to_Leads _ s s' _ (rw gone refl) h (Perm.refl _)
  ]
  step-Perm s returns s' h = elim (Bool-cases s.stopped) [
    | inl closed ↦ to_Leads _ (record s { reaping = false }) s' _ (rw closed refl) h (Perm.refl _)
    | inr open_channel ↦ to_Leads _ s s' _ (rw open_channel refl) h (Perm.refl _)
  ]
  step-Perm s shuts s' h = elim (Bool-cases s.stopped) [
    | inl closed ↦ cc
    | inr open_channel ↦
        to_Leads _ (record s { manager = close s.manager; stopped = true }) s' _
          (rw open_channel refl) h (Perm.refl _)
  ]

-- What is held or closed after the events is what was held or closed and what was created meanwhile.
pub run-Perm :
    (cfg : Config) (es : List Event) (s s' : Running)
    → run cfg s es ≡ some s'
    → Perm (owned s'.manager) (owned s.manager ++ created es)
unfolding run
run-Perm cfg [] s s' h =
    rw append-nil (
      subst (λ (x : Running). Perm (owned x.manager) (owned s.manager)) (some_inj.0 h)
        (Perm.refl _))
run-Perm cfg (e ∷ es) s s' h = elim (Option-cases (step cfg s e)) [
  | inl panics ↦ cc
  | inr (s1, stepped) ↦
      Perm.trans
        (run-Perm cfg es s1 s' (
          subst
            (λ o.
              Path (Option Running)
                (elim o as (λ _. Option Running) [ none ↦ none | some s2 ↦ run cfg s2 es ])
                (some s'))
            stepped h))
        (step-Perm cfg es s e s1 stepped)
]
