-- ===== src/Startup/Shutdown/Released.antt =====
-- The deferred calls of `run` close every pool once and stop every loop.
use mathlib.Core.List.{Perm}
use pg_shard_router.Base.{
  Bool, true, false, Option, none, some, List, [], ◌∷◌, ◌≡◌, ◌≢◌, refl, All, inl, inr, Bool-cases,
}
use pg_shard_router.Base.Bytes.{Bytes}
use pg_shard_router.Pool.{Config, find_pool, install, reap_once, close}
use pg_shard_router.Pool.Reaper.{
  Running, Event, looks_up, installs, ticks, returns, shuts, started, ttl_of, step, run,
}
use pg_shard_router.Pool.Reaper.Created.{created, run-Perm}
use pg_shard_router.Startup.Shutdown.{
  Process, Listening, Ending, signalled, listen_failed, IsReady, finish, close_registry, returned,
}

-- Nobody but `run` closes the manager.
abbrev pub IsUse : Event → Type 0
IsUse (looks_up key now) = Unit
IsUse (installs key pool now) = Unit
IsUse (ticks now) = Unit
IsUse returns = Unit
IsUse shuts = ⊥

-- The events can be taken, and the channel is still open.
record StillOpen (cfg : Config) (s : Running) (es : List Event) : Type 0 where
  last : Running
  reached : run cfg s es ≡ some last
  channel : last.stopped ≡ false

module _ (cfg : Config) where
  advance :
      (s s' : Running) (e : Event) (es : List Event)
      → step cfg s e ≡ some s'
      → StillOpen cfg s' es
      → StillOpen cfg s (e ∷ es)
  unfolding run
  advance s s' e es stepped o = record {
    last = o.last;
    reached = rw (stepped, run) o.reached;
    channel = o.channel;
  }

  run-StillOpen :
      (es : List Event) (s : Running) → All IsUse es → s.stopped ≡ false → StillOpen cfg s es
  unfolding run step
  run-StillOpen [] s used h = record { last = s; reached = refl; channel = h }
  run-StillOpen (looks_up k now ∷ es) s used h =
      let s' = record s { manager = (find_pool k now s.manager).0 } in
      advance s s' (looks_up k now) es refl (run-StillOpen es s' used.1 h)
  run-StillOpen (installs k pool now ∷ es) s used h =
      let s' = record s { manager = (install k pool now s.manager).0 } in
      advance s s' (installs k pool now) es refl (run-StillOpen es s' used.1 h)
  run-StillOpen (ticks now ∷ es) s used h = elim (Bool-cases s.reaping) [
    | inl alive ↦
        let s' = record s { manager = reap_once (ttl_of cfg) now s.manager } in
        advance s s' (ticks now) es (rw alive refl) (run-StillOpen es s' used.1 h)
    | inr gone ↦ advance s s (ticks now) es (rw gone refl) (run-StillOpen es s used.1 h)
  ]
  run-StillOpen (returns ∷ es) s used h =
      advance s s returns es (rw h refl) (run-StillOpen es s used.1 h)
  run-StillOpen (shuts ∷ es) s used h = elim used.0 [ ]

close_registry-dead : (cancel : Option Bool) → close_registry cancel ≢ some true
unfolding close_registry
close_registry-dead none h = cc
close_registry-dead (some live) h = cc

returned-clean :
    (interrupted : Bool) (l : Listening) (e : Ending)
    → IsReady interrupted l e
    → returned e ≡ none
    → interrupted ≡ true
unfolding returned
returned-clean interrupted l (signalled shutdown) ready h = ready
returned-clean interrupted l (listen_failed e) ready h = cc

-- What `finish` leaves of the manager.
abbrev closed_down : Running → Running
closed_down s = record s { manager = close s.manager; stopped = true }

finish-closed_down :
    (cfg : Config) (s : Running) (cancel : Option Bool) (e : Ending)
    → s.stopped ≡ false
    → finish cfg (record { pools = s; cancel = cancel }) e
      ≡ some (record { pools = closed_down s; cancel = close_registry cancel }, returned e)
unfolding finish step
finish-closed_down cfg s cancel e h = rw (h, finish) refl

-- How the process is when `run` returns.
pub record Released (cfg : Config) (es : List Event) (cancel : Option Bool) (interrupted : Bool)
    (e : Ending) : Type 0 where
  pub before : Running
  pub reached : run cfg started es ≡ some before
  pub after : Process
  pub result : Option Bytes
  pub returns_it : finish cfg (record { pools = before; cancel = cancel }) e ≡ some (after, result)
  pub reports : result ≡ returned e
  pub none_held : after.pools.manager.pools ≡ []
  pub each_closed : Perm after.pools.manager.closed (created es)
  pub told_to_stop : after.pools.stopped ≡ true
  pub no_watch : after.cancel ≢ some true
  pub clean_exit : result ≡ none → interrupted ≡ true

-- After any lookups, installations, ticks and runs of the goroutine in which nobody else closes the manager,
-- whichever ready branch `select` takes: the deferred calls do not panic, the manager holds no pool, every pool that
-- the driver created was closed once for each time that it was created, the channel that stops the pool's goroutine is
-- closed, no context of the registry's loops is live, and `run` returns no error only if a signal came.
pub finish-Released :
    (cfg : Config) (es : List Event) (cancel : Option Bool) (interrupted : Bool) (l : Listening)
    (e : Ending)
    → All IsUse es
    → IsReady interrupted l e
    → Released cfg es cancel interrupted e
unfolding finish step close close_registry returned
finish-Released cfg es cancel interrupted l e used ready =
    let o = run-StillOpen cfg es started used refl in
    record {
      before = o.last;
      reached = o.reached;
      after = record { pools = closed_down o.last; cancel = close_registry cancel };
      result = returned e;
      returns_it = finish-closed_down cfg o.last cancel e o.channel;
      reports = refl;
      none_held = refl;
      each_closed = run-Perm cfg es started o.last o.reached;
      told_to_stop = refl;
      no_watch = close_registry-dead cancel;
      clean_exit = returned-clean interrupted l e ready;
    }
