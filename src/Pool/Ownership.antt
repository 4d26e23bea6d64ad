-- ===== src/Pool/Ownership.antt =====
-- Every pool that was created is held under one key or has been closed, and never both.
use mathlib.Core.List.{Perm, Nodup, perm_middle, perm_append_comm, append_assoc, append-nil}
use mathlib.Core.List.Perm
use pg_shard_router.Base.{
  ℕ, none, some, List, [], ◌∷◌, ◌++◌, ◌≡◌, refl, ap, inl, inr, arith, Option-cases,
}
use pg_shard_router.Base.Bytes.{Bytes, bytes_eq}
use pg_shard_router.Base.Dict.{Dict, get, put}
use pg_shard_router.Pool.{
  Entry, Manager, new_manager, find_pool, install, kept, reaped, reap_once, pools_of, close,
}

-- One section under the mutex, with the time at which it runs; `installs` brings a pool that the driver has just created.
pub data Op : Type 0 where
  finds : Bytes → ℕ → Op
  installs : Bytes → ℕ → ℕ → Op
  reaps : ℕ → ℕ → Op
  closes : Op

unfoldable pub step : Manager → Op → Manager
step m (finds key now) = (find_pool key now m).0
step m (installs key pool now) = (install key pool now m).0
step m (reaps ttl now) = reap_once ttl now m
step m closes = close m

unfoldable pub run : Manager → List Op → Manager
unfolding step
run m [] = m
run m (o ∷ os) = run (step m o) os

-- The pools that the driver created for these calls.
abbrev pub created : List Op → List ℕ
created [] = []
created (installs key pool now ∷ os) = pool ∷ created os
created (finds key now ∷ os) = created os
created (reaps ttl now ∷ os) = created os
created (closes ∷ os) = created os

-- The pools that exist: held by the manager, or closed.
abbrev pub owned : Manager → List ℕ
owned m = pools_of m.pools ++ m.closed

pools_of-touch :
    (key : Bytes) (e : Entry) (now : ℕ) (es : Dict Bytes Entry)
    → get key es ≡ some e
    → pools_of (put key (record e { last_used = now }) es) ≡ pools_of es
unfolding get put
pools_of-touch key e now [] h = cc
pools_of-touch key e now ((k, d) ∷ es) h = ground (arith, pools_of-touch key e now es)

pools_of-new :
    (key : Bytes) (e : Entry) (es : Dict Bytes Entry)
    → get key es ≡ none
    → pools_of (put key e es) ≡ pools_of es ++ e.pool ∷ []
unfolding get put
pools_of-new key e [] h = refl
pools_of-new key e ((k, d) ∷ es) h = ground (arith, pools_of-new key e es)

kept-reaped-Perm :
    (ttl now : ℕ) (es : Dict Bytes Entry)
    → Perm (pools_of es) (reaped ttl now es ++ pools_of (kept ttl now es))
unfolding kept reaped
kept-reaped-Perm ttl now [] = Perm.nil
kept-reaped-Perm ttl now ((k, e) ∷ es) =
    let rest = Perm.cons e.pool (kept-reaped-Perm ttl now es) in
    ground (
      arith,
      rest,
      Perm.trans rest (Perm.symm (perm_middle (reaped ttl now es) (pools_of (kept ttl now es)))),
    )

-- A new pool that goes to the front of either part.
added-Perm :
    (held closed made : List ℕ) (pool : ℕ)
    → Perm ((held ++ pool ∷ closed) ++ made) ((held ++ closed) ++ pool ∷ made)
added-Perm held closed made pool =
    Perm.trans (Perm.append_right made (perm_middle held closed))
      (Perm.symm (perm_middle (held ++ closed) made))

pub finds-owned : (key : Bytes) (now : ℕ) (m : Manager) → owned (find_pool key now m).0 ≡ owned m
unfolding find_pool
finds-owned key now m = elim (Option-cases (get key m.pools)) [
  | inl none_yet ↦ rw (none_yet, find_pool)
  | inr (e, known) ↦
      rw (known, find_pool) (ap (λ ps. ps ++ m.closed) (pools_of-touch key e now m.pools known))
]

pub installs-Perm :
    (key : Bytes) (pool now : ℕ) (m : Manager) (made : List ℕ)
    → Perm (owned (install key pool now m).0 ++ made) (owned m ++ pool ∷ made)
unfolding install
installs-Perm key pool now m made = elim (Option-cases (get key m.pools)) [
  | inl none_yet ↦
      rw (none_yet, install)
        (rw
          (
            pools_of-new key (record { pool = pool; last_used = now }) m.pools none_yet,
            append_assoc (pools_of m.pools) (pool ∷ []) m.closed,
          )
          (added-Perm (pools_of m.pools) m.closed made pool))
  | inr (e, known) ↦ rw (known, install) (added-Perm (pools_of m.pools) m.closed made pool)
]

pub reaps-Perm : (ttl now : ℕ) (m : Manager) → Perm (owned (reap_once ttl now m)) (owned m)
unfolding reap_once
reaps-Perm ttl now m = rw (← append_assoc) (
    Perm.append_right m.closed (
      Perm.trans (perm_append_comm (pools_of (kept ttl now m.pools)) (reaped ttl now m.pools))
        (Perm.symm (kept-reaped-Perm ttl now m.pools))))

step-Perm :
    (m : Manager) (o : Op) (os : List Op)
    → Perm (owned (step m o) ++ created os) (owned m ++ created (o ∷ os))
unfolding step close
step-Perm m (finds key now) os = rw finds-owned (Perm.refl _)
step-Perm m (installs key pool now) os = installs-Perm key pool now m (created os)
step-Perm m (reaps ttl now) os = Perm.append_right (created os) (reaps-Perm ttl now m)
step-Perm m closes os = Perm.refl _

-- Whatever the order in which lookups, installations, reaping and closing take the mutex, the pools held
-- and the pools closed together are the pools that there were and those created meanwhile, each as often: none is
-- lost without being closed, none is closed twice, and none is closed and still held.
pub run-Perm : (m : Manager) (os : List Op) → Perm (owned (run m os)) (owned m ++ created os)
unfolding run
run-Perm m [] = rw append-nil (Perm.refl _)
run-Perm m (o ∷ os) = Perm.trans (run-Perm (step m o) os) (step-Perm m o os)

-- From an empty manager, if the driver's new pools are all different, no pool is ever held twice, closed twice, or
-- held after it was closed, whatever takes the mutex in what order.
run-Nodup : (os : List Op) → Nodup (created os) → Nodup (owned (run new_manager os))
run-Nodup os = Perm.nodup (Perm.symm (run-Perm new_manager os))
