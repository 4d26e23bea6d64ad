-- ===== src/Registry/Watcher/Runs.antt =====
-- The first step of a run.
use pg_shard_router.Base.{ℕ, Option, none, some, List, ◌∷◌, ◌≡◌, subst, inl, inr, Option-cases}
use pg_shard_router.Registry.Apply.{Json}
use pg_shard_router.Registry.Gateway.{Wire, Opening}
use pg_shard_router.Registry.Http.{Client, Request}
use pg_shard_router.Registry.Watcher.{Watcher, Move, step, run}

module _ (json : Json) (wire : Wire) (c : Client) (streams : ℕ → Request → Opening) where
  pub run-cons :
      (s t : Watcher) (mv : Move) (mvs : List Move)
      → run json wire c streams s (mv ∷ mvs) ≡ some t
      → (s' : Watcher) × (step json wire c streams s mv ≡ some s')
        × (run json wire c streams s' mvs ≡ some t)
  unfolding run
  run-cons s t mv mvs h = elim (Option-cases (step json wire c streams s mv)) [
    | inl stuck ↦ cc
    | inr (s', stepped) ↦ (
      s',
      stepped,
      subst
          (λ o.
            Path (Option Watcher)
              (elim o as (λ _. Option Watcher) [
                | none ↦ none
                | some x ↦ run json wire c streams x mvs
              ])
              (some t))
          stepped h,
    )
  ]
