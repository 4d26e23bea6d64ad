-- ===== src/Breaker/Probes.antt =====
-- What an open and a half-open breaker let through.
use pg_shard_router.Base.{ℕ, ◌+◌, ◌<◌, ◌≤◌, List, [], ◌∷◌, ◌≡◌, ap, ◌∙◌, refl, arith, All, map}
use pg_shard_router.Base.Int.{pos}
use pg_shard_router.Base.Result.{Result, ok, err}
use pg_shard_router.Breaker.{
  Breaker, BreakerError, closed, open_, half_open, err_open, allow, success, failure,
}
use pg_shard_router.Breaker.Calls.{allows, run}

abbrev Reply : Type 0
Reply = Breaker × Result BreakerError (Unit {0})

-- The answers to a run of calls of `Allow`, at the given times.
pub answers : Breaker → List ℕ → List (Result BreakerError (Unit {0}))
answers b [] = []
answers b (t ∷ ts) = let (b', r) = allow t b in r ∷ answers b' ts

allow_early :
    (b : Breaker) (t : ℕ)
    → b.state ≡ open_
    → t < b.opened_at + b.reset_timeout
    → allow t b ≡ (b, err err_open)
unfolding allow
allow_early b t o early = ground arith

allow_late :
    (b : Breaker) (t : ℕ)
    → b.state ≡ open_
    → b.opened_at + b.reset_timeout ≤ t
    → allow t b ≡ (record b { state = half_open }, ok tt)
unfolding allow
allow_late b t o late = ground arith

allow_half_open : (b : Breaker) (t : ℕ) → b.state ≡ half_open → allow t b ≡ (b, ok tt)
unfolding allow
allow_half_open b t h = ground arith

-- A breaker on which `Allow` has one answer, and which it leaves alone.
steady :
    (b : Breaker) (x : Result BreakerError (Unit {0})) (P : ℕ → Type 0)
    → ((t : ℕ) → P t → allow t b ≡ (b, x))
    → (ts : List ℕ) → All P ts
    → All (λ r. r ≡ x) (answers b ts) × (run b (map allows ts) ≡ b)
unfolding answers run
steady b x P same [] h = (tt, refl)
steady b x P same (t ∷ ts) h =
    let rest = steady b x P same ts h.1 in
    (
      rw (same t h.0) (refl, rest.0),
      ap (λ (p : Reply). run p.0 (map allows ts)) (same t h.0) ∙ rest.1,
    )

-- Until the reset timeout has passed since it opened, an open breaker refuses every call and does
-- not change.
open_refuses :
    (b : Breaker) (ts : List ℕ)
    → b.state ≡ open_
    → All (λ t. t < b.opened_at + b.reset_timeout) ts
    → All (λ r. r ≡ err err_open) (answers b ts) × (run b (map allows ts) ≡ b)
open_refuses b ts o early =
    steady b (err err_open) (λ t. t < b.opened_at + b.reset_timeout) (λ t. allow_early b t o) ts
      early

every : (ts : List ℕ) → All (λ t. Unit {0}) ts
every [] = tt
every (t ∷ ts) = (tt, every ts)

-- From the reset timeout on, the first call makes an open breaker half-open, and it and every call
-- after it is let through, however many there are, until an outcome is reported.
pub half_open_admits_every :
    (b : Breaker) (t : ℕ) (ts : List ℕ)
    → b.state ≡ open_
    → b.opened_at + b.reset_timeout ≤ t
    → All (λ r. r ≡ ok tt) (answers b (t ∷ ts))
      × (run b (map allows (t ∷ ts)) ≡ record b { state = half_open })
unfolding answers run
half_open_admits_every b t ts o late =
    let probing : Breaker = record b { state = half_open } in
    let rest =
      steady probing (ok tt) (λ t. Unit {0}) (λ t _. allow_half_open probing t refl) ts
        (every ts) in
    (
      rw (allow_late b t o late) (refl, rest.0),
      ap (λ (p : Reply). run p.0 (map allows ts)) (allow_late b t o late) ∙ rest.1,
    )

-- The outcome of a probe decides: a failure opens a half-open breaker again, from its own time on
-- and whatever the count, and a success closes it with the count at zero.
half_open_outcome :
    (b : Breaker) (now : ℕ)
    → b.state ≡ half_open
    → ((failure now b).state ≡ open_)
      × ((failure now b).opened_at ≡ now)
      × ((success b).state ≡ closed)
      × ((success b).consecutive_fails ≡ pos 0)
unfolding failure success
half_open_outcome b now h = ground arith
