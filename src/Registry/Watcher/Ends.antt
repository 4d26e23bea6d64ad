-- ===== src/Registry/Watcher/Ends.antt =====
-- The end of a watch once the context is canceled.
use mathlib.Core.Option.{some_inj}
use pg_shard_router.Base.{
  ℕ, ◌+◌, ◌*◌, ◌≤◌, ◌<◌, true, some, List, [], ◌∷◌, ◌≡◌, ◌⊎◌, refl, subst, ap, sym, ◌∙◌, inl, inr,
  arith, length,
}
use pg_shard_router.Registry.Apply.{Json}
use pg_shard_router.Registry.Gateway.{Wire, Opening}
use pg_shard_router.Registry.Http.{Client, Request}
use pg_shard_router.Registry.Watcher.Runs.{run-cons}
use pg_shard_router.Registry.Watcher.{
  Watcher, Place, checking, waiting, pausing, returned, Reader, reading, offering, gone, Move,
  checks, decodes, breaks_off, hands_over, drops, sees_close, wakes, stops, act, step, run, decode,
  receive,
}

-- The steps that the reader and the loop may still take.
abbrev reader_left : Reader → ℕ
reader_left (reading ms) = 2 * length ms + 1
reader_left (offering b ms) = 2 * length ms + 2
reader_left gone = 0

abbrev place_left : Place → ℕ
place_left checking = 1
place_left pausing = 2
place_left waiting = 3
place_left returned = 0

abbrev pub left : Watcher → ℕ
left s = reader_left s.reader + place_left s.place

-- Both goroutines have returned.
abbrev pub IsOver : Watcher → Type 0
IsOver s = (s.place ≡ returned) × (s.reader ≡ gone)

module _ (json : Json) (wire : Wire) (c : Client) (streams : ℕ → Request → Opening) where
  -- A step after the cancellation: fewer are left, and no watch is opened.
  record Sinks (s t : Watcher) : Type 0 where
    canceled : t.done ≡ true
    fewer : left t < left s
    no_watch : t.watches ≡ s.watches

  act-Sinks :
      (mv : Move) (p : Place) (r : Reader) (s t : Watcher)
      → s.done ≡ true
      → s.place ≡ p
      → s.reader ≡ r
      → act json wire c streams mv true p r s ≡ some t
      → Sinks s t
  unfolding act decode receive
  act-Sinks checks checking r s t d e f h = ground arith
  act-Sinks decodes p (reading (m ∷ ms)) s t d e f h = ground arith
  act-Sinks breaks_off p (reading ms) s t d e f h = ground arith
  act-Sinks hands_over waiting (offering b ms) s t d e f h = ground arith
  act-Sinks drops p (offering b ms) s t d e f h = ground arith
  act-Sinks sees_close waiting gone s t d e f h = ground arith
  act-Sinks wakes pausing r s t d e f h = ground arith
  act-Sinks stops pausing r s t d e f h = ground arith
  act-Sinks mv p r s t d e f h = cc

  -- Another step can be taken.
  abbrev pub CanGo : Watcher → Type 0
  CanGo s = (mv : Move) × (t : Watcher) × (step json wire c streams s mv ≡ some t)

  can_go :
      (mv : Move) (p : Place) (r : Reader) (s t : Watcher)
      → s.done ≡ true
      → s.place ≡ p
      → s.reader ≡ r
      → act json wire c streams mv true p r s ≡ some t
      → CanGo s
  unfolding step
  can_go mv p r s t d e f h = (mv, t, simp (d, e, f) h)

  -- A state in which nothing can be done is the last one.
  goes_on :
      (p : Place) (r : Reader) (s : Watcher)
      → s.done ≡ true
      → s.place ≡ p
      → s.reader ≡ r
      → IsOver s ⊎ CanGo s
  unfolding act
  goes_on p (reading ms) s d e f = inr (can_go breaks_off p (reading ms) s _ d e f refl)
  goes_on p (offering b ms) s d e f = inr (can_go drops p (offering b ms) s _ d e f refl)
  goes_on checking gone s d e f = inr (can_go checks checking gone s _ d e f refl)
  goes_on waiting gone s d e f = inr (can_go sees_close waiting gone s _ d e f refl)
  goes_on pausing gone s d e f = inr (can_go stops pausing gone s _ d e f refl)
  goes_on returned gone s d e f = inl (e, f)

  step-Sinks :
      (s : Watcher) (mv : Move) (t : Watcher)
      → s.done ≡ true
      → step json wire c streams s mv ≡ some t
      → Sinks s t
  unfolding step
  step-Sinks s mv t d h =
      act-Sinks mv s.place s.reader s t d refl refl
        (subst (λ x. act json wire c streams mv x s.place s.reader s ≡ some t) d h)

  -- From a state in which the context has been canceled, whatever steps the two goroutines take, in any order: no
  -- watch is opened, the steps taken and those that are left are no more than were left before, and
  -- as long as not both goroutines have returned, a step can be taken. So both return, and neither waits for the other for ever.
  pub cancel_ends :
      (mvs : List Move) (s t : Watcher)
      → s.done ≡ true
      → run json wire c streams s mvs ≡ some t
      → (t.watches ≡ s.watches) × (length mvs + left t ≤ left s) × (IsOver t ⊎ CanGo t)
  unfolding run
  cancel_ends [] s t d h =
      let same : s ≡ t = some_inj.0 h in
      let d' : t.done ≡ true = subst (λ (x : Watcher). x.done ≡ true) same d in
      (
        ap (λ (x : Watcher). x.watches) (sym same),
        omega (arith, ap left same),
        goes_on t.place t.reader t d' refl refl,
      )
  cancel_ends (mv ∷ mvs) s t d h =
      let (s', stepped, rest) = run-cons json wire c streams s t mv mvs h in
      let sinks = step-Sinks s mv s' d stepped in
      let (same, few, ends) = cancel_ends mvs s' t sinks.canceled rest in
      (same ∙ sinks.no_watch, omega (arith, few, sinks.fewer), ends)
