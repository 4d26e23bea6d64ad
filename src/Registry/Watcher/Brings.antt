-- ===== src/Registry/Watcher/Brings.antt =====
-- The single steps of a watch, and `consume` on the batches handed over.
use mathlib.Core.Option.{some_inj}
use pg_shard_router.Base.{
  ℕ, suc, nat_beq, false, some, List, [], ◌∷◌, ◌++◌, ◌≡◌, ◌≢◌, refl, subst, ap, sym, ◌∙◌, All, inl,
  inr, arith, Bool-cases,
}
use pg_shard_router.Base.Int.{ℤ}
use pg_shard_router.Registry.Apply.{Json}
use pg_shard_router.Registry.Etcd.{consume}
use pg_shard_router.Base.Result.{ok}
use pg_shard_router.Registry.Gateway.{
  Wire, Message, Opening, unanswered, opened, stream_batches, watch_prefix, read_opening,
}
use pg_shard_router.Registry.Keys.{prefix}
use pg_shard_router.Registry.Http.{Client, Request}
use pg_shard_router.Registry.Watcher.{
  Watcher, checking, waiting, reading, Move, checks, act, step, run, open_watch, accepted, begin,
}
use pg_shard_router.Registry.Watcher.Runs.{run-cons}
use pg_shard_router.Registry.Watcher.Stages.{IsStage, run-Stage, Stage-taken}

step-opens :
    (json : Json) (wire : Wire) (c : Client) (streams : ℕ → Request → Opening) (ms : List Message)
    (s : Watcher)
    → s.done ≡ false
    → s.place ≡ checking
    → open_watch json wire c streams s.watches s.watch_rev ≡ some ms
    → step json wire c streams s checks
      ≡ some (record s { place = waiting; reader = reading ms; watches = suc s.watches })
unfolding step act begin
step-opens json wire c streams ms s live head opens = simp (live, head, opens)

read_opening-accepted :
    (o : Opening) (ms : List Message)
    → accepted o ≡ some ms
    → read_opening o ≡ ok (stream_batches ms)
unfolding read_opening accepted
read_opening-accepted unanswered ms h = cc
read_opening-accepted (opened status ns) ms h = elim (Bool-cases (nat_beq status 200)) [
  | inl good ↦ rw good (ap (λ x. ok (stream_batches x)) (some_inj.0 (rw good at h)))
  | inr bad ↦ cc
]

watch_prefix-open_watch :
    (json : Json) (wire : Wire) (c : Client) (streams : ℕ → Request → Opening) (ms : List Message)
    (k : ℕ) (start : ℤ)
    → open_watch json wire c streams k start ≡ some ms
    → watch_prefix wire (streams k) prefix start c ≡ ok (stream_batches ms)
unfolding open_watch watch_prefix
watch_prefix-open_watch json wire c streams ms k start h =
    ground (arith, read_opening-accepted (streams k _) ms)

-- A watch that is opened at the head of the loop, with the context live, and whose response has the
-- messages `ms`: `watch_prefix` gives all their batches; and whatever steps the two goroutines take until another
-- watch is opened, in any order, with the stream cut off or the context canceled at any point, the store
-- and the revision of the next watch are what `consume` makes of the batches of some first messages of `ms`.
pub run-consume :
    (json : Json) (wire : Wire) (c : Client) (streams : ℕ → Request → Opening) (ms : List Message)
    (mvs : List Move) (s t : Watcher)
    → s.done ≡ false
    → s.place ≡ checking
    → open_watch json wire c streams s.watches s.watch_rev ≡ some ms
    → All (λ mv. mv ≢ checks) mvs
    → run json wire c streams s (checks ∷ mvs) ≡ some t
    → (watch_prefix wire (streams s.watches) prefix s.watch_rev c ≡ ok (stream_batches ms))
      × ((taken : List Message) × (rest : List Message) × (ms ≡ taken ++ rest)
          × ((t.store, t.watch_rev) ≡ consume json (stream_batches taken) (s.store, s.watch_rev)))
run-consume json wire c streams ms mvs s t live head opens n h =
    let (s', stepped, rest) = run-cons json wire c streams s t checks mvs h in
    let start : Watcher = record s {
      place = waiting;
      reader = reading ms;
      watches = suc s.watches;
    } in
    let first : step json wire c streams s checks ≡ some start =
      step-opens json wire c streams ms s live head opens in
    let ready : IsStage json ms (s.store, s.watch_rev) s' =
      subst (IsStage json ms (s.store, s.watch_rev)) (some_inj.0 (sym first ∙ stepped))
        ([], refl, refl, λ more. refl) in
    (
      watch_prefix-open_watch json wire c streams ms s.watches s.watch_rev opens,
      Stage-taken json ms (s.store, s.watch_rev) t.reader t.place (t.store, t.watch_rev)
          (run-Stage json ms (s.store, s.watch_rev) wire c streams mvs s' t n rest ready),
    )
