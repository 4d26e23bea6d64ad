-- ===== src/Registry/Watcher/Stages.antt =====
-- Where the two goroutines of a watch stand, by the messages of the stream that were taken.
use mathlib.Core.Option.{some_inj}
use mathlib.Core.List.{append_assoc, append-nil}
use pg_shard_router.Base.{
  ℕ, Bool, true, false, some, List, [], ◌∷◌, ◌++◌, ◌≡◌, ◌≢◌, refl, subst, ap, sym, ◌∙◌, All, inl,
  inr, Bool-cases,
}
use pg_shard_router.Base.Int.{ℤ}
use pg_shard_router.Cache.{Store}
use pg_shard_router.Registry.Apply.{Json}
use pg_shard_router.Registry.Etcd.{apply_batch, consume}
use pg_shard_router.Registry.Gateway.{Wire, Message, Opening, WatchBatch, stream_batches, batch_of}
use pg_shard_router.Registry.Http.{Client, Request}
use pg_shard_router.Registry.Watcher.{
  Watcher, Place, checking, waiting, pausing, returned, Reader, reading, offering, gone, Move,
  cancels, checks, decodes, breaks_off, hands_over, drops, sees_close, wakes, stops, act, step, run,
  decode, receive,
}
use pg_shard_router.Registry.Watcher.Runs.{run-cons}

module _ (json : Json) (ms : List Message) (x0 : Store × ℤ) where
  -- The messages that were taken have brought the store to `x`, and more can come after them.
  abbrev Applied : List Message → Store × ℤ → Type 0
  Applied taken x =
      (more : List Message)
      → consume json (stream_batches (taken ++ more)) x0 ≡ consume json (stream_batches more) x

  abbrev Stage : Reader → Place → Store × ℤ → Type 0
  Stage (reading rest) p x =
      (taken : List Message) × (ms ≡ taken ++ rest) × (p ≡ waiting) × Applied taken x
  Stage (offering b rest) p x =
      (taken : List Message) × (m : Message) × (ms ≡ taken ++ m ∷ rest)
      × (p ≡ waiting)
      × (m.created ≡ false)
      × (b ≡ batch_of m)
      × Applied taken x
  Stage gone p x =
      (taken : List Message) × (rest : List Message) × (ms ≡ taken ++ rest)
      × (consume json (stream_batches taken) x0 ≡ x)

  abbrev pub IsStage : Watcher → Type 0
  IsStage s = Stage s.reader s.place (s.store, s.watch_rev)

  Applied-all :
      (taken : List Message) (x : Store × ℤ)
      → Applied taken x
      → consume json (stream_batches taken) x0 ≡ x
  unfolding consume stream_batches
  Applied-all taken x h =
      subst (λ l. consume json (stream_batches l) x0 ≡ x) (append-nil taken) (h [])

  -- One more message was taken.
  Applied-more :
      (taken : List Message) (m : Message) (x y : Store × ℤ)
      → ((more : List Message)
          → consume json (stream_batches (m ∷ more)) x ≡ consume json (stream_batches more) y)
      → Applied taken x
      → Applied (taken ++ m ∷ []) y
  Applied-more taken m x y one h more =
      rw (append_assoc taken (m ∷ []) more) (h (m ∷ more) ∙ one more)

  consume-created :
      (m : Message) (x : Store × ℤ)
      → m.created ≡ true
      → (more : List Message)
      → consume json (stream_batches (m ∷ more)) x ≡ consume json (stream_batches more) x
  unfolding stream_batches
  consume-created m x e more = rw e refl

  consume-next :
      (m : Message) (x : Store × ℤ)
      → m.created ≡ false
      → m.canceled ≡ false
      → (more : List Message)
      → consume json (stream_batches (m ∷ more)) x
        ≡ consume json (stream_batches more) (apply_batch json (batch_of m) x)
  unfolding stream_batches consume batch_of
  consume-next m x e f more = simp (e, f)

  consume-canceled :
      (taken : List Message) (m : Message) (x : Store × ℤ)
      → m.created ≡ false
      → m.canceled ≡ true
      → Applied taken x
      → consume json (stream_batches (taken ++ m ∷ [])) x0 ≡ x
  unfolding stream_batches consume batch_of
  consume-canceled taken m x e f h = h (m ∷ []) ∙ simp (e, f)

  split_next :
      (taken : List Message) (m : Message) (rest : List Message)
      → ms ≡ taken ++ m ∷ rest
      → ms ≡ (taken ++ m ∷ []) ++ rest
  split_next taken m rest h = h ∙ sym (append_assoc taken (m ∷ []) rest)

  module _ (wire : Wire) (c : Client) (streams : ℕ → Request → Opening) where
    decode-Stage :
        (m : Message) (rest : List Message) (s : Watcher)
        → s.place ≡ waiting
        → Stage (reading (m ∷ rest)) waiting (s.store, s.watch_rev)
        → IsStage (decode json wire c streams m rest s)
    unfolding decode batch_of
    decode-Stage m rest s e (taken, split, _, applied) = elim (Bool-cases m.created) [
      | inl ack ↦ rw ack (
        taken ++ m ∷ [],
        split_next taken m rest split,
        e,
        Applied-more taken m _ _ (consume-created m _ ack) applied,
      )
      | inr event ↦ rw event (taken, m, split, e, event, refl, applied)
    ]

    receive-Stage :
        (b : WatchBatch) (rest : List Message) (s : Watcher)
        → s.place ≡ waiting
        → Stage (offering b rest) waiting (s.store, s.watch_rev)
        → IsStage (receive json wire c streams b rest s)
    unfolding receive apply_batch
    receive-Stage b rest s e (taken, m, split, _, event, same, applied) =
        let told : m.canceled ≡ b.canceled =
          unfold batch_of in sym (ap (λ (x : WatchBatch). x.canceled) same) in
        elim (Bool-cases b.canceled) [
          | inl last ↦ rw last (
            taken ++ m ∷ [],
            rest,
            split_next taken m rest split,
            consume-canceled taken m _ event (told ∙ last) applied,
          )
          | inr more ↦
              rw (more, same)
                (
                  taken ++ m ∷ [],
                  split_next taken m rest split,
                  e,
                  Applied-more taken m _ _ (consume-next m _ event (told ∙ more)) applied,
                )
        ]

    to_Stage : (s' t : Watcher) → some s' ≡ some t → IsStage s' → IsStage t
    to_Stage s' t h = subst IsStage (some_inj.0 h)

    -- The loop moves on, and the channel stays closed.
    gone-Stage :
        (q : Place) (s : Watcher)
        → s.reader ≡ gone
        → Stage gone q (s.store, s.watch_rev)
        → Stage s.reader q (s.store, s.watch_rev)
    gone-Stage q s f g = subst (λ r. Stage r q (s.store, s.watch_rev)) (sym f) g

    act-Stage :
        (mv : Move) (d : Bool) (p : Place) (r : Reader) (s t : Watcher)
        → mv ≢ checks
        → s.place ≡ p
        → s.reader ≡ r
        → act json wire c streams mv d p r s ≡ some t
        → Stage r p (s.store, s.watch_rev)
        → IsStage t
    unfolding act
    act-Stage checks d p r s t n e f h g = absurd (n refl)
    act-Stage cancels true p r s t n e f h g = cc
    act-Stage cancels false p r s t n e f h g =
        let x : Store × ℤ = (s.store, s.watch_rev) in
        to_Stage (record s { done = true }) t h
          (subst (λ q. Stage q s.place x) (sym f) (subst (λ q. Stage r q x) (sym e) g))
    act-Stage decodes d p (reading (m ∷ rest)) s t n e f h g =
        to_Stage _ t h (decode-Stage m rest s (e ∙ g.2) (g.0, g.1, refl, g.3))
    act-Stage breaks_off d p (reading rest) s t n e f h g =
        to_Stage (record s { reader = gone }) t h (g.0, rest, g.1, Applied-all g.0 _ g.3)
    act-Stage hands_over d waiting (offering b rest) s t n e f h g =
        to_Stage _ t h (receive-Stage b rest s e g)
    act-Stage drops true p (offering b rest) s t n e f h g =
        to_Stage (record s { reader = gone }) t h (g.0, g.1 ∷ rest, g.2, Applied-all g.0 _ g.6)
    act-Stage sees_close d waiting gone s t n e f h g =
        to_Stage (record s { place = pausing }) t h (gone-Stage pausing s f g)
    act-Stage wakes d pausing gone s t n e f h g =
        to_Stage (record s { place = checking }) t h (gone-Stage checking s f g)
    act-Stage stops true pausing gone s t n e f h g =
        to_Stage (record s { place = returned }) t h (gone-Stage returned s f g)
    act-Stage wakes d pausing (reading rest) s t n e f h g = cc (g.2)
    act-Stage wakes d pausing (offering b rest) s t n e f h g = cc (g.3)
    act-Stage stops d pausing (reading rest) s t n e f h g = cc (g.2)
    act-Stage stops d pausing (offering b rest) s t n e f h g = cc (g.3)
    act-Stage mv d p r s t n e f h g = cc

    step-Stage :
        (mv : Move) (s t : Watcher)
        → mv ≢ checks
        → step json wire c streams s mv ≡ some t
        → IsStage s
        → IsStage t
    unfolding step
    step-Stage mv s t n h g = act-Stage mv s.done s.place s.reader s t n refl refl h g

    pub run-Stage :
        (mvs : List Move) (s t : Watcher)
        → All (λ mv. mv ≢ checks) mvs
        → run json wire c streams s mvs ≡ some t
        → IsStage s
        → IsStage t
    unfolding run
    run-Stage [] s t n h g = to_Stage s t h g
    run-Stage (mv ∷ mvs) s t n h g =
        let (s', stepped, rest) = run-cons json wire c streams s t mv mvs h in
        run-Stage mvs s' t n.1 rest (step-Stage mv s s' n.0 stepped g)

  -- What was taken of the messages.
  pub Stage-taken :
      (r : Reader) (p : Place) (x : Store × ℤ)
      → Stage r p x
      → (taken : List Message) × (rest : List Message) × (ms ≡ taken ++ rest)
        × (x ≡ consume json (stream_batches taken) x0)
  Stage-taken gone p x (taken, rest, split, all) = (taken, rest, split, sym all)
  Stage-taken (reading rest) p x (taken, split, w, applied) =
      (taken, rest, split, sym (Applied-all taken x applied))
  Stage-taken (offering b rest) p x (taken, m, split, w, event, same, applied) =
      (taken, m ∷ rest, split, sym (Applied-all taken x applied))
