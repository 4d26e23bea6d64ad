-- ===== src/Registry/Loops/Compacted.antt =====
-- A watch that asks for a revision that etcd has compacted.
use pg_shard_router.Base.{ℕ, suc, true, false, List, [], ◌∷◌, ◌≡◌, ◌⊎◌, refl, ap, ◌∙◌, inl, inr}
use pg_shard_router.Base.Base64.{encode}
use pg_shard_router.Base.Bytes.{Bytes, decimal_int}
use pg_shard_router.Base.Int.{ℤ}
use pg_shard_router.Base.Result.{ok, err, Result-cases}
use pg_shard_router.Registry.Apply.{Json}
use pg_shard_router.Registry.Etcd.{consume}
use pg_shard_router.Registry.Gateway.{
  Wire, Opening, Message, WatchBatch, WatchError, no_endpoint, opened, watch_path, watch_prefix,
  read_opening, batch_of,
}
use pg_shard_router.Registry.Gateway.Stream.{stream_batches-created, stream_batches-canceled}
use pg_shard_router.Cache.{Store}
use pg_shard_router.Registry.Http.{Client, Request, Network, Session, pick_endpoint}
use pg_shard_router.Registry.Keys.{prefix}
use pg_shard_router.Registry.Loops.{
  Loops, Turn, watches, reconciles, turns, watch_round, reconcile_round, watched, reload,
}
use pg_shard_router.Registry.RangeEnd.{get_prefix_range_end}

-- etcd acknowledges the watch, and cancels it with no event.
pub record Refuses (o : Opening) : Type 0 where
  pub ack : Message
  pub cancel : Message
  pub more : List Message
  pub created : ack.created ≡ true
  pub not_created : cancel.created ≡ false
  pub canceled : cancel.canceled ≡ true
  pub opens : o ≡ opened 200 (ack ∷ cancel ∷ more)

read_opening-Refuses : (o : Opening) (r : Refuses o) → read_opening o ≡ ok (batch_of r.cancel ∷ [])
unfolding read_opening
read_opening-Refuses o r = rw (r.opens) (
    ap ok (
      stream_batches-created r.ack (r.cancel ∷ r.more) r.created
      ∙ stream_batches-canceled r.cancel r.more r.not_created r.canceled))

-- The turns without the watches.
abbrev pub reconciliations : List Turn → List Turn
reconciliations [] = []
reconciliations (watches ∷ ts) = reconciliations ts
reconciliations (reconciles ∷ ts) = reconciles ∷ reconciliations ts

module _ (json : Json) (wire : Wire) (net : Network) (streams : ℕ → Request → Opening) where
  watched_canceled :
      (b : WatchBatch) (l : Loops)
      → b.canceled ≡ true
      → watched json wire net streams (ok (b ∷ [])) l ≡ record l { watches = suc l.watches }
  unfolding watched consume
  watched_canceled b l h = rw h

  -- etcd has compacted revision `rev`: every watch from it on, by whatever endpoint, is refused.
  abbrev pub IsCompacted : ℤ → Type 0
  IsCompacted rev =
      (k : ℕ) (url token : Bytes)
      → Refuses (
          streams k (record {
            endpoint = url;
            path = watch_path;
            body =
                wire.watch_body (encode prefix) (encode (get_prefix_range_end prefix))
                  (decimal_int rev);
            token = token;
          }))

  -- Such a watch is not opened, or brings a cancelation alone.
  watch_prefix-refused :
      (rev : ℤ) (k : ℕ) (c : Client)
      → IsCompacted rev
      → ((e : WatchError) × (watch_prefix wire (streams k) prefix rev c ≡ err e))
        ⊎ ((b : WatchBatch) × (b.canceled ≡ true)
            × (watch_prefix wire (streams k) prefix rev c ≡ ok (b ∷ [])))
  unfolding watch_prefix
  watch_prefix-refused rev k c h = elim (Result-cases (pick_endpoint c)) [
    | inr (no_url, f) ↦ inl (no_endpoint no_url, rw (f, watch_prefix))
    | inl (url, f) ↦
        let r = h k url c.token in
        inr (
          batch_of r.cancel,
          unfold batch_of in r.canceled,
          rw (f, watch_prefix) (read_opening-Refuses _ r),
        )
  ]

  watch_round_refused :
      (rev : ℤ) (l : Loops)
      → l.watch_rev ≡ rev
      → IsCompacted rev
      → watch_round json wire net streams l ≡ record l { watches = suc l.watches }
  unfolding watch_round watched
  watch_round_refused rev l e h =
      let same = ap (λ x. watch_prefix wire (streams l.watches) prefix x l.session.0) e in
      elim (watch_prefix-refused rev l.watches l.session.0 h) [
        | inl (f, failed) ↦ rw (same ∙ failed, watched) refl
        | inr (b, canceled, brought) ↦
            ap (λ r. watched json wire net streams r l) (same ∙ brought)
            ∙ watched_canceled b l canceled
      ]

  -- What the reconciliations read and change.
  abbrev shared : Loops → Session × Store
  shared l = (l.session, l.store)

  abbrev Agrees : Loops → Loops → Type 0
  Agrees l l' = shared l ≡ shared l'

  reconcile_round-Agrees :
      (l l' : Loops)
      → Agrees l l'
      → Agrees (reconcile_round json wire net streams l) (reconcile_round json wire net streams l')
  unfolding reconcile_round
  reconcile_round-Agrees l l' a = ap (λ p. (reload json wire net p).0) a

  reconciliations-Agrees :
      (ts : List Turn) (rev : ℤ) (l l' : Loops)
      → l.watch_rev ≡ rev
      → IsCompacted rev
      → Agrees l l'
      → ((turns json wire net streams ts l).watch_rev ≡ rev)
        × Agrees
            (turns json wire net streams ts l)
            (turns json wire net streams (reconciliations ts) l')
  unfolding turns reconcile_round
  reconciliations-Agrees [] rev l l' e h a = (e, a)
  reconciliations-Agrees (watches ∷ ts) rev l l' e h a =
      let refused = watch_round_refused rev l e h in
      reconciliations-Agrees ts rev (watch_round json wire net streams l) l'
        (ap (λ (x : Loops). x.watch_rev) refused ∙ e) h (ap shared refused ∙ a)
  reconciliations-Agrees (reconciles ∷ ts) rev l l' e h a =
      reconciliations-Agrees ts rev (reconcile_round json wire net streams l)
        (reconcile_round json wire net streams l') e h (reconcile_round-Agrees l l' a)

  -- Where etcd refuses every watch from a revision on, as it does once it has compacted it, the loop
  -- never recovers: whatever watches and reconciliations follow, it asks for the same revision
  -- again, and the store is as the reconciliations alone would have made it.
  pub compacted_forever :
      (ts : List Turn) (rev : ℤ) (l : Loops)
      → l.watch_rev ≡ rev
      → IsCompacted rev
      → ((turns json wire net streams ts l).watch_rev ≡ rev)
        × ((turns json wire net streams ts l).store
            ≡ (turns json wire net streams (reconciliations ts) l).store)
  compacted_forever ts rev l e h =
      let (same, agrees) = reconciliations-Agrees ts rev l l e h refl in
      (same, ap (λ p. p.1) agrees)
