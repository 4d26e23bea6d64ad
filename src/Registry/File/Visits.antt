-- ===== src/Registry/File/Visits.antt =====
-- The order in which the buckets are visited does not matter where their numbers differ.
use mathlib.Core.List.{Permᴰ, Nodup}
use pg_shard_router.Base.{Option, none, some, [], ◌≡◌, ◌↔◌, inl, inr, refl, map, Option-cases}
use pg_shard_router.Base.Bytes.{Bytes}
use pg_shard_router.Base.Dict.{Dict}
use pg_shard_router.Base.Int.{ℤ, int_eq}
use pg_shard_router.Base.Result.{Result, ok, err}
use pg_shard_router.Model.{BucketDef}
use pg_shard_router.Cache.{Mapping, Store, load, swap}
use pg_shard_router.Registry.Etcd.Watch.{shard_at, bucket_at}
use pg_shard_router.Registry.File.{FileDoc, FileError, load_buckets, swap_loaded, start}
use pg_shard_router.Registry.File.Orders.{SameOutcome, named, load_buckets-Permᴰ}

-- Two starts end alike: both with success or neither, and with stores that answer alike.
abbrev pub EndAlike :
    Store × Result FileError (Unit {0}) → Store × Result FileError (Unit {0}) → Type 0
EndAlike a b =
    ((a.1 ≡ ok tt) ↔ (b.1 ≡ ok tt))
    × ((j : Bytes) → shard_at a.0 j ≡ shard_at b.0 j)
    × ((i : ℤ) → bucket_at a.0 i ≡ bucket_at b.0 i)

swap_loaded-EndAlike :
    (doc : FileDoc) (store : Store) (a b : Result FileError (Dict ℤ BucketDef))
    → SameOutcome a b
    → EndAlike (swap_loaded doc store a) (swap_loaded doc store b)
unfolding swap_loaded swap load
swap_loaded-EndAlike doc store (ok m) (ok n) h = ((λ e. e, λ e. e), λ j. refl, h)
swap_loaded-EndAlike doc store (err e) (err f) h = ((λ x. cc, λ x. cc), λ j. refl, λ i. refl)
swap_loaded-EndAlike doc store (ok m) (err f) h = absurd h
swap_loaded-EndAlike doc store (err e) (ok n) h = absurd h

swap_loaded-kept :
    (doc : FileDoc) (store : Store) (a : Result FileError (Dict ℤ BucketDef)) (e : FileError)
    → (swap_loaded doc store a).1 ≡ err e
    → (swap_loaded doc store a).0 ≡ store
unfolding swap_loaded
swap_loaded-kept doc store (ok m) e h = cc
swap_loaded-kept doc store (err f) e h = refl

-- Where the file decodes and no two keys of the file's buckets read as one number, the order in which `range` visits
-- them does not matter: in any two orders both starts succeed or both fail, and the stores
-- answer every lookup alike. A start that fails leaves the store as it was.
pub start-EndAlike :
    (decode : Bytes → Option FileDoc) (visit visit' : Dict Bytes BucketDef → Dict Bytes BucketDef)
    (text : Bytes) (doc : FileDoc) (store : Store)
    → decode text ≡ some doc
    → Permᴰ (visit doc.buckets) (visit' doc.buckets)
    → Nodup (map named (visit doc.buckets))
    → EndAlike (start decode visit (some text) store) (start decode visit' (some text) store)
      × ((e : FileError)
          → (start decode visit (some text) store).1 ≡ err e
          → (start decode visit (some text) store).0 ≡ store)
unfolding start
start-EndAlike decode visit visit' text doc store e p d =
    rw (e, start)
      (
        swap_loaded-EndAlike doc store (load_buckets (visit doc.buckets) [])
            (load_buckets (visit' doc.buckets) [])
            (load_buckets-Permᴰ (visit doc.buckets) (visit' doc.buckets) [] [] p d (λ i. refl)),
        swap_loaded-kept doc store (load_buckets (visit doc.buckets) []),
      )

swap_loaded-ok :
    (doc : FileDoc) (store : Store) (a : Result FileError (Dict ℤ BucketDef))
    → (swap_loaded doc store a).1 ≡ ok tt
    → (m : Mapping) × (load (swap_loaded doc store a).0 ≡ some m)
unfolding swap_loaded swap load
swap_loaded-ok doc store (ok m) h = (_, refl)
swap_loaded-ok doc store (err e) h = cc

-- A start that succeeds has put a map into the store.
pub start-ok :
    (decode : Bytes → Option FileDoc) (visit : Dict Bytes BucketDef → Dict Bytes BucketDef)
    (text : Option Bytes) (store : Store)
    → (start decode visit text store).1 ≡ ok tt
    → (m : Mapping) × (load (start decode visit text store).0 ≡ some m)
unfolding start
start-ok decode visit none store h = cc
start-ok decode visit (some text) store h = elim (Option-cases (decode text)) [
  | inl e ↦ absurd (cc (rw (e, start) at h))
  | inr (doc, e) ↦
      let made = load_buckets (visit doc.buckets) [] in
      rw (e, start) (swap_loaded-ok doc store made (rw (e, start) at h))
]

-- A start that fails leaves the store.
pub start-err :
    (decode : Bytes → Option FileDoc) (visit : Dict Bytes BucketDef → Dict Bytes BucketDef)
    (text : Option Bytes) (store : Store) (e : FileError)
    → (start decode visit text store).1 ≡ err e
    → (start decode visit text store).0 ≡ store
unfolding start
start-err decode visit none store e h = refl
start-err decode visit (some text) store e h = elim (Option-cases (decode text)) [
  | inl f ↦ rw (f, start) refl
  | inr (doc, f) ↦
      let made = load_buckets (visit doc.buckets) [] in
      rw (f, start) (swap_loaded-kept doc store made e (rw (f, start) at h))
]
