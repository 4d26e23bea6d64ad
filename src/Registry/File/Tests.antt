-- ===== src/Registry/File/Tests.antt =====
-- The file registry at a concrete file.
use mathlib.Core.HLevel.{⊥_prop}
use mathlib.Core.Logic.{∥∥₁_elim}
use mathlib.Core.List.{Permᴰ, Nodup, Nodup-cons, Nodup-nil, mem-cons, not-mem-nil}
use pg_shard_router.Base.{none, some, [], ◌∷◌, ◌≡◌, refl, map, inl, inr}
use pg_shard_router.Base.Bytes.{Bytes, codes}
use pg_shard_router.Base.Dict.{Dict}
use pg_shard_router.Base.Int.{pos}
use pg_shard_router.Base.Spaces.{space_length}
use pg_shard_router.Base.Sscanf.{sscanf_int}
use pg_shard_router.Base.Strconv.{atoi}
use pg_shard_router.Cache.{new_store}
use pg_shard_router.Model.{BucketDef}
use pg_shard_router.Registry.File.{FileDoc, parse_bucket_id, start}
use pg_shard_router.Registry.File.Orders.{named}
use pg_shard_router.Registry.File.Visits.{EndAlike, start-EndAlike}

-- A key may have text after its number, and spaces and zeros before it, and may have no number.
keys_read :
    (parse_bucket_id (codes "5x") ≡ some (pos 5))
    × (parse_bucket_id (codes "  05") ≡ some (pos 5))
    × (parse_bucket_id (codes "x5") ≡ none)
unfolding parse_bucket_id sscanf_int space_length atoi
keys_read = (refl, refl, refl)

abbrev bucket : BucketDef
bucket = record {
  bucket_id = pos 0;
  shard_id = codes "shard-01";
  dest_shard_id = [];
  state = [];
  mapping_version = pos 0;
}

abbrev doc : FileDoc
doc = record { shards = []; buckets = (codes "5", bucket) ∷ (codes "7", bucket) ∷ [] }

abbrev in_order : Dict Bytes BucketDef → Dict Bytes BucketDef
in_order d = d

abbrev turned : Dict Bytes BucketDef → Dict Bytes BucketDef
turned (x ∷ y ∷ d) = y ∷ x ∷ d
turned d = d

Permᴰ-same : (d : Dict Bytes BucketDef) → Permᴰ d d
Permᴰ-same [] = Permᴰ.nil
Permᴰ-same (x ∷ d) = Permᴰ.cons refl (Permᴰ-same d)

Permᴰ-turned : (d : Dict Bytes BucketDef) → Permᴰ d (turned d)
Permᴰ-turned [] = Permᴰ-same []
Permᴰ-turned (x ∷ []) = Permᴰ-same (x ∷ [])
Permᴰ-turned (x ∷ y ∷ d) = Permᴰ.swap refl refl

named_apart : Nodup (map named doc.buckets)
unfolding parse_bucket_id sscanf_int space_length atoi
named_apart = Nodup-cons.1 (
  λ m. ∥∥₁_elim (mem-cons.0 m) ⊥_prop (λ o. elim o [ inl e ↦ cc | inr n ↦ not-mem-nil n ]),
  Nodup-cons.1 (not-mem-nil, Nodup-nil),
)

start-EndAlike_example :
    EndAlike
      (start (λ text. some doc) in_order (some (codes "{}")) new_store)
      (start (λ text. some doc) turned (some (codes "{}")) new_store)
start-EndAlike_example =
    (start-EndAlike (λ text. some doc) in_order turned (codes "{}") doc new_store refl
      (Permᴰ-turned doc.buckets) named_apart).0
