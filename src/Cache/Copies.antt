-- ===== src/Cache/Copies.antt =====
-- A clone has the entries of its original.
use pg_shard_router.Base.{[], ◌∷◌, ◌≡◌, refl, arith, Eq}
use pg_shard_router.Base.Bytes.{Bytes, bytes_eq}
use pg_shard_router.Base.Dict.{Dict, get, get-put}
use pg_shard_router.Base.Int.{ℤ, int_eq}
use pg_shard_router.Cache.{Mapping, copy_into, clone}

get-copy_into {ℓ} :
    {K V : Type ℓ} ⦃e : Eq K⦄ (k : K) (m : Dict K V) → get k (copy_into [] m) ≡ get k m
unfolding copy_into get
get-copy_into k [] = refl
get-copy_into ⦃e⦄ k ((j, v) ∷ m) =
    ground (arith, get-put j k v (copy_into [] m), get-copy_into k m, e.beq_iff j k)

-- Every lookup in a clone is the lookup in the original, and so is the revision.
pub clone-entries :
    (m : Mapping)
    → ((j : Bytes) → get j (clone m).shards ≡ get j m.shards)
      × ((i : ℤ) → get i (clone m).buckets ≡ get i m.buckets)
      × ((clone m).revision ≡ m.revision)
unfolding clone
clone-entries m = (λ j. get-copy_into j m.shards, λ i. get-copy_into i m.buckets, refl)
