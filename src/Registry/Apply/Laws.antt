-- ===== src/Registry/Apply/Laws.antt =====
-- What one key and value do to the map, seen through its lookups.
use pg_shard_router.Base.{
  Bool, true, false, Option, none, some, ◌++◌, ◌≡◌, inl, inr, refl, ◌∙◌, ap, arith, ◌==◌,
  if◌then◌else◌, Option-cases,
}
use mathlib.Core.Option
use pg_shard_router.Base.Bytes.{Bytes, bytes_eq, bytes_beq_iff}
use pg_shard_router.Base.Dict.{get, get-put, get-delete}
use pg_shard_router.Base.Int.{ℤ, int_eq, int_beq_iff}
use pg_shard_router.Cache.{Mapping}
use pg_shard_router.Model.{ShardDef, BucketDef}
use pg_shard_router.Registry.Keys.{shard_id_from_key, bucket_id_from_key, shards_prefix}
use pg_shard_router.Registry.Keys.Laws.{
  shard_id_from_key-eq-some, key-eq-shard, bucket_id_from_key-shard,
}
use pg_shard_router.Registry.Apply.{
  Json, ApplyError, fill_id, set_id, apply_kv, apply_shard, apply_bucket,
}

-- The first value, or the second where there is none.
abbrev pub or_keep {ℓ} : {A : Type ℓ} → Option A → Option A → Option A
or_keep none o = o
or_keep (some a) o = some a

-- The definition that a value gives under an identifier.
abbrev pub shard_of : Json → Bytes → Bytes → Option ShardDef
shard_of json id value = Option.map (fill_id id) (json.shard value)

abbrev pub bucket_of : Json → ℤ → Bytes → Option BucketDef
bucket_of json i value = Option.map (set_id i) (json.bucket value)

-- What a key and value do to the entry that they name: a deletion removes it, a value that decodes
-- replaces it, and one that does not is passed over.
abbrev pub entry_after {ℓ} : {A : Type ℓ} → Bool → Option A → Option A → Option A
entry_after true decoded old = none
entry_after false decoded old = or_keep decoded old

abbrev pub bucket_after : Json → Option ℤ → ℤ → Bytes → Bool → Option BucketDef → Option BucketDef
bucket_after json none i value deleted old = old
bucket_after json (some j) i value deleted old =
    if j == i then entry_after deleted (bucket_of json i value) old else old

module _ (json : Json) (m : Mapping) (key value : Bytes) (deleted : Bool) where
  apply_bucket-buckets :
      (o : Option ℤ) (i : ℤ)
      → get i (apply_bucket json m o value deleted).0.buckets
        ≡ bucket_after json o i value deleted (get i m.buckets)
  unfolding apply_bucket
  apply_bucket-buckets none i = refl
  apply_bucket-buckets (some j) i = elim (Option-cases (json.bucket value)) [
    | inl bad ↦ ground (arith, bad, get-delete j i m.buckets, int_beq_iff j i)
    | inr (def, good) ↦ ground (
      arith,
      good,
      get-put j i (set_id j def) m.buckets,
      get-delete j i m.buckets,
      int_beq_iff j i,
    )
  ]

  apply_bucket-frame :
      (o : Option ℤ)
      → ((apply_bucket json m o value deleted).0.shards ≡ m.shards)
        × ((apply_bucket json m o value deleted).0.revision ≡ m.revision)
  unfolding apply_bucket
  apply_bucket-frame none = (refl, refl)
  apply_bucket-frame (some j) = ground arith

  -- The entry of shard `j` after a key that names the shard `o`, if it names one.
  shard_entry : Option Bytes → Bytes → Option ShardDef
  shard_entry none j = get j m.shards
  shard_entry (some id) j =
      if id == j
      then entry_after deleted (shard_of json j value) (get j m.shards)
      else get j m.shards

  apply_shard-shards :
      (o : Option Bytes) (j : Bytes)
      → get j (apply_shard json m o key value deleted).0.shards ≡ shard_entry o j
  unfolding apply_shard shard_entry
  apply_shard-shards none j = ap (get j) (apply_bucket-frame (bucket_id_from_key key)).0
  apply_shard-shards (some id) j = elim (Option-cases (json.shard value)) [
    | inl bad ↦ ground (arith, bad, get-delete id j m.shards, bytes_beq_iff id j)
    | inr (def, good) ↦ ground (
      arith,
      good,
      get-put id j (fill_id id def) m.shards,
      get-delete id j m.shards,
      bytes_beq_iff id j,
    )
  ]

  apply_shard-buckets :
      (o : Option Bytes) (i : ℤ)
      → shard_id_from_key key ≡ o
      → get i (apply_shard json m o key value deleted).0.buckets
        ≡ bucket_after json (bucket_id_from_key key) i value deleted (get i m.buckets)
  unfolding apply_shard
  apply_shard-buckets none i e = apply_bucket-buckets (bucket_id_from_key key) i
  apply_shard-buckets (some id) i e =
      let no_bucket : bucket_id_from_key key ≡ none =
        ap bucket_id_from_key (shard_id_from_key-eq-some key e) ∙ bucket_id_from_key-shard id in
      rw no_bucket (ground arith)

  by_key :
      (o : Option Bytes) (j : Bytes)
      → shard_id_from_key key ≡ o
      → shard_entry o j ≡ (
          if key == shards_prefix ++ j
          then entry_after deleted (shard_of json j value) (get j m.shards)
          else get j m.shards)
  unfolding shard_entry
  by_key none j e = rw (key-eq-shard, e)
  by_key (some id) j e = rw (key-eq-shard, e)

  frame : (o : Option Bytes) → (apply_shard json m o key value deleted).0.revision ≡ m.revision
  unfolding apply_shard
  frame none = (apply_bucket-frame (bucket_id_from_key key)).1
  frame (some id) = ground arith

  -- A key and value change one entry at most. The entry of a shard changes exactly where the key is
  -- that shard's: it is removed by a deletion, replaced by a value that decodes, and kept where the
  -- value does not; so does the entry of a bucket where the key's number is the bucket's. The
  -- revision stays.
  pub apply_kv-entries :
      ((j : Bytes)
        → get j (apply_kv json m key value deleted).0.shards ≡ (
            if key == shards_prefix ++ j
            then entry_after deleted (shard_of json j value) (get j m.shards)
            else get j m.shards))
      × ((i : ℤ)
          → get i (apply_kv json m key value deleted).0.buckets
            ≡ bucket_after json (bucket_id_from_key key) i value deleted (get i m.buckets))
      × ((apply_kv json m key value deleted).0.revision ≡ m.revision)
  unfolding apply_kv
  apply_kv-entries = (
    λ j. apply_shard-shards (shard_id_from_key key) j ∙ by_key (shard_id_from_key key) j refl,
    λ i. apply_shard-buckets (shard_id_from_key key) i refl,
    frame (shard_id_from_key key),
  )

  -- A deletion never fails, and where a value is refused the map stays as it was.
  apply_kv_refused :
      (deleted ≡ true → (apply_kv json m key value deleted).1 ≡ none)
      × ((e : ApplyError)
          → (apply_kv json m key value deleted).1 ≡ some e
          → (apply_kv json m key value deleted).0 ≡ m)
  unfolding apply_kv
  apply_kv_refused = (λ d. ground arith, λ e h. ground arith)
