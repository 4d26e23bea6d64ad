-- ===== src/Config/Valid.antt =====
-- What settings `Load` accepts.
use pg_shard_router.Base.{
  ℕ, zero, suc, true, false, List, [], ◌∷◌, ◌≡◌, ◌≢◌, ◌⊎◌, inl, inr, refl, ap, subst, arith, All,
  ◌==◌, nat_beq, Bool-cases,
}
use pg_shard_router.Base.Bytes.{Bytes, bytes_eq, bytes_beq_iff}
use pg_shard_router.Base.Result.{ok}
use pg_shard_router.Base.Spaces.{
  drop_spaces, reverse_onto, trim_space, space_length, space_length_back,
}
use pg_shard_router.Config.{
  Config, Variables, split_comma, keep_parts, split_csv, registry_mode_etcd, registry_mode_file,
  load, read_config, check_config, is_empty,
}

-- A text without commas.
abbrev pub IsPart : Bytes → Type 0
IsPart = All (λ c. nat_beq c b',' ≡ false)

abbrev pub IsEndpoint : Bytes → Type 0
IsEndpoint e = (e ≢ []) × IsPart e

drop_step :
    (P : ℕ → Type 0) (width : Bytes → ℕ) (c : ℕ) (s : Bytes) (w : ℕ)
    → All P (c ∷ s)
    → ((k : ℕ) → All P (drop_spaces width k s))
    → width (c ∷ s) ≡ w
    → All P (drop_spaces width zero (c ∷ s))
unfolding drop_spaces
drop_step P width c s zero h rest e = rw (e, drop_spaces) h
drop_step P width c s (suc k) h rest e = rw (e, drop_spaces) (rest k)

drop_spaces-All :
    (P : ℕ → Type 0) (width : Bytes → ℕ) (k : ℕ) (s : Bytes)
    → All P s
    → All P (drop_spaces width k s)
unfolding drop_spaces
drop_spaces-All P width k [] h = tt
drop_spaces-All P width (suc k) (c ∷ s) h = drop_spaces-All P width k s h.1
drop_spaces-All P width zero (c ∷ s) h =
    drop_step P width c s (width (c ∷ s)) h (λ k. drop_spaces-All P width k s h.1) refl

reverse_onto-All :
    (P : ℕ → Type 0) (acc s : Bytes) → All P acc → All P s → All P (reverse_onto acc s)
reverse_onto-All P acc [] a h = a
reverse_onto-All P acc (c ∷ s) a h = reverse_onto-All P (c ∷ acc) s (h.0, a) h.1

trim_space-All : (P : ℕ → Type 0) (s : Bytes) → All P s → All P (trim_space s)
unfolding trim_space
trim_space-All P s h = reverse_onto-All P [] _ tt (
    drop_spaces-All P space_length_back 0 _
      (reverse_onto-All P [] _ tt (drop_spaces-All P space_length 0 s h)))

split_comma-IsPart : (s : Bytes) → IsPart (split_comma s).0 × All IsPart (split_comma s).1
unfolding split_comma
split_comma-IsPart [] = (tt, tt)
split_comma-IsPart (c ∷ s) =
    let ih = split_comma-IsPart s in
    elim (Bool-cases (nat_beq c b',')) [ inl e ↦ rw e (tt, ih) | inr e ↦ rw e ((e, ih.0), ih.1) ]

keep_parts-IsEndpoint : (ps : List Bytes) → All IsPart ps → All IsEndpoint (keep_parts ps)
unfolding keep_parts
keep_parts-IsEndpoint [] h = tt
keep_parts-IsEndpoint (p ∷ ps) h =
    let ih = keep_parts-IsEndpoint ps h.1 in
    elim (Bool-cases (trim_space p == [])) [
      | inl e ↦ rw e ih
      | inr e ↦
          rw e ((ground (arith, e, bytes_beq_iff (trim_space p) []), trim_space-All _ p h.0), ih)
    ]

split_csv-IsEndpoint : (v : Bytes) → All IsEndpoint (split_csv v)
unfolding split_csv
split_csv-IsEndpoint v = elim (Bool-cases (v == [])) [
  | inl e ↦ rw (e, split_csv) tt
  | inr e ↦
      rw (e, split_csv)
        (keep_parts-IsEndpoint ((split_comma v).0 ∷ (split_comma v).1) (split_comma-IsPart v))
]

-- Settings that the service can start with.
pub record IsValid (c : Config) : Type 0 where
  pub mode : (c.registry_mode ≡ registry_mode_etcd) ⊎ (c.registry_mode ≡ registry_mode_file)
  pub reachable : c.registry_mode ≡ registry_mode_etcd → c.etcd_endpoints ≢ []
  pub endpoints : All IsEndpoint c.etcd_endpoints

check_config-IsValid :
    (c d : Config) → All IsEndpoint c.etcd_endpoints → check_config c ≡ ok d → IsValid d
unfolding check_config is_empty
check_config-IsValid c d e h = elim (Bool-cases (c.registry_mode == registry_mode_etcd)) [
  | inl etcd ↦
      let same : c ≡ d = ground (arith, h, etcd) in
      let there : is_empty c.etcd_endpoints ≡ false = ground (arith, h, etcd) in
      subst IsValid same (record {
        mode = inl ((bytes_beq_iff c.registry_mode registry_mode_etcd).0 etcd);
        reachable = λ m none. cc (ap is_empty none, there);
        endpoints = e;
      })
  | inr other ↦
      let same : c ≡ d = ground (arith, h, other) in
      let file : (c.registry_mode == registry_mode_file) ≡ true = ground (arith, h, other) in
      subst IsValid same (record {
        mode = inr ((bytes_beq_iff c.registry_mode registry_mode_file).0 file);
        reachable =
            λ m. absurd (cc (other, (bytes_beq_iff c.registry_mode registry_mode_etcd).1 m));
        endpoints = e;
      })
]

-- Settings that `Load` accepts name one of the two registries, with one endpoint at least for etcd, and no
-- endpoint is empty or has a comma.
pub load-IsValid : (vars : Variables) (c : Config) → load vars ≡ ok c → IsValid c
unfolding load read_config
load-IsValid vars c h = check_config-IsValid (read_config vars) c (split_csv-IsEndpoint _) h
