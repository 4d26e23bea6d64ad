-- ===== src/Hashing/Sha256/Digest.antt =====
-- The shape of a SHA-256 digest.
use pg_shard_router.Base.{ℕ, ◌*◌, ◌<◌, ◌≡◌, refl, List, [], ◌∷◌, All, length, arith}
use pg_shard_router.Base.Bytes.{Bytes}
use pg_shard_router.Hashing.Sha256.{sum256, unwords, hash_words, digest}

abbrev pub IsByte : ℕ → Type 0
IsByte b = b < 256

unwords_shape : (ws : List ℕ) → (length (unwords ws) ≡ 4 * length ws) × All IsByte (unwords ws)
unfolding unwords
unwords_shape [] = (refl, tt)
unwords_shape (w ∷ ws) =
    let rest = unwords_shape ws in
    (omega (arith, rest.0), (omega arith, (omega arith, (omega arith, (omega arith, rest.1)))))

-- A digest has 32 bytes, each below 256, so that the slice of its first eight exists.
pub sum256_shape : (msg : Bytes) → (length (sum256 msg) ≡ 32) × All IsByte (sum256 msg)
unfolding sum256
sum256_shape msg = unwords_shape (hash_words (digest msg))
