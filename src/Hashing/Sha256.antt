-- ===== src/Hashing/Sha256.antt =====
-- crypto/sha256 (FIPS 180-4), as far as internal/hashing/hash.go uses it.
pub mod Digest
use Prim.Native.Nat.{bit_and, bit_xor}
use pg_shard_router.Base.{
  ℕ, zero, suc, ◌+◌, ◌-◌, ◌*◌, ◌/◌, ◌%◌, ◌^◌, List, [], ◌∷◌, ◌++◌, length, take, drop,
}
use pg_shard_router.Base.Bytes.{Bytes}

abbrev word : ℕ
word = 2 ^ 32

-- The round constants.
abbrev round_keys : List ℕ
round_keys =
    0x428a2f98 ∷ 0x71374491 ∷ 0xb5c0fbcf ∷ 0xe9b5dba5 ∷ 0x3956c25b ∷ 0x59f111f1 ∷ 0x923f82a4
    ∷ 0xab1c5ed5 ∷ 0xd807aa98 ∷ 0x12835b01 ∷ 0x243185be ∷ 0x550c7dc3 ∷ 0x72be5d74 ∷ 0x80deb1fe
    ∷ 0x9bdc06a7 ∷ 0xc19bf174 ∷ 0xe49b69c1 ∷ 0xefbe4786 ∷ 0x0fc19dc6 ∷ 0x240ca1cc ∷ 0x2de92c6f
    ∷ 0x4a7484aa ∷ 0x5cb0a9dc ∷ 0x76f988da ∷ 0x983e5152 ∷ 0xa831c66d ∷ 0xb00327c8 ∷ 0xbf597fc7
    ∷ 0xc6e00bf3 ∷ 0xd5a79147 ∷ 0x06ca6351 ∷ 0x14292967 ∷ 0x27b70a85 ∷ 0x2e1b2138 ∷ 0x4d2c6dfc
    ∷ 0x53380d13 ∷ 0x650a7354 ∷ 0x766a0abb ∷ 0x81c2c92e ∷ 0x92722c85 ∷ 0xa2bfe8a1 ∷ 0xa81a664b
    ∷ 0xc24b8b70 ∷ 0xc76c51a3 ∷ 0xd192e819 ∷ 0xd6990624 ∷ 0xf40e3585 ∷ 0x106aa070 ∷ 0x19a4c116
    ∷ 0x1e376c08 ∷ 0x2748774c ∷ 0x34b0bcb5 ∷ 0x391c0cb3 ∷ 0x4ed8aa4a ∷ 0x5b9cca4f ∷ 0x682e6ff3
    ∷ 0x748f82ee ∷ 0x78a5636f ∷ 0x84c87814 ∷ 0x8cc70208 ∷ 0x90befffa ∷ 0xa4506ceb ∷ 0xbef9a3f7
    ∷ 0xc67178f2 ∷ []

record Hash : Type 0 where
  a : ℕ
  b : ℕ
  c : ℕ
  d : ℕ
  e : ℕ
  f : ℕ
  g : ℕ
  h : ℕ

abbrev initial : Hash
initial = record {
  a = 0x6a09e667;
  b = 0xbb67ae85;
  c = 0x3c6ef372;
  d = 0xa54ff53a;
  e = 0x510e527f;
  f = 0x9b05688c;
  g = 0x1f83d9ab;
  h = 0x5be0cd19;
}

-- Rotation of a 32-bit word to the right.
rotr : ℕ → ℕ → ℕ
rotr n x = x / 2 ^ n + (x % 2 ^ n) * 2 ^ (32 - n)

xor3 : ℕ → ℕ → ℕ → ℕ
xor3 x y z = bit_xor x (bit_xor y z)

-- The message schedule: `ws` holds the last 16 words, the newest first; `n` words are left to make.
schedule : ℕ → List ℕ → List ℕ
unfolding rotr xor3
schedule zero ws = []
schedule (suc n)
      (w1 ∷ w2 ∷ w3 ∷ w4 ∷ w5 ∷ w6 ∷ w7 ∷ w8 ∷ w9 ∷ w10 ∷ w11 ∷ w12 ∷ w13 ∷ w14 ∷ w15 ∷ w16 ∷ _) =
    let s0 = xor3 (rotr 7 w15) (rotr 18 w15) (w15 / 2 ^ 3) in
    let s1 = xor3 (rotr 17 w2) (rotr 19 w2) (w2 / 2 ^ 10) in
    let w = (w16 + s0 + w7 + s1) % word in
    w
    ∷ schedule n
        (w ∷ w1 ∷ w2 ∷ w3 ∷ w4 ∷ w5 ∷ w6 ∷ w7 ∷ w8 ∷ w9 ∷ w10 ∷ w11 ∷ w12 ∷ w13 ∷ w14 ∷ w15 ∷ [])
schedule (suc n) _ = []

round : Hash → ℕ → ℕ → Hash
unfolding rotr xor3
round s k w =
    let s1 = xor3 (rotr 6 s.e) (rotr 11 s.e) (rotr 25 s.e) in
    let ch = bit_xor (bit_and s.e s.f) (bit_and (word - 1 - s.e) s.g) in
    let t1 = s.h + s1 + ch + k + w in
    let s0 = xor3 (rotr 2 s.a) (rotr 13 s.a) (rotr 22 s.a) in
    let maj = xor3 (bit_and s.a s.b) (bit_and s.a s.c) (bit_and s.b s.c) in
    record {
      a = (t1 + s0 + maj) % word;
      b = s.a;
      c = s.b;
      d = s.c;
      e = (s.d + t1) % word;
      f = s.e;
      g = s.f;
      h = s.g;
    }

rounds : Hash → List ℕ → List ℕ → Hash
unfolding round
rounds s (k ∷ ks) (w ∷ ws) = rounds (round s k w) ks ws
rounds s _ _ = s

add_hash : Hash → Hash → Hash
add_hash x y = record {
  a = (x.a + y.a) % word;
  b = (x.b + y.b) % word;
  c = (x.c + y.c) % word;
  d = (x.d + y.d) % word;
  e = (x.e + y.e) % word;
  f = (x.f + y.f) % word;
  g = (x.g + y.g) % word;
  h = (x.h + y.h) % word;
}

-- The first `n` big-endian words of a message.
words : ℕ → Bytes → List ℕ
words (suc n) (p ∷ q ∷ r ∷ s ∷ bs) = (((p * 256 + q) * 256 + r) * 256 + s) ∷ words n bs
words _ _ = []

reverse_onto : List ℕ → List ℕ → List ℕ
reverse_onto acc [] = acc
reverse_onto acc (x ∷ xs) = reverse_onto (x ∷ acc) xs

compress : Hash → Bytes → Hash
unfolding rounds schedule words add_hash reverse_onto
compress s block =
    let ws = words 16 block in
    add_hash s (rounds s round_keys (ws ++ schedule 48 (reverse_onto [] ws)))

blocks : ℕ → Hash → Bytes → Hash
unfolding compress
blocks zero s msg = s
blocks (suc n) s msg = blocks n (compress s (take 64 msg)) (drop 64 msg)

zeros : ℕ → Bytes → Bytes
zeros zero tail = tail
zeros (suc n) tail = 0 ∷ zeros n tail

-- The `n` low bytes of a number, big-endian, in front of `tail`.
big_endian : ℕ → ℕ → Bytes → Bytes
big_endian zero x tail = tail
big_endian (suc n) x tail = big_endian n (x / 256) ((x % 256) ∷ tail)

-- The message, a byte 0x80, zeros up to 56 modulo 64, and the length in bits.
pad : Bytes → Bytes
unfolding zeros big_endian
pad msg = let n = length msg in msg ++ 0x80 ∷ zeros ((119 - n % 64) % 64) (big_endian 8 (n * 8) [])

-- Words as bytes, each big-endian.
unwords : List ℕ → Bytes
unfolding big_endian
unwords [] = []
unwords (w ∷ ws) = big_endian 4 w (unwords ws)

hash_words : Hash → List ℕ
hash_words s = s.a ∷ s.b ∷ s.c ∷ s.d ∷ s.e ∷ s.f ∷ s.g ∷ s.h ∷ []

digest : Bytes → Hash
unfolding blocks pad
digest msg = let padded = pad msg in blocks (length padded / 64) initial padded

unfoldable pub sum256 : Bytes → Bytes
unfolding digest hash_words unwords
sum256 msg = unwords (hash_words (digest msg))
