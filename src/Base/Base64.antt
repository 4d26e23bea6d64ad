-- ===== src/Base/Base64.antt =====
-- `base64.StdEncoding` of the Go standard library. Decoding passes over line breaks, and what was
-- decoded before an error is returned with it.
use Prim.Native.Nat.{ℕ, ◌+◌, ◌-◌, ◌*◌, ◌/◌, ◌%◌, ◌<◌}
use mathlib.Core.Path.{◌≡◌, refl}
use mathlib.Core.Bool.{Bool, true, false, ◌&&◌, ◌||◌}
use mathlib.Core.List.{[], ◌∷◌}
use native.Mathlib.Omega.{arith}
use pg_shard_router.Base.Lists.{All}
use pg_shard_router.Base.Tests.{ltb, leb, nat_beq, if◌then◌else◌}
use pg_shard_router.Base.Bytes.{Bytes}

-- The digit for a group of six bits.
encode_char : ℕ → ℕ
encode_char n =
    if ltb n 26
    then b'A' + n
    else if ltb n 52
    then b'a' + (n - 26)
    else if ltb n 62
    then b'0' + (n - 52)
    else if nat_beq n 62
    then b'+'
    else b'/'

-- `EncodeToString`
unfoldable pub encode : Bytes → Bytes
unfolding encode_char
encode [] = []
encode (a ∷ []) = encode_char (a / 4) ∷ encode_char (a % 4 * 16) ∷ b'=' ∷ b'=' ∷ []
encode (a ∷ b ∷ []) =
    encode_char (a / 4) ∷ encode_char (a % 4 * 16 + b / 16) ∷ encode_char (b % 16 * 4) ∷ b'=' ∷ []
encode (a ∷ b ∷ c ∷ s) =
    encode_char (a / 4)
    ∷ encode_char (a % 4 * 16 + b / 16)
    ∷ encode_char (b % 16 * 4 + c / 64)
    ∷ encode_char (c % 64)
    ∷ encode s

pub data Symbol : Type 0 where
  digit : ℕ → Symbol
  pad other : Symbol

symbol : ℕ → Symbol
symbol c =
    if leb b'A' c && leb c b'Z'
    then digit (c - b'A')
    else if leb b'a' c && leb c b'z'
    then digit (c - b'a' + 26)
    else if leb b'0' c && leb c b'9'
    then digit (c - b'0' + 52)
    else if nat_beq c b'+'
    then digit 62
    else if nat_beq c b'/'
    then digit 63
    else if nat_beq c b'='
    then pad
    else other

is_empty : Bytes → Bool
is_empty [] = true
is_empty (c ∷ s) = false

-- Four symbols, the text after them, and what that decodes to.
quantum : Symbol → Symbol → Symbol → Symbol → Bytes → Bytes × Bool → Bytes × Bool
quantum (digit a) (digit b) (digit c) (digit d) rest (out, done) =
    ((a * 4 + b / 16) ∷ (b % 16 * 16 + c / 4) ∷ (c % 4 * 64 + d) ∷ out, done)
quantum (digit a) (digit b) (digit c) pad rest after =
    ((a * 4 + b / 16) ∷ (b % 16 * 16 + c / 4) ∷ [], is_empty rest)
quantum (digit a) (digit b) pad pad rest after = ((a * 4 + b / 16) ∷ [], is_empty rest)
quantum _ _ _ _ rest after = ([], false)

decode_symbols : Bytes → Bytes × Bool
unfolding symbol quantum is_empty
decode_symbols [] = ([], true)
decode_symbols (a ∷ b ∷ c ∷ d ∷ s) =
    quantum (symbol a) (symbol b) (symbol c) (symbol d) s (decode_symbols s)
decode_symbols _ = ([], false)

strip_breaks : Bytes → Bytes
strip_breaks [] = []
strip_breaks (c ∷ s) =
    let rest = strip_breaks s in if nat_beq c b'\n' || nat_beq c b'\r' then rest else c ∷ rest

-- `DecodeString`: the bytes, and whether there was no error.
unfoldable pub decode : Bytes → Bytes × Bool
unfolding decode_symbols strip_breaks
decode s = decode_symbols (strip_breaks s)

symbol-encode_char : (n : ℕ) → n < 64 → symbol (encode_char n) ≡ digit n
unfolding symbol encode_char
symbol-encode_char n h = ground arith

encode_char_no_break :
    (n : ℕ) → n < 64 → (nat_beq (encode_char n) b'\n' || nat_beq (encode_char n) b'\r') ≡ false
unfolding encode_char
encode_char_no_break n h = ground arith

strip_breaks-encode : (s : Bytes) → All (λ b. b < 256) s → strip_breaks (encode s) ≡ encode s
unfolding encode strip_breaks
strip_breaks-encode [] h = refl
strip_breaks-encode (a ∷ []) h =
    rw (encode_char_no_break (a / 4) (omega arith), encode_char_no_break (a % 4 * 16) (omega arith))
strip_breaks-encode (a ∷ b ∷ []) h = rw (
  encode_char_no_break (a / 4) (omega arith),
  encode_char_no_break (a % 4 * 16 + b / 16) (omega arith),
  encode_char_no_break (b % 16 * 4) (omega arith),
)
strip_breaks-encode (a ∷ b ∷ c ∷ s) h = rw (
  encode_char_no_break (a / 4) (omega arith),
  encode_char_no_break (a % 4 * 16 + b / 16) (omega arith),
  encode_char_no_break (b % 16 * 4 + c / 64) (omega arith),
  encode_char_no_break (c % 64) (omega arith),
  strip_breaks-encode s h.1.1.1,
)

decode_symbols-encode : (s : Bytes) → All (λ b. b < 256) s → decode_symbols (encode s) ≡ (s, true)
unfolding decode_symbols encode quantum is_empty
decode_symbols-encode [] h = refl
decode_symbols-encode (a ∷ []) h =
    rw (symbol-encode_char (a / 4) (omega arith), symbol-encode_char (a % 4 * 16) (omega arith))
      (ground arith)
decode_symbols-encode (a ∷ b ∷ []) h =
    rw
      (
        symbol-encode_char (a / 4) (omega arith),
        symbol-encode_char (a % 4 * 16 + b / 16) (omega arith),
        symbol-encode_char (b % 16 * 4) (omega arith),
      )
      (ground arith)
decode_symbols-encode (a ∷ b ∷ c ∷ s) h =
    rw
      (
        symbol-encode_char (a / 4) (omega arith),
        symbol-encode_char (a % 4 * 16 + b / 16) (omega arith),
        symbol-encode_char (b % 16 * 4 + c / 64) (omega arith),
        symbol-encode_char (c % 64) (omega arith),
        decode_symbols-encode s h.1.1.1,
      )
      (ground arith)

-- Every sequence of bytes is read back from its encoding.
pub decode-encode : (s : Bytes) → All (λ b. b < 256) s → decode (encode s) ≡ (s, true)
unfolding decode
decode-encode s h = rw (strip_breaks-encode s h) (decode_symbols-encode s h)
