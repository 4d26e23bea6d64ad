-- ===== src/Base/Spaces.antt =====
-- White space in texts of UTF-8, as `unicode.IsSpace` and `fmt` know it, and `strings.TrimSpace`.
use Prim.Native.Nat.{ℕ, zero, suc}
use mathlib.Core.Bool.{Bool, ◌&&◌, ◌||◌}
use mathlib.Core.List.{[], ◌∷◌}
use pg_shard_router.Base.Tests.{leb, nat_beq, if◌then◌else◌}
use pg_shard_router.Base.Bytes.{Bytes}

-- A space of one byte, of two bytes, and of three.
pub is_space : ℕ → Bool
is_space a = leb b'\t' a && leb a b'\r' || nat_beq a b' '

pub is_space2 : ℕ → ℕ → Bool
is_space2 a b = nat_beq a 0xc2 && (nat_beq b 0x85 || nat_beq b 0xa0)

pub is_space3 : ℕ → ℕ → ℕ → Bool
is_space3 a b c =
    nat_beq a 0xe1 && nat_beq b 0x9a && nat_beq c 0x80
    || nat_beq a 0xe2
      && nat_beq b 0x80
      && (leb 0x80 c && leb c 0x8a || nat_beq c 0xa8 || nat_beq c 0xa9 || nat_beq c 0xaf)
    || nat_beq a 0xe2 && nat_beq b 0x81 && nat_beq c 0x9f
    || nat_beq a 0xe3 && nat_beq b 0x80 && nat_beq c 0x80

-- The bytes of the space that a text begins with, if it does.
unfoldable pub space_length : Bytes → ℕ
unfolding is_space is_space2 is_space3
space_length [] = 0
space_length (a ∷ []) = if is_space a then 1 else 0
space_length (a ∷ b ∷ []) = if is_space a then 1 else if is_space2 a b then 2 else 0
space_length (a ∷ b ∷ c ∷ s) =
    if is_space a then 1 else if is_space2 a b then 2 else if is_space3 a b c then 3 else 0

-- The same for a text read backwards.
unfoldable pub space_length_back : Bytes → ℕ
unfolding is_space is_space2 is_space3
space_length_back [] = 0
space_length_back (a ∷ []) = if is_space a then 1 else 0
space_length_back (b ∷ a ∷ []) = if is_space b then 1 else if is_space2 a b then 2 else 0
space_length_back (c ∷ b ∷ a ∷ s) =
    if is_space c then 1 else if is_space2 b c then 2 else if is_space3 a b c then 3 else 0

-- Without the spaces in front; the number is of bytes of the last space that are still to go.
unfoldable pub drop_spaces : (Bytes → ℕ) → ℕ → Bytes → Bytes
drop_spaces width k [] = []
drop_spaces width (suc k) (c ∷ s) = drop_spaces width k s
drop_spaces width zero (c ∷ s) = elim (width (c ∷ s)) [
  | zero ↦ c ∷ s
  | suc k ↦ drop_spaces width k s
]

abbrev pub reverse_onto : Bytes → Bytes → Bytes
reverse_onto acc [] = acc
reverse_onto acc (c ∷ s) = reverse_onto (c ∷ acc) s

-- `strings.TrimSpace`
unfoldable pub trim_space : Bytes → Bytes
unfolding drop_spaces space_length space_length_back
trim_space s =
    reverse_onto []
      (drop_spaces space_length_back 0 (reverse_onto [] (drop_spaces space_length 0 s)))
