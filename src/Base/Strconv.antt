-- ===== src/Base/Strconv.antt =====
-- `strconv.Atoi` of the Go standard library.
use Prim.Native.Nat.{ℕ, zero, suc, ◌+◌, ◌-◌, ◌*◌, ◌/◌, ◌%◌, ◌≤◌, ◌<◌}
use mathlib.Core.Path.{◌≡◌, refl, ap}
use mathlib.Core.Logic.{◌≢◌}
use pg_shard_router.Base.Lists.{All, length}
use mathlib.Core.Bool.{true, ◌&&◌}
use mathlib.Core.List.{[], ◌∷◌}
use mathlib.Core.Option.{Option, none, some}
use native.Mathlib.Omega.{arith}
use pg_shard_router.Base.Tests.{leb, nat_beq, if◌then◌else◌}
use pg_shard_router.Base.Bytes.{Bytes, digits_onto, decimal, IsDigit, decimal-IsDigit}
use pg_shard_router.Base.Int.{ℤ, pos, negsuc, max_int}

-- The number that the decimal digits stand for, after those read so far; `none` at another byte.
unfoldable pub read_onto : ℕ → Bytes → Option ℕ
read_onto acc [] = some acc
read_onto acc (c ∷ s) =
    let rest = read_onto (acc * 10 + (c - b'0')) s in
    if leb b'0' c && leb c b'9' then rest else none

-- The digits must be there.
unfoldable pub read_digits : Bytes → Option ℕ
unfolding read_onto
read_digits [] = none
read_digits (c ∷ s) = read_onto 0 (c ∷ s)

-- `ErrRange` beyond 64 bits.
unfoldable pub in_range : Option ℕ → Option ℤ
in_range none = none
in_range (some n) = if leb n max_int then some (pos n) else none

unfoldable pub in_range_neg : Option ℕ → Option ℤ
in_range_neg none = none
in_range_neg (some zero) = some (pos 0)
in_range_neg (some (suc n)) = if leb n max_int then some (negsuc n) else none

unfoldable pub atoi : Bytes → Option ℤ
unfolding read_digits in_range in_range_neg
atoi [] = none
atoi (c ∷ s) =
    if nat_beq c b'-'
    then in_range_neg (read_digits s)
    else if nat_beq c b'+'
    then in_range (read_digits s)
    else in_range (read_digits (c ∷ s))

-- The last digit read back.
read_onto-digit :
    (n : ℕ) (acc : Bytes) → read_onto (n / 10) ((b'0' + n % 10) ∷ acc) ≡ read_onto n acc
unfolding read_onto
read_onto-digit n acc =
    let digit : n / 10 * 10 + (b'0' + n % 10 - b'0') ≡ n = omega arith in
    let low : leb b'0' (b'0' + n % 10) ≡ true = ground arith in
    let high : leb (b'0' + n % 10) b'9' ≡ true = ground arith in rw (low, high, digit)

read_onto-digits_onto :
    (f n : ℕ) (acc : Bytes) → n < f → read_onto 0 (digits_onto f n acc) ≡ read_onto n acc
unfolding digits_onto
read_onto-digits_onto zero n acc h = elim h [ ]
read_onto-digits_onto (suc f) n acc h =
    ground (arith, read_onto-digit n acc, read_onto-digits_onto f (n / 10) ((b'0' + n % 10) ∷ acc))

-- Zeros in front, as in the bucket keys `0527` of the key-space.
abbrev pub padded : ℕ → Bytes → Bytes
padded zero s = s
padded (suc k) s = b'0' ∷ padded k s

pub padded-decimal : (k n : ℕ) → read_onto 0 (padded k (decimal n)) ≡ some n
unfolding decimal read_onto
padded-decimal zero n = read_onto-digits_onto (suc n) n [] (omega arith)
padded-decimal (suc k) n = padded-decimal k n

padded-IsDigit : (k n : ℕ) → All IsDigit (padded k (decimal n))
padded-IsDigit zero n = decimal-IsDigit n
padded-IsDigit (suc k) n = ((omega arith, omega arith), padded-IsDigit k n)

atoi-digits :
    (s : Bytes) (n : ℕ)
    → All IsDigit s
    → s ≢ []
    → read_onto 0 s ≡ some n
    → n ≤ max_int
    → atoi s ≡ some (pos n)
unfolding atoi
atoi-digits [] n d ne h m = absurd (ne refl)
atoi-digits (c ∷ s) n d ne h m = ground arith

length-digits_onto : (f n : ℕ) (acc : Bytes) → length acc ≤ length (digits_onto f n acc)
unfolding digits_onto
length-digits_onto zero n acc = omega arith
length-digits_onto (suc f) n acc =
    ground (arith, length-digits_onto f (n / 10) ((b'0' + n % 10) ∷ acc))

pub padded-ne-nil : (k n : ℕ) → padded k (decimal n) ≢ []
unfolding decimal digits_onto
padded-ne-nil zero n e =
    ground (arith, length-digits_onto n (n / 10) ((b'0' + n % 10) ∷ []), ap (length {0}) e)
padded-ne-nil (suc k) n e = cc

-- A number that an `int` holds is read back from its decimal digits, with any zeros in front.
pub atoi-padded : (k n : ℕ) → n ≤ max_int → atoi (padded k (decimal n)) ≡ some (pos n)
atoi-padded k n h =
    atoi-digits (padded k (decimal n)) n (padded-IsDigit k n) (padded-ne-nil k n)
      (padded-decimal k n) h
