-- ===== src/Base/Sscanf.antt =====
-- `fmt.Sscanf(s, "%d", &x)` of the Go standard library, for an `int` or `int64`.
use Prim.Native.Nat.{ℕ, zero, suc, ◌≤◌}
use mathlib.Core.Path.{◌≡◌, refl, sym, ap, ◌∙◌}
use mathlib.Core.Logic.{◌≢◌}
use mathlib.Core.Bool.{false, ◌&&◌, ◌||◌}
use mathlib.Core.List.{[], ◌∷◌, ◌++◌, append-nil}
use mathlib.Core.Option.{Option, none, some}
use native.Mathlib.Omega.{arith}
use pg_shard_router.Base.Lists.{All}
use pg_shard_router.Base.Tests.{leb, nat_beq, if◌then◌else◌}
use pg_shard_router.Base.Bytes.{Bytes, decimal, IsDigit, decimal-IsDigit}
use pg_shard_router.Base.Int.{ℤ, pos, max_int}
use pg_shard_router.Base.Spaces.{space_length}
use pg_shard_router.Base.Strconv.{atoi, atoi-padded, padded-ne-nil}

-- `SkipSpace`: a line break that the format does not have is an error.
skip_space : ℕ → Bytes → Option Bytes
skip_space k [] = some []
skip_space (suc k) (c ∷ s) = skip_space k s
skip_space zero (c ∷ s) =
    if nat_beq c b'\n'
    then none
    else elim (space_length (c ∷ s)) [ zero ↦ some (c ∷ s) | suc k ↦ skip_space k s ]

-- The digits that a text begins with.
unfoldable pub digits_prefix : Bytes → Bytes
digits_prefix [] = []
digits_prefix (c ∷ s) =
    let rest = digits_prefix s in if leb b'0' c && leb c b'9' then c ∷ rest else []

-- A sign may stand before the digits; what follows them is not read.
scan_number : Bytes → Option ℤ
unfolding digits_prefix
scan_number [] = none
scan_number (c ∷ s) =
    if nat_beq c b'+' || nat_beq c b'-'
    then atoi (c ∷ digits_prefix s)
    else atoi (digits_prefix (c ∷ s))

-- On an error the variable keeps its value.
unfoldable pub sscanf_int : Bytes → Option ℤ
unfolding skip_space scan_number
sscanf_int s = elim (skip_space 0 s) [ none ↦ none | some t ↦ scan_number t ]

-- The first byte of what follows a number is no digit.
abbrev pub EndsNumber : Bytes → Type 0
EndsNumber [] = Unit
EndsNumber (c ∷ s) = (leb b'0' c && leb c b'9') ≡ false

digits_prefix-append :
    (d rest : Bytes) → All IsDigit d → EndsNumber rest → digits_prefix (d ++ rest) ≡ d
unfolding digits_prefix
digits_prefix-append [] [] h e = refl
digits_prefix-append [] (c ∷ s) h e = rw e
digits_prefix-append (c ∷ d) rest h e = ground (arith, digits_prefix-append d rest h.1 e)

skip_space-digit : (c : ℕ) (s : Bytes) → IsDigit c → skip_space 0 (c ∷ s) ≡ some (c ∷ s)
unfolding skip_space space_length
skip_space-digit c [] h = ground arith
skip_space-digit c (x ∷ []) h = ground arith
skip_space-digit c (x ∷ y ∷ s) h = ground arith

sscanf_int-digits :
    (d rest : Bytes) → All IsDigit d → d ≢ [] → EndsNumber rest → sscanf_int (d ++ rest) ≡ atoi d
unfolding sscanf_int scan_number
sscanf_int-digits [] rest h ne e = absurd (ne refl)
sscanf_int-digits (c ∷ d) rest h ne e =
    ground (arith, skip_space-digit c (d ++ rest) h.0, digits_prefix-append (c ∷ d) rest h e)

-- A number that an `int` holds is read from its decimal digits, whatever follows them.
pub sscanf_int-decimal :
    (n : ℕ) (rest : Bytes)
    → n ≤ max_int
    → EndsNumber rest
    → sscanf_int (decimal n ++ rest) ≡ some (pos n)
sscanf_int-decimal n rest h e =
    sscanf_int-digits (decimal n) rest (decimal-IsDigit n) (padded-ne-nil 0 n) e ∙ atoi-padded 0 n h

pub sscanf_int-decimal_end : (n : ℕ) → n ≤ max_int → sscanf_int (decimal n) ≡ some (pos n)
sscanf_int-decimal_end n h =
    ap sscanf_int (sym (append-nil (decimal n))) ∙ sscanf_int-decimal n [] h tt
