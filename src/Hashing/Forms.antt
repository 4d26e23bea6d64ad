-- ===== src/Hashing/Forms.antt =====
-- One business key in its several forms: as a text, as an `int`, and as a JSON number.
use pg_shard_router.Base.{
  ℕ, ◌<◌, ◌≤◌, ◌-◌, ◌+◌, ◌/◌, ◌%◌, ◌++◌, ◌∷◌, [], ◌≡◌, ◌≢◌, refl, sym, subst, ◌∙◌, true, false, All,
  All-append_right, ltb, if◌then◌else◌, length, arith,
}
use pg_shard_router.Base.Bytes.{Bytes, decimal, IsDigit, decimal-IsDigit}
use pg_shard_router.Base.Int.{ℤ, pos}
use pg_shard_router.Hashing.{
  text, int, json_number, float_text, with_point, strip_zeros, exponent, key_text, bucket_for,
}

small : (n : ℕ) → n < 1000000 → float_text n ≡ decimal n
unfolding float_text
small n h = ground arith

-- A key that is a whole number below a million goes to one bucket in all its forms: as its decimal
-- text, as an `int` and as a JSON number, for every bucket count.
bucket_for-forms :
    (n : ℕ) (count : ℤ)
    → n < 1000000
    → (bucket_for (json_number n) count ≡ bucket_for (text (decimal n)) count)
      × (bucket_for (int (pos n)) count ≡ bucket_for (text (decimal n)) count)
unfolding bucket_for pg_shard_router.Base.Bytes.decimal_int
bucket_for-forms n count h = (rw (small n h) refl, refl)

large :
    (n : ℕ)
    → 1000000 ≤ n
    → float_text n
      ≡ with_point (decimal (strip_zeros 21 n)) ++ b'e' ∷ b'+' ∷ exponent (length (decimal n) - 1)
unfolding float_text
large n h = ground arith

-- From a million on, the text that is hashed for a JSON number is not the decimal text of the number.
pub key_text-json_number-ne :
    (n : ℕ) → 1000000 ≤ n → key_text (json_number n) ≢ key_text (text (decimal n))
unfolding key_text
key_text-json_number-ne n h e = absurd (omega (arith, is_digit.0))
  where
    is_digit : All IsDigit (b'e' ∷ b'+' ∷ exponent (length (decimal n) - 1))
    is_digit =
        All-append_right IsDigit (with_point (decimal (strip_zeros 21 n))) _
          (subst (All IsDigit) (sym e ∙ large n h) (decimal-IsDigit n))
