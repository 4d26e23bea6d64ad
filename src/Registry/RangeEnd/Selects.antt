-- ===== src/Registry/RangeEnd/Selects.antt =====
-- The range from a prefix to its end holds the keys with the prefix and no others.
use pg_shard_router.Base.{
  ℕ, zero, suc, ◌+◌, ◌<◌, ◌≤◌, Bool, true, false, Option, none, some, [], ◌∷◌, ◌++◌, ◌≡◌, ◌≢◌, inl,
  inr, refl, ap, ◌∙◌, arith, ◌&&◌, ◌||◌, All, length, take, get_or, take-suc, take-length, ltb,
  nat_beq, if◌then◌else◌, ◌==◌, not, Option-cases,
}
use pg_shard_router.Base.Bytes.{Bytes, bytes_eq, bytes_beq, bytes_beq_iff, cut_prefix}
use pg_shard_router.Registry.RangeEnd.{range_end_from, get_prefix_range_end}

-- etcd orders keys by their bytes.
unfoldable pub lex_ltb : Bytes → Bytes → Bool
lex_ltb s [] = false
lex_ltb [] (y ∷ ys) = true
lex_ltb (x ∷ xs) (y ∷ ys) = ltb x y || nat_beq x y && lex_ltb xs ys

-- etcd's range: from `key` on and below `range_end`, or, where that is "\x00", from `key` on.
unfoldable pub in_range : Bytes → Bytes → Bytes → Bool
unfolding lex_ltb
in_range key range_end k = not (lex_ltb k key) && (range_end == (0 ∷ []) || lex_ltb k range_end)

-- The end by recursion on the prefix; none where every byte is 0xff.
end? : Bytes → Option Bytes
end? [] = none
end? (c ∷ s) = elim (end? s) [
  | some e ↦ some (c ∷ e)
  | none ↦ if ltb c 0xff then some ((c + 1) ∷ []) else none
]

abbrev or_fallback : Option Bytes → Bytes
or_fallback none = 0 ∷ []
or_fallback (some e) = e

end?-snoc :
    (s : Bytes) (c : ℕ)
    → end? (s ++ c ∷ []) ≡ (if ltb c 0xff then some (s ++ (c + 1) ∷ []) else end? s)
unfolding end?
end?-snoc [] c = refl
end?-snoc (x ∷ s) c = ground (arith, end?-snoc s c)

range_end_from-end? :
    (i : ℕ) (p : Bytes) → i ≤ length p → range_end_from i p ≡ or_fallback (end? (take i p))
unfolding range_end_from
range_end_from-end? zero p h = unfold end? in refl
range_end_from-end? (suc i) p h =
    rw (take-suc p i 0 h, end?-snoc (take i p) (get_or p i 0))
      (ground (arith, range_end_from-end? i p))

abbrev pub has_prefix : Bytes → Bytes → Bool
has_prefix k p = elim (cut_prefix k p) [ none ↦ false | some rest ↦ true ]

abbrev AreBytes : Bytes → Type 0
AreBytes = All (λ b. b < 256)

-- From a prefix on, where it is all 0xff.
beyond :
    (p k : Bytes) → AreBytes p → AreBytes k → end? p ≡ none → not (lex_ltb k p) ≡ has_prefix k p
unfolding end? lex_ltb cut_prefix
beyond [] [] a b h = refl
beyond [] (x ∷ k) a b h = refl
beyond (c ∷ s) [] a b h = refl
beyond (c ∷ s) (x ∷ k) a b h =
    let ih : end? s ≡ none → not (lex_ltb k s) ≡ has_prefix k s = beyond s k a.1 b.1 in
    ground (arith, ih)

-- Between a prefix and its end, where it has one.
between :
    (p k : Bytes) (e : Bytes)
    → AreBytes p
    → AreBytes k
    → end? p ≡ some e
    → (not (lex_ltb k p) && lex_ltb k e) ≡ has_prefix k p
unfolding end? lex_ltb cut_prefix
between [] k e a b h = cc
between (c ∷ s) [] e a b h = ground arith
between (c ∷ s) (x ∷ k) e a b h = elim (Option-cases (end? s)) [
  | inl ended ↦ ground (arith, beyond s k a.1 b.1 ended)
  | inr (e', more) ↦ ground (arith, between s k e' a.1 b.1 more)
]

-- A computed end is not the fallback: neither empty, nor "\x00".
end?-proper : (p e : Bytes) → end? p ≡ some e → (e ≢ []) × ((e == (0 ∷ [])) ≡ false)
unfolding end? bytes_beq
end?-proper [] e h = cc
end?-proper (c ∷ s) e h = elim (Option-cases (end? s)) [
  | inl ended ↦ ground (arith, ended)
  | inr (e', more) ↦ ground (arith, more, end?-proper s e' more)
]

-- For a prefix of bytes, the range from it to its computed end holds a key of bytes exactly where
-- the key has the prefix: also where the prefix ends in 0xff bytes, consists of them, or is empty.
pub in_range-get_prefix_range_end :
    (p k : Bytes)
    → All (λ b. b < 256) p
    → All (λ b. b < 256) k
    → in_range p (get_prefix_range_end p) k ≡ has_prefix k p
unfolding in_range get_prefix_range_end
in_range-get_prefix_range_end p k a b = rw computed (by_end (end? p) refl)
  where
    computed : range_end_from (length p) p ≡ or_fallback (end? p)
    computed =
        range_end_from-end? (length p) p (omega arith)
        ∙ ap (λ q. or_fallback (end? q)) (take-length p)

    by_end :
        (o : Option Bytes)
        → end? p ≡ o
        → (not (lex_ltb k p)
            && (or_fallback (end? p) == (0 ∷ []) || lex_ltb k (or_fallback (end? p))))
          ≡ has_prefix k p
    by_end none h = rw h (ground (arith, beyond p k a b h, bytes_beq_iff (0 ∷ []) (0 ∷ [])))
    by_end (some e) h = rw h (ground (arith, between p k e a b h, (end?-proper p e h).1))
