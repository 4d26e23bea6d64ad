-- ===== src/Registry/File/Orders.antt =====
-- The loop over the buckets in two orders.
use mathlib.Core.List.{Permᴰ, Nodup, Nodup-cons, mem-cons_self}
use mathlib.Core.List.Perm
use pg_shard_router.Base.{
  Option, none, some, List, [], ◌∷◌, ◌≡◌, ◌≢◌, ◌⊎◌, inl, inr, refl, sym, ap, ◌∙◌, arith, map,
  Option-cases,
}
use pg_shard_router.Base.Bytes.{Bytes}
use pg_shard_router.Base.Dict.{Dict, get, put, get-put}
use pg_shard_router.Base.Int.{ℤ, int_eq, int_beq_iff}
use pg_shard_router.Base.Result.{Result, ok, err}
use pg_shard_router.Model.{BucketDef}
use pg_shard_router.Registry.File.{FileError, bad_bucket_key, load_buckets, parse_bucket_id}

-- Two maps that answer every lookup alike.
abbrev pub Alike : Dict ℤ BucketDef → Dict ℤ BucketDef → Type 0
Alike m n = (i : ℤ) → get i m ≡ get i n

-- Both loads fail, or both succeed with maps that are alike.
abbrev pub SameOutcome :
    Result FileError (Dict ℤ BucketDef) → Result FileError (Dict ℤ BucketDef) → Type 0
SameOutcome (ok m) (ok n) = Alike m n
SameOutcome (err e) (err f) = Unit
SameOutcome _ _ = ⊥

abbrev number_or : Bytes → Option ℤ → ℤ ⊎ Bytes
number_or s none = inr s
number_or s (some i) = inl i

-- What a key of the file names: a number, or nothing but itself.
abbrev pub named : Bytes × BucketDef → ℤ ⊎ Bytes
named (s, b) = number_or s (parse_bucket_id s)

Alike-put :
    (i : ℤ) (b : BucketDef) (m n : Dict ℤ BucketDef) → Alike m n → Alike (put i b m) (put i b n)
Alike-put i b m n h j = ground (arith, get-put i j b m, get-put i j b n, h j)

Alike-swap :
    (i j : ℤ) (b c : BucketDef) (m n : Dict ℤ BucketDef)
    → i ≢ j
    → Alike m n
    → Alike (put j c (put i b m)) (put i b (put j c n))
Alike-swap i j b c m n apart h k = ground (
  arith,
  get-put j k c (put i b m),
  get-put i k b m,
  get-put i k b (put j c n),
  get-put j k c n,
  h k,
  int_beq_iff i k,
  int_beq_iff j k,
)

load_buckets-Alike :
    (l : Dict Bytes BucketDef) (m n : Dict ℤ BucketDef)
    → Alike m n
    → SameOutcome (load_buckets l m) (load_buckets l n)
unfolding load_buckets
load_buckets-Alike [] m n h = h
load_buckets-Alike ((s, b) ∷ l) m n h = elim (Option-cases (parse_bucket_id s)) [
  | inl e ↦ rw (e, SameOutcome, load_buckets) tt
  | inr (i, e) ↦ rw (e, SameOutcome, load_buckets) (load_buckets-Alike l _ _ (Alike-put i _ m n h))
]

SameOutcome-trans :
    (a b c : Result FileError (Dict ℤ BucketDef))
    → SameOutcome a b
    → SameOutcome b c
    → SameOutcome a c
SameOutcome-trans (ok m) (ok n) (ok k) h g = λ i. h i ∙ g i
SameOutcome-trans (err e) (err f) (err d) h g = tt
SameOutcome-trans (ok m) (ok n) (err e) h g = g
SameOutcome-trans (ok m) (err e) c h g = absurd h
SameOutcome-trans (err e) (ok m) c h g = absurd h
SameOutcome-trans (err e) (err f) (ok m) h g = g

apart_of_Nodup :
    (p q : Bytes × BucketDef) (l : List (ℤ ⊎ Bytes))
    → Nodup (named p ∷ named q ∷ l)
    → named p ≢ named q
apart_of_Nodup p q l h e = (Nodup-cons.0 h).0 (rw e mem-cons_self)

load_bad :
    (s : Bytes) (b : BucketDef) (l : Dict Bytes BucketDef) (m : Dict ℤ BucketDef)
    → parse_bucket_id s ≡ none
    → load_buckets ((s, b) ∷ l) m ≡ err (bad_bucket_key s)
unfolding load_buckets
load_bad s b l m e = rw (e, load_buckets)

load_good :
    (s : Bytes) (b : BucketDef) (l : Dict Bytes BucketDef) (m : Dict ℤ BucketDef) (i : ℤ)
    → parse_bucket_id s ≡ some i
    → load_buckets ((s, b) ∷ l) m ≡ load_buckets l (put i (record b { bucket_id = i }) m)
unfolding load_buckets
load_good s b l m i e = rw (e, load_buckets)

load_buckets-swap :
    (p q : Bytes × BucketDef) (l : Dict Bytes BucketDef) (m n : Dict ℤ BucketDef)
    → named p ≢ named q
    → Alike m n
    → SameOutcome (load_buckets (p ∷ q ∷ l) m) (load_buckets (q ∷ p ∷ l) n)
load_buckets-swap (s, b) (t, c) l m n apart h = elim (Option-cases (parse_bucket_id s)) [
  | inl e ↦ elim (Option-cases (parse_bucket_id t)) [
    | inl f ↦ rw (load_bad s b ((t, c) ∷ l) m e, load_bad t c ((s, b) ∷ l) n f) tt
    | inr (j, f) ↦
        rw
          (
            load_bad s b ((t, c) ∷ l) m e,
            load_good t c ((s, b) ∷ l) n j f,
            load_bad s b l (put j (record c { bucket_id = j }) n) e,
          )
          tt
  ]
  | inr (i, e) ↦ elim (Option-cases (parse_bucket_id t)) [
    | inl f ↦
        rw
          (
            load_good s b ((t, c) ∷ l) m i e,
            load_bad t c ((s, b) ∷ l) n f,
            load_bad t c l (put i (record b { bucket_id = i }) m) f,
          )
          tt
    | inr (j, f) ↦
        rw
          (
            load_good s b ((t, c) ∷ l) m i e,
            load_good t c ((s, b) ∷ l) n j f,
            load_good t c l (put i (record b { bucket_id = i }) m) j f,
            load_good s b l (put j (record c { bucket_id = j }) n) i e,
          )
          (load_buckets-Alike l _ _ (
            Alike-swap i j _ _ m n
              (λ same. apart (ap (number_or s) e ∙ ap inl same ∙ ap (number_or t) (sym f))) h))
  ]
]

cons_step :
    (p : Bytes × BucketDef) (l k : Dict Bytes BucketDef) (m n : Dict ℤ BucketDef)
    → Alike m n
    → ((m' n' : Dict ℤ BucketDef)
        → Alike m' n'
        → SameOutcome (load_buckets l m') (load_buckets k n'))
    → SameOutcome (load_buckets (p ∷ l) m) (load_buckets (p ∷ k) n)
cons_step (s, b) l k m n h rest = elim (Option-cases (parse_bucket_id s)) [
  | inl e ↦ rw (load_bad s b l m e, load_bad s b k n e) tt
  | inr (i, e) ↦ rw (load_good s b l m i e, load_good s b k n i e) (rest _ _ (Alike-put i _ m n h))
]

pub load_buckets-Permᴰ :
    (l k : Dict Bytes BucketDef) (m n : Dict ℤ BucketDef)
    → Permᴰ l k
    → Nodup (map named l)
    → Alike m n
    → SameOutcome (load_buckets l m) (load_buckets k n)
load_buckets-Permᴰ _ _ m n Permᴰ.nil d h = load_buckets-Alike [] m n h
load_buckets-Permᴰ _ _ m n (Permᴰ.cons {a} {b} {l₁} {l₂} e p) d h = rw (← e) (
    cons_step a l₁ l₂ m n h
      (λ m' n' alike. load_buckets-Permᴰ l₁ l₂ m' n' p (Nodup-cons.0 d).1 alike))
load_buckets-Permᴰ _ _ m n (Permᴰ.swap {a} {b} {a'} {b'} {l} e f) d h =
    rw (← e, ← f) (load_buckets-swap a b l m n (apart_of_Nodup a b (map named l) d) h)
load_buckets-Permᴰ _ _ m n (Permᴰ.trans {l₁} {l₂} {l₃} p q) d h =
    SameOutcome-trans _ _ _ (load_buckets-Permᴰ l₁ l₂ m m p d (λ i. refl))
      (load_buckets-Permᴰ l₂ l₃ m n q (Perm.nodup (Perm.map named ∣ p ∣₁) d) h)
