-- ===== src/Secrets/Collisions.antt =====
-- References that read the same variables.
use pg_shard_router.Base.{ℕ, ◌∷◌, [], ◌++◌, ◌≡◌, refl, sym, ap, ◌∙◌, arith}
use pg_shard_router.Base.Bytes.{Bytes, bytes_eq}
use pg_shard_router.Base.Result.{ok}
use pg_shard_router.Secrets.{Environment, Credentials, replace, to_upper, env_key, resolve}

replace-append : (s t : Bytes) → replace (s ++ t) ≡ replace s ++ replace t
unfolding replace
replace-append [] t = refl
replace-append (c ∷ s) t = rw (replace-append s t)

replace-separator :
    (front back : Bytes) (c : ℕ)
    → replace (c ∷ back) ≡ replace (b'_' ∷ back)
    → replace (front ++ c ∷ back) ≡ replace (front ++ b'_' ∷ back)
replace-separator front back c h =
    replace-append front (c ∷ back)
    ∙ ap (λ t. replace front ++ t) h
    ∙ sym (replace-append front (b'_' ∷ back))

env_key-separator :
    (env : Environment) (front back : Bytes) (c : ℕ)
    → replace (c ∷ back) ≡ replace (b'_' ∷ back)
    → env_key env (front ++ c ∷ back) ≡ env_key env (front ++ b'_' ∷ back)
unfolding env_key
env_key-separator env front back c h = ap (to_upper env) (replace-separator front back c h)

-- The bytes that envKey replaces, and the one that it puts there.
pub data IsSeparator (b : ℕ) : Type 0 where
  slash : b ≡ b'/' → IsSeparator b
  dash : b ≡ b'-' → IsSeparator b
  dot : b ≡ b'.' → IsSeparator b
  underscore : b ≡ b'_' → IsSeparator b

replace-IsSeparator :
    (back : Bytes) (b : ℕ) → IsSeparator b → replace (b ∷ back) ≡ replace (b'_' ∷ back)
unfolding replace
replace-IsSeparator back b (slash e) = rw e refl
replace-IsSeparator back b (dash e) = rw e refl
replace-IsSeparator back b (dot e) = rw e refl
replace-IsSeparator back b (underscore e) = rw e refl

-- Two references that differ in one separator only, `s` in the one and `t` in the other, each of them `/`, `-`, `.` or
-- `_`, at any place: where the one has credentials the other has them too, and they are the same.
pub resolve-separator :
    (env : Environment) (front back : Bytes) (s t : ℕ) (c : Credentials)
    → IsSeparator s
    → IsSeparator t
    → resolve env (front ++ s ∷ back) ≡ ok c
    → resolve env (front ++ t ∷ back) ≡ ok c
unfolding resolve
resolve-separator env front back s t c is_s is_t h = ground (
  arith,
  h,
  env_key-separator env front back s (replace-IsSeparator back s is_s),
  env_key-separator env front back t (replace-IsSeparator back t is_t),
)
