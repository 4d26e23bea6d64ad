-- ===== src/Secrets.antt =====
-- internal/secrets/provider.go: the provider that reads credentials from environment variables.
pub mod Collisions
mod Tests
use pg_shard_router.Base.{
  ℕ, ◌-◌, Bool, true, ◌∷◌, [], ◌++◌, ◌==◌, ◌&&◌, ◌||◌, nat_beq, leb, ltb, if◌then◌else◌,
}
use pg_shard_router.Base.Bytes.{Bytes, codes, bytes_eq}
use pg_shard_router.Base.Result.{Result, ok, err}

pub record Credentials : Type 0 where
  pub username : Bytes
  pub password : Bytes

-- `os.Getenv`, which gives an empty text for a variable that is not set, and the upper case of
-- texts with other characters than ASCII, by the tables of Unicode.
pub record Environment : Type 0 where
  pub getenv : Bytes → Bytes
  pub upper : Bytes → Bytes

-- `strings.NewReplacer("/", "_", "-", "_", ".", "_")`
unfoldable pub replace : Bytes → Bytes
replace [] = []
replace (c ∷ s) =
    (if nat_beq c b'/' || nat_beq c b'-' || nat_beq c b'.' then b'_' else c) ∷ replace s

is_ascii : Bytes → Bool
is_ascii [] = true
is_ascii (c ∷ s) = ltb c 128 && is_ascii s

upper_ascii : Bytes → Bytes
upper_ascii [] = []
upper_ascii (c ∷ s) = (if leb b'a' c && leb c b'z' then c - 32 else c) ∷ upper_ascii s

-- `strings.ToUpper`
unfoldable pub to_upper : Environment → Bytes → Bytes
unfolding is_ascii upper_ascii
to_upper env s = if is_ascii s then upper_ascii s else env.upper s

unfoldable pub env_key : Environment → Bytes → Bytes
unfolding replace to_upper
env_key env ref = to_upper env (replace ref)

pub data SecretError : Type 0 where
  no_user : Bytes → Bytes → SecretError

-- `EnvProvider.Resolve`
unfoldable pub resolve : Environment → Bytes → Result SecretError Credentials
unfolding env_key
resolve env ref =
    let key = env_key env ref in
    let user = env.getenv (key ++ codes "_USER") in
    if user == []
    then err (no_user key ref)
    else ok (record { username = user; password = env.getenv (key ++ codes "_PASSWORD") })
