-- ===== src/Secrets/Tests.antt =====
-- Credentials from a concrete environment.
use pg_shard_router.Base.{[], ◌∷◌, ◌++◌, ◌≡◌, ◌==◌, refl, if◌then◌else◌}
use pg_shard_router.Base.Bytes.{codes, bytes_eq, bytes_beq}
use pg_shard_router.Base.Result.{ok}
use pg_shard_router.Secrets.{Credentials, Environment, env_key, replace, resolve, to_upper}
use pg_shard_router.Secrets.Collisions.{slash, dash, resolve-separator}

abbrev env : Environment
env = record {
  getenv = λ v. if v == codes "SECRET_PAYMENT_PG_USER" then codes "app" else [];
  upper = λ s. s;
}

key_of_reference : env_key env (codes "secret/payment.v2-pg") ≡ codes "SECRET_PAYMENT_V2_PG"
unfolding env_key replace to_upper
key_of_reference = refl

abbrev app : Credentials
app = record { username = codes "app"; password = [] }

found : resolve env (codes "secret/payment" ++ b'/' ∷ codes "pg") ≡ ok app
unfolding resolve env_key replace to_upper bytes_beq
found = refl

resolve-separator_example : resolve env (codes "secret/payment" ++ b'-' ∷ codes "pg") ≡ ok app
resolve-separator_example =
    resolve-separator env (codes "secret/payment") (codes "pg") b'/' b'-' app (slash refl)
      (dash refl) found
