-- ===== src/Startup/Tests.antt =====
-- The service started with a concrete file.
use pg_shard_router.Base.{◌≡◌, none, some, refl}
use pg_shard_router.Base.Bytes.{codes, bytes_eq, bytes_beq}
use pg_shard_router.Base.Result.{ok}
use pg_shard_router.Base.Spaces.{space_length}
use pg_shard_router.Base.Sscanf.{sscanf_int}
use pg_shard_router.Base.Strconv.{atoi}
use pg_shard_router.Base.Dict.{put}
use pg_shard_router.Cache.{new_store, swap}
use pg_shard_router.Registry.File.{parse_bucket_id, load_buckets, start}
use pg_shard_router.Startup.{run, run_file, loaded_config, file_store, serve}
use pg_shard_router.Startup.Serves.{IsServing, run-IsServing}
use pg_shard_router.Startup.Sample.{world, settings, loads_settings, read}

starts_file :
    start world.decode_file world.visit (some (codes "{}")) new_store ≡ (swap read new_store, ok tt)
unfolding start load_buckets parse_bucket_id sscanf_int space_length atoi put
starts_file = refl

runs : run world ≡ ok (serve settings (swap read new_store) none)
unfolding run run_file loaded_config file_store bytes_beq
runs = rw (loads_settings, starts_file) refl

run-IsServing_example : IsServing (serve settings (swap read new_store) none)
run-IsServing_example = run-IsServing world (serve settings (swap read new_store) none) runs
