-- ===== src/Registry/RangeEnd.antt =====
-- `getPrefixRangeEnd` of internal/registry/etcdhttp.go: the end of the range of the keys with a prefix.
pub mod Selects
use pg_shard_router.Base.{
  ℕ, zero, suc, ◌+◌, [], ◌∷◌, ◌++◌, length, take, get_or, ltb, if◌then◌else◌,
}
use pg_shard_router.Base.Bytes.{Bytes}

-- The loop `for i := len(end) - 1; i >= 0; i--`, with `i + 1` steps left: the bytes up to the one
-- at `i`, which is incremented, or the fallback "\x00".
unfoldable pub range_end_from : ℕ → Bytes → Bytes
range_end_from zero end = 0 ∷ []
range_end_from (suc i) end =
    let rest = range_end_from i end in
    if ltb (get_or end i 0) 0xff then take i end ++ (get_or end i 0 + 1) ∷ [] else rest

unfoldable pub get_prefix_range_end : Bytes → Bytes
unfolding range_end_from
get_prefix_range_end prefix = range_end_from (length prefix) prefix
