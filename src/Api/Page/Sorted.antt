-- ===== src/Api/Page/Sorted.antt =====
-- The order in which `range` visits the two maps does not show on the page.
use mathlib.Core.List.{Permᴰ}
use mathlib.Core.Option
use pg_shard_router.Api.{Server}
use pg_shard_router.Api.Page.{
  bytes_leb, insert, sort, keys, sorted_keys, lines, request_line, state_line, page, handle_metrics,
}
use pg_shard_router.Base.{true, false, List, [], ◌∷◌, ◌≡◌, refl, sym, ap, ◌∙◌, arith}
use pg_shard_router.Base.Bytes.{Bytes, bytes_eq}
use pg_shard_router.Base.Dict.{Dict, get}
use pg_shard_router.Base.Int.{ℤ}
use pg_shard_router.Breaker.{Breaker, State, snapshot}
use pg_shard_router.Breaker.Shards.{get-snapshot}

bytes_leb_total : (a b : Bytes) → bytes_leb a b ≡ false → bytes_leb b a ≡ true
unfolding bytes_leb
bytes_leb_total [] b h = cc
bytes_leb_total (c ∷ s) [] h = refl
bytes_leb_total (c ∷ s) (d ∷ t) h = ground (arith, h, bytes_leb_total s t)

bytes_leb_antisymm : (a b : Bytes) → bytes_leb a b ≡ true → bytes_leb b a ≡ true → a ≡ b
unfolding bytes_leb
bytes_leb_antisymm [] [] h g = refl
bytes_leb_antisymm [] (d ∷ t) h g = cc
bytes_leb_antisymm (c ∷ s) [] h g = cc
bytes_leb_antisymm (c ∷ s) (d ∷ t) h g = ground (arith, h, g, bytes_leb_antisymm s t)

bytes_leb_trans :
    (a b c : Bytes) → bytes_leb a b ≡ true → bytes_leb b c ≡ true → bytes_leb a c ≡ true
unfolding bytes_leb
bytes_leb_trans [] b c h g = refl
bytes_leb_trans (x ∷ a) [] c h g = cc
bytes_leb_trans (x ∷ a) (y ∷ b) [] h g = cc
bytes_leb_trans (x ∷ a) (y ∷ b) (z ∷ c) h g = ground (arith, h, g, bytes_leb_trans a b c)

insert-insert : (a b : Bytes) (l : List Bytes) → insert a (insert b l) ≡ insert b (insert a l)
unfolding insert
insert-insert a b [] = ground (arith, bytes_leb_total a b, bytes_leb_antisymm a b)
insert-insert a b (c ∷ l) = ground (
  arith,
  insert-insert a b l,
  bytes_leb_total a b,
  bytes_leb_antisymm a b,
  bytes_leb_trans a b c,
  bytes_leb_trans b a c,
  bytes_leb_total a c,
  bytes_leb_total b c,
)

sort-Permᴰ : (l k : List Bytes) → Permᴰ l k → sort l ≡ sort k
unfolding sort
sort-Permᴰ _ _ Permᴰ.nil = refl
sort-Permᴰ _ _ (Permᴰ.cons {a} {b} {l₁} {l₂} e p) = rw (e, sort-Permᴰ l₁ l₂ p) refl
sort-Permᴰ _ _ (Permᴰ.swap {a} {b} {a'} {b'} {l} e f) = rw (e, f) (insert-insert b' a' (sort l))
sort-Permᴰ _ _ (Permᴰ.trans {l₁} {l₂} {l₃} p q) = sort-Permᴰ l₁ l₂ p ∙ sort-Permᴰ l₂ l₃ q

-- Two visits of one Go map: the same keys, each as often, and the same value at each.
abbrev pub AreVisits : {V : Type 0} → Dict Bytes V → Dict Bytes V → Type 0
AreVisits m n = Permᴰ (keys m) (keys n) × ((k : Bytes) → get k m ≡ get k n)

lines_same :
    (f g : Bytes → Bytes) (ks : List Bytes) → ((k : Bytes) → f k ≡ g k) → lines f ks ≡ lines g ks
unfolding lines
lines_same f g [] h = refl
lines_same f g (k ∷ ks) h = rw (h k, lines_same f g ks h) refl

request_lines-AreVisits :
    (quote : Bytes → Bytes) (m n : Dict Bytes ℤ)
    → AreVisits m n
    → lines (request_line quote m) (sorted_keys m) ≡ lines (request_line quote n) (sorted_keys n)
unfolding sorted_keys request_line
request_lines-AreVisits quote m n v =
    ap (lines (request_line quote m)) (sort-Permᴰ (keys m) (keys n) v.0)
    ∙ lines_same _ _ (sort (keys n)) (λ k. rw (v.1 k) refl)

state_lines-AreVisits :
    (quote : Bytes → Bytes) (m n : Dict Bytes State)
    → AreVisits m n
    → lines (state_line quote m) (sorted_keys m) ≡ lines (state_line quote n) (sorted_keys n)
unfolding sorted_keys state_line
state_lines-AreVisits quote m n v =
    ap (lines (state_line quote m)) (sort-Permᴰ (keys m) (keys n) v.0)
    ∙ lines_same _ _ (sort (keys n)) (λ k. rw (v.1 k) refl)

keys-snapshot : (bs : Dict Bytes Breaker) → keys (snapshot bs) ≡ keys bs
unfolding snapshot
keys-snapshot [] = refl
keys-snapshot ((id, b) ∷ bs) = ap (λ t. id ∷ t) (keys-snapshot bs)

snapshot-AreVisits :
    (bs cs : Dict Bytes Breaker) → AreVisits bs cs → AreVisits (snapshot bs) (snapshot cs)
snapshot-AreVisits bs cs v = (
  rw (keys-snapshot bs, keys-snapshot cs) v.0,
  λ k.
      get-snapshot k bs
      ∙ ap (Option.map (λ (b : Breaker). b.state)) (v.1 k)
      ∙ sym (get-snapshot k cs),
)

-- The metrics page is one text for one state of the counters and breakers: in whatever orders `range`
-- visits the two maps, what is printed is the same.
pub handle_metrics-AreVisits :
    (quote : Bytes → Bytes) (s t : Server)
    → AreVisits s.metrics.requests_by_shard t.metrics.requests_by_shard
    → s.metrics.routing_errors ≡ t.metrics.routing_errors
    → AreVisits s.breakers.breakers t.breakers.breakers
    → handle_metrics quote s ≡ handle_metrics quote t
unfolding handle_metrics page
handle_metrics-AreVisits quote s t requests errors breakers =
    rw
      (
        request_lines-AreVisits quote s.metrics.requests_by_shard t.metrics.requests_by_shard
            requests,
        errors,
        state_lines-AreVisits quote _ _
            (snapshot-AreVisits s.breakers.breakers t.breakers.breakers breakers),
      )
      refl
