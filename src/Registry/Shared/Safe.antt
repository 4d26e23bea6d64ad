-- ===== src/Registry/Shared/Safe.antt =====
-- Which maps the two loops and the requests may share, and what each kind of change leaves of that.
use pg_shard_router.Base.{ℕ, ◌<◌, Option, none, some, ◌≡◌, ◌≢◌, refl, sym, ◌∙◌, arith}
use pg_shard_router.Base.Int.{ℤ, int_eq}
use pg_shard_router.Cache.{Mapping}
use pg_shard_router.Cache.Heap.{Heap, view}
use pg_shard_router.Cache.Heap.Writes.{IsSeparate, Writes, Makes}
use pg_shard_router.Registry.Shared.{Shared, on_map}

-- An allocated map, if there is one.
abbrev pub IsLive : Heap → Option ℕ → Type 0
IsLive h o = (p : ℕ) → o ≡ some p → p < h.next

-- Two pointers that are not to the same map.
abbrev pub AreApart : Option ℕ → Option ℕ → Type 0
AreApart a b = (p q : ℕ) → a ≡ some p → b ≡ some q → p ≢ q

-- The map of the store and those that the loops work on are three, and no two maps share a part.
pub record IsSafe (s : Shared) : Type 0 where
  pub separate : IsSeparate s.heap
  pub ptr_live : IsLive s.heap s.ptr
  pub watching_live : IsLive s.heap s.watching
  pub loading_live : IsLive s.heap s.loading
  pub watching_apart : AreApart s.ptr s.watching
  pub loading_apart : AreApart s.ptr s.loading
  pub loops_apart : AreApart s.watching s.loading

-- A map that neither loop works on: the store's, and every map that was in the store before.
pub record IsPublished (p : ℕ) (s : Shared) : Type 0 where
  pub live : p < s.heap.next
  pub not_watching : s.watching ≢ some p
  pub not_loading : s.loading ≢ some p

-- What steps leave: the maps are as separate as before, and those that are published do not change.
pub record Keeps (s t : Shared) : Type 0 where
  pub safe : IsSafe t
  pub published : (p : ℕ) → IsPublished p s → IsPublished p t
  pub same : (p : ℕ) → IsPublished p s → view p t.heap ≡ view p s.heap

-- The watch has a new map.
pub clones-Keeps :
    (s : Shared) (h : Heap) (m : Mapping)
    → IsSafe s
    → Makes s.heap.next s.heap h m
    → Keeps s (record s { heap = h; watching = some s.heap.next })
clones-Keeps s h m ok made = record {
  safe = record {
    separate = made.separate;
    ptr_live = λ q e. omega (arith, ok.ptr_live q e, made.one_more);
    watching_live = λ q e. ground (arith, made.one_more);
    loading_live = λ q e. omega (arith, ok.loading_live q e, made.one_more);
    watching_apart = λ q r e f same. ground (arith, ok.ptr_live q e);
    loading_apart = ok.loading_apart;
    loops_apart = λ q r e f same. ground (arith, ok.loading_live r f);
  };
  published = λ p shown. record {
    live = omega (arith, shown.live, made.one_more);
    not_watching = λ e. ground (arith, shown.live);
    not_loading = shown.not_loading;
  };
  same = λ p shown. made.elsewhere p shown.live;
}

-- `loadAll` has a new map.
pub Makes-Keeps :
    (s : Shared) (h : Heap) (m : Mapping)
    → IsSafe s
    → Makes s.heap.next s.heap h m
    → Keeps s (record s { heap = h; loading = some s.heap.next })
Makes-Keeps s h m ok made = record {
  safe = record {
    separate = made.separate;
    ptr_live = λ q e. omega (arith, ok.ptr_live q e, made.one_more);
    watching_live = λ q e. omega (arith, ok.watching_live q e, made.one_more);
    loading_live = λ q e. ground (arith, made.one_more);
    watching_apart = ok.watching_apart;
    loading_apart = λ q r e f same. ground (arith, ok.ptr_live q e);
    loops_apart = λ q r e f same. ground (arith, ok.watching_live q e);
  };
  published = λ p shown. record {
    live = omega (arith, shown.live, made.one_more);
    not_watching = shown.not_watching;
    not_loading = λ e. ground (arith, shown.live);
  };
  same = λ p shown. made.elsewhere p shown.live;
}

-- A write to a map that is not published.
pub Writes-Keeps :
    (q : ℕ) (s : Shared) (h : Heap) (m : Mapping) (rev : ℤ)
    → IsSafe s
    → Writes q s.heap h m
    → ((p : ℕ) → IsPublished p s → p ≢ q)
    → Keeps s (record s { heap = h; watch_rev = rev })
Writes-Keeps q s h m rev ok w apart = record {
  safe = record {
    separate = w.separate;
    ptr_live = λ r e. omega (arith, ok.ptr_live r e, w.same_next);
    watching_live = λ r e. omega (arith, ok.watching_live r e, w.same_next);
    loading_live = λ r e. omega (arith, ok.loading_live r e, w.same_next);
    watching_apart = ok.watching_apart;
    loading_apart = ok.loading_apart;
    loops_apart = ok.loops_apart;
  };
  published = λ p shown. record {
    live = omega (arith, shown.live, w.same_next);
    not_watching = shown.not_watching;
    not_loading = shown.not_loading;
  };
  same = λ p shown. w.elsewhere p shown.live (apart p shown);
}

-- The pointer is set to the map of the watch, or to that of the load.
pub publishes-Keeps :
    (q : ℕ) (s : Shared)
    → IsSafe s
    → s.watching ≡ some q
    → Keeps s (record s { ptr = some q; watching = none })
publishes-Keeps q s ok mine = record {
  safe = record {
    separate = ok.separate;
    ptr_live = λ r e. ground (arith, ok.watching_live q mine);
    watching_live = λ r e. cc;
    loading_live = ok.loading_live;
    watching_apart = λ a b e f. cc;
    loading_apart = λ a b e f. ok.loops_apart a b (mine ∙ e) f;
    loops_apart = λ a b e f. cc;
  };
  published = λ p shown. record {
    live = shown.live;
    not_watching = λ e. cc;
    not_loading = shown.not_loading;
  };
  same = λ p shown. refl;
}

pub swaps-Keeps :
    (q : ℕ) (s : Shared)
    → IsSafe s
    → s.loading ≡ some q
    → Keeps s (record s { ptr = some q; loading = none })
swaps-Keeps q s ok mine = record {
  safe = record {
    separate = ok.separate;
    ptr_live = λ r e. ground (arith, ok.loading_live q mine);
    watching_live = ok.watching_live;
    loading_live = λ r e. cc;
    watching_apart = λ a b e f same. ok.loops_apart b a f (mine ∙ e) (sym same);
    loading_apart = λ a b e f. cc;
    loops_apart = λ a b e f. cc;
  };
  published = λ p shown. record {
    live = shown.live;
    not_watching = shown.not_watching;
    not_loading = λ e. cc;
  };
  same = λ p shown. refl;
}

pub Keeps-same : (s : Shared) → IsSafe s → Keeps s s
Keeps-same s ok = record { safe = ok; published = λ p shown. shown; same = λ p shown. refl }

pub Keeps-trans : {s t u : Shared} → Keeps s t → Keeps t u → Keeps s u
Keeps-trans a b = record {
  safe = b.safe;
  published = λ p shown. b.published p (a.published p shown);
  same = λ p shown. b.same p (a.published p shown) ∙ a.same p shown;
}

pub on_map-Keeps :
    (s : Shared) (o : Option ℕ) (f : ℕ → Shared)
    → IsSafe s
    → ((q : ℕ) → o ≡ some q → Keeps s (f q))
    → Keeps s (on_map o f s)
on_map-Keeps s none f ok k = Keeps-same s ok
on_map-Keeps s (some q) f ok k = k q refl
