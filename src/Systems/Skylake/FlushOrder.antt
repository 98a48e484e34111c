-- ===== src/Systems/Skylake/FlushOrder.antt =====
-- The order in which `flushCaches` of gem5utils/systems/skylake/system.py goes over the caches.
use mathlib.Core.List.{Memᴰ}
use mathlib.Core.List.Memᴰ
use v_swarm_u.Base.{
  get_elem?, some, ℕ, zero, suc, ◌<◌, ◌+◌, ◌≡◌, refl, List, [], ◌∷◌, ◌++◌, flat_map, range,
  range_from, arith, ap,
}
use v_swarm_u.Systems.{
  CacheName, icache, dcache, mmucache, l2cache, l3cache, Bus, l2bus, l3bus, Link, link, mem_side,
  cpu_side, cpu_side_ports, mem_side_ports,
}
use v_swarm_u.Systems.Routes.{in_loop, in_at}
use v_swarm_u.Systems.Skylake.{
  cpu_caches, create_cache_hierarchy, hierarchy_caches, Flush, mem_writeback, mem_invalidate,
  flush_caches,
}

-- The first element stands in the list, and the second behind it.
pub data Before {A : Type 0} (a b : A) : List A → Type 0 where
  here : {x : A} {xs : List A} → a ≡ x → Memᴰ b xs → Before a b (x ∷ xs)
  there : {x : A} {xs : List A} → Before a b xs → Before a b (x ∷ xs)

module _ {A : Type 0} {a b : A} where
  append_left-Before : {xs : List A} (ys : List A) → Before a b xs → Before a b (xs ++ ys)
  append_left-Before ys (here e m) = here e (Memᴰ.append_left ys m)
  append_left-Before ys (there h) = there (append_left-Before ys h)

  append_right-Before : (xs : List A) {ys : List A} → Before a b ys → Before a b (xs ++ ys)
  append_right-Before [] h = h
  append_right-Before (x ∷ xs) h = there (append_right-Before xs h)

  append-Before : {xs ys : List A} → Memᴰ a xs → Memᴰ b ys → Before a b (xs ++ ys)
  append-Before (Memᴰ.head e) m = here e (Memᴰ.append_right _ m)
  append-Before (Memᴰ.tail h) m = there (append-Before h m)

-- What a round of a loop appends in an order is so ordered after the loop.
flat_map-Before :
    {A : Type 0} (f : ℕ → List A) (a b : A) (first n k : ℕ)
    → k < n
    → Before a b (f (first + k))
    → Before a b (flat_map f (range_from first n))
flat_map-Before f a b first zero k h m = absurd (omega (arith, h))
flat_map-Before f a b first (suc n) zero h m =
    append_left-Before _
      (let e : first + 0 ≡ first = omega arith in coe 0 1 (j. Before a b (f (e j))) m)
flat_map-Before f a b first (suc n) (suc k) h m =
    let e : first + suc k ≡ (first + 1) + k = omega arith in
    append_right-Before (f first) (
      flat_map-Before f a b (first + 1) n k (omega (arith, h))
        (coe 0 1 (j. Before a b (f (e j))) m))

-- What `flushCaches` asks of one cache.
abbrev flushes : CacheName → List Flush
flushes c = mem_writeback c ∷ mem_invalidate c ∷ []

in_flushes :
    (c : CacheName) (cs : List CacheName) → Memᴰ c cs → Memᴰ (mem_writeback c) (flat_map flushes cs)
in_flushes c (d ∷ cs) (Memᴰ.head e) = Memᴰ.head (ap mem_writeback e)
in_flushes c (d ∷ cs) (Memᴰ.tail m) = Memᴰ.tail (Memᴰ.tail (in_flushes c cs m))
in_flushes c [] m = elim m [ ]

flushes-Before :
    (c d : CacheName) (cs : List CacheName)
    → Before c d cs
    → Before (mem_invalidate c) (mem_writeback d) (flat_map flushes cs)
flushes-Before c d (x ∷ cs) (here e m) = there (here (ap mem_invalidate e) (in_flushes d cs m))
flushes-Before c d (x ∷ cs) (there h) = there (there (flushes-Before c d cs h))
flushes-Before c d [] h = elim h [ ]

flushes-Before_own :
    (c d : CacheName) (cs : List CacheName)
    → Before c d cs
    → Before (mem_writeback c) (mem_invalidate c) (flat_map flushes cs)
flushes-Before_own c d (x ∷ cs) (here e m) =
    here (ap mem_writeback e) (Memᴰ.head (ap mem_invalidate e))
flushes-Before_own c d (x ∷ cs) (there h) = there (there (flushes-Before_own c d cs h))
flushes-Before_own c d [] h = elim h [ ]

-- The caches of a system with `n` CPUs, each with the bus below it and the cache below that.
pub data Below (n : ℕ) : CacheName → Bus → CacheName → Type 0 where
  icache_l2 : (i : ℕ) → i < n → Below n (icache i) (l2bus i) (l2cache i)
  dcache_l2 : (i : ℕ) → i < n → Below n (dcache i) (l2bus i) (l2cache i)
  mmucache_l2 : (i : ℕ) → i < n → Below n (mmucache i) (l2bus i) (l2cache i)
  l2_l3 : (i : ℕ) → i < n → Below n (l2cache i) l3bus l3cache

abbrev round : ℕ → List CacheName
round i = icache i ∷ dcache i ∷ mmucache i ∷ l2cache i ∷ []

in_round :
    (n i : ℕ) → i < n → (c d : CacheName) → Before c d (round i) → Before c d (hierarchy_caches n)
unfolding hierarchy_caches
in_round n i h c d m =
    let e : i ≡ 0 + i = omega arith in
    append_left-Before _
      (flat_map-Before round c d 0 n i h (coe 0 1 (j. Before c d (round (e j))) m))

hierarchy_caches-Before :
    (n : ℕ) (c d : CacheName) (b : Bus) → Below n c b d → Before c d (hierarchy_caches n)
hierarchy_caches-Before n _ _ _ (icache_l2 i h) = in_round n i h _ _ (here refl (in_at 2 _ refl))
hierarchy_caches-Before n _ _ _ (dcache_l2 i h) =
    in_round n i h _ _ (there (here refl (in_at 1 _ refl)))
hierarchy_caches-Before n _ _ _ (mmucache_l2 i h) =
    in_round n i h _ _ (there (there (here refl (in_at 0 _ refl))))
hierarchy_caches-Before n _ _ _ (l2_l3 i h) =
    unfold hierarchy_caches in append-Before (in_loop round n i h (in_at 3 _ refl)) (Memᴰ.head refl)

-- A link of the CPU `i` is a link of the system.
of_cpu :
    (n i : ℕ)
    → i < n
    → (k : ℕ) {l : Link} → get_elem? (cpu_caches i) k ≡ some l
    → Memᴰ l (create_cache_hierarchy n)
unfolding create_cache_hierarchy
of_cpu n i h k e = Memᴰ.append_left _ (in_loop cpu_caches n i h (in_at k _ e))

hierarchy-Below :
    (n : ℕ) (c d : CacheName) (b : Bus)
    → Below n c b d
    → Memᴰ (link (mem_side c) (cpu_side_ports b)) (create_cache_hierarchy n)
      × Memᴰ (link (mem_side_ports b) (cpu_side d)) (create_cache_hierarchy n)
unfolding create_cache_hierarchy cpu_caches
hierarchy-Below n _ _ _ (icache_l2 i h) = (of_cpu n i h 5 refl, of_cpu n i h 8 refl)
hierarchy-Below n _ _ _ (dcache_l2 i h) = (of_cpu n i h 6 refl, of_cpu n i h 8 refl)
hierarchy-Below n _ _ _ (mmucache_l2 i h) = (of_cpu n i h 7 refl, of_cpu n i h 8 refl)
hierarchy-Below n _ _ _ (l2_l3 i h) =
    (of_cpu n i h 9 refl, Memᴰ.append_right (flat_map cpu_caches (range n)) (Memᴰ.head refl))

-- In the Skylake system with `n` CPUs, each cache of a CPU is connected over its bus to the cache
-- below it, and `flushCaches` invalidates it, after its own writeback, before it asks the cache below
-- for the writeback.
pub flush_caches-order :
    (n : ℕ) (c d : CacheName) (b : Bus)
    → Below n c b d
    → Memᴰ (link (mem_side c) (cpu_side_ports b)) (create_cache_hierarchy n)
      × Memᴰ (link (mem_side_ports b) (cpu_side d)) (create_cache_hierarchy n)
      × Before (mem_writeback c) (mem_invalidate c) (flush_caches (hierarchy_caches n))
      × Before (mem_invalidate c) (mem_writeback d) (flush_caches (hierarchy_caches n))
unfolding flush_caches
flush_caches-order n c d b below =
    let (up, down) = hierarchy-Below n c d b below in
    let order = hierarchy_caches-Before n c d b below in
    (up, down, there (flushes-Before_own c d _ order), there (flushes-Before c d _ order))
