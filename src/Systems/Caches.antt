-- ===== src/Systems/Caches.antt =====
-- What the files caches.py of the simple and of the Skylake system describe of a cache.
use v_swarm_u.Base.{ℕ, ◌*◌, ◌^◌, Bool, Option}

-- A size in kB or MB, as gem5 reads it.
abbrev pub kb : ℕ → ℕ
kb n = n * 2 ^ 10

abbrev pub mb : ℕ → ℕ
mb n = n * 2 ^ 20

-- `NextLinePrefetcher` with the flag that `PrefetchCache` sets.
pub record Prefetcher : Type 0 where
  pub degree : ℕ
  pub queue_size : ℕ
  pub on_inst : Bool

-- `WriteAllocator`
pub record WriteAllocator : Type 0 where
  pub coalesce_limit : ℕ
  pub no_allocate_limit : ℕ
  pub delay_threshold : ℕ

-- A cache; `none` stands for gem5's own value, where the source gives none. `tree_plru` tells
-- whether the replacement policy is `TreePLRURP`.
pub record Cache : Type 0 where
  pub size : ℕ
  pub assoc : ℕ
  pub tag_latency : ℕ
  pub data_latency : ℕ
  pub response_latency : ℕ
  pub mshrs : ℕ
  pub tgts_per_mshr : ℕ
  pub write_buffers : ℕ
  pub demand_mshr_reserve : Option ℕ
  pub is_read_only : Option Bool
  pub prefetcher : Option Prefetcher
  pub tree_plru : Bool
  pub write_allocator : Option WriteAllocator
