-- ===== src/Systems/Tests.antt =====
-- The theorems on the systems at concrete data.
use v_swarm_u.Base.{
  ℕ, zero, suc, ◌+◌, ◌*◌, ◌/◌, ◌%◌, ◌^◌, ◌<◌, ◌≡◌, refl, true, false, some, List, [], ◌∷◌, map,
  length, count_if, arith, ◌==◌, range,
}
use v_swarm_u.Systems.{
  dtb_walker, icache_port, timing_simple_cpu, skl_tuned_cpu, cpu_port, controller, MemRange,
  whole_range, System, dcache, l2cache, l2bus, link, mem_side, cpu_side, cpu_side_ports,
  mem_side_ports, switch_to_atomic,
}
use v_swarm_u.Systems.Cpus.{queues, pair_ids, pair_states}
use v_swarm_u.Systems.Routes.{Reaches}
use v_swarm_u.Systems.Interleave.{get_interleave_ranges}
use v_swarm_u.Systems.Interleave.Laws.{pow_pos, serves, field, ranges-serve_once}
use v_swarm_u.Systems.Drive.{drive_system, drive_system-Reaches}
use v_swarm_u.Systems.Simple.{simple_system}
use v_swarm_u.Systems.Simple.Laws.{simple_system-Reaches, simple_system-switch_to_atomic}
use v_swarm_u.Systems.Skylake.{
  skl_system, create_cache_hierarchy, hierarchy_caches, flush_caches, mem_writeback, mem_invalidate,
}
use v_swarm_u.Systems.Skylake.Laws.{skl_system-Reaches}
use v_swarm_u.Systems.Skylake.FlushOrder.{Before, dcache_l2, flush_caches-order}
use mathlib.Core.List.{Memᴰ}

simple_system-Reaches_example :
    Reaches
      (simple_system 0 "vmlinux" "disk.img" 2 timing_simple_cpu false).links
      (cpu_port 1 dtb_walker)
      (controller 0)
simple_system-Reaches_example =
    simple_system-Reaches 0 "vmlinux" "disk.img" 2 timing_simple_cpu false 1 dtb_walker
      (omega arith) refl

simple_system-switch_to_atomic_example :
    let s = simple_system 0 "vmlinux" "disk.img" 2 timing_simple_cpu true in
    (map pair_ids (switch_to_atomic s) ≡ (0, 0) ∷ (1, 1) ∷ [])
    × (map pair_states (switch_to_atomic s) ≡ (false, true) ∷ (false, true) ∷ [])
    × (queues s.cpus ≡ 1 ∷ 2 ∷ [])
simple_system-switch_to_atomic_example =
    simple_system-switch_to_atomic 0 "vmlinux" "disk.img" 2 timing_simple_cpu true

skl_system-Reaches_example :
    (s : System) × (skl_system (2 ^ 1) 0 "vmlinux" "disk.img" 2 skl_tuned_cpu false ≡ some s)
    × Reaches s.links (cpu_port 1 icache_port) (controller 1)
skl_system-Reaches_example =
    skl_system-Reaches 1 0 "vmlinux" "disk.img" 2 skl_tuned_cpu false 1 1 icache_port (omega arith)
      (omega arith) refl

-- The exclusive or of two numbers of at most `f` bits.
exclusive_or_of : ℕ → ℕ → ℕ → ℕ
exclusive_or_of zero x y = 0
exclusive_or_of (suc f) x y = (x % 2 + y % 2) % 2 + 2 * exclusive_or_of f (x / 2) (y / 2)

exclusive_or_of-0 : (f : ℕ) → exclusive_or_of f 0 0 ≡ 0
unfolding exclusive_or_of
exclusive_or_of-0 zero = refl
exclusive_or_of-0 (suc f) = omega (arith, exclusive_or_of-0 f)

exclusive_or_of_lt :
    (f bits x y : ℕ) → x < 2 ^ bits → y < 2 ^ bits → exclusive_or_of f x y < 2 ^ bits
unfolding exclusive_or_of
exclusive_or_of_lt zero bits x y hx hy = omega (arith, pow_pos bits)
exclusive_or_of_lt (suc f) zero x y hx hy = ground (arith, exclusive_or_of-0 f)
exclusive_or_of_lt (suc f) (suc bits) x y hx hy =
    omega (arith, exclusive_or_of_lt f bits (x / 2) (y / 2) (omega (arith, hx)) (omega (arith, hy)))

abbrev exclusive_or : ℕ → ℕ → ℕ
exclusive_or x y = exclusive_or_of (x + y) x y

abbrev selector : ℕ → ℕ → ℕ → ℕ → ℕ
selector high high_xor bits a = exclusive_or (field high bits a) (field high_xor bits a)

ranges-serve_once_example :
    (rs : List MemRange) × (get_interleave_ranges (whole_range 4096) 4 7 20 ≡ some rs)
    × (length rs ≡ 4)
    × (count_if (serves selector 1027) rs ≡ 1)
    × (map (serves selector 1027) rs
        ≡ map
            (λ m. exclusive_or (1027 / 2 ^ 7 % 2 ^ 2) (1027 / 2 ^ 20 % 2 ^ 2) == m)
            (range (2 ^ 2)))
ranges-serve_once_example =
    ranges-serve_once selector exclusive_or (λ high high_xor bits a. refl)
      (λ bits x y hx hy. exclusive_or_of_lt (x + y) bits x y hx hy) (whole_range 4096) 2 7 20 1027
      (omega arith) (omega arith) (omega arith) (omega arith)

flush_caches-order_example :
    Memᴰ (link (mem_side (dcache 1)) (cpu_side_ports (l2bus 1))) (create_cache_hierarchy 2)
    × Memᴰ (link (mem_side_ports (l2bus 1)) (cpu_side (l2cache 1))) (create_cache_hierarchy 2)
    × Before
        (mem_writeback (dcache 1))
        (mem_invalidate (dcache 1))
        (flush_caches (hierarchy_caches 2))
    × Before
        (mem_invalidate (dcache 1))
        (mem_writeback (l2cache 1))
        (flush_caches (hierarchy_caches 2))
flush_caches-order_example =
    flush_caches-order 2 (dcache 1) (l2cache 1) (l2bus 1) (dcache_l2 1 (omega arith))

drive_system-Reaches_example :
    Reaches (drive_system 0 "vmlinux" "disk.img" true).links (cpu_port 0 icache_port) (controller 0)
drive_system-Reaches_example = drive_system-Reaches 0 "vmlinux" "disk.img" true icache_port refl
