-- ===== src/Platform/Skylake/MemoryMap.antt =====
-- What the memory map of gem5utils/systems/skylake/x86.py says of each address.
use v_swarm_u.Base.{
  ℕ, ◌+◌, ◌≤◌, ◌≡◌, refl, Option, none, some, [], ◌∷◌, arith, if◌then◌else◌, ltb, count_if,
}
use v_swarm_u.Platform.Views.{holds, type_at}
use v_swarm_u.Platform.Simple
use v_swarm_u.Platform.Skylake.{init_fs}

-- What the map should say with a second memory range above 4 GB: nothing between the first range
-- and the last 64 kB below 4 GB.
abbrev split_layout : ℕ → ℕ → ℕ → Option ℕ
split_layout mem_size second a =
    if ltb a 0x9fc00
    then some 1
    else if ltb a 0x100000
    then some 2
    else if ltb a mem_size
    then some 1
    else if ltb a 0xFFFF0000
    then none
    else if ltb a 0x100000000
    then some 2
    else if ltb a (0x100000000 + second)
    then some 1
    else none

-- For a first memory range of 1 MB to 3 GB: if it is the only one, the memory map is that of the
-- simple system; with a second range the map gives every address the type that the layout says,
-- and no address lies in two of its entries.
type_at-split_layout :
    (addr_max mem_size second cpus a : ℕ)
    → 0x100000 ≤ mem_size
    → mem_size ≤ 0xC0000000
    → let one = (init_fs addr_max mem_size [] cpus).e820_entries in
      let two = (init_fs addr_max mem_size (second ∷ []) cpus).e820_entries in
      (one ≡ (Simple.init_fs addr_max mem_size cpus).e820_entries)
      × (type_at a two ≡ split_layout mem_size second a)
      × (count_if (holds a) two ≤ 1)
unfolding init_fs Simple.init_fs
type_at-split_layout addr_max mem_size second cpus a h k = (refl, ground arith, ground arith)
