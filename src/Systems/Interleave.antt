-- ===== src/Systems/Interleave.antt =====
-- gem5utils/systems/skylake/system.py: `_getInterleaveRanges`.
pub mod Laws
use v_swarm_u.Base.{
  ℕ, zero, suc, ◌+◌, ◌-◌, ◌/◌, ◌^◌, Option, none, some, List, map, range, ◌==◌, ltb, if◌then◌else◌,
}
use v_swarm_u.Systems.{MemRange}

-- `int(log(num, 2))`, on fuel; `num` rounds are enough.
unfoldable pub log_floor : ℕ → ℕ → ℕ
log_floor zero n = 0
log_floor (suc f) n = let rest = log_floor f (n / 2) in if ltb n 2 then 0 else suc rest

-- The range of controller `i`.
abbrev pub interleaved : MemRange → ℕ → ℕ → ℕ → ℕ → MemRange
interleaved rng bits intlv_low_bit xor_low_bit i = record {
  start = rng.start;
  last = rng.last;
  intlv_high_bit = intlv_low_bit + bits - 1;
  xor_high_bit = xor_low_bit + bits - 1;
  intlv_bits = bits;
  intlv_match = i;
}

-- `none` is the call of `m5.fatal`.
unfoldable pub get_interleave_ranges : MemRange → ℕ → ℕ → ℕ → Option (List MemRange)
unfolding log_floor
get_interleave_ranges rng num intlv_low_bit xor_low_bit =
    let bits = log_floor num num in
    if 2 ^ bits == num
    then some (map (interleaved rng bits intlv_low_bit xor_low_bit) (range num))
    else none
