-- ===== src/Systems/Interleave/Laws.antt =====
-- The interleaved ranges of the memory controllers share the memory out.
use v_swarm_u.Base.{
  ℕ, zero, suc, ◌+◌, ◌-◌, ◌/◌, ◌%◌, ◌^◌, ◌≤◌, ◌<◌, ◌≡◌, ◌≢◌, refl, Bool, true, ◌&&◌, none, some,
  List, map, range, range_from, count_if, length, ◌==◌, ltb, leb, if◌then◌else◌, arith, ap,
}
use v_swarm_u.Systems.{MemRange}
use v_swarm_u.Systems.Interleave.{log_floor, interleaved, get_interleave_ranges}

pub pow_pos : (k : ℕ) → 0 < 2 ^ k
pow_pos zero = omega arith
pow_pos (suc k) = omega (arith, pow_pos k)

lt_pow : (k : ℕ) → k < 2 ^ k
lt_pow zero = omega arith
lt_pow (suc k) = omega (arith, lt_pow k)

half_pow : (k : ℕ) → 2 ^ suc k / 2 ≡ 2 ^ k
half_pow k = omega arith

log_floor-pow : (f k : ℕ) → k ≤ f → log_floor f (2 ^ k) ≡ k
unfolding log_floor
log_floor-pow zero k h = omega (arith, h)
log_floor-pow (suc f) zero h = refl
log_floor-pow (suc f) (suc k) h =
    rw (half_pow k, log_floor-pow f k (omega (arith, h))) (ground (arith, pow_pos k))

length-map_range : (f : ℕ → MemRange) (first n : ℕ) → length (map f (range_from first n)) ≡ n
length-map_range f first zero = refl
length-map_range f first (suc n) = ap suc (length-map_range f (first + 1) n)

==_refl : (n : ℕ) → (n == n) ≡ true
==_refl n = ground arith

-- The ranges for a power of two of controllers.
pub get_interleave_ranges-pow :
    (rng : MemRange) (k low xor : ℕ)
    → get_interleave_ranges rng (2 ^ k) low xor
      ≡ some (map (interleaved rng k low xor) (range (2 ^ k)))
unfolding get_interleave_ranges
get_interleave_ranges-pow rng k low xor =
    rw (log_floor-pow (2 ^ k) k (omega (arith, lt_pow k)), ==_refl (2 ^ k)) refl

-- Whether gem5 sends an address to a controller: it lies in the range, and what `selector` reads of
-- it at the two positions is the number of the controller.
module _ (selector : ℕ → ℕ → ℕ → ℕ → ℕ) where
  abbrev pub serves : ℕ → MemRange → Bool
  serves a r =
      leb r.start a
      && ltb a r.last
      && (selector r.intlv_high_bit r.xor_high_bit r.intlv_bits a == r.intlv_match)

  -- Of the controllers from `first` on, one serves an address of the range, if its number is
  -- among theirs.
  count_if-serves :
      (rng : MemRange) (bits low xor a first n : ℕ)
      → rng.start ≤ a
      → a < rng.last
      → let s = selector (low + bits - 1) (xor + bits - 1) bits a in
        count_if (serves a) (map (interleaved rng bits low xor) (range_from first n))
        ≡ (if leb first s && ltb s (first + n) then 1 else 0)
  count_if-serves rng bits low xor a first zero lo hi = ground arith
  count_if-serves rng bits low xor a first (suc n) lo hi =
      ground (arith, count_if-serves rng bits low xor a (first + 1) n lo hi)

  -- Which of the controllers serve an address of the range.
  map-serves :
      (rng : MemRange) (bits low xor a first n : ℕ)
      → rng.start ≤ a
      → a < rng.last
      → let s = selector (low + bits - 1) (xor + bits - 1) bits a in
        map (serves a) (map (interleaved rng bits low xor) (range_from first n))
        ≡ map (λ m. s == m) (range_from first n)
  map-serves rng bits low xor a first zero lo hi = refl
  map-serves rng bits low xor a first (suc n) lo hi =
      ground (arith, map-serves rng bits low xor a (first + 1) n lo hi)

-- The `bits` bits of an address whose highest is the bit `high`.
abbrev pub field : ℕ → ℕ → ℕ → ℕ
field high bits a = a / 2 ^ (high + 1 - bits) % 2 ^ bits

field-low : (low k a : ℕ) → 0 < low → field (low + k - 1) k a ≡ a / 2 ^ low % 2 ^ k
field-low low k a h = let e : low + k - 1 + 1 - k ≡ low = omega (arith, h) in rw e refl

field_lt : (high bits a : ℕ) → field high bits a < 2 ^ bits
field_lt high bits a = omega (arith, pow_pos bits)

-- What gem5 documents of an interleaved range: the controller of an address is the exclusive or of
-- the bits that end with the bit `intlvHighBit` and of as many that end with `xorHighBit`.
module _ (selector : ℕ → ℕ → ℕ → ℕ → ℕ) (exclusive_or : ℕ → ℕ → ℕ)
    (selects : (high high_xor bits a : ℕ)
      → selector high high_xor bits a ≡ exclusive_or (field high bits a) (field high_xor bits a))
    (exclusive_or_lt : (bits x y : ℕ)
      → x < 2 ^ bits
      → y < 2 ^ bits
      → exclusive_or x y < 2 ^ bits) where
  -- For a power of two of controllers and low bits above the bit 0, where gem5 chooses the
  -- controller as it documents, there is one range for each controller. An address of the memory is
  -- served by exactly one of them: by the one whose number is the exclusive or of the `k` bits of the
  -- address from `low` on and of the `k` bits from `xor` on.
  pub ranges-serve_once :
      (rng : MemRange) (k low xor a : ℕ)
      → 0 < low
      → 0 < xor
      → rng.start ≤ a
      → a < rng.last
      → (rs : List MemRange) × (get_interleave_ranges rng (2 ^ k) low xor ≡ some rs)
        × (length rs ≡ 2 ^ k)
        × (count_if (serves selector a) rs ≡ 1)
        × (map (serves selector a) rs
            ≡ map
                (λ m. exclusive_or (a / 2 ^ low % 2 ^ k) (a / 2 ^ xor % 2 ^ k) == m)
                (range (2 ^ k)))
  ranges-serve_once rng k low xor a low_pos xor_pos lo hi =
      let high = low + k - 1 in
      let high_xor = xor + k - 1 in
      (
        map (interleaved rng k low xor) (range (2 ^ k)),
        get_interleave_ranges-pow rng k low xor,
        length-map_range (interleaved rng k low xor) 0 (2 ^ k),
        ground (
          arith,
          count_if-serves selector rng k low xor a 0 (2 ^ k) lo hi,
          selects high high_xor k a,
          exclusive_or_lt k (field high k a) (field high_xor k a) (field_lt high k a)
              (field_lt high_xor k a),
        ),
        rw
            (
              map-serves selector rng k low xor a 0 (2 ^ k) lo hi,
              selects high high_xor k a,
              field-low low k a low_pos,
              field-low xor k a xor_pos,
            )
            refl,
      )

-- For a number of controllers that is no power of two, the script ends with a fatal error.
ranges-fatal :
    (rng : MemRange) (num low xor : ℕ)
    → ((k : ℕ) → num ≢ 2 ^ k)
    → get_interleave_ranges rng num low xor ≡ none
unfolding get_interleave_ranges
ranges-fatal rng num low xor h = ground (arith, h (log_floor num num))
