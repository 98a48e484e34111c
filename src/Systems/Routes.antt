-- ===== src/Systems/Routes.antt =====
-- The routes that requests take over the links of a system.
use mathlib.Core.List.{Memᴰ}
use mathlib.Core.List.Memᴰ
use v_swarm_u.Base.{
  get_elem?, Bool, true, false, some, ℕ, zero, suc, ◌+◌, ◌≤◌, ◌<◌, ◌≡◌, refl, List, [], ◌∷◌, range,
  range_from, flat_map, arith, inl, inr, ◌⊎◌,
}
use v_swarm_u.Systems.{
  CpuPort, icache_port, dcache_port, itb_walker, dtb_walker, int_requestor, pio, int_responder,
  connect_cpu, connect_cpu_directly, llc_bus, membus, cpu_port, setup_interrupts, interrupt_links,
  CacheName, Bus, Port, cpu_side, mem_side, cpu_side_ports, mem_side_ports, Link, link,
}

-- A request at the first port can get to the second: over a link, from the CPU side of a cache or a
-- bus to its memory side, or in several such steps.
pub data Reaches (ls : List Link) : Port → Port → Type 0 where
  arrived : {p : Port} → Reaches ls p p
  over : {p q r : Port} → Memᴰ (link p q) ls → Reaches ls q r → Reaches ls p r
  through_cache : {c : CacheName} {r : Port} → Reaches ls (mem_side c) r → Reaches ls (cpu_side c) r
  through_bus :
      {b : Bus} {r : Port} → Reaches ls (mem_side_ports b) r → Reaches ls (cpu_side_ports b) r

-- What a round of a loop appends is in the list after the loop.
in_rounds {ℓ} :
    {A : Type ℓ} (f : ℕ → List A) (a : A) (first n k : ℕ)
    → k < n
    → Memᴰ a (f (first + k))
    → Memᴰ a (flat_map f (range_from first n))
in_rounds f a first zero k h m = absurd (omega (arith, h))
in_rounds f a first (suc n) zero h m =
    Memᴰ.append_left _ (let e : first + 0 ≡ first = omega arith in coe 0 1 (j. Memᴰ a (f (e j))) m)
in_rounds f a first (suc n) (suc k) h m =
    let e : first + suc k ≡ (first + 1) + k = omega arith in
    Memᴰ.append_right (f first)
      (in_rounds f a (first + 1) n k (omega (arith, h)) (coe 0 1 (j. Memᴰ a (f (e j))) m))

pub in_loop {ℓ} :
    {A : Type ℓ} (f : ℕ → List A) {a : A} (n i : ℕ)
    → i < n
    → Memᴰ a (f i)
    → Memᴰ a (flat_map f (range n))
in_loop f {a} n i h m =
    let e : i ≡ 0 + i = omega arith in in_rounds f a 0 n i h (coe 0 1 (j. Memᴰ a (f (e j))) m)

in_range_from : (first n j : ℕ) → first ≤ j → j < first + n → Memᴰ j (range_from first n)
in_range_from first zero j lo hi = absurd (omega (arith, lo, hi))
in_range_from first (suc n) j lo hi =
    let cases : (j ≡ first) ⊎ (first + 1 ≤ j) = ground (arith, lo) in
    elim cases [
      | inl e ↦ Memᴰ.head e
      | inr above ↦ Memᴰ.tail (in_range_from (first + 1) n j above (omega (arith, hi)))
    ]

pub in_range : (n j : ℕ) → j < n → Memᴰ j (range n)
in_range n j h = in_range_from 0 n j (omega arith) (omega (arith, h))

-- The element at a position.
pub in_at {ℓ} : {A : Type ℓ} (k : ℕ) (xs : List A) {a : A} → get_elem? xs k ≡ some a → Memᴰ a xs
in_at k [] h = absurd (cc h)
in_at zero (x ∷ xs) h = Memᴰ.head (cc h)
in_at (suc k) (x ∷ xs) h = Memᴰ.tail (in_at k xs h)

-- The ports of a CPU that send requests.
abbrev pub is_request : CpuPort → Bool
is_request pio = false
is_request int_responder = false
is_request _ = true

-- A route for each request port of a CPU.
pub request-Reaches :
    {ls : List Link} {i : ℕ} {target : Port}
    → Reaches ls (cpu_port i icache_port) target
    → Reaches ls (cpu_port i dcache_port) target
    → Reaches ls (cpu_port i itb_walker) target
    → Reaches ls (cpu_port i dtb_walker) target
    → Reaches ls (cpu_port i int_requestor) target
    → (port : CpuPort) → is_request port ≡ true
    → Reaches ls (cpu_port i port) target
request-Reaches a b c d e icache_port h = a
request-Reaches a b c d e dcache_port h = b
request-Reaches a b c d e itb_walker h = c
request-Reaches a b c d e dtb_walker h = d
request-Reaches a b c d e int_requestor h = e
request-Reaches a b c d e pio h = absurd (cc h)
request-Reaches a b c d e int_responder h = absurd (cc h)

-- The link of the interrupt requests of a CPU.
pub in_interrupts :
    (n i : ℕ)
    → i < n
    → Memᴰ (link (cpu_port i int_requestor) (cpu_side_ports membus)) (setup_interrupts n)
unfolding setup_interrupts interrupt_links
in_interrupts n i h = in_loop interrupt_links n i h (in_at 1 _ refl)

-- Over the links of `connectCPUDirectly`, each request port of a CPU reaches what the memory bus
-- reaches.
pub direct-Reaches :
    (ls : List Link) (n i : ℕ) (target : Port)
    → i < n
    → ((l : Link) → Memᴰ l (connect_cpu_directly n) → Memᴰ l ls)
    → Memᴰ (link (cpu_port i int_requestor) (cpu_side_ports membus)) ls
    → Reaches ls (cpu_side_ports membus) target
    → (port : CpuPort) → is_request port ≡ true
    → Reaches ls (cpu_port i port) target
unfolding connect_cpu connect_cpu_directly
direct-Reaches ls n i target h direct interrupt memory =
    request-Reaches (over (round 0 refl) shared) (over (round 1 refl) shared)
      (over (round 2 refl) shared) (over (round 3 refl) shared) (over interrupt memory)
  where
    round : (k : ℕ) {l : Link} → get_elem? (connect_cpu i) k ≡ some l → Memᴰ l ls
    round k e = direct _ (Memᴰ.tail (Memᴰ.tail (in_loop connect_cpu n i h (in_at k _ e))))

    shared : Reaches ls (cpu_side_ports llc_bus) target
    shared =
        through_bus (
          over (direct _ (in_at 1 _ refl))
            (through_cache (over (direct _ (in_at 0 _ refl)) memory)))
