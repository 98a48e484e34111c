-- ===== src/Platform/Views.antt =====
-- Views of the tables of a platform: the CPUs, the I/O APICs and the interrupts that they name.
use v_swarm_u.Base.{
  ℕ, zero, suc, ◌+◌, ◌≡◌, ◌≢◌, refl, Bool, true, false, List, [], ◌∷◌, ◌++◌, map, arith,
  if◌then◌else◌, ◌==◌, select, range, range_from, leb, ltb, ◌&&◌, Option, none, some,
}
use v_swarm_u.Platform.{
  IntType, int, ext_int, IntAssignment, MpEntry, processor, io_apic, interrupt, E820Entry,
  MadtRecord, local_apic, source_override,
}

-- The local APIC ids of the processors, in order.
abbrev pub cpu_ids : List MpEntry → List ℕ
cpu_ids [] = []
cpu_ids (processor i b ∷ es) = i ∷ cpu_ids es
cpu_ids (_ ∷ es) = cpu_ids es

-- The processors that the machine boots on.
abbrev pub boot_ids : List MpEntry → List ℕ
boot_ids [] = []
boot_ids (processor i b ∷ es) = if b then i ∷ boot_ids es else boot_ids es
boot_ids (_ ∷ es) = boot_ids es

abbrev pub apic_ids : List MpEntry → List ℕ
apic_ids [] = []
apic_ids (io_apic i a ∷ es) = i ∷ apic_ids es
apic_ids (_ ∷ es) = apic_ids es

abbrev pub assignments : List MpEntry → List IntAssignment
assignments [] = []
assignments (interrupt a ∷ es) = a ∷ assignments es
assignments (_ ∷ es) = assignments es

abbrev is_int_type : IntType → Bool
is_int_type int = true
is_int_type ext_int = false

abbrev pub is_int : IntAssignment → Bool
is_int a = is_int_type a.interrupt_type

-- An interrupt as both tables describe it: its bus, its number there, and the pin.
pub record Route : Type 0 where
  pub source : ℕ
  pub number : ℕ
  pub pin : ℕ

abbrev pub route_of : IntAssignment → Route
route_of a = record {
  source = a.source_bus_id;
  number = a.source_bus_irq;
  pin = a.dest_io_apic_intin;
}

-- The routes of the interrupts of type INT in the MP table.
abbrev pub mp_routes : List MpEntry → List Route
mp_routes es = map route_of (select is_int (assignments es))

-- The routes of the MADT.
abbrev pub madt_routes : List MadtRecord → List Route
madt_routes [] = []
madt_routes (source_override b q p ∷ rs) =
    record { source = b; number = q; pin = p } ∷ madt_routes rs
madt_routes (_ ∷ rs) = madt_routes rs

abbrev pub madt_cpu_ids : List MadtRecord → List ℕ
madt_cpu_ids [] = []
madt_cpu_ids (local_apic p i ∷ rs) = i ∷ madt_cpu_ids rs
madt_cpu_ids (_ ∷ rs) = madt_cpu_ids rs

abbrev NotIn : ℕ → List ℕ → Type 0
NotIn a [] = Unit
NotIn a (x ∷ xs) = (a ≢ x) × NotIn a xs

-- No number stands twice in the list.
abbrev pub Distinct : List ℕ → Type 0
Distinct [] = Unit
Distinct (x ∷ xs) = NotIn x xs × Distinct xs

-- The CPUs in front of a table.
module _ (rest : List MpEntry) where
  pub cpu_ids-map :
      (is : List ℕ) → cpu_ids (map (λ i. processor i (i == 0)) is ++ rest) ≡ is ++ cpu_ids rest
  cpu_ids-map [] = refl
  cpu_ids-map (i ∷ is) = ground (arith, cpu_ids-map is)

  pub boot_ids-map :
      (is : List ℕ)
      → boot_ids (map (λ i. processor i (i == 0)) is ++ rest)
        ≡ select (λ i. i == 0) is ++ boot_ids rest
  boot_ids-map [] = refl
  boot_ids-map (i ∷ is) = ground (arith, boot_ids-map is)

  pub apic_ids-map :
      (is : List ℕ) → apic_ids (map (λ i. processor i (i == 0)) is ++ rest) ≡ apic_ids rest
  apic_ids-map [] = refl
  apic_ids-map (i ∷ is) = apic_ids-map is

  pub assignments-map :
      (is : List ℕ) → assignments (map (λ i. processor i (i == 0)) is ++ rest) ≡ assignments rest
  assignments-map [] = refl
  assignments-map (i ∷ is) = assignments-map is

module _ (rest : List MadtRecord) where
  pub madt_routes-map :
      (is : List ℕ) → madt_routes (map (λ i. local_apic i i) is ++ rest) ≡ madt_routes rest
  madt_routes-map [] = refl
  madt_routes-map (i ∷ is) = madt_routes-map is

  pub madt_cpu_ids-map :
      (is : List ℕ) → madt_cpu_ids (map (λ i. local_apic i i) is ++ rest) ≡ is ++ madt_cpu_ids rest
  madt_cpu_ids-map [] = refl
  madt_cpu_ids-map (i ∷ is) = ground (arith, madt_cpu_ids-map is)

no_zero : (k n : ℕ) → select (λ i. i == 0) (range_from (k + 1) n) ≡ []
no_zero k zero = refl
no_zero k (suc n) = ground (arith, no_zero (k + 1) n)

pub zeros-range : (n : ℕ) → select (λ i. i == 0) (range (suc n)) ≡ 0 ∷ []
zeros-range n = ground (arith, no_zero 0 n)

-- Whether an entry holds an address.
abbrev pub holds : ℕ → E820Entry → Bool
holds a e = leb e.addr a && ltb a (e.addr + e.size)

-- The type of the first entry that holds an address.
abbrev pub type_at : ℕ → List E820Entry → Option ℕ
type_at a [] = none
type_at a (e ∷ es) = if holds a e then some e.range_type else type_at a es
