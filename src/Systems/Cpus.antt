-- ===== src/Systems/Cpus.antt =====
-- The CPUs that `createCPU` makes, their event queues, and the pairs that are switched.
use v_swarm_u.Base.{
  ℕ, zero, suc, ◌+◌, ◌≡◌, refl, Bool, true, false, List, map, range, range_from, replicate, zip,
  arith, if◌then◌else◌,
}
use v_swarm_u.Systems.{
  CpuModel, atomic_simple_cpu, Cpu, create_cpus, create_atomic_cpus, number_queues, assign_queues,
}

abbrev pub queues : List Cpu → List ℕ
queues = map (λ c. c.eventq_index)

-- The numbers of the two CPUs of a pair, and whether they are switched out.
abbrev pub pair_ids : Cpu × Cpu → ℕ × ℕ
pair_ids (old, new) = (old.cpu_id, new.cpu_id)

abbrev pub pair_states : Cpu × Cpu → Bool × Bool
pair_states (old, new) = (old.switched_out, new.switched_out)

abbrev main_cpu : CpuModel → ℕ → Cpu
main_cpu model i = record { cpu_id = i; model = model; switched_out = false; eventq_index = 0 }

abbrev atomic_cpu : ℕ → Cpu
atomic_cpu i = record {
  cpu_id = i;
  model = atomic_simple_cpu;
  switched_out = true;
  eventq_index = 0;
}

queues-number :
    (model : CpuModel) (i first n : ℕ)
    → queues (number_queues i (map (main_cpu model) (range_from first n))) ≡ range_from (i + 1) n
unfolding number_queues
queues-number model i first zero = refl
queues-number model i first (suc n) = ground (arith, queues-number model (i + 1) (first + 1) n)

queues-shared :
    (model : CpuModel) (first n : ℕ)
    → queues (map (main_cpu model) (range_from first n)) ≡ replicate n 0
queues-shared model first zero = refl
queues-shared model first (suc n) = ground (arith, queues-shared model (first + 1) n)

-- The event queues of the CPUs: 1, 2 and so on, or all 0.
pub queues-assign :
    (parallel : Bool) (n : ℕ) (model : CpuModel)
    → queues (assign_queues parallel (create_cpus n model))
      ≡ (if parallel then range_from 1 n else replicate n 0)
queues-assign true n model = queues-number model 0 0 n
queues-assign false n model = queues-shared model 0 n

module _ (model : CpuModel) where
  numbered_ids :
      (i first n : ℕ)
      → map pair_ids (
          zip
            (number_queues i (map (main_cpu model) (range_from first n)))
            (map atomic_cpu (range_from first n)))
        ≡ map (λ k. (k, k)) (range_from first n)
  unfolding number_queues
  numbered_ids i first zero = refl
  numbered_ids i first (suc n) = ground (arith, numbered_ids (i + 1) (first + 1) n)

  plain_ids :
      (first n : ℕ)
      → map pair_ids
          (zip (map (main_cpu model) (range_from first n)) (map atomic_cpu (range_from first n)))
        ≡ map (λ k. (k, k)) (range_from first n)
  plain_ids first zero = refl
  plain_ids first (suc n) = ground (arith, plain_ids (first + 1) n)

  numbered_states :
      (i first n : ℕ)
      → map pair_states (
          zip
            (number_queues i (map (main_cpu model) (range_from first n)))
            (map atomic_cpu (range_from first n)))
        ≡ replicate n (false, true)
  unfolding number_queues
  numbered_states i first zero = refl
  numbered_states i first (suc n) = ground (arith, numbered_states (i + 1) (first + 1) n)

  plain_states :
      (first n : ℕ)
      → map pair_states
          (zip (map (main_cpu model) (range_from first n)) (map atomic_cpu (range_from first n)))
        ≡ replicate n (false, true)
  plain_states first zero = refl
  plain_states first (suc n) = ground (arith, plain_states (first + 1) n)

  pub pairs_ids :
      (parallel : Bool) (n : ℕ)
      → map pair_ids (zip (assign_queues parallel (create_cpus n model)) (create_atomic_cpus n))
        ≡ map (λ k. (k, k)) (range n)
  pairs_ids true n = numbered_ids 0 0 n
  pairs_ids false n = plain_ids 0 n

  pub pairs_states :
      (parallel : Bool) (n : ℕ)
      → map pair_states (zip (assign_queues parallel (create_cpus n model)) (create_atomic_cpus n))
        ≡ replicate n (false, true)
  pairs_states true n = numbered_states 0 0 n
  pairs_states false n = plain_states 0 n
