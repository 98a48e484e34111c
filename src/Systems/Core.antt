-- ===== src/Systems/Core.antt =====
-- gem5utils/systems/skylake/core.py: the cores and their branch predictor.
pub mod Units
use v_swarm_u.Base.{ℕ, zero, suc, ◌*◌, Option, none, some, List, [], ◌∷◌}
use v_swarm_u.Systems.Core.Units.{OpDesc, FuDesc, exec_units}

-- `IndirectPred`
pub record IndirectPred : Type 0 where
  pub indirect_sets : ℕ
  pub indirect_ways : ℕ
  pub indirect_tag_size : ℕ
  pub indirect_path_length : ℕ
  pub indirect_ghr_bits : ℕ

abbrev indirect_pred : IndirectPred
indirect_pred = record {
  indirect_sets = 128;
  indirect_ways = 4;
  indirect_tag_size = 16;
  indirect_path_length = 7;
  indirect_ghr_bits = 16;
}

-- `LTAGE_BP`
pub record LtageBp : Type 0 where
  pub n_history_tables : ℕ
  pub min_hist : ℕ
  pub max_hist : ℕ
  pub tag_table_tag_widths : List ℕ
  pub log_tag_table_sizes : List ℕ
  pub log_u_reset_period : ℕ

abbrev ltage_bp : LtageBp
ltage_bp = record {
  n_history_tables = 12;
  min_hist = 4;
  max_hist = 34;
  tag_table_tag_widths = 0 ∷ 7 ∷ 7 ∷ 8 ∷ 8 ∷ 9 ∷ 10 ∷ 11 ∷ 12 ∷ 12 ∷ 13 ∷ 14 ∷ 15 ∷ [];
  log_tag_table_sizes = 14 ∷ 10 ∷ 10 ∷ 11 ∷ 11 ∷ 11 ∷ 11 ∷ 10 ∷ 10 ∷ 10 ∷ 10 ∷ 9 ∷ 9 ∷ [];
  log_u_reset_period = 19;
}

-- `BranchPred`
pub record BranchPred : Type 0 where
  pub indirect_branch_pred : IndirectPred
  pub tage : LtageBp

abbrev branch_pred : BranchPred
branch_pred = record { indirect_branch_pred = indirect_pred; tage = ltage_bp }

-- A core; `none` stands for gem5's own value, where the source gives none.
pub record Core : Type 0 where
  pub branch_pred : BranchPred
  pub fetch_to_decode_delay : ℕ
  pub decode_to_rename_delay : ℕ
  pub rename_to_iew_delay : ℕ
  pub issue_to_execute_delay : Option ℕ
  pub iew_to_commit_delay : ℕ
  pub forward_com_size : ℕ
  pub back_com_size : ℕ
  pub fetch_width : ℕ
  pub decode_width : ℕ
  pub rename_width : ℕ
  pub dispatch_width : ℕ
  pub issue_width : ℕ
  pub wb_width : ℕ
  pub commit_width : ℕ
  pub squash_width : ℕ
  pub fetch_buffer_size : ℕ
  pub fetch_queue_size : ℕ
  pub num_rob_entries : ℕ
  pub num_iq_entries : ℕ
  pub lq_entries : ℕ
  pub sq_entries : ℕ
  pub num_phys_int_regs : ℕ
  pub num_phys_float_regs : ℕ
  pub fu_pool : List FuDesc

-- An assignment to an element of a list; `none` is an IndexError.
abbrev set_at : {A : Type 0} → ℕ → (A → Option A) → List A → Option (List A)
set_at i f [] = none
set_at zero f (a ∷ as') = elim (f a) [ none ↦ none | some b ↦ some (b ∷ as') ]
set_at (suc i) f (a ∷ as') = elim (set_at i f as') [ none ↦ none | some bs ↦ some (a ∷ bs) ]

-- `fuPool.FUList[i].count = n`
abbrev set_count : ℕ → ℕ → List FuDesc → Option (List FuDesc)
set_count i n = set_at i (λ u. some (record u { count = n }))

-- `opList[j].opLat = n`
abbrev set_lat_of : ℕ → ℕ → FuDesc → Option FuDesc
set_lat_of j n u = elim (set_at j (λ (o : OpDesc). some (record o { op_lat = some n })) u.op_list) [
  | none ↦ none
  | some ops ↦ some (record u { op_list = ops })
]

-- `fuPool.FUList[i].opList[j].opLat = n`
abbrev set_op_lat : ℕ → ℕ → ℕ → List FuDesc → Option (List FuDesc)
set_op_lat i j n = set_at i (set_lat_of j n)

-- Assignments one after the other.
abbrev assign : List (List FuDesc → Option (List FuDesc)) → List FuDesc → Option (List FuDesc)
assign [] pool = some pool
assign (f ∷ fs) pool = elim (f pool) [ none ↦ none | some new ↦ assign fs new ]

-- The pool of `SklTunedCPU`.
abbrev tuned_pool : Option (List FuDesc)
tuned_pool =
    assign
      (set_op_lat 0 1 2 ∷ set_op_lat 1 1 2 ∷ set_count 2 12 ∷ set_count 4 12 ∷ set_count 6 3 ∷ [])
      exec_units

-- The pool of `UnconstrainedCPU`.
abbrev unconstrained_pool : Option (List FuDesc)
unconstrained_pool =
    assign
      (set_count 0 4
        ∷ set_count 1 4
        ∷ set_count 2 4
        ∷ set_count 3 4
        ∷ set_count 4 4
        ∷ set_count 5 4
        ∷ set_count 6 4
        ∷ set_count 7 4
        ∷ set_op_lat 0 1 2
        ∷ set_op_lat 1 1 2
        ∷ [])
      exec_units

-- The module's `depth`, and `width` where the classes `SklVerbatimCPU` and `SklTunedCPU` are made.
abbrev depth : ℕ
depth = 3

abbrev width : ℕ
width = 4

-- `width` where the class `UnconstrainedCPU` is made.
abbrev wide : ℕ
wide = 32

-- `SklVerbatimCPU`
abbrev skl_verbatim_cpu : Core
skl_verbatim_cpu = record {
  branch_pred = branch_pred;
  fetch_to_decode_delay = depth;
  decode_to_rename_delay = 1;
  rename_to_iew_delay = 3 * depth;
  issue_to_execute_delay = none;
  iew_to_commit_delay = 2 * depth;
  forward_com_size = 19;
  back_com_size = 19;
  fetch_width = width;
  decode_width = width;
  rename_width = 2 * width;
  dispatch_width = 2 * width;
  issue_width = 2 * width;
  wb_width = 2 * width;
  commit_width = 2 * width;
  squash_width = 2 * width;
  fetch_buffer_size = 16;
  fetch_queue_size = 50;
  num_rob_entries = 224;
  num_iq_entries = 97;
  lq_entries = 72;
  sq_entries = 56;
  num_phys_int_regs = 180;
  num_phys_float_regs = 168;
  fu_pool = exec_units;
}

-- `SklTunedCPU`, with the pool that its assignments make.
abbrev pub skl_tuned_cpu : List FuDesc → Core
skl_tuned_cpu pool = record {
  branch_pred = branch_pred;
  fetch_to_decode_delay = depth;
  decode_to_rename_delay = 1;
  rename_to_iew_delay = 3 * depth;
  issue_to_execute_delay = some 1;
  iew_to_commit_delay = 2 * depth;
  forward_com_size = 19;
  back_com_size = 19;
  fetch_width = width * 2;
  decode_width = width * 2;
  rename_width = 3 * width;
  dispatch_width = 2 * width;
  issue_width = 2 * width;
  wb_width = 2 * width;
  commit_width = 2 * width;
  squash_width = 3 * width;
  fetch_buffer_size = 16;
  fetch_queue_size = 64;
  num_rob_entries = 336;
  num_iq_entries = 146;
  lq_entries = 72 * 2;
  sq_entries = 56 * 2;
  num_phys_int_regs = 270;
  num_phys_float_regs = 252;
  fu_pool = pool;
}

-- `UnconstrainedCPU`, likewise
abbrev unconstrained_cpu : List FuDesc → Core
unconstrained_cpu pool = record {
  branch_pred = branch_pred;
  fetch_to_decode_delay = depth;
  decode_to_rename_delay = 2;
  rename_to_iew_delay = 3 * depth;
  issue_to_execute_delay = some 1;
  iew_to_commit_delay = 2 * depth;
  forward_com_size = 12;
  back_com_size = 12;
  fetch_width = wide;
  decode_width = wide;
  rename_width = wide;
  dispatch_width = wide;
  issue_width = wide;
  wb_width = wide;
  commit_width = wide;
  squash_width = wide;
  fetch_buffer_size = 64;
  fetch_queue_size = 128;
  num_rob_entries = 1024;
  num_iq_entries = 512;
  lq_entries = 256;
  sq_entries = 224;
  num_phys_int_regs = 336;
  num_phys_float_regs = 256;
  fu_pool = pool;
}
