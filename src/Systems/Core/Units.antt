-- ===== src/Systems/Core/Units.antt =====
-- gem5utils/systems/skylake/core.py: the functional units of the cores.
use v_swarm_u.Base.{ℕ, Bool, true, Option, none, some, List, [], ◌∷◌}

-- The `opClass` of an operation.
pub data OpClass : Type 0 where
  int_alu int_div float_div float_sqrt float_add float_cmp float_cvt float_mult float_mult_acc :
      OpClass
  simd_add simd_add_acc simd_alu simd_cmp simd_shift simd_shift_acc simd_reduce_add : OpClass
  simd_reduce_alu simd_reduce_cmp simd_cvt simd_misc simd_mult simd_mult_acc simd_float_add :
      OpClass
  simd_float_alu simd_float_cmp simd_float_reduce_add simd_float_reduce_cmp simd_float_cvt : OpClass
  simd_float_mult simd_float_mult_acc simd_float_div simd_float_sqrt int_mult mem_read : OpClass
  float_mem_read mem_write float_mem_write : OpClass

-- `OpDesc`; `none` stands for gem5's own value, where the source gives none.
pub record OpDesc : Type 0 where
  pub op_class : OpClass
  pub op_lat : Option ℕ
  pub pipelined : Option Bool

-- `FUDesc`
pub record FuDesc : Type 0 where
  pub op_list : List OpDesc
  pub count : ℕ

-- `OpDesc(opClass=o, opLat=n)`, and with `pipelined=True`; and without a latency.
abbrev op : OpClass → ℕ → OpDesc
op o n = record { op_class = o; op_lat = some n; pipelined = none }

abbrev pipelined_op : OpClass → ℕ → OpDesc
pipelined_op o n = record { op_class = o; op_lat = some n; pipelined = some true }

abbrev plain_op : OpClass → OpDesc
plain_op o = record { op_class = o; op_lat = none; pipelined = none }

abbrev port0 : FuDesc
port0 = record {
  op_list =
      op int_alu 1
      ∷ pipelined_op int_div 1
      ∷ pipelined_op float_div 12
      ∷ pipelined_op float_sqrt 24
      ∷ pipelined_op float_add 4
      ∷ pipelined_op float_cmp 4
      ∷ pipelined_op float_cvt 4
      ∷ pipelined_op float_mult 4
      ∷ pipelined_op float_mult_acc 5
      ∷ op simd_add 1
      ∷ op simd_add_acc 1
      ∷ op simd_alu 1
      ∷ op simd_cmp 1
      ∷ op simd_shift 1
      ∷ op simd_shift_acc 1
      ∷ op simd_reduce_add 1
      ∷ op simd_reduce_alu 1
      ∷ op simd_reduce_cmp 1
      ∷ pipelined_op simd_cvt 3
      ∷ plain_op simd_misc
      ∷ pipelined_op simd_mult 4
      ∷ pipelined_op simd_mult_acc 4
      ∷ pipelined_op simd_float_add 4
      ∷ pipelined_op simd_float_alu 4
      ∷ pipelined_op simd_float_cmp 4
      ∷ pipelined_op simd_float_reduce_add 4
      ∷ pipelined_op simd_float_reduce_cmp 4
      ∷ pipelined_op simd_float_cvt 4
      ∷ pipelined_op simd_float_mult 4
      ∷ pipelined_op simd_float_mult_acc 4
      ∷ pipelined_op simd_float_div 12
      ∷ pipelined_op simd_float_sqrt 20
      ∷ [];
  count = 1;
}

abbrev port1 : FuDesc
port1 = record {
  op_list =
      op int_alu 1
      ∷ pipelined_op int_mult 3
      ∷ pipelined_op float_add 4
      ∷ pipelined_op float_cmp 4
      ∷ pipelined_op float_cvt 4
      ∷ pipelined_op float_mult 4
      ∷ pipelined_op float_mult_acc 5
      ∷ op simd_add 1
      ∷ op simd_add_acc 1
      ∷ op simd_alu 1
      ∷ op simd_cmp 1
      ∷ op simd_shift 1
      ∷ op simd_shift_acc 1
      ∷ op simd_reduce_add 1
      ∷ op simd_reduce_alu 1
      ∷ op simd_reduce_cmp 1
      ∷ pipelined_op simd_cvt 3
      ∷ plain_op simd_misc
      ∷ pipelined_op simd_mult 4
      ∷ pipelined_op simd_mult_acc 4
      ∷ pipelined_op simd_float_add 4
      ∷ pipelined_op simd_float_alu 4
      ∷ pipelined_op simd_float_cmp 4
      ∷ pipelined_op simd_float_reduce_add 4
      ∷ pipelined_op simd_float_reduce_cmp 4
      ∷ pipelined_op simd_float_cvt 4
      ∷ pipelined_op simd_float_mult 4
      ∷ pipelined_op simd_float_mult_acc 4
      ∷ [];
  count = 1;
}

abbrev port2 : FuDesc
port2 = record { op_list = pipelined_op mem_read 1 ∷ pipelined_op float_mem_read 1 ∷ []; count = 1 }

abbrev port3 : FuDesc
port3 = record { op_list = pipelined_op mem_read 1 ∷ pipelined_op float_mem_read 1 ∷ []; count = 1 }

abbrev port4 : FuDesc
port4 = record {
  op_list = pipelined_op mem_write 1 ∷ pipelined_op float_mem_write 1 ∷ [];
  count = 1;
}

abbrev port5 : FuDesc
port5 = record {
  op_list =
      op int_alu 1
      ∷ op simd_add 1
      ∷ op simd_add_acc 1
      ∷ op simd_alu 1
      ∷ op simd_cmp 1
      ∷ op simd_shift 1
      ∷ plain_op simd_misc
      ∷ op simd_shift_acc 1
      ∷ op simd_reduce_add 1
      ∷ op simd_reduce_alu 1
      ∷ op simd_reduce_cmp 1
      ∷ pipelined_op simd_float_add 4
      ∷ pipelined_op simd_float_alu 4
      ∷ pipelined_op simd_float_cmp 4
      ∷ pipelined_op simd_float_reduce_add 4
      ∷ pipelined_op simd_float_reduce_cmp 4
      ∷ [];
  count = 1;
}

abbrev port6 : FuDesc
port6 = record {
  op_list =
      op int_alu 1
      ∷ op simd_add 1
      ∷ op simd_add_acc 1
      ∷ op simd_alu 1
      ∷ op simd_cmp 1
      ∷ op simd_shift 1
      ∷ op simd_shift_acc 1
      ∷ [];
  count = 1;
}

abbrev port7 : FuDesc
port7 = record {
  op_list = pipelined_op mem_write 1 ∷ pipelined_op float_mem_write 1 ∷ [];
  count = 1;
}

-- `ExecUnits`
abbrev pub exec_units : List FuDesc
exec_units = port0 ∷ port1 ∷ port2 ∷ port3 ∷ port4 ∷ port5 ∷ port6 ∷ port7 ∷ []
