-- ===== src/Ir/Samples.antt =====
-- Registers, integers and instructions for the tests.
use cco_lang.Base.{ℕ, false, Option, none, [], ℤ, negsuc}
use cco_lang.Ir.Types.{ir_type_i32}
use cco_lang.Ir.Instr.{
  IrValue, ir_val_const_int, ir_val_reg, no_const, int_val, IrOpcode, IrInstruction,
}

abbrev pub reg : ℕ → IrValue
reg id = record {
  kind = ir_val_reg;
  type = ir_type_i32;
  id = id;
  name = none;
  const_val = no_const;
}

abbrev pub int : ℤ → IrValue
int n = record {
  kind = ir_val_const_int;
  type = ir_type_i32;
  id = 0;
  name = none;
  const_val = int_val n;
}

abbrev pub inst : IrOpcode → Option IrValue → Option IrValue → Option IrValue → IrInstruction
inst op result lhs rhs = record {
  op = op;
  type = ir_type_i32;
  result = result;
  lhs = lhs;
  rhs = rhs;
  callee_name = none;
  args = [];
  target_true = none;
  target_false = none;
  phi = [];
  field_name = none;
  field_index = negsuc 0;
  class_name = none;
  is_array = false;
}
