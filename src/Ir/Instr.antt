-- ===== src/Ir/Instr.antt =====
-- Values, instructions, blocks and functions: src/ir/ir.h and ir.c.
use cco_lang.Base.{
  ℕ, Bool, true, false, ◌||◌, ◌==◌, Option, none, some, List, [], ◌∷◌, String, str_eq,
  if◌then◌else◌, ℤ,
}
use cco_lang.Ir.Types.{IrType}

pub data IrValueKind : Type 0 where
  ir_val_const_int ir_val_const_float ir_val_const_bool ir_val_const_char : IrValueKind
  ir_val_const_string ir_val_reg ir_val_var ir_val_param ir_val_global : IrValueKind

-- The union `const_val`; a double is its bit pattern.
pub data ConstVal : Type 0 where
  no_const : ConstVal
  int_val : ℤ → ConstVal
  float_val : ℕ → ConstVal
  bool_val : Bool → ConstVal
  char_val : ℕ → ConstVal
  str_val : String → ConstVal

-- The ids of registers count up from 0.
pub record IrValue : Type 0 where
  pub kind : IrValueKind
  pub type : IrType
  pub id : ℕ
  pub name : Option String
  pub const_val : ConstVal

abbrev pub is_reg : IrValueKind → Bool
is_reg ir_val_reg = true
is_reg _ = false

pub data IrOpcode : Type 0 where
  ir_op_alloca ir_op_load ir_op_store ir_op_const ir_op_add ir_op_sub ir_op_mul ir_op_div : IrOpcode
  ir_op_mod ir_op_neg ir_op_eq ir_op_ne ir_op_lt ir_op_le ir_op_gt ir_op_ge ir_op_and : IrOpcode
  ir_op_or ir_op_not ir_op_get_field ir_op_set_field ir_op_get_index ir_op_set_index : IrOpcode
  ir_op_call ir_op_print ir_op_alloc ir_op_free ir_op_release ir_op_phi ir_op_br : IrOpcode
  ir_op_condbr ir_op_ret : IrOpcode

unfoldable pub ir_is_terminator : IrOpcode → Bool
ir_is_terminator ir_op_br = true
ir_is_terminator ir_op_condbr = true
ir_is_terminator ir_op_ret = true
ir_is_terminator _ = false

abbrev pub is_phi : IrOpcode → Bool
is_phi ir_op_phi = true
is_phi _ = false

-- A block is known by its id.
pub record IrInstruction : Type 0 where
  pub op : IrOpcode
  pub type : IrType
  pub result : Option IrValue
  pub lhs : Option IrValue
  pub rhs : Option IrValue
  pub callee_name : Option String
  pub args : List IrValue
  pub target_true : Option ℕ
  pub target_false : Option ℕ
  pub phi : List (Option ℕ × Option IrValue)
  pub field_name : Option String
  pub field_index : ℤ
  pub class_name : Option String
  pub is_array : Bool

pub record IrBasicBlock : Type 0 where
  pub name : String
  pub id : ℕ
  pub insts : List IrInstruction
  pub predecessors : List ℕ
  pub successors : List ℕ

pub record IrFunction : Type 0 where
  pub name : String
  pub return_type : IrType
  pub param_names : List String
  pub param_types : List IrType
  pub entry_block : Option ℕ
  pub blocks : List IrBasicBlock
  pub next_reg_id : ℕ
  pub next_block_id : ℕ

unfoldable pub ir_module_find_function : List IrFunction → String → Option IrFunction
ir_module_find_function [] name = none
ir_module_find_function (fn ∷ rest) name =
    if str_eq fn.name name then some fn else ir_module_find_function rest name

unfoldable pub block_exists_in_fn : List IrBasicBlock → ℕ → Bool
block_exists_in_fn [] target = false
block_exists_in_fn (b ∷ rest) target = b.id == target || block_exists_in_fn rest target
