-- ===== src/Ir/Verify.antt =====
-- The verifier of a function and a module: src/ir/ir_verify.c.
pub mod Flow
use cco_lang.Base.{
  ℕ, suc, ◌+◌, Bool, true, false, ◌&&◌, ◌||◌, not, ◌==◌, Option, none, some, List, [], ◌∷◌, String,
  length, if◌then◌else◌,
}
use cco_lang.Ir.Types.{
  IrType, is_void_type, is_bool_type, is_ptr_type, is_numeric_type, elem_type, ir_type_equals,
}
use cco_lang.Ir.Instr.{
  IrValue, IrOpcode, ir_op_alloca, ir_op_load, ir_op_store, ir_op_const, ir_op_add, ir_op_sub,
  ir_op_mul, ir_op_div, ir_op_mod, ir_op_neg, ir_op_eq, ir_op_ne, ir_op_lt, ir_op_le, ir_op_gt,
  ir_op_ge, ir_op_and, ir_op_or, ir_op_not, ir_op_get_field, ir_op_set_field, ir_op_get_index,
  ir_op_set_index, ir_op_call, ir_op_print, ir_op_alloc, ir_op_free, ir_op_release, ir_op_phi,
  ir_op_br, ir_op_condbr, ir_op_ret, ir_is_terminator, is_phi, IrInstruction, IrBasicBlock,
  IrFunction, ir_module_find_function, block_exists_in_fn,
}
use cco_lang.Ir.Check.{
  refuse, require, first_error, differ, elem_differs, verify_alloca, verify_load, verify_store,
  verify_const, verify_incoming, no_incoming, verify_phi, verify_arithmetic, verify_neg,
  verify_comparison, verify_logical, verify_not, verify_args, verify_signature, verify_call,
  verify_br, verify_condbr, returns_value, verify_ret, verify_print, verify_free,
}

-- What an instruction is checked against: the module's functions, the function's return type and its
-- blocks.
pub record Place : Type 0 where
  pub fns : List IrFunction
  pub return_type : IrType
  pub blocks : List IrBasicBlock

unfoldable pub verify_op : IrOpcode → Place → IrInstruction → Option String
verify_op ir_op_alloca at inst = verify_alloca inst
verify_op ir_op_load at inst = verify_load inst
verify_op ir_op_store at inst = verify_store inst
verify_op ir_op_const at inst = verify_const inst
verify_op ir_op_phi at inst = verify_phi inst
verify_op ir_op_add at inst = verify_arithmetic inst
verify_op ir_op_sub at inst = verify_arithmetic inst
verify_op ir_op_mul at inst = verify_arithmetic inst
verify_op ir_op_div at inst = verify_arithmetic inst
verify_op ir_op_mod at inst = verify_arithmetic inst
verify_op ir_op_neg at inst = verify_neg inst
verify_op ir_op_eq at inst = verify_comparison inst
verify_op ir_op_ne at inst = verify_comparison inst
verify_op ir_op_lt at inst = verify_comparison inst
verify_op ir_op_le at inst = verify_comparison inst
verify_op ir_op_gt at inst = verify_comparison inst
verify_op ir_op_ge at inst = verify_comparison inst
verify_op ir_op_and at inst = verify_logical inst
verify_op ir_op_or at inst = verify_logical inst
verify_op ir_op_not at inst = verify_not inst
verify_op ir_op_call at inst = verify_call at.fns inst
verify_op ir_op_br at inst = verify_br at.blocks inst
verify_op ir_op_condbr at inst = verify_condbr at.blocks inst
verify_op ir_op_ret at inst = verify_ret at.return_type inst
verify_op ir_op_print at inst = verify_print inst
verify_op ir_op_free at inst = verify_free inst
verify_op ir_op_release at inst = verify_free inst
verify_op _ at inst = none

abbrev pub verify_instruction : Place → IrInstruction → Option String
verify_instruction at inst = verify_op inst.op at inst

abbrev pub is_last : List IrInstruction → Bool
is_last [] = true
is_last (inst ∷ rest) = false

-- The loop over a block, and what is asked of its last instruction.
unfoldable pub verify_insts : Place → Bool → List IrInstruction → Option String
verify_insts at seen_non_phi [] = none
verify_insts at seen_non_phi (inst ∷ rest) =
    refuse (is_phi inst.op && seen_non_phi)
      "phi instruction appears after non-phi instruction in basic block"
      (refuse (ir_is_terminator inst.op && not (is_last rest))
        "terminator instruction must be the last instruction in basic block"
        (first_error (verify_instruction at inst)
          (verify_insts at (not (is_phi inst.op) || seen_non_phi) rest)))

unfoldable pub last_inst : IrInstruction → List IrInstruction → IrInstruction
last_inst inst [] = inst
last_inst inst (next ∷ rest) = last_inst next rest

unfoldable pub verify_block : Place → List IrInstruction → Option String
verify_block at [] = some "basic block has no instructions"
verify_block at (inst ∷ rest) = first_error (verify_insts at false (inst ∷ rest)) (
    refuse (not (ir_is_terminator (last_inst inst rest).op))
      "basic block does not end with a terminator instruction" none)

unfoldable pub verify_blocks : Place → List IrBasicBlock → Option String
verify_blocks at [] = none
verify_blocks at (bb ∷ rest) = first_error (verify_block at bb.insts) (verify_blocks at rest)

abbrev pub is_entry : Option ℕ → ℕ → Bool
is_entry none first = false
is_entry (some entry) first = entry == first

unfoldable pub verify_from_entry : Option ℕ → Place → List IrBasicBlock → Option String
verify_from_entry entry at [] = some "function has no basic blocks"
verify_from_entry entry at (first ∷ rest) =
    refuse (not (is_entry entry first.id)) "entry block is not the first block"
      (verify_blocks at (first ∷ rest))

-- The functions are those of the function's module.
unfoldable pub ir_verify_function : List IrFunction → Option IrFunction → Option String
ir_verify_function fns none = some "function pointer is NULL"
ir_verify_function fns (some fn) =
    verify_from_entry fn.entry_block
      (record { fns = fns; return_type = fn.return_type; blocks = fn.blocks }) fn.blocks

unfoldable pub verify_all : List IrFunction → List IrFunction → Option String
verify_all fns [] = none
verify_all fns (fn ∷ rest) = first_error (ir_verify_function fns (some fn)) (verify_all fns rest)

unfoldable pub ir_verify_module : Option (List IrFunction) → Option String
ir_verify_module none = some "module pointer is NULL"
ir_verify_module (some fns) = verify_all fns fns
