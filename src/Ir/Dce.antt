-- ===== src/Ir/Dce.antt =====
-- Dead code elimination: `ir_opt_dead_code_elimination` of src/ir/ir_opt.c. The linked list of a
-- block's instructions is a list, so an instruction is removed by leaving it out.
pub mod Rounds
pub mod Reads
pub mod Keeps
pub mod Verified
use cco_lang.Base.{
  ℕ, zero, suc, ◌+◌, ◌≡◌, Bool, true, false, ◌&&◌, ◌||◌, not, ltb, ◌==◌, Option, none, some, List,
  [], ◌∷◌, length, if◌then◌else◌,
}
use cco_lang.Ir.Instr.{
  IrValue, is_reg, IrOpcode, ir_op_call, ir_op_print, ir_op_store, ir_op_alloca, ir_op_set_field,
  ir_op_set_index, ir_op_alloc, ir_op_free, ir_op_release, ir_op_br, ir_op_condbr, ir_op_ret,
  IrInstruction, IrBasicBlock, IrFunction,
}

unfoldable pub is_instruction_side_effecting : IrOpcode → Bool
is_instruction_side_effecting ir_op_call = true
is_instruction_side_effecting ir_op_print = true
is_instruction_side_effecting ir_op_store = true
is_instruction_side_effecting ir_op_alloca = true
is_instruction_side_effecting ir_op_set_field = true
is_instruction_side_effecting ir_op_set_index = true
is_instruction_side_effecting ir_op_alloc = true
is_instruction_side_effecting ir_op_free = true
is_instruction_side_effecting ir_op_release = true
is_instruction_side_effecting ir_op_br = true
is_instruction_side_effecting ir_op_condbr = true
is_instruction_side_effecting ir_op_ret = true
is_instruction_side_effecting _ = false

-- The value is a register that the counters have room for.
abbrev pub is_counted : ℕ → IrValue → Bool
is_counted max_id v = is_reg v.kind && ltb v.id max_id

abbrev pub names_reg : ℕ → ℕ → IrValue → Bool
names_reg max_id id v = is_counted max_id v && v.id == id

abbrev pub count_use : ℕ → ℕ → Option IrValue → ℕ
count_use max_id id none = 0
count_use max_id id (some v) = if names_reg max_id id v then 1 else 0

unfoldable pub count_args : ℕ → ℕ → List IrValue → ℕ
count_args max_id id [] = 0
count_args max_id id (a ∷ args) = count_use max_id id (some a) + count_args max_id id args

unfoldable pub count_inst : ℕ → ℕ → IrInstruction → ℕ
count_inst max_id id inst =
    count_use max_id id inst.lhs + count_use max_id id inst.rhs + count_args max_id id inst.args

unfoldable pub count_insts : ℕ → ℕ → List IrInstruction → ℕ
count_insts max_id id [] = 0
count_insts max_id id (inst ∷ rest) = count_inst max_id id inst + count_insts max_id id rest

-- `use_counts[id]`
unfoldable pub use_count : ℕ → List IrBasicBlock → ℕ → ℕ
use_count max_id [] id = 0
use_count max_id (bb ∷ rest) id = count_insts max_id id bb.insts + use_count max_id rest id

abbrev pub unused : ℕ → (ℕ → ℕ) → Option IrValue → Bool
unused max_id use_counts none = false
unused max_id use_counts (some v) = is_counted max_id v && use_counts v.id == 0

abbrev pub is_dead : ℕ → (ℕ → ℕ) → IrInstruction → Bool
is_dead max_id use_counts inst =
    unused max_id use_counts inst.result && not (is_instruction_side_effecting inst.op)

unfoldable pub drop_dead : (IrInstruction → Bool) → List IrInstruction → List IrInstruction
drop_dead dead [] = []
drop_dead dead (inst ∷ rest) = if dead inst then drop_dead dead rest else inst ∷ drop_dead dead rest

unfoldable pub drop_all : (IrInstruction → Bool) → List IrBasicBlock → List IrBasicBlock
drop_all dead [] = []
drop_all dead (bb ∷ rest) = (record bb { insts = drop_dead dead bb.insts }) ∷ drop_all dead rest

unfoldable pub any_dead : (IrInstruction → Bool) → List IrInstruction → Bool
any_dead dead [] = false
any_dead dead (inst ∷ rest) = dead inst || any_dead dead rest

-- `local_changed` at the end of a round
unfoldable pub has_dead : (IrInstruction → Bool) → List IrBasicBlock → Bool
has_dead dead [] = false
has_dead dead (bb ∷ rest) = any_dead dead bb.insts || has_dead dead rest

abbrev pub dead_in : ℕ → List IrBasicBlock → IrInstruction → Bool
dead_in max_id blocks = is_dead max_id (use_count max_id blocks)

-- The rounds, until one removes nothing.
unfoldable pub dce_loop : ℕ → ℕ → List IrBasicBlock → List IrBasicBlock
dce_loop zero max_id blocks = blocks
dce_loop (suc fuel) max_id blocks =
    let rest = dce_loop fuel max_id (drop_all (dead_in max_id blocks) blocks) in
    if has_dead (dead_in max_id blocks) blocks then rest else blocks

unfoldable pub inst_total : List IrBasicBlock → ℕ
inst_total [] = 0
inst_total (bb ∷ rest) = length bb.insts + inst_total rest

-- A round that changes anything removes an instruction, so more rounds than there are instructions
-- are enough.
unfoldable pub eliminate_dead : IrFunction → IrFunction
eliminate_dead fn = record fn {
  blocks = dce_loop (suc (inst_total fn.blocks)) (suc fn.next_reg_id) fn.blocks;
}

-- A null function is refused; otherwise the function and `*out_changed`.
unfoldable pub ir_opt_dead_code_elimination : Option IrFunction → Option (IrFunction × Bool)
ir_opt_dead_code_elimination none = none
ir_opt_dead_code_elimination (some fn) =
    some (eliminate_dead fn, has_dead (dead_in (suc fn.next_reg_id) fn.blocks) fn.blocks)
