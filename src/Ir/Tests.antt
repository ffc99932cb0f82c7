-- ===== src/Ir/Tests.antt =====
-- Witnesses for the intermediate representation: a function with one dead instruction.
use cco_lang.Base.{ℕ, ◌≡◌, refl, true, false, none, some, [], ◌∷◌, pos}
use cco_lang.Ir.Types.{ir_type_i32, ir_type_equals, is_numeric_type}
use cco_lang.Ir.Instr.{
  ir_op_const, ir_op_add, ir_op_ret, IrBasicBlock, IrFunction, ir_is_terminator,
}
use cco_lang.Ir.Instr.{ir_op_br}
use cco_lang.Ir.Samples.{reg, int, inst}
use cco_lang.Ir.Check.{verify_const, verify_arithmetic, verify_ret}
use cco_lang.Ir.Verify.{
  verify_op, verify_insts, verify_block, verify_blocks, verify_from_entry, ir_verify_function,
  last_inst,
}
use cco_lang.Ir.Verify.Flow.{All, Ended, place_of, ir_verify_function-Ended}
use cco_lang.Ir.Dce.{has_dead, dead_in, eliminate_dead}
use cco_lang.Ir.Cfg.{ir_recompute_cfg}
use cco_lang.Ir.Cfg.Edges.{Paired, ir_recompute_cfg-Paired}
use cco_lang.Ir.Dce.Rounds.{eliminate_dead-ends}
use cco_lang.Ir.Reads.{read_in, defines}
use cco_lang.Ir.Dce.Reads.{has_effect, those_of}
use cco_lang.Ir.Dce.Keeps.{eliminate_dead-keeps}
use cco_lang.Ir.Dce.Verified.{eliminate_dead_verified}

abbrev entry : IrBasicBlock
entry = record {
  name = "entry";
  id = 0;
  insts =
      inst ir_op_const (some (reg 0)) (some (int (pos 7))) none
      ∷ inst ir_op_add (some (reg 1)) (some (reg 0)) (some (reg 0))
      ∷ inst ir_op_ret none (some (reg 0)) none
      ∷ [];
  predecessors = [];
  successors = [];
}

abbrev seven : IrFunction
seven = record {
  name = "seven";
  return_type = ir_type_i32;
  param_names = [];
  param_types = [];
  entry_block = some 0;
  blocks = entry ∷ [];
  next_reg_id = 2;
  next_block_id = 1;
}

seven_accepted : ir_verify_function [] (some seven) ≡ none
unfolding ir_verify_function verify_from_entry verify_blocks verify_block verify_insts verify_op
    verify_const verify_arithmetic verify_ret last_inst ir_is_terminator ir_type_equals
    is_numeric_type
seven_accepted = refl

ir_verify_function-Ended_example :
    All (λ (bb : IrBasicBlock). Ended (place_of [] seven) bb.insts) (entry ∷ [])
ir_verify_function-Ended_example = ir_verify_function-Ended [] seven seven_accepted

eliminate_dead_verified_example : ir_verify_function [] (some (eliminate_dead seven)) ≡ none
eliminate_dead_verified_example = eliminate_dead_verified [] seven seven_accepted

eliminate_dead-ends_example :
    has_dead (dead_in 3 (eliminate_dead seven).blocks) (eliminate_dead seven).blocks ≡ false
eliminate_dead-ends_example = eliminate_dead-ends seven

eliminate_dead-keeps_example :
    (those_of has_effect (eliminate_dead seven).blocks ≡ those_of has_effect seven.blocks)
    × ((id : ℕ)
        → read_in id (eliminate_dead seven).blocks ≡ true
        → those_of (defines id) (eliminate_dead seven).blocks ≡ those_of (defines id) seven.blocks)
eliminate_dead-keeps_example = eliminate_dead-keeps seven

-- A loop of one block.
abbrev loop : IrBasicBlock
loop = record {
  name = "loop.1";
  id = 1;
  insts = (record (inst ir_op_br none none none) { target_true = some 1 }) ∷ [];
  predecessors = [];
  successors = 0 ∷ [];
}

ir_recompute_cfg-Paired_example : Paired (ir_recompute_cfg (entry ∷ loop ∷ []))
ir_recompute_cfg-Paired_example = ir_recompute_cfg-Paired (entry ∷ loop ∷ [])
