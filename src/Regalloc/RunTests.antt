-- ===== src/Regalloc/RunTests.antt =====
-- Witnesses for the allocator on a function: two registers live into its second block.
use cco_lang.Base.{
  ℕ, ◌≡◌, ◌≢◌, ◌↔◌, ◌<◌, refl, true, false, none, some, List, [], ◌∷◌, get_elem?, arith, pos,
}
use cco_lang.X86.Instr.{r10}
use cco_lang.Ir.Types.{ir_type_i32}
use cco_lang.Ir.Instr.{ir_op_const, ir_op_add, ir_op_br, ir_op_ret, IrFunction}
use cco_lang.Ir.Samples.{reg, int, inst}
use cco_lang.Regalloc.Registers.{X86Reg-discrete}
use cco_lang.Regalloc.Scan.{
  linear_scan, choose_reg, choose_int, first_free, scan_step, place, take_reg, expire,
  expire_active, expire_busy, free_reg, insert_active,
}
use cco_lang.Regalloc.Samples.{put_in_order, insertion_sort, insertion_sort-Sorts}
use cco_lang.Regalloc.Result.{allocate, regalloc_get_phys_reg}
use cco_lang.Regalloc.Liveness.{
  BlockLiveness, mark_use, mark_def, mark_args, mark_inst, mark_insts, no_marks, number_blocks,
  find_block, live_after, differ_below, flow_block, flow_round, flow_loop, live_sets,
}
use cco_lang.Ir.Instr.{IrBasicBlock}
use cco_lang.Ir.Reads.{any_defines}
use cco_lang.Regalloc.Liveness.ReadsFirst.{ReadsFirst}
use cco_lang.Regalloc.Liveness.Marks.{number_blocks_marks_exact}
use cco_lang.Regalloc.Liveness.Paths.{LiveInto, used_here, live_sets_exact}
use cco_lang.Regalloc.Intervals.{
  call_positions, is_call_op, all_insts, cover_blocks, cover_args, cover_inst, cover_insts,
  bounds_of, crosses_any, class_of, interval_of, entries, live_intervals, regalloc_run,
}
use cco_lang.Regalloc.Intervals.Whole.{regalloc_run-apart}

abbrev sum : IrFunction
sum = record {
  name = "sum";
  return_type = ir_type_i32;
  param_names = [];
  param_types = [];
  entry_block = some 0;
  blocks =
      (record {
        name = "entry";
        id = 0;
        insts =
            inst ir_op_const (some (reg 0)) (some (int (pos 7))) none
            ∷ inst ir_op_const (some (reg 1)) (some (int (pos 8))) none
            ∷ inst ir_op_br none none none
            ∷ [];
        predecessors = [];
        successors = 1 ∷ [];
      })
      ∷ (record {
        name = "next.1";
        id = 1;
        insts =
            inst ir_op_add (some (reg 2)) (some (reg 0)) (some (reg 1))
            ∷ inst ir_op_ret none (some (reg 2)) none
            ∷ [];
        predecessors = 0 ∷ [];
        successors = [];
      })
      ∷ [];
  next_reg_id = 3;
  next_block_id = 2;
}

abbrev blocks : List BlockLiveness
blocks = number_blocks 3 0 sum.blocks

live_first : LiveInto blocks 0 1
unfolding number_blocks mark_insts mark_inst mark_use mark_def mark_args
live_first = used_here 1 _ refl refl

live_second : LiveInto blocks 1 1
unfolding number_blocks mark_insts mark_inst mark_use mark_def mark_args
live_second = used_here 1 _ refl refl

live_sets_exact_example :
    ((live_sets 3 blocks).changed ≡ false)
    × ((b v : ℕ) → v < 3 → (((live_sets 3 blocks).live_in b v ≡ true) ↔ LiveInto blocks v b))
live_sets_exact_example = live_sets_exact 3 blocks

first_register : regalloc_get_phys_reg (regalloc_run insertion_sort (some sum)) (pos 0) ≡ r10
unfolding regalloc_run live_intervals interval_of entries class_of crosses_any bounds_of cover_insts
    cover_inst cover_args cover_blocks all_insts is_call_op call_positions live_sets flow_loop
    flow_round flow_block differ_below live_after find_block number_blocks mark_insts mark_inst
    mark_use mark_def mark_args regalloc_get_phys_reg allocate insertion_sort put_in_order
    linear_scan scan_step place take_reg expire expire_active expire_busy free_reg insert_active
    choose_reg choose_int first_free X86Reg-discrete
first_register = refl

regalloc_run-apart_example :
    regalloc_get_phys_reg (regalloc_run insertion_sort (some sum)) (pos 0)
    ≢ regalloc_get_phys_reg (regalloc_run insertion_sort (some sum)) (pos 1)
regalloc_run-apart_example =
    regalloc_run-apart insertion_sort sum 0 1 1 insertion_sort-Sorts (omega arith) (omega arith)
      (omega arith) live_first live_second (rw first_register refl)

abbrev second_block : BlockLiveness
second_block = record {
  id = 1;
  successors = [];
  start_inst = 3;
  end_inst = 4;
  sets =
      mark_insts 3
        (inst ir_op_add (some (reg 2)) (some (reg 0)) (some (reg 1))
          ∷ inst ir_op_ret none (some (reg 2)) none
          ∷ [])
        no_marks;
}

second_block_numbered : get_elem? blocks 1 ≡ some second_block
unfolding number_blocks
second_block_numbered = refl

-- The register that the second block reads behind its own definition.
number_blocks_marks_exact_example :
    (bb : IrBasicBlock) × (get_elem? sum.blocks 1 ≡ some bb)
    × (second_block.id ≡ bb.id)
    × (second_block.successors ≡ bb.successors)
    × ((second_block.sets.use_set 2 ≡ true) ↔ ReadsFirst 2 bb.insts)
    × (second_block.sets.def_set 2 ≡ any_defines 2 bb.insts)
number_blocks_marks_exact_example =
    number_blocks_marks_exact 3 2 sum.blocks 0 1 second_block (omega arith) second_block_numbered
