-- ===== src/Regalloc/Intervals/Whole.antt =====
-- The allocator on a function: registers that are live together are kept apart.
use cco_lang.Base.{ℕ, ◌<◌, ◌≡◌, ◌≢◌, false, some, List, get_elem?, arith, inl, inr, pos}
use cco_lang.Ir.Instr.{IrFunction}
use cco_lang.Regalloc.Registers.{is_none}
use cco_lang.Regalloc.Scan.{LiveInterval}
use cco_lang.Regalloc.Liveness.{BlockLiveness, number_blocks, live_sets}
use cco_lang.Regalloc.Liveness.Paths.{LiveInto, used_here, passed_on, live_sets_exact}
use cco_lang.Regalloc.Result.{regalloc_get_phys_reg}
use cco_lang.Regalloc.Result.Sorted.{Sorts}
use cco_lang.Regalloc.Result.Lookup.{lookup-Apart}
use cco_lang.Regalloc.Intervals.{interval_of, all_insts, live_intervals, regalloc_run}
use cco_lang.Regalloc.Intervals.Covers.{
  interval_of_covers, live_intervals-IsNumbered, interval_in, interval_in_listed,
}

-- A path starts at a block.
live_block :
    {bls : List BlockLiveness} {v b : ℕ}
    → LiveInto bls v b
    → (bl : BlockLiveness) × (get_elem? bls b ≡ some bl)
live_block (used_here b bl at is_used) = (bl, at)
live_block (passed_on b j bl at undefined next path) = (bl, at)

-- For a sort that sorts, two different virtual registers of a function that are both live into a
-- block, each used along a path from the block on before it is defined, never get the same physical
-- register.
pub regalloc_run-apart :
    (qsort : List LiveInterval → List LiveInterval) (fn : IrFunction) (v w b : ℕ)
    → Sorts qsort
    → v < fn.next_reg_id
    → w < fn.next_reg_id
    → v ≢ w
    → LiveInto (number_blocks fn.next_reg_id 0 fn.blocks) v b
    → LiveInto (number_blocks fn.next_reg_id 0 fn.blocks) w b
    → is_none (regalloc_get_phys_reg (regalloc_run qsort (some fn)) (pos v)) ≡ false
    → regalloc_get_phys_reg (regalloc_run qsort (some fn)) (pos v)
      ≢ regalloc_get_phys_reg (regalloc_run qsort (some fn)) (pos w)
unfolding regalloc_run interval_of
regalloc_run-apart qsort fn v w b sorts v_in w_in differs live_v live_w held same =
    let bls = number_blocks fn.next_reg_id 0 fn.blocks in
    let s = live_sets fn.next_reg_id bls in
    let (bl, at) = live_block live_v in
    let exact = (live_sets_exact fn.next_reg_id bls).1 b in
    let (v_starts, v_ends) =
      interval_of_covers fn.next_reg_id bls s (all_insts fn.blocks) v b bl at
        ((exact v v_in).1 live_v) in
    let (w_starts, w_ends) =
      interval_of_covers fn.next_reg_id bls s (all_insts fn.blocks) w b bl at
        ((exact w w_in).1 live_w) in
    elim (lookup-Apart qsort sorts (live_intervals fn) (live_intervals-IsNumbered fn)
      (interval_in fn v) (interval_in fn w) (interval_in_listed fn v v_in)
      (interval_in_listed fn w w_in) differs held same) [
        | inl before ↦ omega arith
        | inr behind ↦ omega arith
      ]
