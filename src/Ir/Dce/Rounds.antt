-- ===== src/Ir/Dce/Rounds.antt =====
-- A round of dead code elimination that changes anything removes an instruction, so the rounds end.
use cco_lang.Base.{
  ℕ, zero, suc, ◌≤◌, ◌<◌, ◌≡◌, Bool, true, false, List, [], ◌∷◌, length, arith, Bool-cases, inl,
  inr,
}
use cco_lang.Ir.Instr.{IrInstruction, IrBasicBlock, IrFunction}
use cco_lang.Ir.Dce.{
  drop_dead, drop_all, any_dead, has_dead, dead_in, dce_loop, inst_total, eliminate_dead,
}

drop_dead_shorter :
    (dead : IrInstruction → Bool) (insts : List IrInstruction)
    → (length (drop_dead dead insts) ≤ length insts)
      × (any_dead dead insts ≡ true → length (drop_dead dead insts) < length insts)
unfolding drop_dead any_dead
drop_dead_shorter dead [] = (omega arith, λ h. absurd cc)
drop_dead_shorter dead (inst ∷ rest) =
    let (no_longer, shorter) = drop_dead_shorter dead rest in
    elim (Bool-cases (dead inst)) [
      | inl gone ↦ rw gone (omega arith, λ h. omega arith)
      | inr stays ↦ rw stays (omega arith, λ h. omega (arith, shorter h))
    ]

drop_all_fewer :
    (dead : IrInstruction → Bool) (blocks : List IrBasicBlock)
    → (inst_total (drop_all dead blocks) ≤ inst_total blocks)
      × (has_dead dead blocks ≡ true → inst_total (drop_all dead blocks) < inst_total blocks)
unfolding drop_all has_dead inst_total
drop_all_fewer dead [] = (omega arith, λ h. absurd cc)
drop_all_fewer dead (bb ∷ rest) =
    let (no_longer, shorter) = drop_dead_shorter dead bb.insts in
    let (no_more, fewer) = drop_all_fewer dead rest in
    (
      omega arith,
      λ h. elim (Bool-cases (any_dead dead bb.insts)) [
        | inl here ↦ omega (arith, shorter here)
        | inr not_here ↦ omega (arith, fewer (rw not_here at h))
      ],
    )

-- More rounds than there are instructions are enough.
pub dce_loop_enough :
    (fuel max_id : ℕ) (blocks : List IrBasicBlock)
    → inst_total blocks < fuel
    → has_dead (dead_in max_id (dce_loop fuel max_id blocks)) (dce_loop fuel max_id blocks) ≡ false
unfolding dce_loop
dce_loop_enough zero max_id blocks enough = absurd (omega arith)
dce_loop_enough (suc fuel) max_id blocks enough =
    elim (Bool-cases (has_dead (dead_in max_id blocks) blocks)) [
      | inl changed ↦
          let fewer = (drop_all_fewer (dead_in max_id blocks) blocks).1 changed in
          rw changed
            (dce_loop_enough fuel max_id (drop_all (dead_in max_id blocks) blocks) (omega arith))
      | inr ended ↦ rw ended ended
    ]

-- Dead code elimination ends with a round that finds nothing dead: what it leaves has no instruction
-- without an effect whose result is a register that nothing left uses.
pub eliminate_dead-ends :
    (fn : IrFunction)
    → has_dead (dead_in (suc fn.next_reg_id) (eliminate_dead fn).blocks) (eliminate_dead fn).blocks
      ≡ false
unfolding eliminate_dead
eliminate_dead-ends fn =
    dce_loop_enough (suc (inst_total fn.blocks)) (suc fn.next_reg_id) fn.blocks (omega arith)
