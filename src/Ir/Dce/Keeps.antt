-- ===== src/Ir/Dce/Keeps.antt =====
-- What dead code elimination keeps: all that does more than compute a value, and the definitions of
-- the registers that are read.
use cco_lang.Base.{
  ℕ, zero, suc, ◌≤◌, ◌≡◌, refl, ◌∙◌, Bool, true, false, ltb, ◌==◌, Option, none, some, List, [],
  ◌∷◌, arith, Bool-cases, inl, inr, not,
}
use cco_lang.Ir.Instr.{IrValue, IrInstruction, IrBasicBlock, IrFunction}
use cco_lang.Ir.Dce.{
  is_instruction_side_effecting, count_insts, use_count, unused, drop_dead, drop_all, has_dead,
  dead_in, dce_loop, inst_total, eliminate_dead,
}
use cco_lang.Ir.Reads.{is_register, read_in, defines}
use cco_lang.Ir.Dce.Reads.{only_computes, has_effect, those, those_of, effectless, read_in-counted}

-- What is dropped does not pass the test.
abbrev Spares : (IrInstruction → Bool) → (IrInstruction → Bool) → Type 0
Spares dead test = (inst : IrInstruction) → dead inst ≡ true → test inst ≡ false

module _ (dead test : IrInstruction → Bool) (spares : Spares dead test) where
  drop_dead-those :
      (insts : List IrInstruction) → those test (drop_dead dead insts) ≡ those test insts
  unfolding drop_dead
  drop_dead-those [] = refl
  drop_dead-those (inst ∷ rest) =
      let same = drop_dead-those rest in
      elim (Bool-cases (dead inst)) [
        | inl gone ↦ rw (gone, spares inst gone) same
        | inr stays ↦ rw (stays, same) refl
      ]

  drop_all-those :
      (blocks : List IrBasicBlock) → those_of test (drop_all dead blocks) ≡ those_of test blocks
  unfolding drop_all
  drop_all-those [] = refl
  drop_all-those (bb ∷ rest) = rw (drop_dead-those bb.insts, drop_all-those rest) refl

harmless : (op : _) → is_instruction_side_effecting op ≡ false → not (only_computes op) ≡ false
harmless op h = rw (effectless op h) refl

dead_in-Spares-effects :
    (max_id : ℕ) (blocks : List IrBasicBlock) → Spares (dead_in max_id blocks) has_effect
dead_in-Spares-effects max_id blocks inst h = harmless inst.op (ground arith)

dce_loop-effects :
    (fuel max_id : ℕ) (blocks : List IrBasicBlock)
    → those_of has_effect (dce_loop fuel max_id blocks) ≡ those_of has_effect blocks
unfolding dce_loop
dce_loop-effects zero max_id blocks = refl
dce_loop-effects (suc fuel) max_id blocks =
    elim (Bool-cases (has_dead (dead_in max_id blocks) blocks)) [
      | inl changed ↦ rw changed (
          dce_loop-effects fuel max_id (drop_all (dead_in max_id blocks) blocks)
          ∙ drop_all-those _ has_effect (dead_in-Spares-effects max_id blocks) blocks)
      | inr ended ↦ rw ended refl
    ]

-- Uses only become fewer.
drop_dead-uses :
    (dead : IrInstruction → Bool) (max_id id : ℕ) (insts : List IrInstruction)
    → count_insts max_id id (drop_dead dead insts) ≤ count_insts max_id id insts
unfolding drop_dead count_insts
drop_dead-uses dead max_id id [] = omega arith
drop_dead-uses dead max_id id (inst ∷ rest) =
    let fewer = drop_dead-uses dead max_id id rest in
    elim (Bool-cases (dead inst)) [
      | inl gone ↦ rw gone (omega arith)
      | inr stays ↦ rw stays (omega arith)
    ]

drop_all-uses :
    (dead : IrInstruction → Bool) (max_id id : ℕ) (blocks : List IrBasicBlock)
    → use_count max_id (drop_all dead blocks) id ≤ use_count max_id blocks id
unfolding drop_all use_count
drop_all-uses dead max_id id [] = omega arith
drop_all-uses dead max_id id (bb ∷ rest) =
    omega (arith, drop_dead-uses dead max_id id bb.insts, drop_all-uses dead max_id id rest)

dce_loop-uses :
    (fuel max_id id : ℕ) (blocks : List IrBasicBlock)
    → use_count max_id (dce_loop fuel max_id blocks) id ≤ use_count max_id blocks id
unfolding dce_loop
dce_loop-uses zero max_id id blocks = omega arith
dce_loop-uses (suc fuel) max_id id blocks =
    let next = drop_all (dead_in max_id blocks) blocks in
    elim (Bool-cases (has_dead (dead_in max_id blocks) blocks)) [
      | inl changed ↦ rw changed (
          omega (
            arith,
            dce_loop-uses fuel max_id id next,
            drop_all-uses (dead_in max_id blocks) max_id id blocks,
          ))
      | inr ended ↦ rw ended (omega arith)
    ]

-- A register that has a counter is used.
abbrev Wanted : ℕ → ℕ → List IrBasicBlock → Type 0
Wanted max_id id blocks = ltb id max_id ≡ true → 1 ≤ use_count max_id blocks id

unused-Wanted :
    (max_id id : ℕ) (blocks : List IrBasicBlock) (v : Option IrValue)
    → Wanted max_id id blocks
    → unused max_id (use_count max_id blocks) v ≡ true
    → is_register id v ≡ false
unused-Wanted max_id id blocks none wanted h = refl
unused-Wanted max_id id blocks (some v) wanted h = elim (Bool-cases (v.id == id)) [
  | inl same ↦
      let at_id : v.id ≡ id = ground arith in
      let low : ltb v.id max_id ≡ true = ground arith in
      let zero : use_count max_id blocks v.id ≡ 0 = ground arith in
      absurd (omega (arith, wanted (rw at_id at low), rw at_id at zero))
  | inr other ↦ ground arith
]

dead_in-Spares-definitions :
    (max_id id : ℕ) (blocks : List IrBasicBlock)
    → Wanted max_id id blocks
    → Spares (dead_in max_id blocks) (defines id)
dead_in-Spares-definitions max_id id blocks wanted inst h =
    unused-Wanted max_id id blocks inst.result wanted (ground arith)

dce_loop-definitions :
    (fuel max_id id : ℕ) (blocks : List IrBasicBlock)
    → Wanted max_id id (dce_loop fuel max_id blocks)
    → those_of (defines id) (dce_loop fuel max_id blocks) ≡ those_of (defines id) blocks
unfolding dce_loop
dce_loop-definitions zero max_id id blocks wanted = refl
dce_loop-definitions (suc fuel) max_id id blocks wanted =
    let next = drop_all (dead_in max_id blocks) blocks in
    elim (Bool-cases (has_dead (dead_in max_id blocks) blocks)) [
      | inl changed ↦
          let wanted' : Wanted max_id id (dce_loop fuel max_id next) = rw changed at wanted in
          let before : Wanted max_id id blocks = λ low. omega (
            arith,
            wanted' low,
            dce_loop-uses fuel max_id id next,
            drop_all-uses (dead_in max_id blocks) max_id id blocks,
          ) in
          let spares = dead_in-Spares-definitions max_id id blocks before in
          rw changed (
            dce_loop-definitions fuel max_id id next wanted'
            ∙ drop_all-those _ (defines id) spares blocks)
      | inr ended ↦ rw ended refl
    ]

-- Dead code elimination keeps every instruction that does more than compute its result, all of them in
-- their order, block by block. Where an instruction that it leaves reads a register, as an operand or
-- as an argument, it keeps every instruction that defines the register, in their order and in their
-- blocks. A register that comes into a phi is not read by it in this sense.
pub eliminate_dead-keeps :
    (fn : IrFunction)
    → (those_of has_effect (eliminate_dead fn).blocks ≡ those_of has_effect fn.blocks)
      × ((id : ℕ)
          → read_in id (eliminate_dead fn).blocks ≡ true
          → those_of (defines id) (eliminate_dead fn).blocks ≡ those_of (defines id) fn.blocks)
unfolding eliminate_dead
eliminate_dead-keeps fn =
    let fuel = suc (inst_total fn.blocks) in
    let max_id = suc fn.next_reg_id in
    (
      dce_loop-effects fuel max_id fn.blocks,
      λ id read.
          dce_loop-definitions fuel max_id id fn.blocks
            (λ low. read_in-counted max_id id low _ read),
    )
