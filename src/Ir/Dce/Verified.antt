-- ===== src/Ir/Dce/Verified.antt =====
-- A function that the verifier accepts is accepted after dead code elimination.
use cco_lang.Base.{
  ℕ, zero, suc, ◌≡◌, refl, ◌∙◌, ap, Bool, true, false, ◌&&◌, ◌||◌, not, Option, none, some, List,
  [], ◌∷◌, ◌++◌, arith, Bool-cases, inl, inr,
}
use cco_lang.Ir.Instr.{
  IrOpcode, ir_op_br, ir_op_condbr, ir_op_ret, ir_is_terminator, is_phi, IrInstruction,
  IrBasicBlock, IrFunction, block_exists_in_fn,
}
use cco_lang.Ir.Check.{verify_br, verify_condbr}
use cco_lang.Ir.Verify.{
  Place, verify_op, verify_insts, verify_instruction, verify_block, verify_blocks,
  verify_from_entry, ir_verify_function, last_inst, is_last, is_entry,
}
use cco_lang.Ir.Verify.Flow.{refuse_accepts, first_error_accepts, verify_block-Ended, place_of}
use cco_lang.Ir.Dce.{
  is_instruction_side_effecting, drop_dead, drop_all, has_dead, dead_in, dce_loop, inst_total,
  eliminate_dead,
}

-- No terminator is dropped.
abbrev KeepsEnds : (IrInstruction → Bool) → Type 0
KeepsEnds dead = (inst : IrInstruction) → ir_is_terminator inst.op ≡ true → dead inst ≡ false

terminator_effect :
    (op : IrOpcode) → ir_is_terminator op ≡ true → is_instruction_side_effecting op ≡ true
unfolding ir_is_terminator is_instruction_side_effecting
terminator_effect ir_op_br h = refl
terminator_effect ir_op_condbr h = refl
terminator_effect ir_op_ret h = refl
terminator_effect _ h = absurd cc

dead_in-KeepsEnds : (max_id : ℕ) (blocks : List IrBasicBlock) → KeepsEnds (dead_in max_id blocks)
dead_in-KeepsEnds max_id blocks inst h = let effect = terminator_effect inst.op h in ground arith

same_blocks :
    (dead : IrInstruction → Bool) (blocks : List IrBasicBlock) (t : ℕ)
    → block_exists_in_fn (drop_all dead blocks) t ≡ block_exists_in_fn blocks t
unfolding drop_all block_exists_in_fn
same_blocks dead [] t = refl
same_blocks dead (bb ∷ rest) t = rw (same_blocks dead rest t) refl

abbrev after : Place → List IrBasicBlock → Place
after at blocks' = record at { blocks = blocks' }

module _ (at : Place) (blocks' : List IrBasicBlock)
    (same : (t : ℕ) → block_exists_in_fn blocks' t ≡ block_exists_in_fn at.blocks t) where
  same_test : block_exists_in_fn blocks' ≡ block_exists_in_fn at.blocks
  same_test = λ i t. same t i

  same_op :
      (op : IrOpcode) (inst : IrInstruction)
      → verify_op op (after at blocks') inst ≡ verify_op op at inst
  unfolding verify_op verify_br verify_condbr
  same_op ir_op_br inst = rw same_test refl
  same_op ir_op_condbr inst = rw same_test refl
  same_op _ inst = refl

-- A terminator that stood last still does.
still_inner :
    (ends : Bool) (dead : IrInstruction → Bool) (rest : List IrInstruction)
    → (ends && not (is_last rest)) ≡ false
    → (ends && not (is_last (drop_dead dead rest))) ≡ false
unfolding drop_dead
still_inner false dead rest h = refl
still_inner true dead [] h = refl
still_inner true dead (inst ∷ rest) h = absurd cc

-- What is left of a run of instructions is accepted.
dropped_insts :
    (dead : IrInstruction → Bool)
    → KeepsEnds dead
    → (at : Place) (insts : List IrInstruction) → (blocks' : List IrBasicBlock)
    → ((t : ℕ) → block_exists_in_fn blocks' t ≡ block_exists_in_fn at.blocks t)
    → (seen seen' : Bool) → (seen' ≡ true → seen ≡ true)
    → verify_insts at seen insts ≡ none
    → verify_insts (after at blocks') seen' (drop_dead dead insts) ≡ none
unfolding verify_insts drop_dead
dropped_insts dead keeps at [] blocks' same seen seen' later h = refl
dropped_insts dead keeps at (inst ∷ rest) blocks' same seen seen' later h =
    let (ordered, ok) = refuse_accepts (is_phi inst.op && seen) _ h in
    let (inner, ok1) = refuse_accepts (ir_is_terminator inst.op && not (is_last rest)) _ ok in
    let (fine, ok2) = first_error_accepts (verify_instruction at inst) ok1 in
    let go = dropped_insts dead keeps at rest blocks' same (not (is_phi inst.op) || seen) in
    elim (Bool-cases (dead inst)) [
      | inl gone ↦ rw gone (go seen' (λ e. ground (arith, later e)) ok2)
      | inr stays ↦
          let ordered' : (is_phi inst.op && seen') ≡ false = ground (arith, later) in
          let inner' : (ir_is_terminator inst.op && not (is_last (drop_dead dead rest))) ≡ false =
            still_inner (ir_is_terminator inst.op) dead rest inner in
          let rest' = go (not (is_phi inst.op) || seen') (λ e. ground (arith, later)) ok2 in
          rw (stays, ordered', inner', same_op at blocks' same inst.op inst, fine) rest'
    ]

last_append :
    (first : IrInstruction) (xs : List IrInstruction) (term : IrInstruction)
    → last_inst first (xs ++ (term ∷ [])) ≡ term
unfolding last_inst
last_append first [] term = refl
last_append first (x ∷ xs) term = last_append x xs term

block_accepted :
    (at : Place) (xs : List IrInstruction) (term : IrInstruction)
    → verify_insts at false (xs ++ (term ∷ [])) ≡ none
    → ir_is_terminator term.op ≡ true
    → verify_block at (xs ++ (term ∷ [])) ≡ none
unfolding verify_block last_inst
block_accepted at [] term h ends = rw (h, ends) refl
block_accepted at (x ∷ xs) term h ends = rw (h, last_append x xs term, ends) refl

drop_dead-append :
    (dead : IrInstruction → Bool) (xs : List IrInstruction) (term : IrInstruction)
    → dead term ≡ false
    → drop_dead dead (xs ++ (term ∷ [])) ≡ drop_dead dead xs ++ (term ∷ [])
unfolding drop_dead
drop_dead-append dead [] term stays = rw stays refl
drop_dead-append dead (x ∷ xs) term stays = elim (Bool-cases (dead x)) [
  | inl gone ↦ rw gone (drop_dead-append dead xs term stays)
  | inr on ↦ rw on (ap (λ ys. x ∷ ys) (drop_dead-append dead xs term stays))
]

block_insts :
    (at : Place) (insts : List IrInstruction)
    → verify_block at insts ≡ none
    → verify_insts at false insts ≡ none
unfolding verify_block
block_insts at [] h = absurd cc
block_insts at (inst ∷ rest) h = (first_error_accepts (verify_insts at false (inst ∷ rest)) h).0

dropped_block :
    (dead : IrInstruction → Bool)
    → KeepsEnds dead
    → (at : Place) (insts : List IrInstruction) → (blocks' : List IrBasicBlock)
    → ((t : ℕ) → block_exists_in_fn blocks' t ≡ block_exists_in_fn at.blocks t)
    → verify_block at insts ≡ none
    → verify_block (after at blocks') (drop_dead dead insts) ≡ none
dropped_block dead keeps at insts blocks' same h =
    let r = verify_block-Ended at insts h in
    let split =
      ap (drop_dead dead) r.shape ∙ drop_dead-append dead r.body r.term (keeps r.term r.ends) in
    let ok =
      dropped_insts dead keeps at insts blocks' same false false (λ e. e)
        (block_insts at insts h) in
    rw split
      (block_accepted (after at blocks') (drop_dead dead r.body) r.term (rw split at ok) r.ends)

dropped_blocks :
    (blocks : List IrBasicBlock) (dead : IrInstruction → Bool)
    → KeepsEnds dead
    → (at : Place) → (blocks' : List IrBasicBlock)
    → ((t : ℕ) → block_exists_in_fn blocks' t ≡ block_exists_in_fn at.blocks t)
    → verify_blocks at blocks ≡ none
    → verify_blocks (after at blocks') (drop_all dead blocks) ≡ none
unfolding verify_blocks drop_all
dropped_blocks [] dead keeps at blocks' same h = refl
dropped_blocks (bb ∷ rest) dead keeps at blocks' same h =
    let (here, there) = first_error_accepts (verify_block at bb.insts) h in
    rw (dropped_block dead keeps at bb.insts blocks' same here)
      (dropped_blocks rest dead keeps at blocks' same there)

-- A round.
dropped_function :
    (entry : Option ℕ) (dead : IrInstruction → Bool)
    → KeepsEnds dead
    → (at : Place) → verify_from_entry entry at at.blocks ≡ none
    → verify_from_entry entry (after at (drop_all dead at.blocks)) (drop_all dead at.blocks) ≡ none
unfolding verify_from_entry drop_all
dropped_function entry dead keeps at h = dropped_from at.blocks h (same_blocks dead at.blocks)
  where
    dropped_from :
        (blocks : List IrBasicBlock)
        → verify_from_entry entry at blocks ≡ none
        → ((t : ℕ)
            → block_exists_in_fn (drop_all dead at.blocks) t ≡ block_exists_in_fn at.blocks t)
        → verify_from_entry entry (after at (drop_all dead at.blocks)) (drop_all dead blocks) ≡ none
    dropped_from [] h same = absurd cc
    dropped_from (first ∷ rest) h same =
        let (here, there) = refuse_accepts (not (is_entry entry first.id)) _ h in
        rw here (dropped_blocks (first ∷ rest) dead keeps at (drop_all dead at.blocks) same there)

dropped_loop :
    (fuel max_id : ℕ) (entry : Option ℕ) (at : Place)
    → verify_from_entry entry at at.blocks ≡ none
    → verify_from_entry entry
        (after at (dce_loop fuel max_id at.blocks))
        (dce_loop fuel max_id at.blocks)
      ≡ none
unfolding dce_loop
dropped_loop zero max_id entry at h = h
dropped_loop (suc fuel) max_id entry at h =
    let dead = dead_in max_id at.blocks in
    elim (Bool-cases (has_dead dead at.blocks)) [
      | inl changed ↦ rw changed (
          dropped_loop fuel max_id entry (after at (drop_all dead at.blocks))
            (dropped_function entry dead (dead_in-KeepsEnds max_id at.blocks) at h))
      | inr ended ↦ rw ended h
    ]

-- A function that the verifier accepts, checked against the functions of its module, is accepted
-- against the same functions after dead code elimination.
pub eliminate_dead_verified :
    (fns : List IrFunction) (fn : IrFunction)
    → ir_verify_function fns (some fn) ≡ none
    → ir_verify_function fns (some (eliminate_dead fn)) ≡ none
unfolding ir_verify_function eliminate_dead
eliminate_dead_verified fns fn h =
    dropped_loop (suc (inst_total fn.blocks)) (suc fn.next_reg_id) fn.entry_block (place_of fns fn)
      h
