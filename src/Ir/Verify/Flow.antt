-- ===== src/Ir/Verify/Flow.antt =====
-- What the verifier promises of the control flow.
use cco_lang.Base.{
  ℕ, ◌≡◌, refl, ap, Bool, true, false, ◌&&◌, ◌||◌, not, Option, none, some, List, [], ◌∷◌, ◌++◌,
  String, arith,
}
use cco_lang.Ir.Types.{is_bool_type}
use cco_lang.Ir.Instr.{
  IrOpcode, ir_op_br, ir_op_condbr, ir_is_terminator, is_phi, IrInstruction, IrBasicBlock,
  IrFunction, block_exists_in_fn,
}
use cco_lang.Ir.Check.{refuse, require, first_error, verify_br, verify_condbr}
use cco_lang.Ir.Verify.{
  Place, verify_op, verify_insts, verify_instruction, verify_block, verify_blocks,
  verify_from_entry, ir_verify_function, last_inst,
}

-- A property of each entry.
abbrev pub All : {A : Type 0} → (A → Type 0) → List A → Type 0
All P [] = Unit
All P (x ∷ xs) = P x × All P xs

pub refuse_accepts :
    (test : Bool) (error : String) {rest : Option String}
    → refuse test error rest ≡ none
    → (test ≡ false) × (rest ≡ none)
refuse_accepts true error h = absurd cc
refuse_accepts false error h = (refl, h)

pub first_error_accepts :
    (a : Option String) {rest : Option String}
    → first_error a rest ≡ none
    → (a ≡ none) × (rest ≡ none)
first_error_accepts none h = (refl, h)
first_error_accepts (some e) h = absurd cc

pub require_accepts :
    {A : Type 0} (o : Option A) (error : String) {rest : A → Option String}
    → require o error rest ≡ none
    → (a : A) × (o ≡ some a) × (rest a ≡ none)
require_accepts none error h = absurd cc
require_accepts (some a) error h = (a, refl, h)

-- A branch has its targets among the blocks.
abbrev pub Inside : List IrBasicBlock → Option ℕ → Type 0
Inside blocks target = (t : ℕ) × (target ≡ some t) × (block_exists_in_fn blocks t ≡ true)

abbrev pub LeadsInside : List IrBasicBlock → IrOpcode → IrInstruction → Type 0
LeadsInside blocks ir_op_br term = Inside blocks term.target_true
LeadsInside blocks ir_op_condbr term =
    Inside blocks term.target_true × Inside blocks term.target_false
LeadsInside blocks _ term = Unit

of_negation : (b : Bool) → not b ≡ false → b ≡ true
of_negation b h = ground arith

verify_br-Inside :
    (blocks : List IrBasicBlock) (inst : IrInstruction)
    → verify_br blocks inst ≡ none
    → Inside blocks inst.target_true
unfolding verify_br
verify_br-Inside blocks inst h =
    let (t, is, ok) = require_accepts inst.target_true _ h in
    (t, is, of_negation _ (refuse_accepts (not (block_exists_in_fn blocks t)) _ ok).0)

verify_condbr-Inside :
    (blocks : List IrBasicBlock) (inst : IrInstruction)
    → verify_condbr blocks inst ≡ none
    → Inside blocks inst.target_true × Inside blocks inst.target_false
unfolding verify_condbr
verify_condbr-Inside blocks inst h =
    let (c, is, ok) = require_accepts inst.lhs _ h in
    let (bool, ok1) = refuse_accepts (not (is_bool_type c.type)) _ ok in
    let (t, is_t, ok2) = require_accepts inst.target_true _ ok1 in
    let (f, is_f, ok3) = require_accepts inst.target_false _ ok2 in
    let both =
      (refuse_accepts (not (block_exists_in_fn blocks t) || not (block_exists_in_fn blocks f)) _
        ok3).0 in
    ((t, is_t, ground arith), (f, is_f, ground arith))

verify_op-LeadsInside :
    (op : IrOpcode) (at : Place) (inst : IrInstruction)
    → verify_op op at inst ≡ none
    → LeadsInside at.blocks op inst
unfolding verify_op
verify_op-LeadsInside ir_op_br at inst h = verify_br-Inside at.blocks inst h
verify_op-LeadsInside ir_op_condbr at inst h = verify_condbr-Inside at.blocks inst h
verify_op-LeadsInside _ at inst h = tt

-- A block is a run of instructions that go on to the next, and a terminator.
pub record Ended (at : Place) (insts : List IrInstruction) : Type 0 where
  pub body : List IrInstruction
  pub term : IrInstruction
  pub shape : insts ≡ body ++ (term ∷ [])
  pub goes_on : All (λ i. ir_is_terminator i.op ≡ false) body
  pub ends : ir_is_terminator term.op ≡ true
  pub inside : LeadsInside at.blocks term.op term

pub verify_insts-Ended :
    (rest : List IrInstruction) (at : Place) (seen : Bool) (inst : IrInstruction)
    → verify_insts at seen (inst ∷ rest) ≡ none
    → ir_is_terminator (last_inst inst rest).op ≡ true
    → Ended at (inst ∷ rest)
unfolding verify_insts last_inst
verify_insts-Ended [] at seen inst h ends =
    let ok = (refuse_accepts (is_phi inst.op && seen) _ h).1 in
    let ok1 = (refuse_accepts (ir_is_terminator inst.op && false) _ ok).1 in
    let fine = (first_error_accepts (verify_instruction at inst) ok1).0 in
    record {
      body = [];
      term = inst;
      shape = refl;
      goes_on = tt;
      ends = ends;
      inside = verify_op-LeadsInside inst.op at inst fine;
    }
verify_insts-Ended (next ∷ rest) at seen inst h ends =
    let ok = (refuse_accepts (is_phi inst.op && seen) _ h).1 in
    let (inner, ok1) = refuse_accepts (ir_is_terminator inst.op && true) _ ok in
    let ok2 = (first_error_accepts (verify_instruction at inst) ok1).1 in
    let r = verify_insts-Ended rest at (not (is_phi inst.op) || seen) next ok2 ends in
    record {
      body = inst ∷ r.body;
      term = r.term;
      shape = ap (λ xs. inst ∷ xs) r.shape;
      goes_on = (ground arith, r.goes_on);
      ends = r.ends;
      inside = r.inside;
    }

pub verify_block-Ended :
    (at : Place) (insts : List IrInstruction) → verify_block at insts ≡ none → Ended at insts
unfolding verify_block
verify_block-Ended at [] h = absurd cc
verify_block-Ended at (inst ∷ rest) h =
    let (ok, ends) = first_error_accepts (verify_insts at false (inst ∷ rest)) h in
    verify_insts-Ended rest at false inst ok
      (of_negation _ (refuse_accepts (not (ir_is_terminator (last_inst inst rest).op)) _ ends).0)

pub verify_blocks-All :
    (blocks : List IrBasicBlock) (at : Place)
    → verify_blocks at blocks ≡ none
    → All (λ (bb : IrBasicBlock). verify_block at bb.insts ≡ none) blocks
unfolding verify_blocks
verify_blocks-All [] at h = tt
verify_blocks-All (bb ∷ rest) at h =
    let (here, there) = first_error_accepts (verify_block at bb.insts) h in
    (here, verify_blocks-All rest at there)

abbrev pub place_of : List IrFunction → IrFunction → Place
place_of fns fn = record { fns = fns; return_type = fn.return_type; blocks = fn.blocks }

pub verify_from_entry_accepts :
    (entry : Option ℕ) (at : Place) (blocks : List IrBasicBlock)
    → verify_from_entry entry at blocks ≡ none
    → verify_blocks at blocks ≡ none
unfolding verify_from_entry
verify_from_entry_accepts entry at [] h = absurd cc
verify_from_entry_accepts entry at (first ∷ rest) h = (refuse_accepts _ _ h).1

-- Each block of a function that the verifier accepts is a run of instructions that are no
-- terminators, and then a terminator; a branch at its end has its targets among the blocks.
pub ir_verify_function-Ended :
    (fns : List IrFunction) (fn : IrFunction)
    → ir_verify_function fns (some fn) ≡ none
    → All (λ (bb : IrBasicBlock). Ended (place_of fns fn) bb.insts) fn.blocks
unfolding ir_verify_function
ir_verify_function-Ended fns fn h = all_ended fn.blocks (
    verify_blocks-All fn.blocks (place_of fns fn)
      (verify_from_entry_accepts fn.entry_block (place_of fns fn) fn.blocks h))
  where
    all_ended :
        (blocks : List IrBasicBlock)
        → All (λ (bb : IrBasicBlock). verify_block (place_of fns fn) bb.insts ≡ none) blocks
        → All (λ (bb : IrBasicBlock). Ended (place_of fns fn) bb.insts) blocks
    all_ended [] h = tt
    all_ended (bb ∷ rest) h =
        (verify_block-Ended (place_of fns fn) bb.insts h.0, all_ended rest h.1)
