-- ===== src/Ir/Dce/Reads.antt =====
-- Which instructions do more than compute their result, and what a read means for the counters of
-- uses.
use cco_lang.Base.{
  ℕ, ◌+◌, ◌≤◌, ◌≡◌, refl, Bool, true, false, ◌||◌, not, ltb, ◌==◌, Option, none, some, List, [],
  ◌∷◌, arith, if◌then◌else◌,
}
use cco_lang.Ir.Instr.{
  IrValue, is_reg, IrOpcode, ir_op_load, ir_op_const, ir_op_add, ir_op_sub, ir_op_mul, ir_op_div,
  ir_op_mod, ir_op_neg, ir_op_eq, ir_op_ne, ir_op_lt, ir_op_le, ir_op_gt, ir_op_ge, ir_op_and,
  ir_op_or, ir_op_not, ir_op_get_field, ir_op_get_index, ir_op_phi, IrInstruction, IrBasicBlock,
}
use cco_lang.Ir.Reads.{is_register, is_argument, reads, any_reads, read_in}
use cco_lang.Ir.Dce.{
  is_instruction_side_effecting, count_use, count_args, count_inst, count_insts, use_count,
}

-- The operations that do nothing but compute their result.
abbrev pub only_computes : IrOpcode → Bool
only_computes ir_op_load = true
only_computes ir_op_const = true
only_computes ir_op_add = true
only_computes ir_op_sub = true
only_computes ir_op_mul = true
only_computes ir_op_div = true
only_computes ir_op_mod = true
only_computes ir_op_neg = true
only_computes ir_op_eq = true
only_computes ir_op_ne = true
only_computes ir_op_lt = true
only_computes ir_op_le = true
only_computes ir_op_gt = true
only_computes ir_op_ge = true
only_computes ir_op_and = true
only_computes ir_op_or = true
only_computes ir_op_not = true
only_computes ir_op_get_field = true
only_computes ir_op_get_index = true
only_computes ir_op_phi = true
only_computes _ = false

abbrev pub has_effect : IrInstruction → Bool
has_effect inst = not (only_computes inst.op)

-- The instructions that pass a test, in their order, and block by block under the block's id.
abbrev pub those : (IrInstruction → Bool) → List IrInstruction → List IrInstruction
those test [] = []
those test (inst ∷ rest) = if test inst then inst ∷ those test rest else those test rest

abbrev pub those_of : (IrInstruction → Bool) → List IrBasicBlock → List (ℕ × List IrInstruction)
those_of test [] = []
those_of test (bb ∷ rest) = (bb.id, those test bb.insts) ∷ those_of test rest

pub effectless :
    (op : IrOpcode) → is_instruction_side_effecting op ≡ false → only_computes op ≡ true
unfolding is_instruction_side_effecting
effectless ir_op_load h = refl
effectless ir_op_const h = refl
effectless ir_op_add h = refl
effectless ir_op_sub h = refl
effectless ir_op_mul h = refl
effectless ir_op_div h = refl
effectless ir_op_mod h = refl
effectless ir_op_neg h = refl
effectless ir_op_eq h = refl
effectless ir_op_ne h = refl
effectless ir_op_lt h = refl
effectless ir_op_le h = refl
effectless ir_op_gt h = refl
effectless ir_op_ge h = refl
effectless ir_op_and h = refl
effectless ir_op_or h = refl
effectless ir_op_not h = refl
effectless ir_op_get_field h = refl
effectless ir_op_get_index h = refl
effectless ir_op_phi h = refl
effectless _ h = absurd cc

one_of :
    (a b : Bool) (m n : ℕ) → (a ≡ true → 1 ≤ m) → (b ≡ true → 1 ≤ n) → (a || b) ≡ true → 1 ≤ m + n
one_of true b m n f g h = omega (arith, f refl)
one_of false b m n f g h = omega (arith, g h)

-- A read of a register that has a counter is counted.
module _ (max_id id : ℕ) (room : ltb id max_id ≡ true) where
  is_register-counted : (v : Option IrValue) → is_register id v ≡ true → 1 ≤ count_use max_id id v
  is_register-counted none h = absurd cc
  is_register-counted (some v) h =
      let at_id : v.id ≡ id = ground arith in
      let kind : is_reg v.kind ≡ true = ground arith in
      let same : (v.id == id) ≡ true = ground arith in
      let low : ltb v.id max_id ≡ true = rw at_id room in rw (kind, low, same) (omega arith)

  is_argument-counted :
      (args : List IrValue) → is_argument id args ≡ true → 1 ≤ count_args max_id id args
  unfolding count_args
  is_argument-counted [] h = absurd cc
  is_argument-counted (a ∷ args) h =
      one_of (is_register id (some a)) (is_argument id args) _ _ (is_register-counted (some a))
        (is_argument-counted args) h

  reads-counted : (inst : IrInstruction) → reads id inst ≡ true → 1 ≤ count_inst max_id id inst
  unfolding count_inst
  reads-counted inst h =
      let by_operand =
        one_of (is_register id inst.lhs) (is_register id inst.rhs) _ _
          (is_register-counted inst.lhs) (is_register-counted inst.rhs) in
      one_of (is_register id inst.lhs || is_register id inst.rhs) (is_argument id inst.args) _ _
        by_operand (is_argument-counted inst.args) h

  any_reads-counted :
      (insts : List IrInstruction) → any_reads id insts ≡ true → 1 ≤ count_insts max_id id insts
  unfolding count_insts
  any_reads-counted [] h = absurd cc
  any_reads-counted (inst ∷ rest) h =
      one_of (reads id inst) (any_reads id rest) _ _ (reads-counted inst) (any_reads-counted rest) h

  pub read_in-counted :
      (blocks : List IrBasicBlock) → read_in id blocks ≡ true → 1 ≤ use_count max_id blocks id
  unfolding use_count
  read_in-counted [] h = absurd cc
  read_in-counted (bb ∷ rest) h =
      one_of (any_reads id bb.insts) (read_in id rest) _ _ (any_reads-counted bb.insts)
        (read_in-counted rest) h
