-- ===== src/Regalloc/Liveness/Marks.antt =====
-- What the marks of a block mean: a register is marked as used where an instruction reads it before
-- one defines it, and as defined where an instruction defines it.
use cco_lang.Base.{
  ℕ, zero, suc, ◌<◌, ◌≡◌, ◌↔◌, refl, sym, ◌∙◌, ap, Bool, true, false, ◌&&◌, ◌||◌, not, ltb, ◌==◌,
  Option, none, some, List, [], ◌∷◌, get_elem?, arith, Bool-cases, inl, inr,
}
use cco_lang.Ir.Instr.{IrValue, IrInstruction, IrBasicBlock}
use cco_lang.Ir.Reads.{is_register, is_argument, reads, defines, any_defines}
use cco_lang.Regalloc.Liveness.ReadsFirst.{
  ReadsFirst, reads_first, reads_first-ReadsFirst, reads_first-split,
}
use cco_lang.Regalloc.Liveness.{
  UseDef, mark_use, mark_def, mark_args, mark_inst, mark_insts, BlockLiveness, no_marks,
  number_blocks,
}

-- From the marks `s` to the marks `s'`, a register was read before it was defined where `r`, and
-- defined where `d`.
record Marked (v : ℕ) (s s' : UseDef) (r d : Bool) : Type 0 where
  used : s'.use_set v ≡ (s.use_set v || (r && not (s.def_set v)))
  defined : s'.def_set v ≡ (s.def_set v || d)

chain :
    (u f r d r' : Bool)
    → ((u || (r && not f)) || (r' && not (f || d))) ≡ (u || ((r || (not d && r')) && not f))
chain true f r d r' = refl
chain false f r d r' = ground arith

or_assoc : (a b c : Bool) → ((a || b) || c) ≡ (a || (b || c))
or_assoc true b c = refl
or_assoc false b c = refl

or_false : (a : Bool) → (a || false) ≡ a
or_false true = refl
or_false false = refl

and_true : (a : Bool) → (a && true) ≡ a
and_true true = refl
and_true false = refl

then_Marked :
    {v : ℕ} {s s' s'' : UseDef} {r d r' d' : Bool}
    → Marked v s s' r d
    → Marked v s' s'' r' d'
    → Marked v s s'' (r || (not d && r')) (d || d')
then_Marked {v} {s} {s'} {s''} {r} {d} {r'} {d'} m n = record {
  used = n.used ∙ rw (m.used, m.defined) (chain (s.use_set v) (s.def_set v) r d r');
  defined = n.defined ∙ rw m.defined (or_assoc (s.def_set v) d d');
}

module _ (total v : ℕ) (room : ltb v total ≡ true) where
  mark_use-Marked :
      (x : Option IrValue) (s : UseDef) → Marked v s (mark_use total x s) (is_register v x) false
  unfolding mark_use
  mark_use-Marked none s = record { used = sym (or_false _); defined = sym (or_false _) }
  mark_use-Marked (some x) s = elim (Bool-cases (x.id == v)) [
    | inl same ↦
        let at : x.id ≡ v = ground arith in
        let low : ltb x.id total ≡ true = rw at room in
        record { used = ground arith; defined = ground arith }
    | inr other ↦ record { used = ground arith; defined = ground arith }
  ]

  mark_def-Marked :
      (x : Option IrValue) (s : UseDef) → Marked v s (mark_def total x s) false (is_register v x)
  unfolding mark_def
  mark_def-Marked none s = record { used = sym (or_false _); defined = sym (or_false _) }
  mark_def-Marked (some x) s = elim (Bool-cases (x.id == v)) [
    | inl same ↦
        let at : x.id ≡ v = ground arith in
        let low : ltb x.id total ≡ true = rw at room in
        record { used = ground arith; defined = ground arith }
    | inr other ↦ record { used = ground arith; defined = ground arith }
  ]

  mark_args-Marked :
      (args : List IrValue) (s : UseDef)
      → Marked v s (mark_args total args s) (is_argument v args) false
  unfolding mark_args
  mark_args-Marked [] s = record { used = sym (or_false _); defined = sym (or_false _) }
  mark_args-Marked (a ∷ args) s =
      then_Marked (mark_use-Marked (some a) s) (mark_args-Marked args (mark_use total (some a) s))

  mark_inst-Marked :
      (inst : IrInstruction) (s : UseDef)
      → Marked v s (mark_inst total inst s) (reads v inst) (defines v inst)
  unfolding mark_inst
  mark_inst-Marked inst s =
      let m =
        then_Marked
          (then_Marked (then_Marked (mark_use-Marked inst.lhs s) (mark_use-Marked inst.rhs _))
            (mark_args-Marked inst.args _))
          (mark_def-Marked inst.result _) in
      record { used = rw (or_false (reads v inst)) at m.used; defined = m.defined }

  mark_insts-Marked :
      (insts : List IrInstruction) (s : UseDef)
      → Marked v s (mark_insts total insts s) (reads_first v insts) (any_defines v insts)
  unfolding mark_insts
  mark_insts-Marked [] s = record { used = sym (or_false _); defined = sym (or_false _) }
  mark_insts-Marked (inst ∷ rest) s =
      then_Marked (mark_inst-Marked inst s) (mark_insts-Marked rest (mark_inst total inst s))

fresh :
    {v : ℕ} {s : UseDef} (insts : List IrInstruction)
    → Marked v no_marks s (reads_first v insts) (any_defines v insts)
    → ((s.use_set v ≡ true) ↔ ReadsFirst v insts) × (s.def_set v ≡ any_defines v insts)
fresh {v} {s} insts m =
    let used : s.use_set v ≡ reads_first v insts = m.used ∙ and_true (reads_first v insts) in
    (
      (
        λ h. reads_first-ReadsFirst v insts (sym used ∙ h),
        λ r.
            used
            ∙ ap (reads_first v) r.split
            ∙ reads_first-split v r.before r.inst r.behind r.read r.undefined,
      ),
      m.defined,
    )

block_or : BlockLiveness → Option BlockLiveness → BlockLiveness
block_or bl none = bl
block_or bl (some bl') = bl'

taken : (bl bl' : BlockLiveness) → some bl ≡ some bl' → bl ≡ bl'
unfolding block_or
taken bl bl' h = ap (block_or bl) h

-- The b-th block of the dataflow is the b-th block of the function, with its id and its successors. A
-- virtual register in range is marked as used in it exactly when an instruction reads the register
-- before one of the block defines it, and as defined exactly when one defines it.
pub number_blocks_marks_exact :
    (total v : ℕ) (blocks : List IrBasicBlock) (start b : ℕ) (bl : BlockLiveness)
    → v < total
    → get_elem? (number_blocks total start blocks) b ≡ some bl
    → (bb : IrBasicBlock) × (get_elem? blocks b ≡ some bb)
      × (bl.id ≡ bb.id)
      × (bl.successors ≡ bb.successors)
      × ((bl.sets.use_set v ≡ true) ↔ ReadsFirst v bb.insts)
      × (bl.sets.def_set v ≡ any_defines v bb.insts)
unfolding number_blocks
number_blocks_marks_exact total v [] start b bl low at = absurd cc
number_blocks_marks_exact total v (bb ∷ rest) start zero bl low at =
    let here = taken _ bl at in
    let (used, defined) =
      fresh bb.insts (mark_insts-Marked total v (ground arith) bb.insts no_marks) in
    (
      bb,
      refl,
      ap (λ (bl : BlockLiveness). bl.id) (sym here),
      ap (λ (bl : BlockLiveness). bl.successors) (sym here),
      rw (sym here) used,
      rw (sym here) defined,
    )
number_blocks_marks_exact total v (bb ∷ rest) start (suc b) bl low at =
    number_blocks_marks_exact total v rest _ b bl low at
