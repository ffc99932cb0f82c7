-- ===== src/X86/Encode/Measure.antt =====
-- What an instruction measures does not depend on the label map or on the program counter.
use cco_lang.Base.{
  ℕ, ◌+◌, ◌≡◌, refl, sym, ◌∙◌, Bool, true, false, ◌&&◌, Option, none, arith, if◌then◌else◌, ap,
}
use cco_lang.X86.Instr.{X86Instr, X86Op}
use cco_lang.X86.Labels.{LabelMap}
use cco_lang.X86.Reloc.{X86RelocList}
use cco_lang.X86.Encode.Out.{Emit, ◌▹◌, out, u8, advance}
use cco_lang.X86.Encode.Operand.{emit_rex_prefix}
use cco_lang.X86.Encode.Instr.{
  encode_lea, encode_mov, emit_rip_operand, is_mem_base, is_mem_rip, is_reg, is_imm,
}
use cco_lang.X86.Encode.Sse.{encode_movsd, encode_movsd_operands}
use cco_lang.X86.Encode.Single.{encode_op}
use cco_lang.X86.Encode.Counts.{Emits, Balanced, u8-Emits, advance-Emits, ◌then◌}
use cco_lang.X86.Encode.Balance.{emit_rip_operand-Emits, emit_rex_prefix-Balanced}
use cco_lang.X86.Encode.Balance.Ops.{encode_jmp-Balanced, encode_jcc-Balanced, encode_call-Balanced}

-- Two steps that do the same where there is no buffer.
pub record Same (f g : Emit) : Type 0 where
  pub at_null : (r : Option X86RelocList) (l : ℕ) → f (out none r l) ≡ g (out none r l)

pub Same-refl : {f : Emit} → Same f f
Same-refl = record { at_null = λ r l. refl }

Emits-Same : {k n k' : ℕ} {f g : Emit} → Emits k n f → Emits k' n g → Same f g
Emits-Same e e' = record { at_null = λ r l. e.measured r l ∙ sym (e'.measured r l) }

exact-Same : {k : ℕ} {f g : Emit} → Balanced k k f → Balanced k k g → Same f g
exact-Same p q = record {
  at_null = λ r l.
      let same : p.size ≡ q.size = omega arith in
      p.emits.measured r l ∙ ap (λ n. out none r (l + n)) same ∙ sym (q.emits.measured r l);
}

seq-Same : {k n : ℕ} {f g g' : Emit} → Emits k n f → Same g g' → Same (f ▹ g) (f ▹ g')
unfolding ◌▹◌
seq-Same {n} e s = record { at_null = λ r l. rw (e.measured r l) (s.at_null r (l + n)) }

if-Same :
    (test : Bool) {f f' g g' : Emit}
    → Same f f'
    → Same g g'
    → Same (if test then f else g) (if test then f' else g')
if-Same true p q = p
if-Same false p q = q

rip-Same :
    (w r x b : Bool) (opc pc pc' before dst_hw : ℕ) (inst : X86Instr)
    → Same
        (emit_rex_prefix w r x b ▹ u8 opc ▹ emit_rip_operand pc before dst_hw inst ▹ advance 6)
        (emit_rex_prefix w r x b ▹ u8 opc ▹ emit_rip_operand pc' before dst_hw inst ▹ advance 6)
rip-Same w r x b opc pc pc' before dst_hw inst = seq-Same (emit_rex_prefix-Balanced w r x b).emits (
    Emits-Same (u8-Emits opc then emit_rip_operand-Emits pc before dst_hw inst then advance-Emits 6)
      (u8-Emits opc then emit_rip_operand-Emits pc' before dst_hw inst then advance-Emits 6))

encode_lea-Same : (pc pc' : ℕ) (inst : X86Instr) → Same (encode_lea pc inst) (encode_lea pc' inst)
unfolding encode_lea
encode_lea-Same pc pc' inst =
    if-Same (is_mem_base inst.src.kind) Same-refl
      (if-Same (is_mem_rip inst.src.kind) (rip-Same _ _ _ _ _ pc pc' 2 _ inst) Same-refl)

encode_mov-Same : (pc pc' : ℕ) (inst : X86Instr) → Same (encode_mov pc inst) (encode_mov pc' inst)
unfolding encode_mov
encode_mov-Same pc pc' inst = if-Same (is_imm inst.src.kind) Same-refl (
    if-Same (is_reg inst.src.kind && is_reg inst.dst.kind) Same-refl (
      if-Same (is_mem_base inst.src.kind) Same-refl (
        if-Same (is_mem_base inst.dst.kind) Same-refl
          (if-Same (is_mem_rip inst.src.kind) (rip-Same _ _ _ _ _ pc pc' 2 _ inst) Same-refl))))

encode_movsd-Same :
    (pc pc' : ℕ) (inst : X86Instr) → Same (encode_movsd pc inst) (encode_movsd pc' inst)
unfolding encode_movsd encode_movsd_operands
encode_movsd-Same pc pc' inst = seq-Same (u8-Emits 0xF2) (
    seq-Same (advance-Emits 1) (
      if-Same (is_reg inst.src.kind && is_reg inst.dst.kind) Same-refl (
        if-Same (is_mem_base inst.src.kind) Same-refl (
          if-Same (is_mem_base inst.dst.kind) Same-refl (
            if-Same (is_mem_rip inst.src.kind)
              (seq-Same (emit_rex_prefix-Balanced _ _ _ _).emits (
                Emits-Same
                  (u8-Emits 0x0F
                    then u8-Emits 0x10
                    then emit_rip_operand-Emits pc 3 _ inst
                    then advance-Emits 7)
                  (u8-Emits 0x0F
                    then u8-Emits 0x10
                    then emit_rip_operand-Emits pc' 3 _ inst
                    then advance-Emits 7)))
              Same-refl)))))

pub encode_op-Same :
    (op : X86Op) (map map' : Option LabelMap) (pc pc' : ℕ) (inst : X86Instr)
    → Same (encode_op op map pc inst) (encode_op op map' pc' inst)
unfolding encode_op
encode_op-Same X86Op.lea map map' pc pc' inst = encode_lea-Same pc pc' inst
encode_op-Same X86Op.mov map map' pc pc' inst = encode_mov-Same pc pc' inst
encode_op-Same X86Op.movsd map map' pc pc' inst = encode_movsd-Same pc pc' inst
encode_op-Same X86Op.jmp map map' pc pc' inst =
    exact-Same (encode_jmp-Balanced map pc inst) (encode_jmp-Balanced map' pc' inst)
encode_op-Same X86Op.jne map map' pc pc' inst =
    exact-Same (encode_jcc-Balanced 0x85 map pc inst) (encode_jcc-Balanced 0x85 map' pc' inst)
encode_op-Same X86Op.je map map' pc pc' inst =
    exact-Same (encode_jcc-Balanced 0x84 map pc inst) (encode_jcc-Balanced 0x84 map' pc' inst)
encode_op-Same X86Op.call map map' pc pc' inst =
    exact-Same (encode_call-Balanced pc inst) (encode_call-Balanced pc' inst)
encode_op-Same X86Op.label map map' pc pc' inst = Same-refl
encode_op-Same _ map map' pc pc' inst = Same-refl
