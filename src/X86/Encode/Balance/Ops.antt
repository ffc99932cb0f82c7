-- ===== src/X86/Encode/Balance/Ops.antt =====
-- The other cases of the encoder: balanced, and never empty.
use cco_lang.Base.{ℕ, refl, Bool, Option, arith, if◌then◌else◌}
use cco_lang.X86.Instr.{X86Instr}
use cco_lang.X86.Labels.{LabelMap}
use cco_lang.X86.Encode.Out.{◌▹◌, u8, advance}
use cco_lang.X86.Encode.Operand.{reg_hw_id, fits_int8}
use cco_lang.X86.Encode.Instr.{
  encode_push_pop, encode_rsp_imm, encode_movb_imm, encode_op1_dst_src, encode_op2_dst_src,
  encode_op1_src_dst, encode_group3, encode_cmp_imm, encode_setcc, extended,
}
use cco_lang.X86.Encode.Counts.{
  Balanced, balance, seq-Balanced, if-Balanced, widen, u8-Emits, u32-Emits, advance-Emits,
  reloc-Emits, ◌then◌, within,
}
use cco_lang.X86.Encode.Balance.{
  emit_rex_prefix-Balanced, emit_reg_reg-Emits, with_rex, prefixed, rex_b-Balanced,
}
use cco_lang.X86.Encode.Single.{encode_jmp, encode_jcc, encode_call}

pub encode_push_pop-Balanced :
    (opc : ℕ) (inst : X86Instr) → Balanced 1 10 (encode_push_pop opc inst)
unfolding encode_push_pop
encode_push_pop-Balanced opc inst =
    if-Balanced (extended (reg_hw_id inst.dst.reg))
      (within (u8-Emits _ then u8-Emits _ then advance-Emits 2) refl (omega arith) (omega arith))
      (within (u8-Emits _ then advance-Emits 1) refl (omega arith) (omega arith))

pub encode_rsp_imm-Balanced : (rm : ℕ) (inst : X86Instr) → Balanced 1 10 (encode_rsp_imm rm inst)
unfolding encode_rsp_imm
encode_rsp_imm-Balanced rm inst =
    if-Balanced (fits_int8 inst.src.imm)
      (within (u8-Emits _ then u8-Emits _ then u8-Emits _ then u8-Emits _ then advance-Emits 4) refl
        (omega arith) (omega arith))
      (within (u8-Emits _ then u8-Emits _ then u8-Emits _ then u32-Emits _ then advance-Emits 7)
        refl (omega arith) (omega arith))

pub encode_movb_imm-Balanced : (inst : X86Instr) → Balanced 1 10 (encode_movb_imm inst)
unfolding encode_movb_imm
encode_movb_imm-Balanced inst =
    prefixed 1 (rex_b-Balanced (extended (reg_hw_id inst.dst.reg)))
      (u8-Emits _ then u8-Emits _ then advance-Emits 2) refl (omega arith) (omega arith)

pub encode_op1_dst_src-Balanced :
    (w : Bool) (opc : ℕ) (inst : X86Instr) → Balanced 1 10 (encode_op1_dst_src w opc inst)
unfolding encode_op1_dst_src
encode_op1_dst_src-Balanced w opc inst =
    prefixed 1 (emit_rex_prefix-Balanced _ _ _ _)
      (u8-Emits _ then emit_reg_reg-Emits _ _ then advance-Emits 2) refl (omega arith) (omega arith)

pub encode_op2_dst_src-Balanced :
    (w : Bool) (opc : ℕ) (inst : X86Instr) → Balanced 1 4 (encode_op2_dst_src w opc inst)
unfolding encode_op2_dst_src
encode_op2_dst_src-Balanced w opc inst =
    widen 1 4
      (seq-Balanced (emit_rex_prefix-Balanced _ _ _ _) (
        balance (u8-Emits _ then u8-Emits _ then emit_reg_reg-Emits _ _ then advance-Emits 3) refl))
      (omega arith) (omega arith)

pub encode_op1_src_dst-Balanced :
    (opc : ℕ) (inst : X86Instr) → Balanced 1 10 (encode_op1_src_dst opc inst)
unfolding encode_op1_src_dst
encode_op1_src_dst-Balanced opc inst =
    prefixed 1 (emit_rex_prefix-Balanced _ _ _ _)
      (u8-Emits _ then emit_reg_reg-Emits _ _ then advance-Emits 2) refl (omega arith) (omega arith)

pub encode_group3-Balanced : (ext hw : ℕ) → Balanced 1 10 (encode_group3 ext hw)
unfolding encode_group3
encode_group3-Balanced ext hw =
    prefixed 1 (emit_rex_prefix-Balanced _ _ _ _) (u8-Emits _ then u8-Emits _ then advance-Emits 2)
      refl (omega arith) (omega arith)

pub encode_cmp_imm-Balanced : (inst : X86Instr) → Balanced 1 10 (encode_cmp_imm inst)
unfolding encode_cmp_imm
encode_cmp_imm-Balanced inst = with_rex (emit_rex_prefix-Balanced _ _ _ _) (
    if-Balanced (fits_int8 inst.src.imm)
      (within (u8-Emits _ then u8-Emits _ then u8-Emits _ then advance-Emits 3) refl (omega arith)
        (omega arith))
      (within (u8-Emits _ then u8-Emits _ then u32-Emits _ then advance-Emits 6) refl (omega arith)
        (omega arith)))

pub encode_setcc-Balanced : (inst : X86Instr) → Balanced 1 10 (encode_setcc inst)
unfolding encode_setcc
encode_setcc-Balanced inst =
    prefixed 1 (emit_rex_prefix-Balanced _ _ _ _)
      (u8-Emits _ then u8-Emits _ then u8-Emits _ then advance-Emits 3) refl (omega arith)
      (omega arith)

pub encode_jmp-Balanced :
    (map : Option LabelMap) (pc : ℕ) (inst : X86Instr) → Balanced 5 5 (encode_jmp map pc inst)
unfolding encode_jmp
encode_jmp-Balanced map pc inst = balance (u8-Emits _ then u32-Emits _ then advance-Emits 5) refl

pub encode_jcc-Balanced :
    (opc : ℕ) (map : Option LabelMap) (pc : ℕ) (inst : X86Instr)
    → Balanced 6 6 (encode_jcc opc map pc inst)
unfolding encode_jcc
encode_jcc-Balanced opc map pc inst =
    balance (u8-Emits _ then u8-Emits _ then u32-Emits _ then advance-Emits 6) refl

pub encode_call-Balanced : (pc : ℕ) (inst : X86Instr) → Balanced 5 5 (encode_call pc inst)
unfolding encode_call
encode_call-Balanced pc inst =
    balance (u8-Emits _ then reloc-Emits _ _ _ then u32-Emits _ then advance-Emits 5) refl

pub one_byte-Balanced : (byte : ℕ) → Balanced 1 10 (u8 byte ▹ advance 1)
one_byte-Balanced byte =
    within (u8-Emits byte then advance-Emits 1) refl (omega arith) (omega arith)
