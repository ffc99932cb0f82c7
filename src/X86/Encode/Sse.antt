-- ===== src/X86/Encode/Sse.antt =====
-- The SSE2 cases of `encode_single_instruction_internal`.
use cco_lang.Base.{ℕ, ◌%◌, false, ◌&&◌, if◌then◌else◌}
use cco_lang.X86.Instr.{X86Instr}
use cco_lang.X86.Encode.Out.{Emit, ◌▹◌, no_emit, u8, advance}
use cco_lang.X86.Encode.Operand.{reg_hw_id, emit_rex_prefix, emit_modrm_sib_disp}
use cco_lang.X86.Encode.Instr.{
  is_reg, is_mem_base, is_mem_rip, extended, emit_reg_reg, emit_rip_operand, encode_op2_dst_src,
}

unfoldable pub encode_movsd_operands : ℕ → X86Instr → Emit
encode_movsd_operands pc inst =
    let src_hw = reg_hw_id inst.src.reg in
    let dst_hw = reg_hw_id inst.dst.reg in
    if is_reg inst.src.kind && is_reg inst.dst.kind
    then emit_rex_prefix false (extended dst_hw) false (extended src_hw)
      ▹ u8 0x0F
      ▹ u8 0x10
      ▹ emit_reg_reg dst_hw src_hw
      ▹ advance 3
    else if is_mem_base inst.src.kind
    then emit_rex_prefix false (extended dst_hw) false (extended src_hw)
      ▹ u8 0x0F
      ▹ u8 0x10
      ▹ advance 2
      ▹ emit_modrm_sib_disp (dst_hw % 8) inst.src.reg inst.src.imm
    else if is_mem_base inst.dst.kind
    then emit_rex_prefix false (extended src_hw) false (extended dst_hw)
      ▹ u8 0x0F
      ▹ u8 0x11
      ▹ advance 2
      ▹ emit_modrm_sib_disp (src_hw % 8) inst.dst.reg inst.dst.imm
    else if is_mem_rip inst.src.kind
    then emit_rex_prefix false (extended dst_hw) false false
      ▹ u8 0x0F
      ▹ u8 0x10
      ▹ emit_rip_operand pc 3 dst_hw inst
      ▹ advance 7
    else no_emit

unfoldable pub encode_movsd : ℕ → X86Instr → Emit
encode_movsd pc inst = u8 0xF2 ▹ advance 1 ▹ encode_movsd_operands pc inst

-- ADDSD, SUBSD, MULSD, DIVSD behind 0xF2; XORPD and UCOMISD behind 0x66.
unfoldable pub encode_sse_op : ℕ → ℕ → X86Instr → Emit
encode_sse_op prefix opc inst = u8 prefix ▹ advance 1 ▹ encode_op2_dst_src false opc inst
