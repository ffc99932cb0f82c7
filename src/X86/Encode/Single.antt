-- ===== src/X86/Encode/Single.antt =====
-- `encode_single_instruction_internal`: jumps, calls and the switch over the opcode.
use cco_lang.Base.{ℕ, ◌+◌, ◌-◌, ◌%◌, ◌^◌, true, false, Option, none, some}
use cco_lang.X86.Instr.{X86Instr, X86Op}
use cco_lang.X86.Labels.{LabelMap, label_map_get}
use cco_lang.X86.Reloc.{plt32}
use cco_lang.X86.Encode.Out.{Emit, ◌▹◌, no_emit, u8, u32, advance, reloc}
use cco_lang.X86.Encode.Operand.{reg_hw_id}
use cco_lang.X86.Encode.Instr.{
  encode_push_pop, encode_rsp_imm, encode_lea, encode_mov, encode_movb_imm, encode_op1_dst_src,
  encode_op2_dst_src, encode_op1_src_dst, encode_group3, encode_cmp_imm, encode_setcc,
}
use cco_lang.X86.Encode.Sse.{encode_movsd, encode_sse_op}

-- `(int32_t)(target_pc - end_pc)` of `uint64_t` operands, as a 32-bit pattern.
unfoldable pub rel32 : ℕ → ℕ → ℕ
rel32 target_pc end_pc = (target_pc + 2 ^ 64 - end_pc % 2 ^ 64) % 2 ^ 64 % 2 ^ 32

-- The displacement of a jump whose instruction ends at `end_pc`; 0 for an unknown label.
unfoldable pub jump_disp : Option LabelMap → X86Instr → ℕ → ℕ
unfolding rel32
jump_disp map inst end_pc = elim (label_map_get map inst.src.symbol) [
  | none ↦ 0
  | some target_pc ↦ rel32 target_pc end_pc
]

unfoldable pub encode_jmp : Option LabelMap → ℕ → X86Instr → Emit
encode_jmp map pc inst = u8 0xE9 ▹ u32 (jump_disp map inst (pc + 5)) ▹ advance 5

-- JNE (0x85) and JE (0x84).
unfoldable pub encode_jcc : ℕ → Option LabelMap → ℕ → X86Instr → Emit
encode_jcc opc map pc inst = u8 0x0F ▹ u8 opc ▹ u32 (jump_disp map inst (pc + 6)) ▹ advance 6

unfoldable pub encode_call : ℕ → X86Instr → Emit
encode_call pc inst = u8 0xE8 ▹ reloc (λ len. pc + 1) inst.src.symbol plt32 ▹ u32 0 ▹ advance 5

unfoldable pub encode_op : X86Op → Option LabelMap → ℕ → X86Instr → Emit
encode_op X86Op.label map pc inst = no_emit
encode_op X86Op.push map pc inst = encode_push_pop 0x50 inst
encode_op X86Op.pop map pc inst = encode_push_pop 0x58 inst
encode_op X86Op.ret map pc inst = u8 0xC3 ▹ advance 1
encode_op X86Op.sub_imm map pc inst = encode_rsp_imm 0xEC inst
encode_op X86Op.add_imm map pc inst = encode_rsp_imm 0xC4 inst
encode_op X86Op.lea map pc inst = encode_lea pc inst
encode_op X86Op.mov map pc inst = encode_mov pc inst
encode_op X86Op.movb_imm map pc inst = encode_movb_imm inst
encode_op X86Op.movslq map pc inst = encode_op1_dst_src true 0x63 inst
encode_op X86Op.movzbl map pc inst = encode_op2_dst_src false 0xB6 inst
encode_op X86Op.cmove map pc inst = encode_op2_dst_src true 0x44 inst
encode_op X86Op.add map pc inst = encode_op1_src_dst 0x01 inst
encode_op X86Op.sub map pc inst = encode_op1_src_dst 0x29 inst
encode_op X86Op.imul map pc inst = encode_op2_dst_src false 0xAF inst
encode_op X86Op.idiv map pc inst = encode_group3 7 (reg_hw_id inst.src.reg)
encode_op X86Op.cltd map pc inst = u8 0x99 ▹ advance 1
encode_op X86Op.neg map pc inst = encode_group3 3 (reg_hw_id inst.dst.reg)
encode_op X86Op.and map pc inst = encode_op1_src_dst 0x21 inst
encode_op X86Op.or map pc inst = encode_op1_src_dst 0x09 inst
encode_op X86Op.xor map pc inst = encode_op1_src_dst 0x31 inst
encode_op X86Op.cmp map pc inst = encode_op1_src_dst 0x39 inst
encode_op X86Op.cmp_imm map pc inst = encode_cmp_imm inst
encode_op X86Op.setcc map pc inst = encode_setcc inst
encode_op X86Op.andb map pc inst = encode_op1_src_dst 0x20 inst
encode_op X86Op.orb map pc inst = encode_op1_src_dst 0x08 inst
encode_op X86Op.jmp map pc inst = encode_jmp map pc inst
encode_op X86Op.jne map pc inst = encode_jcc 0x85 map pc inst
encode_op X86Op.je map pc inst = encode_jcc 0x84 map pc inst
encode_op X86Op.call map pc inst = encode_call pc inst
encode_op X86Op.movsd map pc inst = encode_movsd pc inst
encode_op X86Op.addsd map pc inst = encode_sse_op 0xF2 0x58 inst
encode_op X86Op.subsd map pc inst = encode_sse_op 0xF2 0x5C inst
encode_op X86Op.mulsd map pc inst = encode_sse_op 0xF2 0x59 inst
encode_op X86Op.divsd map pc inst = encode_sse_op 0xF2 0x5E inst
encode_op X86Op.xorpd map pc inst = encode_sse_op 0x66 0x57 inst
encode_op X86Op.ucomisd map pc inst = encode_sse_op 0x66 0x2E inst

unfoldable pub encode_single_instruction_internal : X86Instr → Option LabelMap → ℕ → Emit
encode_single_instruction_internal inst map pc = encode_op inst.op map pc inst
