-- ===== src/X86/Encode/Instr.antt =====
-- `encode_single_instruction_internal`: a function for each case of its switch.
use cco_lang.Base.{
  ℕ, ◌+◌, ◌%◌, ◌^◌, pos, negsuc, wrap, Bool, true, false, ◌&&◌, ◌||◌, ◌==◌, leb, if◌then◌else◌,
}
use cco_lang.X86.Instr.{X86Instr, X86OperandKind}
use cco_lang.X86.Reloc.{pc32}
use cco_lang.X86.Encode.Out.{Emit, ◌▹◌, no_emit, u8, u32, u64, advance, reloc}
use cco_lang.X86.Encode.Operand.{
  reg_hw_id, emit_rex_prefix, modrm, fits_int8, in_range, emit_modrm_sib_disp, cond_to_opcode_byte,
}

abbrev pub is_reg : X86OperandKind → Bool
is_reg X86OperandKind.reg_operand = true
is_reg _ = false

abbrev pub is_imm : X86OperandKind → Bool
is_imm X86OperandKind.imm_operand = true
is_imm _ = false

abbrev pub is_mem_base : X86OperandKind → Bool
is_mem_base X86OperandKind.mem_base = true
is_mem_base _ = false

abbrev pub is_mem_rip : X86OperandKind → Bool
is_mem_rip X86OperandKind.mem_rip = true
is_mem_rip _ = false

-- `hw >= 8`
abbrev pub extended : ℕ → Bool
extended hw = leb 8 hw

-- PUSH and POP, whose opcodes are 0x50 and 0x58 plus the register.
unfoldable pub encode_push_pop : ℕ → X86Instr → Emit
encode_push_pop opc inst =
    let hw = reg_hw_id inst.dst.reg in
    if extended hw then u8 0x41 ▹ u8 (opc + hw % 8) ▹ advance 2 else u8 (opc + hw) ▹ advance 1

-- SUB_IMM and ADD_IMM on the stack pointer; `rm` is 0xEC or 0xC4.
unfoldable pub encode_rsp_imm : ℕ → X86Instr → Emit
encode_rsp_imm rm inst =
    let imm = inst.src.imm in
    if fits_int8 imm
    then u8 0x48 ▹ u8 0x83 ▹ u8 rm ▹ u8 (wrap (2 ^ 8) imm) ▹ advance 4
    else u8 0x48 ▹ u8 0x81 ▹ u8 rm ▹ u32 (wrap (2 ^ 32) imm) ▹ advance 7

-- The tail of a RIP-relative operand: ModRM, relocation and four zero bytes.
unfoldable pub emit_rip_operand : ℕ → ℕ → ℕ → X86Instr → Emit
emit_rip_operand pc before dst_hw inst =
    u8 (modrm 0 (dst_hw % 8) 5) ▹ reloc (λ len. pc + len + before) inst.src.symbol pc32 ▹ u32 0

unfoldable pub encode_lea : ℕ → X86Instr → Emit
encode_lea pc inst =
    let dst_hw = reg_hw_id inst.dst.reg in
    let base_hw = reg_hw_id inst.src.reg in
    if is_mem_base inst.src.kind
    then emit_rex_prefix true (extended dst_hw) false (extended base_hw)
      ▹ u8 0x8D
      ▹ advance 1
      ▹ emit_modrm_sib_disp (dst_hw % 8) inst.src.reg inst.src.imm
    else if is_mem_rip inst.src.kind
    then emit_rex_prefix true (extended dst_hw) false false
      ▹ u8 0x8D
      ▹ emit_rip_operand pc 2 dst_hw inst
      ▹ advance 6
    else no_emit

-- MOV with an immediate source.
unfoldable pub encode_mov_imm : X86Instr → Emit
encode_mov_imm inst =
    let is_64 = inst.dst.size == 8 || inst.src.size == 8 in
    let dst_hw = reg_hw_id inst.dst.reg in
    let imm = inst.src.imm in
    if is_64
    then if in_range (negsuc 2147483647) (pos 2147483647) imm
      then emit_rex_prefix true false false (extended dst_hw)
        ▹ u8 0xC7
        ▹ u8 (modrm 3 0 (dst_hw % 8))
        ▹ u32 (wrap (2 ^ 32) imm)
        ▹ advance 6
      else emit_rex_prefix true false false (extended dst_hw)
        ▹ u8 (0xB8 + dst_hw % 8)
        ▹ u64 (wrap (2 ^ 64) imm)
        ▹ advance 9
    else (if extended dst_hw then u8 0x41 ▹ advance 1 else no_emit)
      ▹ u8 (0xB8 + dst_hw % 8)
      ▹ u32 (wrap (2 ^ 32) imm)
      ▹ advance 5

-- An opcode with a register in the ModRM `reg` field and one in `rm`.
unfoldable pub emit_reg_reg : ℕ → ℕ → Emit
emit_reg_reg reg_hw rm_hw = u8 (modrm 3 (reg_hw % 8) (rm_hw % 8))

unfoldable pub encode_mov : ℕ → X86Instr → Emit
unfolding encode_mov_imm
encode_mov pc inst =
    let is_64 = inst.dst.size == 8 || inst.src.size == 8 in
    let src_hw = reg_hw_id inst.src.reg in
    let dst_hw = reg_hw_id inst.dst.reg in
    if is_imm inst.src.kind
    then encode_mov_imm inst
    else if is_reg inst.src.kind && is_reg inst.dst.kind
    then emit_rex_prefix is_64 (extended src_hw) false (extended dst_hw)
      ▹ u8 0x89
      ▹ emit_reg_reg src_hw dst_hw
      ▹ advance 2
    else if is_mem_base inst.src.kind
    then emit_rex_prefix is_64 (extended dst_hw) false (extended src_hw)
      ▹ u8 0x8B
      ▹ advance 1
      ▹ emit_modrm_sib_disp (dst_hw % 8) inst.src.reg inst.src.imm
    else if is_mem_base inst.dst.kind
    then emit_rex_prefix is_64 (extended src_hw) false (extended dst_hw)
      ▹ u8 0x89
      ▹ advance 1
      ▹ emit_modrm_sib_disp (src_hw % 8) inst.dst.reg inst.dst.imm
    else if is_mem_rip inst.src.kind
    then emit_rex_prefix true (extended dst_hw) false false
      ▹ u8 0x8B
      ▹ emit_rip_operand pc 2 dst_hw inst
      ▹ advance 6
    else no_emit

unfoldable pub encode_movb_imm : X86Instr → Emit
encode_movb_imm inst =
    let dst_hw = reg_hw_id inst.dst.reg in
    (if extended dst_hw then u8 0x41 ▹ advance 1 else no_emit)
    ▹ u8 (0xB0 + dst_hw % 8)
    ▹ u8 (wrap (2 ^ 8) inst.src.imm)
    ▹ advance 2

-- One opcode byte; `dst` in the ModRM `reg` field (MOVSLQ).
unfoldable pub encode_op1_dst_src : Bool → ℕ → X86Instr → Emit
encode_op1_dst_src w opc inst =
    let src_hw = reg_hw_id inst.src.reg in
    let dst_hw = reg_hw_id inst.dst.reg in
    emit_rex_prefix w (extended dst_hw) false (extended src_hw)
    ▹ u8 opc
    ▹ emit_reg_reg dst_hw src_hw
    ▹ advance 2

-- Two opcode bytes, 0x0F first; `dst` in the `reg` field (MOVZBL, CMOVE, IMUL and the SSE2 group).
unfoldable pub encode_op2_dst_src : Bool → ℕ → X86Instr → Emit
encode_op2_dst_src w opc inst =
    let src_hw = reg_hw_id inst.src.reg in
    let dst_hw = reg_hw_id inst.dst.reg in
    emit_rex_prefix w (extended dst_hw) false (extended src_hw)
    ▹ u8 0x0F
    ▹ u8 opc
    ▹ emit_reg_reg dst_hw src_hw
    ▹ advance 3

-- One opcode byte; `src` in the `reg` field (ADD, SUB, AND, OR, XOR, CMP, ANDB, ORB).
unfoldable pub encode_op1_src_dst : ℕ → X86Instr → Emit
encode_op1_src_dst opc inst =
    let src_hw = reg_hw_id inst.src.reg in
    let dst_hw = reg_hw_id inst.dst.reg in
    emit_rex_prefix false (extended src_hw) false (extended dst_hw)
    ▹ u8 opc
    ▹ emit_reg_reg src_hw dst_hw
    ▹ advance 2

-- 0xF7 with an opcode extension in the `reg` field (IDIV on `src`, NEG on `dst`).
unfoldable pub encode_group3 : ℕ → ℕ → Emit
encode_group3 ext hw =
    emit_rex_prefix false false false (extended hw)
    ▹ u8 0xF7
    ▹ u8 (modrm 3 ext (hw % 8))
    ▹ advance 2

unfoldable pub encode_cmp_imm : X86Instr → Emit
encode_cmp_imm inst =
    let dst_hw = reg_hw_id inst.dst.reg in
    let imm = inst.src.imm in
    emit_rex_prefix false false false (extended dst_hw)
    ▹ (if fits_int8 imm
        then u8 0x83 ▹ u8 (modrm 3 7 (dst_hw % 8)) ▹ u8 (wrap (2 ^ 8) imm) ▹ advance 3
        else u8 0x81 ▹ u8 (modrm 3 7 (dst_hw % 8)) ▹ u32 (wrap (2 ^ 32) imm) ▹ advance 6)

unfoldable pub encode_setcc : X86Instr → Emit
encode_setcc inst =
    let dst_hw = reg_hw_id inst.dst.reg in
    emit_rex_prefix false false false (extended dst_hw)
    ▹ u8 0x0F
    ▹ u8 (cond_to_opcode_byte inst.cond)
    ▹ u8 (modrm 3 0 (dst_hw % 8))
    ▹ advance 3
