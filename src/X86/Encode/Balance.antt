-- ===== src/X86/Encode/Balance.antt =====
-- Prefixes, operands and the shapes of an encoding, each balanced: `len` counts what is appended.
pub mod Moves
pub mod Ops
use cco_lang.Base.{
  ℕ, ◌+◌, ◌%◌, ◌^◌, ◌≤◌, ◌≡◌, refl, ℤ, pos, negsuc, Bool, true, false, ◌||◌, ◌&&◌, not, ◌==◌,
  Option, arith, if◌then◌else◌,
}
use cco_lang.X86.Instr.{X86Instr, X86Reg, X86Op}
use cco_lang.X86.Labels.{LabelMap}
use cco_lang.X86.Encode.Out.{Emit, ◌▹◌, no_emit, u8, advance}
use cco_lang.X86.Encode.Operand.{
  reg_hw_id, rex_byte, emit_rex_prefix, emit_modrm_sib_disp, fits_int8, in_range,
}
use cco_lang.X86.Encode.Instr.{
  encode_push_pop, encode_rsp_imm, emit_rip_operand, encode_lea, encode_mov_imm, emit_reg_reg,
  encode_mov, encode_movb_imm, encode_op1_dst_src, encode_op2_dst_src, encode_op1_src_dst,
  encode_group3, encode_cmp_imm, encode_setcc, is_mem_base, is_mem_rip, is_reg, is_imm, extended,
}
use cco_lang.X86.Encode.Counts.{
  Emits, Balanced, balance, seq-Balanced, if-Balanced, widen, no_emit-Emits, u8-Emits, u32-Emits,
  u64-Emits, advance-Emits, reloc-Emits, ◌then◌, within, lower, choose-Balanced, none-Balanced,
}

pub emit_rex_prefix-Balanced : (w r x b : Bool) → Balanced 0 1 (emit_rex_prefix w r x b)
unfolding emit_rex_prefix
emit_rex_prefix-Balanced w r x b =
    if-Balanced _ (within (u8-Emits _ then advance-Emits 1) refl (omega arith) (omega arith))
      (none-Balanced 1)

pub emit_modrm_sib_disp-Balanced :
    (reg : ℕ) (base : X86Reg) (disp : ℤ) → Balanced 1 6 (emit_modrm_sib_disp reg base disp)
unfolding emit_modrm_sib_disp
emit_modrm_sib_disp-Balanced reg base disp =
    let rm = reg_hw_id base % 8 in
    let short = fits_int8 disp in
    if-Balanced (rm == 4)
      (if-Balanced short
        (within (u8-Emits _ then u8-Emits _ then u8-Emits _ then advance-Emits 3) refl (omega arith)
          (omega arith))
        (within (u8-Emits _ then u8-Emits _ then u32-Emits _ then advance-Emits 6) refl
          (omega arith) (omega arith)))
      (if-Balanced (rm == 5)
        (if-Balanced short
          (within (u8-Emits _ then u8-Emits _ then advance-Emits 2) refl (omega arith)
            (omega arith))
          (within (u8-Emits _ then u32-Emits _ then advance-Emits 5) refl (omega arith)
            (omega arith)))
        (if-Balanced (in_range (pos 0) (pos 0) disp)
          (within (u8-Emits _ then advance-Emits 1) refl (omega arith) (omega arith))
          (if-Balanced short
            (within (u8-Emits _ then u8-Emits _ then advance-Emits 2) refl (omega arith)
              (omega arith))
            (within (u8-Emits _ then u32-Emits _ then advance-Emits 5) refl (omega arith)
              (omega arith)))))

unfoldable pub emit_rip_operand-Emits :
    (pc before dst_hw : ℕ) (inst : X86Instr) → Emits 5 0 (emit_rip_operand pc before dst_hw inst)
unfolding emit_rip_operand
emit_rip_operand-Emits pc before dst_hw inst = u8-Emits _ then reloc-Emits _ _ _ then u32-Emits _

pub emit_reg_reg-Emits : (reg rm : ℕ) → Emits 1 0 (emit_reg_reg reg rm)
unfolding emit_reg_reg
emit_reg_reg-Emits reg rm = u8-Emits _

-- Bytes that a later step counts, a memory operand behind them.
pub counted_late :
    {k n : ℕ} {f g h : Emit}
    → Emits k 0 f
    → Emits 0 n g
    → k ≡ n
    → k ≤ 3
    → Balanced 1 6 h
    → Balanced 1 9 (f ▹ g ▹ h)
unfolding ◌▹◌
counted_late e e' same few q =
    widen 1 9 (seq-Balanced (balance (e then e') (omega arith)) q) (omega arith) (omega arith)

pub with_rex : {f g : Emit} → Balanced 0 1 f → Balanced 1 9 g → Balanced 1 10 (f ▹ g)
with_rex p q = seq-Balanced p q

-- A prefix, and an emission that counts its own bytes.
pub prefixed :
    {k n : ℕ} {f g : Emit} (lo : ℕ)
    → Balanced 0 1 f
    → Emits k n g
    → k ≡ n
    → k ≤ 9
    → lo ≤ k
    → Balanced lo 10 (f ▹ g)
prefixed lo p e same few low =
    widen lo 10 (seq-Balanced p (balance e same)) (omega arith) (omega arith)

-- The prefix 0x41 for an extended register.
pub rex_b-Balanced : (test : Bool) → Balanced 0 1 (if test then u8 0x41 ▹ advance 1 else no_emit)
rex_b-Balanced test =
    if-Balanced test (within (u8-Emits 0x41 then advance-Emits 1) refl (omega arith) (omega arith))
      (none-Balanced 1)
