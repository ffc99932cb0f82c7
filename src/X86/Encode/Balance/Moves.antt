-- ===== src/X86/Encode/Balance/Moves.antt =====
-- LEA, MOV and MOVSD, whose encoding depends on the kinds of the two operands: balanced, and not
-- empty for the operand pairs that the encoder knows.
use cco_lang.Base.{
  ℕ, ◌+◌, ◌≤◌, ◌≡◌, refl, ℤ, pos, negsuc, Bool, false, ◌||◌, ◌&&◌, ◌==◌, arith, if◌then◌else◌,
}
use cco_lang.X86.Instr.{X86Instr, X86Reg}
use cco_lang.X86.Encode.Out.{Emit, ◌▹◌, u8, advance}
use cco_lang.X86.Encode.Operand.{reg_hw_id, emit_rex_prefix, emit_modrm_sib_disp, in_range}
use cco_lang.X86.Encode.Instr.{
  emit_rip_operand, encode_lea, encode_mov_imm, encode_mov, is_mem_base, is_mem_rip, is_reg, is_imm,
  extended,
}
use cco_lang.X86.Encode.Counts.{
  Emits, Balanced, balance, seq-Balanced, if-Balanced, widen, u8-Emits, u32-Emits, u64-Emits,
  advance-Emits, ◌then◌, lower, choose-Balanced, none-Balanced,
}
use cco_lang.X86.Encode.Balance.{
  emit_rex_prefix-Balanced, emit_modrm_sib_disp-Balanced, emit_rip_operand-Emits,
  emit_reg_reg-Emits, counted_late, with_rex, prefixed, rex_b-Balanced,
}
use cco_lang.X86.Encode.Sse.{encode_movsd, encode_movsd_operands}

-- The forms of an operand pair that the encoder knows.
abbrev pub lea_form : X86Instr → Bool
lea_form inst = is_mem_base inst.src.kind || (is_mem_rip inst.src.kind || false)

abbrev pub mov_form : X86Instr → Bool
mov_form inst =
    is_imm inst.src.kind
    || (is_reg inst.src.kind && is_reg inst.dst.kind
        || (is_mem_base inst.src.kind
            || (is_mem_base inst.dst.kind || (is_mem_rip inst.src.kind || false))))

rip_form :
    (pc before dst_hw opc : ℕ) (inst : X86Instr) {f : Emit}
    → Balanced 0 1 f
    → Balanced 1 10 (f ▹ u8 opc ▹ emit_rip_operand pc before dst_hw inst ▹ advance 6)
rip_form pc before dst_hw opc inst p =
    prefixed 1 p
      (u8-Emits opc then emit_rip_operand-Emits pc before dst_hw inst then advance-Emits 6) refl
      (omega arith) (omega arith)

pub encode_lea-Balanced :
    (pc : ℕ) (inst : X86Instr) → Balanced (lower (lea_form inst)) 10 (encode_lea pc inst)
unfolding encode_lea
encode_lea-Balanced pc inst =
    choose-Balanced (is_mem_base inst.src.kind) (is_mem_rip inst.src.kind || false)
      (with_rex (emit_rex_prefix-Balanced _ _ _ _) (
        counted_late (u8-Emits _) (advance-Emits 1) refl (omega arith)
          (emit_modrm_sib_disp-Balanced _ _ _)))
      (choose-Balanced (is_mem_rip inst.src.kind) false
        (rip_form pc 2 _ _ inst (emit_rex_prefix-Balanced _ _ _ _)) (none-Balanced 10))

encode_mov_imm-Balanced : (inst : X86Instr) → Balanced 1 10 (encode_mov_imm inst)
unfolding encode_mov_imm
encode_mov_imm-Balanced inst =
    let dst_hw = reg_hw_id inst.dst.reg in
    if-Balanced (inst.dst.size == 8 || inst.src.size == 8)
      (if-Balanced (in_range (negsuc 2147483647) (pos 2147483647) inst.src.imm)
        (prefixed 1 (emit_rex_prefix-Balanced _ _ _ _)
          (u8-Emits _ then u8-Emits _ then u32-Emits _ then advance-Emits 6) refl (omega arith)
          (omega arith))
        (prefixed 1 (emit_rex_prefix-Balanced _ _ _ _)
          (u8-Emits _ then u64-Emits _ then advance-Emits 9) refl (omega arith) (omega arith)))
      (prefixed 1 (rex_b-Balanced (extended dst_hw))
        (u8-Emits _ then u32-Emits _ then advance-Emits 5) refl (omega arith) (omega arith))

pub encode_mov-Balanced :
    (pc : ℕ) (inst : X86Instr) → Balanced (lower (mov_form inst)) 10 (encode_mov pc inst)
unfolding encode_mov
encode_mov-Balanced pc inst =
    choose-Balanced (is_imm inst.src.kind) _ (encode_mov_imm-Balanced inst) (
      choose-Balanced (is_reg inst.src.kind && is_reg inst.dst.kind) _
        (prefixed 1 (emit_rex_prefix-Balanced _ _ _ _)
          (u8-Emits _ then emit_reg_reg-Emits _ _ then advance-Emits 2) refl (omega arith)
          (omega arith))
        (choose-Balanced (is_mem_base inst.src.kind) _
          (with_rex (emit_rex_prefix-Balanced _ _ _ _) (
            counted_late (u8-Emits _) (advance-Emits 1) refl (omega arith)
              (emit_modrm_sib_disp-Balanced _ _ _)))
          (choose-Balanced (is_mem_base inst.dst.kind) _
            (with_rex (emit_rex_prefix-Balanced _ _ _ _) (
              counted_late (u8-Emits _) (advance-Emits 1) refl (omega arith)
                (emit_modrm_sib_disp-Balanced _ _ _)))
            (choose-Balanced (is_mem_rip inst.src.kind) false
              (rip_form pc 2 _ _ inst (emit_rex_prefix-Balanced _ _ _ _)) (none-Balanced 10)))))

-- A REX prefix and an emission of at most eight bytes.
sse_form :
    (w r x b : Bool) {k n : ℕ} {g : Emit}
    → Emits k n g
    → k ≡ n
    → k ≤ 8
    → 1 ≤ k
    → Balanced 1 9 (emit_rex_prefix w r x b ▹ g)
sse_form w r x b e same few some_bytes =
    widen 1 9 (seq-Balanced (emit_rex_prefix-Balanced w r x b) (balance e same)) (omega arith)
      (omega arith)

sse_mem_form :
    (w r x b : Bool) (opc reg : ℕ) (base : X86Reg) (disp : ℤ)
    → Balanced 1 9
        (emit_rex_prefix w r x b ▹ u8 0x0F ▹ u8 opc ▹ advance 2 ▹ emit_modrm_sib_disp reg base disp)
unfolding ◌▹◌
sse_mem_form w r x b opc reg base disp =
    widen 1 9
      (seq-Balanced (emit_rex_prefix-Balanced w r x b) (
        seq-Balanced (balance (u8-Emits 0x0F then u8-Emits opc then advance-Emits 2) refl)
          (emit_modrm_sib_disp-Balanced reg base disp)))
      (omega arith) (omega arith)

-- A prefix byte that is counted at once.
pub legacy_prefix :
    {lo : ℕ} (byte : ℕ) {g : Emit}
    → Balanced lo 9 g
    → Balanced (1 + lo) 10 (u8 byte ▹ advance 1 ▹ g)
unfolding ◌▹◌
legacy_prefix byte q = seq-Balanced (balance (u8-Emits byte then advance-Emits 1) refl) q

abbrev pub movsd_form : X86Instr → Bool
movsd_form inst =
    is_reg inst.src.kind && is_reg inst.dst.kind
    || (is_mem_base inst.src.kind
        || (is_mem_base inst.dst.kind || (is_mem_rip inst.src.kind || false)))

encode_movsd_operands-Balanced :
    (pc : ℕ) (inst : X86Instr)
    → Balanced (lower (movsd_form inst)) 9 (encode_movsd_operands pc inst)
unfolding encode_movsd_operands
encode_movsd_operands-Balanced pc inst =
    choose-Balanced (is_reg inst.src.kind && is_reg inst.dst.kind) _
      (sse_form _ _ _ _
        (u8-Emits _ then u8-Emits _ then emit_reg_reg-Emits _ _ then advance-Emits 3) refl
        (omega arith) (omega arith))
      (choose-Balanced (is_mem_base inst.src.kind) _ (sse_mem_form _ _ _ _ _ _ _ _) (
        choose-Balanced (is_mem_base inst.dst.kind) _ (sse_mem_form _ _ _ _ _ _ _ _) (
          choose-Balanced (is_mem_rip inst.src.kind) false
            (sse_form _ _ _ _
              (u8-Emits _
                then u8-Emits _
                then emit_rip_operand-Emits pc 3 _ inst
                then advance-Emits 7)
              refl (omega arith) (omega arith))
            (none-Balanced 9))))

pub encode_movsd-Balanced :
    (pc : ℕ) (inst : X86Instr) → Balanced (1 + lower (movsd_form inst)) 10 (encode_movsd pc inst)
unfolding encode_movsd
encode_movsd-Balanced pc inst = legacy_prefix 0xF2 (encode_movsd_operands-Balanced pc inst)
