-- ===== src/X86/EmitSse.antt =====
-- The builders of src/backend/x86_64/x86_64_instr.c for SSE2 instructions.
use cco_lang.Base.{ℤ, String}
use cco_lang.X86.Instr.{X86Reg, X86Op}
use cco_lang.X86.Emit.{Target, reg_at, mem_at, rip_at, emit_instr}

unfoldable pub x86_emit_movsd_reg_reg : Target → X86Reg → X86Reg → Target
x86_emit_movsd_reg_reg list src dst = emit_instr list X86Op.movsd (reg_at 8 dst) (reg_at 8 src)

unfoldable pub x86_emit_movsd_mem_reg : Target → X86Reg → ℤ → X86Reg → Target
x86_emit_movsd_mem_reg list base offset dst =
    emit_instr list X86Op.movsd (reg_at 8 dst) (mem_at 8 base offset)

unfoldable pub x86_emit_movsd_reg_mem : Target → X86Reg → X86Reg → ℤ → Target
x86_emit_movsd_reg_mem list src base offset =
    emit_instr list X86Op.movsd (mem_at 8 base offset) (reg_at 8 src)

unfoldable pub x86_emit_movsd_rip_reg : Target → String → X86Reg → Target
x86_emit_movsd_rip_reg list symbol dst = emit_instr list X86Op.movsd (reg_at 8 dst) (rip_at symbol)

unfoldable pub x86_emit_addsd : Target → X86Reg → X86Reg → Target
x86_emit_addsd list src dst = emit_instr list X86Op.addsd (reg_at 8 dst) (reg_at 8 src)

unfoldable pub x86_emit_subsd : Target → X86Reg → X86Reg → Target
x86_emit_subsd list src dst = emit_instr list X86Op.subsd (reg_at 8 dst) (reg_at 8 src)

unfoldable pub x86_emit_mulsd : Target → X86Reg → X86Reg → Target
x86_emit_mulsd list src dst = emit_instr list X86Op.mulsd (reg_at 8 dst) (reg_at 8 src)

unfoldable pub x86_emit_divsd : Target → X86Reg → X86Reg → Target
x86_emit_divsd list src dst = emit_instr list X86Op.divsd (reg_at 8 dst) (reg_at 8 src)

unfoldable pub x86_emit_xorpd : Target → X86Reg → X86Reg → Target
x86_emit_xorpd list src dst = emit_instr list X86Op.xorpd (reg_at 8 dst) (reg_at 8 src)

unfoldable pub x86_emit_ucomisd : Target → X86Reg → X86Reg → Target
x86_emit_ucomisd list src dst = emit_instr list X86Op.ucomisd (reg_at 8 dst) (reg_at 8 src)
