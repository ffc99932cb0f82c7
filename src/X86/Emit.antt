-- ===== src/X86/Emit.antt =====
-- The builders of src/backend/x86_64/x86_64_instr.c for integer and control instructions.
use cco_lang.Base.{ℕ, ℤ, pos, Option, some, String}
use cco_lang.X86.Instr.{
  X86Reg, X86CondCode, X86Op, X86Operand, X86OperandKind, x86_instr_create, cleared_operand,
}
use cco_lang.X86.List.{X86InstrList, x86_instr_list_append}

abbrev pub Target : Type 0
Target = Option X86InstrList

abbrev pub reg_at : ℕ → X86Reg → X86Operand
reg_at size reg = record cleared_operand {
  kind = X86OperandKind.reg_operand;
  size = size;
  reg = reg;
}

abbrev pub imm_at : ℕ → ℤ → X86Operand
imm_at size imm = record cleared_operand {
  kind = X86OperandKind.imm_operand;
  size = size;
  imm = imm;
}

abbrev pub mem_at : ℕ → X86Reg → ℤ → X86Operand
mem_at size base offset = record cleared_operand {
  kind = X86OperandKind.mem_base;
  size = size;
  reg = base;
  imm = offset;
}

abbrev pub rip_at : String → X86Operand
rip_at symbol = record cleared_operand {
  kind = X86OperandKind.mem_rip;
  size = 8;
  symbol = some symbol;
}

abbrev pub label_named : String → X86Operand
label_named name = record cleared_operand {
  kind = X86OperandKind.label_operand;
  symbol = some name;
}

abbrev pub symbol_named : String → X86Operand
symbol_named name = record cleared_operand {
  kind = X86OperandKind.symbol_operand;
  symbol = some name;
}

-- `x86_instr_create`, the writes to both operands, and the append.
abbrev pub emit_instr : Target → X86Op → X86Operand → X86Operand → Target
emit_instr list op dst src =
    x86_instr_list_append list (some (record (x86_instr_create op) { dst = dst; src = src }))

unfoldable pub x86_emit_label : Target → String → Target
x86_emit_label list name = emit_instr list X86Op.label (label_named name) cleared_operand

unfoldable pub x86_emit_push : Target → X86Reg → Target
x86_emit_push list reg = emit_instr list X86Op.push (reg_at 8 reg) cleared_operand

unfoldable pub x86_emit_pop : Target → X86Reg → Target
x86_emit_pop list reg = emit_instr list X86Op.pop (reg_at 8 reg) cleared_operand

unfoldable pub x86_emit_ret : Target → Target
x86_emit_ret list = emit_instr list X86Op.ret cleared_operand cleared_operand

unfoldable pub x86_emit_sub_imm_rsp : Target → ℤ → Target
x86_emit_sub_imm_rsp list imm = emit_instr list X86Op.sub_imm (reg_at 8 X86Reg.rsp) (imm_at 0 imm)

unfoldable pub x86_emit_add_imm_rsp : Target → ℤ → Target
x86_emit_add_imm_rsp list imm = emit_instr list X86Op.add_imm (reg_at 8 X86Reg.rsp) (imm_at 0 imm)

unfoldable pub x86_emit_lea_mem : Target → X86Reg → ℤ → X86Reg → Target
x86_emit_lea_mem list base offset dst =
    emit_instr list X86Op.lea (reg_at 8 dst) (mem_at 8 base offset)

unfoldable pub x86_emit_lea_rip : Target → String → X86Reg → Target
x86_emit_lea_rip list symbol dst = emit_instr list X86Op.lea (reg_at 8 dst) (rip_at symbol)

unfoldable pub x86_emit_mov_reg_reg : Target → ℕ → X86Reg → X86Reg → Target
x86_emit_mov_reg_reg list size src dst =
    emit_instr list X86Op.mov (reg_at size dst) (reg_at size src)

unfoldable pub x86_emit_mov_imm_reg : Target → ℕ → ℤ → X86Reg → Target
x86_emit_mov_imm_reg list size imm dst =
    emit_instr list X86Op.mov (reg_at size dst) (imm_at size imm)

unfoldable pub x86_emit_mov_mem_reg : Target → ℕ → X86Reg → ℤ → X86Reg → Target
x86_emit_mov_mem_reg list size base offset dst =
    emit_instr list X86Op.mov (reg_at size dst) (mem_at size base offset)

unfoldable pub x86_emit_mov_reg_mem : Target → ℕ → X86Reg → X86Reg → ℤ → Target
x86_emit_mov_reg_mem list size src base offset =
    emit_instr list X86Op.mov (mem_at size base offset) (reg_at size src)

unfoldable pub x86_emit_mov_rip_reg : Target → String → X86Reg → Target
x86_emit_mov_rip_reg list symbol dst = emit_instr list X86Op.mov (reg_at 8 dst) (rip_at symbol)

unfoldable pub x86_emit_movb_imm : Target → ℕ → X86Reg → Target
x86_emit_movb_imm list imm dst = emit_instr list X86Op.movb_imm (reg_at 1 dst) (imm_at 1 (pos imm))

unfoldable pub x86_emit_movslq : Target → X86Reg → X86Reg → Target
x86_emit_movslq list src dst = emit_instr list X86Op.movslq (reg_at 8 dst) (reg_at 4 src)

unfoldable pub x86_emit_movzbl : Target → X86Reg → X86Reg → Target
x86_emit_movzbl list src dst = emit_instr list X86Op.movzbl (reg_at 4 dst) (reg_at 1 src)

unfoldable pub x86_emit_cmove : Target → X86Reg → X86Reg → Target
x86_emit_cmove list src dst = emit_instr list X86Op.cmove (reg_at 8 dst) (reg_at 8 src)

unfoldable pub x86_emit_add : Target → X86Reg → X86Reg → Target
x86_emit_add list src dst = emit_instr list X86Op.add (reg_at 4 dst) (reg_at 4 src)

unfoldable pub x86_emit_sub : Target → X86Reg → X86Reg → Target
x86_emit_sub list src dst = emit_instr list X86Op.sub (reg_at 4 dst) (reg_at 4 src)

unfoldable pub x86_emit_imul : Target → X86Reg → X86Reg → Target
x86_emit_imul list src dst = emit_instr list X86Op.imul (reg_at 4 dst) (reg_at 4 src)

unfoldable pub x86_emit_and : Target → X86Reg → X86Reg → Target
x86_emit_and list src dst = emit_instr list X86Op.and (reg_at 4 dst) (reg_at 4 src)

unfoldable pub x86_emit_or : Target → X86Reg → X86Reg → Target
x86_emit_or list src dst = emit_instr list X86Op.or (reg_at 4 dst) (reg_at 4 src)

unfoldable pub x86_emit_xor : Target → X86Reg → X86Reg → Target
x86_emit_xor list src dst = emit_instr list X86Op.xor (reg_at 4 dst) (reg_at 4 src)

unfoldable pub x86_emit_cmp : Target → X86Reg → X86Reg → Target
x86_emit_cmp list src dst = emit_instr list X86Op.cmp (reg_at 4 dst) (reg_at 4 src)

unfoldable pub x86_emit_andb : Target → X86Reg → X86Reg → Target
x86_emit_andb list src dst = emit_instr list X86Op.andb (reg_at 1 dst) (reg_at 1 src)

unfoldable pub x86_emit_orb : Target → X86Reg → X86Reg → Target
x86_emit_orb list src dst = emit_instr list X86Op.orb (reg_at 1 dst) (reg_at 1 src)

unfoldable pub x86_emit_idiv : Target → X86Reg → Target
x86_emit_idiv list src = emit_instr list X86Op.idiv cleared_operand (reg_at 4 src)

unfoldable pub x86_emit_cltd : Target → Target
x86_emit_cltd list = emit_instr list X86Op.cltd cleared_operand cleared_operand

unfoldable pub x86_emit_neg : Target → X86Reg → Target
x86_emit_neg list dst = emit_instr list X86Op.neg (reg_at 4 dst) cleared_operand

unfoldable pub x86_emit_cmp_imm : Target → ℤ → X86Reg → Target
x86_emit_cmp_imm list imm dst = emit_instr list X86Op.cmp_imm (reg_at 4 dst) (imm_at 4 imm)

unfoldable pub x86_emit_setcc : Target → X86CondCode → X86Reg → Target
x86_emit_setcc list cond dst =
    x86_instr_list_append list
      (some (record (x86_instr_create X86Op.setcc) { cond = cond; dst = reg_at 1 dst }))

unfoldable pub x86_emit_jmp : Target → String → Target
x86_emit_jmp list label = emit_instr list X86Op.jmp cleared_operand (label_named label)

unfoldable pub x86_emit_jne : Target → String → Target
x86_emit_jne list label = emit_instr list X86Op.jne cleared_operand (label_named label)

unfoldable pub x86_emit_je : Target → String → Target
x86_emit_je list label = emit_instr list X86Op.je cleared_operand (label_named label)

unfoldable pub x86_emit_call : Target → String → Target
x86_emit_call list symbol = emit_instr list X86Op.call cleared_operand (symbol_named symbol)
