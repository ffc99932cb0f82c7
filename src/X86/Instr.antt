-- ===== src/X86/Instr.antt =====
-- Registers, operands and instructions: src/backend/x86_64/x86_64_regalloc.h and x86_64_instr.h.
-- The links of the doubly linked instruction list are the order of a list. A `char *` that may be
-- null is an optional text.
use cco_lang.Base.{ℕ, ℤ, pos, negsuc, Option, none, String}

-- The C enum gives `none` the value -1 and numbers the others from 0.
pub data X86Reg : Type 0 where
  reg_none : X86Reg
  rax rcx rdx rbx rsp rbp rsi rdi : X86Reg
  r8 r9 r10 r11 r12 r13 r14 r15 : X86Reg
  xmm0 xmm1 xmm2 xmm3 xmm4 xmm5 xmm6 xmm7 : X86Reg
  xmm8 xmm9 xmm10 xmm11 xmm12 xmm13 xmm14 xmm15 : X86Reg

unfoldable pub reg_code : X86Reg → ℤ
reg_code reg_none = negsuc 0
reg_code rax = pos 0
reg_code rcx = pos 1
reg_code rdx = pos 2
reg_code rbx = pos 3
reg_code rsp = pos 4
reg_code rbp = pos 5
reg_code rsi = pos 6
reg_code rdi = pos 7
reg_code r8 = pos 8
reg_code r9 = pos 9
reg_code r10 = pos 10
reg_code r11 = pos 11
reg_code r12 = pos 12
reg_code r13 = pos 13
reg_code r14 = pos 14
reg_code r15 = pos 15
reg_code xmm0 = pos 16
reg_code xmm1 = pos 17
reg_code xmm2 = pos 18
reg_code xmm3 = pos 19
reg_code xmm4 = pos 20
reg_code xmm5 = pos 21
reg_code xmm6 = pos 22
reg_code xmm7 = pos 23
reg_code xmm8 = pos 24
reg_code xmm9 = pos 25
reg_code xmm10 = pos 26
reg_code xmm11 = pos 27
reg_code xmm12 = pos 28
reg_code xmm13 = pos 29
reg_code xmm14 = pos 30
reg_code xmm15 = pos 31

pub data X86Op : Type 0 where
  label push pop ret sub_imm add_imm lea mov movb_imm movslq movzbl cmove : X86Op
  add sub imul idiv cltd neg and or xor cmp cmp_imm setcc andb orb : X86Op
  jmp jne je call : X86Op
  movsd addsd subsd mulsd divsd xorpd ucomisd : X86Op

pub data X86CondCode : Type 0 where
  e ne l le g ge b be a ae p np : X86CondCode

pub data X86OperandKind : Type 0 where
  kind_none reg_operand imm_operand mem_base mem_rip label_operand symbol_operand : X86OperandKind

pub record X86Operand : Type 0 where
  pub kind : X86OperandKind
  pub size : ℕ
  pub reg : X86Reg
  pub imm : ℤ
  pub symbol : Option String

pub record X86Instr : Type 0 where
  pub op : X86Op
  pub cond : X86CondCode
  pub dst : X86Operand
  pub src : X86Operand

-- `calloc` clears the operand, and the zero of the register enum is `rax`.
abbrev pub cleared_operand : X86Operand
cleared_operand = record { kind = kind_none; size = 0; reg = rax; imm = pos 0; symbol = none }

abbrev pub x86_instr_create : X86Op → X86Instr
x86_instr_create o = record { op = o; cond = e; dst = cleared_operand; src = cleared_operand }
