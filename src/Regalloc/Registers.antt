-- ===== src/Regalloc/Registers.antt =====
-- Register names, classes and pools: src/backend/x86_64/x86_64_regalloc.c.
use cco_lang.Base.{Bool, true, false, ◌&&◌, not, List, [], ◌∷◌}
use cco_lang.X86.Instr.{
  X86Reg, reg_none, rbx, rsp, rbp, r10, r11, r12, r13, r14, r15, xmm0, xmm1, xmm2, xmm3, xmm4, xmm5,
  xmm6, xmm7, xmm8, xmm9, xmm10, xmm11, xmm12, xmm13, xmm14, xmm15,
}

pub data RegClass : Type 0 where
  reg_class_int reg_class_float : RegClass

unfoldable pub X86Reg-discrete : Discrete X86Reg
X86Reg-discrete = hlevel

unfoldable pub x86_reg_class : X86Reg → RegClass
x86_reg_class xmm0 = reg_class_float
x86_reg_class xmm1 = reg_class_float
x86_reg_class xmm2 = reg_class_float
x86_reg_class xmm3 = reg_class_float
x86_reg_class xmm4 = reg_class_float
x86_reg_class xmm5 = reg_class_float
x86_reg_class xmm6 = reg_class_float
x86_reg_class xmm7 = reg_class_float
x86_reg_class xmm8 = reg_class_float
x86_reg_class xmm9 = reg_class_float
x86_reg_class xmm10 = reg_class_float
x86_reg_class xmm11 = reg_class_float
x86_reg_class xmm12 = reg_class_float
x86_reg_class xmm13 = reg_class_float
x86_reg_class xmm14 = reg_class_float
x86_reg_class xmm15 = reg_class_float
x86_reg_class _ = reg_class_int

unfoldable pub x86_reg_is_callee_saved : X86Reg → Bool
x86_reg_is_callee_saved rbx = true
x86_reg_is_callee_saved r12 = true
x86_reg_is_callee_saved r13 = true
x86_reg_is_callee_saved r14 = true
x86_reg_is_callee_saved r15 = true
x86_reg_is_callee_saved _ = false

-- `reg < 0`
abbrev pub is_none : X86Reg → Bool
is_none reg_none = true
is_none _ = false

abbrev is_frame_reg : X86Reg → Bool
is_frame_reg rsp = true
is_frame_reg rbp = true
is_frame_reg _ = false

unfoldable pub x86_reg_is_caller_saved : X86Reg → Bool
unfolding x86_reg_is_callee_saved
x86_reg_is_caller_saved reg =
    not (is_none reg) && not (x86_reg_is_callee_saved reg) && not (is_frame_reg reg)

abbrev pub caller_saved_int_pool : List X86Reg
caller_saved_int_pool = r10 ∷ r11 ∷ []

abbrev pub callee_saved_int_pool : List X86Reg
callee_saved_int_pool = rbx ∷ r12 ∷ r13 ∷ r14 ∷ r15 ∷ []

abbrev pub float_pool : List X86Reg
float_pool =
    xmm8 ∷ xmm9 ∷ xmm10 ∷ xmm11 ∷ xmm12 ∷ xmm13 ∷ xmm0 ∷ xmm1 ∷ xmm2 ∷ xmm3 ∷ xmm4 ∷ xmm5 ∷ xmm6
    ∷ xmm7 ∷ []
