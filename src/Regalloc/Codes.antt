-- ===== src/Regalloc/Codes.antt =====
-- Each register has a code of its own, below X86_TOTAL_REG_COUNT.
use cco_lang.Base.{
  ℕ, ◌<◌, ◌≡◌, refl, sym, ◌∙◌, ap, false, ◌==◌, List, [], ◌∷◌, arith, if◌then◌else◌, pos_part,
}
use cco_lang.X86.Instr.{
  X86Reg, reg_none, reg_code, rax, rcx, rdx, rbx, rsp, rbp, rsi, rdi, r8, r9, r10, r11, r12, r13,
  r14, r15, xmm0, xmm1, xmm2, xmm3, xmm4, xmm5, xmm6, xmm7, xmm8, xmm9, xmm10, xmm11, xmm12, xmm13,
  xmm14, xmm15,
}
use cco_lang.Regalloc.Registers.{is_none}

abbrev pub code : X86Reg → ℕ
code reg = pos_part (reg_code reg)

abbrev all_regs : List X86Reg
all_regs =
    rax ∷ rcx ∷ rdx ∷ rbx ∷ rsp ∷ rbp ∷ rsi ∷ rdi ∷ r8 ∷ r9 ∷ r10 ∷ r11 ∷ r12 ∷ r13 ∷ r14 ∷ r15
    ∷ xmm0 ∷ xmm1 ∷ xmm2 ∷ xmm3 ∷ xmm4 ∷ xmm5 ∷ xmm6 ∷ xmm7 ∷ xmm8 ∷ xmm9 ∷ xmm10 ∷ xmm11 ∷ xmm12
    ∷ xmm13 ∷ xmm14 ∷ xmm15 ∷ []

abbrev with_code : ℕ → List X86Reg → X86Reg
with_code c [] = reg_none
with_code c (r ∷ rs) = if code r == c then r else with_code c rs

known :
    (reg : X86Reg) → is_none reg ≡ false → (with_code (code reg) all_regs ≡ reg) × (code reg < 32)
unfolding reg_code
known reg_none h = absurd cc
known _ h = (refl, omega arith)

pub code_small : (reg : X86Reg) → is_none reg ≡ false → code reg < 32
code_small reg h = (known reg h).1

pub code_one : (a b : X86Reg) → is_none a ≡ false → is_none b ≡ false → code a ≡ code b → a ≡ b
code_one a b ha hb same = sym (known a ha).0 ∙ ap (λ c. with_code c all_regs) same ∙ (known b hb).0
