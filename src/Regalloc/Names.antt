-- ===== src/Regalloc/Names.antt =====
-- The names of the registers in assembly text: `x86_reg_to_str` of
-- src/backend/x86_64/x86_64_regalloc.c.
use cco_lang.Base.{ℕ, ◌==◌, String, if◌then◌else◌}
use cco_lang.X86.Instr.{
  X86Reg, reg_none, rax, rcx, rdx, rbx, rsp, rbp, rsi, rdi, r8, r9, r10, r11, r12, r13, r14, r15,
  xmm0, xmm1, xmm2, xmm3, xmm4, xmm5, xmm6, xmm7, xmm8, xmm9, xmm10, xmm11, xmm12, xmm13, xmm14,
  xmm15,
}

-- The three tables agree at the vector registers and at no register, which have one name.
reg_name_64 : X86Reg → String
reg_name_64 reg_none = "%rax"
reg_name_64 rax = "%rax"
reg_name_64 rcx = "%rcx"
reg_name_64 rdx = "%rdx"
reg_name_64 rbx = "%rbx"
reg_name_64 rsp = "%rsp"
reg_name_64 rbp = "%rbp"
reg_name_64 rsi = "%rsi"
reg_name_64 rdi = "%rdi"
reg_name_64 r8 = "%r8"
reg_name_64 r9 = "%r9"
reg_name_64 r10 = "%r10"
reg_name_64 r11 = "%r11"
reg_name_64 r12 = "%r12"
reg_name_64 r13 = "%r13"
reg_name_64 r14 = "%r14"
reg_name_64 r15 = "%r15"
reg_name_64 xmm0 = "%xmm0"
reg_name_64 xmm1 = "%xmm1"
reg_name_64 xmm2 = "%xmm2"
reg_name_64 xmm3 = "%xmm3"
reg_name_64 xmm4 = "%xmm4"
reg_name_64 xmm5 = "%xmm5"
reg_name_64 xmm6 = "%xmm6"
reg_name_64 xmm7 = "%xmm7"
reg_name_64 xmm8 = "%xmm8"
reg_name_64 xmm9 = "%xmm9"
reg_name_64 xmm10 = "%xmm10"
reg_name_64 xmm11 = "%xmm11"
reg_name_64 xmm12 = "%xmm12"
reg_name_64 xmm13 = "%xmm13"
reg_name_64 xmm14 = "%xmm14"
reg_name_64 xmm15 = "%xmm15"

reg_name_32 : X86Reg → String
reg_name_32 reg_none = "%rax"
reg_name_32 rax = "%eax"
reg_name_32 rcx = "%ecx"
reg_name_32 rdx = "%edx"
reg_name_32 rbx = "%ebx"
reg_name_32 rsp = "%esp"
reg_name_32 rbp = "%ebp"
reg_name_32 rsi = "%esi"
reg_name_32 rdi = "%edi"
reg_name_32 r8 = "%r8d"
reg_name_32 r9 = "%r9d"
reg_name_32 r10 = "%r10d"
reg_name_32 r11 = "%r11d"
reg_name_32 r12 = "%r12d"
reg_name_32 r13 = "%r13d"
reg_name_32 r14 = "%r14d"
reg_name_32 r15 = "%r15d"
reg_name_32 xmm0 = "%xmm0"
reg_name_32 xmm1 = "%xmm1"
reg_name_32 xmm2 = "%xmm2"
reg_name_32 xmm3 = "%xmm3"
reg_name_32 xmm4 = "%xmm4"
reg_name_32 xmm5 = "%xmm5"
reg_name_32 xmm6 = "%xmm6"
reg_name_32 xmm7 = "%xmm7"
reg_name_32 xmm8 = "%xmm8"
reg_name_32 xmm9 = "%xmm9"
reg_name_32 xmm10 = "%xmm10"
reg_name_32 xmm11 = "%xmm11"
reg_name_32 xmm12 = "%xmm12"
reg_name_32 xmm13 = "%xmm13"
reg_name_32 xmm14 = "%xmm14"
reg_name_32 xmm15 = "%xmm15"

reg_name_8 : X86Reg → String
reg_name_8 reg_none = "%rax"
reg_name_8 rax = "%al"
reg_name_8 rcx = "%cl"
reg_name_8 rdx = "%dl"
reg_name_8 rbx = "%bl"
reg_name_8 rsp = "%spl"
reg_name_8 rbp = "%bpl"
reg_name_8 rsi = "%sil"
reg_name_8 rdi = "%dil"
reg_name_8 r8 = "%r8b"
reg_name_8 r9 = "%r9b"
reg_name_8 r10 = "%r10b"
reg_name_8 r11 = "%r11b"
reg_name_8 r12 = "%r12b"
reg_name_8 r13 = "%r13b"
reg_name_8 r14 = "%r14b"
reg_name_8 r15 = "%r15b"
reg_name_8 xmm0 = "%xmm0"
reg_name_8 xmm1 = "%xmm1"
reg_name_8 xmm2 = "%xmm2"
reg_name_8 xmm3 = "%xmm3"
reg_name_8 xmm4 = "%xmm4"
reg_name_8 xmm5 = "%xmm5"
reg_name_8 xmm6 = "%xmm6"
reg_name_8 xmm7 = "%xmm7"
reg_name_8 xmm8 = "%xmm8"
reg_name_8 xmm9 = "%xmm9"
reg_name_8 xmm10 = "%xmm10"
reg_name_8 xmm11 = "%xmm11"
reg_name_8 xmm12 = "%xmm12"
reg_name_8 xmm13 = "%xmm13"
reg_name_8 xmm14 = "%xmm14"
reg_name_8 xmm15 = "%xmm15"

unfoldable pub x86_reg_to_str : X86Reg → ℕ → String
unfolding reg_name_64 reg_name_32 reg_name_8
x86_reg_to_str reg size =
    if size == 1 then reg_name_8 reg else if size == 4 then reg_name_32 reg else reg_name_64 reg
