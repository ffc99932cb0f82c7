-- ===== src/X86/Built.antt =====
-- Lists that the builders make, and what the encoder and the peephole pass rely on in them.
pub mod Seen
pub mod Calls
use cco_lang.Base.{
  ℕ, ℤ, ◌≡◌, refl, none, some, Bool, true, false, ◌&&◌, ◌||◌, not, String, List, [], ◌∷◌, ◌++◌,
  arith, length, length-append,
}
use cco_lang.X86.Instr.{X86Reg, X86CondCode, X86Op, X86OperandKind, X86Instr}
use cco_lang.X86.List.{X86InstrList, x86_instr_list_create, x86_instr_list_append}
use cco_lang.X86.Emit.{
  Target, x86_emit_label, x86_emit_push, x86_emit_pop, x86_emit_ret, x86_emit_sub_imm_rsp,
  x86_emit_add_imm_rsp, x86_emit_lea_mem, x86_emit_lea_rip, x86_emit_mov_reg_reg,
  x86_emit_mov_imm_reg, x86_emit_mov_mem_reg, x86_emit_mov_reg_mem, x86_emit_mov_rip_reg,
  x86_emit_movb_imm, x86_emit_movslq, x86_emit_movzbl, x86_emit_cmove, x86_emit_add, x86_emit_sub,
  x86_emit_imul, x86_emit_and, x86_emit_or, x86_emit_xor, x86_emit_cmp, x86_emit_andb, x86_emit_orb,
  x86_emit_idiv, x86_emit_cltd, x86_emit_neg, x86_emit_cmp_imm, x86_emit_setcc, x86_emit_jmp,
  x86_emit_jne, x86_emit_je, x86_emit_call,
}
use cco_lang.X86.EmitSse.{
  x86_emit_movsd_reg_reg, x86_emit_movsd_mem_reg, x86_emit_movsd_reg_mem, x86_emit_movsd_rip_reg,
  x86_emit_addsd, x86_emit_subsd, x86_emit_mulsd, x86_emit_divsd, x86_emit_xorpd, x86_emit_ucomisd,
}
use cco_lang.X86.Encode.Lengths.{has_form_of}
use cco_lang.X86.Encode.Function.{is_label}
use cco_lang.X86.Encode.Jumps.{is_jump}

-- What one call of a builder makes of a list.
pub data Builds (list : Target) : Target → Type 0 where
  label : (name : String) → Builds list (x86_emit_label list name)
  push : (reg : X86Reg) → Builds list (x86_emit_push list reg)
  pop : (reg : X86Reg) → Builds list (x86_emit_pop list reg)
  ret : Builds list (x86_emit_ret list)
  sub_imm_rsp : (imm : ℤ) → Builds list (x86_emit_sub_imm_rsp list imm)
  add_imm_rsp : (imm : ℤ) → Builds list (x86_emit_add_imm_rsp list imm)
  lea_mem :
      (base : X86Reg) (offset : ℤ) (dst : X86Reg)
      → Builds list (x86_emit_lea_mem list base offset dst)
  lea_rip : (symbol : String) (dst : X86Reg) → Builds list (x86_emit_lea_rip list symbol dst)
  mov_reg_reg :
      (size : ℕ) (src : X86Reg) (dst : X86Reg)
      → Builds list (x86_emit_mov_reg_reg list size src dst)
  mov_imm_reg :
      (size : ℕ) (imm : ℤ) (dst : X86Reg) → Builds list (x86_emit_mov_imm_reg list size imm dst)
  mov_mem_reg :
      (size : ℕ) (base : X86Reg) (offset : ℤ) (dst : X86Reg)
      → Builds list (x86_emit_mov_mem_reg list size base offset dst)
  mov_reg_mem :
      (size : ℕ) (src : X86Reg) (base : X86Reg) (offset : ℤ)
      → Builds list (x86_emit_mov_reg_mem list size src base offset)
  mov_rip_reg :
      (symbol : String) (dst : X86Reg) → Builds list (x86_emit_mov_rip_reg list symbol dst)
  movb_imm : (imm : ℕ) (dst : X86Reg) → Builds list (x86_emit_movb_imm list imm dst)
  movslq : (src : X86Reg) (dst : X86Reg) → Builds list (x86_emit_movslq list src dst)
  movzbl : (src : X86Reg) (dst : X86Reg) → Builds list (x86_emit_movzbl list src dst)
  cmove : (src : X86Reg) (dst : X86Reg) → Builds list (x86_emit_cmove list src dst)
  add : (src : X86Reg) (dst : X86Reg) → Builds list (x86_emit_add list src dst)
  sub : (src : X86Reg) (dst : X86Reg) → Builds list (x86_emit_sub list src dst)
  imul : (src : X86Reg) (dst : X86Reg) → Builds list (x86_emit_imul list src dst)
  and : (src : X86Reg) (dst : X86Reg) → Builds list (x86_emit_and list src dst)
  or : (src : X86Reg) (dst : X86Reg) → Builds list (x86_emit_or list src dst)
  xor : (src : X86Reg) (dst : X86Reg) → Builds list (x86_emit_xor list src dst)
  cmp : (src : X86Reg) (dst : X86Reg) → Builds list (x86_emit_cmp list src dst)
  andb : (src : X86Reg) (dst : X86Reg) → Builds list (x86_emit_andb list src dst)
  orb : (src : X86Reg) (dst : X86Reg) → Builds list (x86_emit_orb list src dst)
  idiv : (src : X86Reg) → Builds list (x86_emit_idiv list src)
  cltd : Builds list (x86_emit_cltd list)
  neg : (dst : X86Reg) → Builds list (x86_emit_neg list dst)
  cmp_imm : (imm : ℤ) (dst : X86Reg) → Builds list (x86_emit_cmp_imm list imm dst)
  setcc : (cond : X86CondCode) (dst : X86Reg) → Builds list (x86_emit_setcc list cond dst)
  jmp : (label : String) → Builds list (x86_emit_jmp list label)
  jne : (label : String) → Builds list (x86_emit_jne list label)
  je : (label : String) → Builds list (x86_emit_je list label)
  call : (symbol : String) → Builds list (x86_emit_call list symbol)
  movsd_reg_reg : (src : X86Reg) (dst : X86Reg) → Builds list (x86_emit_movsd_reg_reg list src dst)
  movsd_mem_reg :
      (base : X86Reg) (offset : ℤ) (dst : X86Reg)
      → Builds list (x86_emit_movsd_mem_reg list base offset dst)
  movsd_reg_mem :
      (src : X86Reg) (base : X86Reg) (offset : ℤ)
      → Builds list (x86_emit_movsd_reg_mem list src base offset)
  movsd_rip_reg :
      (symbol : String) (dst : X86Reg) → Builds list (x86_emit_movsd_rip_reg list symbol dst)
  addsd : (src : X86Reg) (dst : X86Reg) → Builds list (x86_emit_addsd list src dst)
  subsd : (src : X86Reg) (dst : X86Reg) → Builds list (x86_emit_subsd list src dst)
  mulsd : (src : X86Reg) (dst : X86Reg) → Builds list (x86_emit_mulsd list src dst)
  divsd : (src : X86Reg) (dst : X86Reg) → Builds list (x86_emit_divsd list src dst)
  xorpd : (src : X86Reg) (dst : X86Reg) → Builds list (x86_emit_xorpd list src dst)
  ucomisd : (src : X86Reg) (dst : X86Reg) → Builds list (x86_emit_ucomisd list src dst)

-- Lists that are built from the empty one.
pub data IsBuilt : Target → Type 0 where
  created : IsBuilt (some x86_instr_list_create)
  built : {list list' : Target} → IsBuilt list → Builds list list' → IsBuilt list'

abbrev no_kind : X86OperandKind → Bool
no_kind X86OperandKind.kind_none = true
no_kind _ = false

-- The encoder has a form for the instruction, or it is a label; the destination of a jump is empty.
has_operands_of : X86Op → X86Instr → Bool
has_operands_of op inst =
    (is_label op || has_form_of op inst) && (not (is_jump op) || no_kind inst.dst.kind)

unfoldable pub has_operands : X86Instr → Bool
unfolding has_operands_of
has_operands inst = has_operands_of inst.op inst

unfoldable pub all_have_operands : List X86Instr → Bool
all_have_operands [] = true
all_have_operands (inst ∷ rest) = has_operands inst && all_have_operands rest

pub record IsSound (list : X86InstrList) : Type 0 where
  pub counted : list.count ≡ length list.instrs
  pub formed : all_have_operands list.instrs ≡ true

abbrev pub IsSoundTarget : Target → Type 0
IsSoundTarget none = Unit
IsSoundTarget (some list) = IsSound list

all_have_operands-append :
    (xs : List X86Instr) (inst : X86Instr)
    → all_have_operands xs ≡ true
    → has_operands inst ≡ true
    → all_have_operands (xs ++ inst ∷ []) ≡ true
unfolding all_have_operands
all_have_operands-append [] inst h k = rw k
all_have_operands-append (x ∷ xs) inst h k = ground (arith, all_have_operands-append xs inst)

append-IsSound :
    (list : Target) (inst : X86Instr)
    → IsSoundTarget list
    → has_operands inst ≡ true
    → IsSoundTarget (x86_instr_list_append list (some inst))
unfolding x86_instr_list_append
append-IsSound none inst s k = s
append-IsSound (some list) inst s k = record {
  counted = omega (arith, s.counted, length-append list.instrs (inst ∷ []));
  formed = all_have_operands-append list.instrs inst s.formed k;
}

-- Every builder keeps the list sound.
Builds-IsSound :
    {list list' : Target} → Builds list list' → IsSoundTarget list → IsSoundTarget list'
unfolding has_operands has_form_of x86_emit_label x86_emit_push x86_emit_pop x86_emit_ret
    x86_emit_sub_imm_rsp x86_emit_add_imm_rsp x86_emit_lea_mem x86_emit_lea_rip x86_emit_mov_reg_reg
    x86_emit_mov_imm_reg x86_emit_mov_mem_reg x86_emit_mov_reg_mem x86_emit_mov_rip_reg
    x86_emit_movb_imm x86_emit_movslq x86_emit_movzbl x86_emit_cmove x86_emit_add x86_emit_sub
    x86_emit_imul x86_emit_and x86_emit_or x86_emit_xor x86_emit_cmp x86_emit_andb x86_emit_orb
    x86_emit_idiv x86_emit_cltd x86_emit_neg x86_emit_cmp_imm x86_emit_setcc x86_emit_jmp
    x86_emit_jne x86_emit_je x86_emit_call x86_emit_movsd_reg_reg x86_emit_movsd_mem_reg
    x86_emit_movsd_reg_mem x86_emit_movsd_rip_reg x86_emit_addsd x86_emit_subsd x86_emit_mulsd
    x86_emit_divsd x86_emit_xorpd x86_emit_ucomisd
Builds-IsSound {list} (label name) s = append-IsSound list _ s refl
Builds-IsSound {list} (push reg) s = append-IsSound list _ s refl
Builds-IsSound {list} (pop reg) s = append-IsSound list _ s refl
Builds-IsSound {list} ret s = append-IsSound list _ s refl
Builds-IsSound {list} (sub_imm_rsp imm) s = append-IsSound list _ s refl
Builds-IsSound {list} (add_imm_rsp imm) s = append-IsSound list _ s refl
Builds-IsSound {list} (lea_mem base offset dst) s = append-IsSound list _ s refl
Builds-IsSound {list} (lea_rip symbol dst) s = append-IsSound list _ s refl
Builds-IsSound {list} (mov_reg_reg size src dst) s = append-IsSound list _ s refl
Builds-IsSound {list} (mov_imm_reg size imm dst) s = append-IsSound list _ s refl
Builds-IsSound {list} (mov_mem_reg size base offset dst) s = append-IsSound list _ s refl
Builds-IsSound {list} (mov_reg_mem size src base offset) s = append-IsSound list _ s refl
Builds-IsSound {list} (mov_rip_reg symbol dst) s = append-IsSound list _ s refl
Builds-IsSound {list} (movb_imm imm dst) s = append-IsSound list _ s refl
Builds-IsSound {list} (movslq src dst) s = append-IsSound list _ s refl
Builds-IsSound {list} (movzbl src dst) s = append-IsSound list _ s refl
Builds-IsSound {list} (cmove src dst) s = append-IsSound list _ s refl
Builds-IsSound {list} (add src dst) s = append-IsSound list _ s refl
Builds-IsSound {list} (sub src dst) s = append-IsSound list _ s refl
Builds-IsSound {list} (imul src dst) s = append-IsSound list _ s refl
Builds-IsSound {list} (and src dst) s = append-IsSound list _ s refl
Builds-IsSound {list} (or src dst) s = append-IsSound list _ s refl
Builds-IsSound {list} (xor src dst) s = append-IsSound list _ s refl
Builds-IsSound {list} (cmp src dst) s = append-IsSound list _ s refl
Builds-IsSound {list} (andb src dst) s = append-IsSound list _ s refl
Builds-IsSound {list} (orb src dst) s = append-IsSound list _ s refl
Builds-IsSound {list} (idiv src) s = append-IsSound list _ s refl
Builds-IsSound {list} cltd s = append-IsSound list _ s refl
Builds-IsSound {list} (neg dst) s = append-IsSound list _ s refl
Builds-IsSound {list} (cmp_imm imm dst) s = append-IsSound list _ s refl
Builds-IsSound {list} (setcc cond dst) s = append-IsSound list _ s refl
Builds-IsSound {list} (jmp target) s = append-IsSound list _ s refl
Builds-IsSound {list} (jne target) s = append-IsSound list _ s refl
Builds-IsSound {list} (je target) s = append-IsSound list _ s refl
Builds-IsSound {list} (call symbol) s = append-IsSound list _ s refl
Builds-IsSound {list} (movsd_reg_reg src dst) s = append-IsSound list _ s refl
Builds-IsSound {list} (movsd_mem_reg base offset dst) s = append-IsSound list _ s refl
Builds-IsSound {list} (movsd_reg_mem src base offset) s = append-IsSound list _ s refl
Builds-IsSound {list} (movsd_rip_reg symbol dst) s = append-IsSound list _ s refl
Builds-IsSound {list} (addsd src dst) s = append-IsSound list _ s refl
Builds-IsSound {list} (subsd src dst) s = append-IsSound list _ s refl
Builds-IsSound {list} (mulsd src dst) s = append-IsSound list _ s refl
Builds-IsSound {list} (divsd src dst) s = append-IsSound list _ s refl
Builds-IsSound {list} (xorpd src dst) s = append-IsSound list _ s refl
Builds-IsSound {list} (ucomisd src dst) s = append-IsSound list _ s refl

-- A list that the builders made counts its instructions, and each of them is a label or has a form
-- that the encoder knows; its jumps have an empty destination.
pub IsBuilt-IsSound : {list : X86InstrList} → IsBuilt (some list) → IsSound list
IsBuilt-IsSound h = sound h
  where
    sound : {list : Target} → IsBuilt list → IsSoundTarget list
    sound created = record { counted = refl; formed = unfold all_have_operands in refl }
    sound (built b step) = Builds-IsSound step (sound b)
