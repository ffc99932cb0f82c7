-- ===== src/X86/Built/Calls.antt =====
-- The instructions of a list against the calls of the builders that made it.
use cco_lang.Base.{
  pos, ◌≡◌, refl, Bool, true, false, ◌&&◌, none, some, List, [], ◌∷◌, ◌++◌, arith, length,
  length-append, ap,
}
use cco_lang.X86.Instr.{X86Reg, X86Op, X86Instr}
use cco_lang.X86.List.{X86InstrList, x86_instr_list_append}
use cco_lang.X86.Emit.{
  Target, x86_emit_label, x86_emit_push, x86_emit_pop, x86_emit_ret, x86_emit_sub_imm_rsp,
  x86_emit_add_imm_rsp, x86_emit_lea_mem, x86_emit_lea_rip, x86_emit_mov_reg_reg,
  x86_emit_mov_imm_reg, x86_emit_mov_mem_reg, x86_emit_mov_reg_mem, x86_emit_mov_rip_reg,
  x86_emit_movb_imm, x86_emit_movslq, x86_emit_movzbl, x86_emit_cmove, x86_emit_add, x86_emit_sub,
  x86_emit_imul, x86_emit_and, x86_emit_or, x86_emit_xor, x86_emit_cmp, x86_emit_andb, x86_emit_orb,
  x86_emit_idiv, x86_emit_cltd, x86_emit_neg, x86_emit_cmp_imm, x86_emit_setcc, x86_emit_jmp,
  x86_emit_jne, x86_emit_je, x86_emit_call,
}
use cco_lang.X86.EmitSse.{
  x86_emit_movsd_reg_reg, x86_emit_movsd_mem_reg, x86_emit_movsd_reg_mem, x86_emit_movsd_rip_reg,
  x86_emit_addsd, x86_emit_subsd, x86_emit_mulsd, x86_emit_divsd, x86_emit_xorpd, x86_emit_ucomisd,
}
use cco_lang.X86.Built.Seen.{
  nothing, in_reg, constant, in_memory, at_symbol, code_label, function, Seen, seen_as, all_seen,
  fits, all_fit, seen, seen_if,
}
use cco_lang.X86.Built.{
  Builds, IsBuilt, created, built, label, push, pop, ret, sub_imm_rsp, add_imm_rsp, lea_mem,
  lea_rip, mov_reg_reg, mov_imm_reg, mov_mem_reg, mov_reg_mem, mov_rip_reg, movb_imm, movslq,
  movzbl, cmove, add, sub, imul, and, or, xor, cmp, andb, orb, idiv, cltd, neg, cmp_imm, setcc, jmp,
  jne, je, call, movsd_reg_reg, movsd_mem_reg, movsd_reg_mem, movsd_rip_reg, addsd, subsd, mulsd,
  divsd, xorpd, ucomisd,
}

-- The instruction that a call asks for.
abbrev pub called : {list list' : Target} → Builds list list' → Seen
called (label name) = seen X86Op.label (code_label (some name)) nothing
called (push reg) = seen X86Op.push (in_reg 8 reg) nothing
called (pop reg) = seen X86Op.pop (in_reg 8 reg) nothing
called ret = seen X86Op.ret nothing nothing
called (sub_imm_rsp imm) = seen X86Op.sub_imm (in_reg 8 X86Reg.rsp) (constant imm)
called (add_imm_rsp imm) = seen X86Op.add_imm (in_reg 8 X86Reg.rsp) (constant imm)
called (lea_mem base offset dst) = seen X86Op.lea (in_reg 8 dst) (in_memory 8 base offset)
called (lea_rip symbol dst) = seen X86Op.lea (in_reg 8 dst) (at_symbol (some symbol))
called (mov_reg_reg size src dst) = seen X86Op.mov (in_reg size dst) (in_reg size src)
called (mov_imm_reg size imm dst) = seen X86Op.mov (in_reg size dst) (constant imm)
called (mov_mem_reg size base offset dst) =
    seen X86Op.mov (in_reg size dst) (in_memory size base offset)
called (mov_reg_mem size src base offset) =
    seen X86Op.mov (in_memory size base offset) (in_reg size src)
called (mov_rip_reg symbol dst) = seen X86Op.mov (in_reg 8 dst) (at_symbol (some symbol))
called (movb_imm imm dst) = seen X86Op.movb_imm (in_reg 1 dst) (constant (pos imm))
called (movslq src dst) = seen X86Op.movslq (in_reg 8 dst) (in_reg 4 src)
called (movzbl src dst) = seen X86Op.movzbl (in_reg 4 dst) (in_reg 1 src)
called (cmove src dst) = seen X86Op.cmove (in_reg 8 dst) (in_reg 8 src)
called (add src dst) = seen X86Op.add (in_reg 4 dst) (in_reg 4 src)
called (sub src dst) = seen X86Op.sub (in_reg 4 dst) (in_reg 4 src)
called (imul src dst) = seen X86Op.imul (in_reg 4 dst) (in_reg 4 src)
called (and src dst) = seen X86Op.and (in_reg 4 dst) (in_reg 4 src)
called (or src dst) = seen X86Op.or (in_reg 4 dst) (in_reg 4 src)
called (xor src dst) = seen X86Op.xor (in_reg 4 dst) (in_reg 4 src)
called (cmp src dst) = seen X86Op.cmp (in_reg 4 dst) (in_reg 4 src)
called (andb src dst) = seen X86Op.andb (in_reg 1 dst) (in_reg 1 src)
called (orb src dst) = seen X86Op.orb (in_reg 1 dst) (in_reg 1 src)
called (idiv src) = seen X86Op.idiv nothing (in_reg 4 src)
called cltd = seen X86Op.cltd nothing nothing
called (neg dst) = seen X86Op.neg (in_reg 4 dst) nothing
called (cmp_imm imm dst) = seen X86Op.cmp_imm (in_reg 4 dst) (constant imm)
called (setcc cond dst) = seen_if cond X86Op.setcc (in_reg 1 dst) nothing
called (jmp target) = seen X86Op.jmp nothing (code_label (some target))
called (jne target) = seen X86Op.jne nothing (code_label (some target))
called (je target) = seen X86Op.je nothing (code_label (some target))
called (call symbol) = seen X86Op.call nothing (function (some symbol))
called (movsd_reg_reg src dst) = seen X86Op.movsd (in_reg 8 dst) (in_reg 8 src)
called (movsd_mem_reg base offset dst) = seen X86Op.movsd (in_reg 8 dst) (in_memory 8 base offset)
called (movsd_reg_mem src base offset) = seen X86Op.movsd (in_memory 8 base offset) (in_reg 8 src)
called (movsd_rip_reg symbol dst) = seen X86Op.movsd (in_reg 8 dst) (at_symbol (some symbol))
called (addsd src dst) = seen X86Op.addsd (in_reg 8 dst) (in_reg 8 src)
called (subsd src dst) = seen X86Op.subsd (in_reg 8 dst) (in_reg 8 src)
called (mulsd src dst) = seen X86Op.mulsd (in_reg 8 dst) (in_reg 8 src)
called (divsd src dst) = seen X86Op.divsd (in_reg 8 dst) (in_reg 8 src)
called (xorpd src dst) = seen X86Op.xorpd (in_reg 8 dst) (in_reg 8 src)
called (ucomisd src dst) = seen X86Op.ucomisd (in_reg 8 dst) (in_reg 8 src)

-- The calls that made a list, the first one first.
abbrev pub all_called : {list : Target} → IsBuilt list → List Seen
all_called created = []
all_called (built b step) = all_called b ++ called step ∷ []

-- The list is there and counts its instructions, which are the ones that were called for and have the
-- operands of their operations.
pub record MadeOf (list : X86InstrList) (calls : List Seen) : Type 0 where
  pub counted : list.count ≡ length list.instrs
  pub as_called : all_seen list.instrs ≡ calls
  pub fitting : all_fit calls ≡ true

abbrev pub Made : Target → List Seen → Type 0
Made none calls = ⊥
Made (some list) calls = MadeOf list calls

all_seen-append :
    (xs : List X86Instr) (inst : X86Instr)
    → all_seen (xs ++ inst ∷ []) ≡ all_seen xs ++ seen_as inst ∷ []
all_seen-append [] inst = refl
all_seen-append (x ∷ xs) inst = ap (λ (ys : List Seen). seen_as x ∷ ys) (all_seen-append xs inst)

both : (a b d : Bool) → (a && b) ≡ true → (b ≡ true → d ≡ true) → (a && d) ≡ true
both true b d h f = f h
both false b d h f = h

all_fit-append :
    (calls : List Seen) (c : Seen)
    → all_fit calls ≡ true
    → fits c.op c.dst c.src ≡ true
    → all_fit (calls ++ c ∷ []) ≡ true
all_fit-append [] c h k = rw k refl
all_fit-append (x ∷ rest) c h k =
    both (fits x.op x.dst x.src) (all_fit rest) _ h (λ r. all_fit-append rest c r k)

append-Made :
    (list : Target) (calls : List Seen) (inst : X86Instr) {c : Seen}
    → seen_as inst ≡ c
    → fits c.op c.dst c.src ≡ true
    → Made list calls
    → Made (x86_instr_list_append list (some inst)) (calls ++ c ∷ [])
unfolding x86_instr_list_append
append-Made none calls inst same fit m = m
append-Made (some list) calls inst {c} same fit m = record {
  counted = omega (arith, m.counted, length-append list.instrs (inst ∷ []));
  as_called = rw (all_seen-append list.instrs inst, m.as_called, same) refl;
  fitting = all_fit-append calls c m.fitting fit;
}

Builds-Made :
    {list list' : Target} (calls : List Seen) (step : Builds list list')
    → Made list calls
    → Made list' (calls ++ called step ∷ [])
unfolding fits x86_emit_label x86_emit_push x86_emit_pop x86_emit_ret x86_emit_sub_imm_rsp
    x86_emit_add_imm_rsp x86_emit_lea_mem x86_emit_lea_rip x86_emit_mov_reg_reg x86_emit_mov_imm_reg
    x86_emit_mov_mem_reg x86_emit_mov_reg_mem x86_emit_mov_rip_reg x86_emit_movb_imm x86_emit_movslq
    x86_emit_movzbl x86_emit_cmove x86_emit_add x86_emit_sub x86_emit_imul x86_emit_and x86_emit_or
    x86_emit_xor x86_emit_cmp x86_emit_andb x86_emit_orb x86_emit_idiv x86_emit_cltd x86_emit_neg
    x86_emit_cmp_imm x86_emit_setcc x86_emit_jmp x86_emit_jne x86_emit_je x86_emit_call
    x86_emit_movsd_reg_reg x86_emit_movsd_mem_reg x86_emit_movsd_reg_mem x86_emit_movsd_rip_reg
    x86_emit_addsd x86_emit_subsd x86_emit_mulsd x86_emit_divsd x86_emit_xorpd x86_emit_ucomisd
Builds-Made {list} calls (label name) m = append-Made list calls _ refl refl m
Builds-Made {list} calls (push reg) m = append-Made list calls _ refl refl m
Builds-Made {list} calls (pop reg) m = append-Made list calls _ refl refl m
Builds-Made {list} calls ret m = append-Made list calls _ refl refl m
Builds-Made {list} calls (sub_imm_rsp imm) m = append-Made list calls _ refl refl m
Builds-Made {list} calls (add_imm_rsp imm) m = append-Made list calls _ refl refl m
Builds-Made {list} calls (lea_mem base offset dst) m = append-Made list calls _ refl refl m
Builds-Made {list} calls (lea_rip symbol dst) m = append-Made list calls _ refl refl m
Builds-Made {list} calls (mov_reg_reg size src dst) m = append-Made list calls _ refl refl m
Builds-Made {list} calls (mov_imm_reg size imm dst) m = append-Made list calls _ refl refl m
Builds-Made {list} calls (mov_mem_reg size base offset dst) m = append-Made list calls _ refl refl m
Builds-Made {list} calls (mov_reg_mem size src base offset) m = append-Made list calls _ refl refl m
Builds-Made {list} calls (mov_rip_reg symbol dst) m = append-Made list calls _ refl refl m
Builds-Made {list} calls (movb_imm imm dst) m = append-Made list calls _ refl refl m
Builds-Made {list} calls (movslq src dst) m = append-Made list calls _ refl refl m
Builds-Made {list} calls (movzbl src dst) m = append-Made list calls _ refl refl m
Builds-Made {list} calls (cmove src dst) m = append-Made list calls _ refl refl m
Builds-Made {list} calls (add src dst) m = append-Made list calls _ refl refl m
Builds-Made {list} calls (sub src dst) m = append-Made list calls _ refl refl m
Builds-Made {list} calls (imul src dst) m = append-Made list calls _ refl refl m
Builds-Made {list} calls (and src dst) m = append-Made list calls _ refl refl m
Builds-Made {list} calls (or src dst) m = append-Made list calls _ refl refl m
Builds-Made {list} calls (xor src dst) m = append-Made list calls _ refl refl m
Builds-Made {list} calls (cmp src dst) m = append-Made list calls _ refl refl m
Builds-Made {list} calls (andb src dst) m = append-Made list calls _ refl refl m
Builds-Made {list} calls (orb src dst) m = append-Made list calls _ refl refl m
Builds-Made {list} calls (idiv src) m = append-Made list calls _ refl refl m
Builds-Made {list} calls cltd m = append-Made list calls _ refl refl m
Builds-Made {list} calls (neg dst) m = append-Made list calls _ refl refl m
Builds-Made {list} calls (cmp_imm imm dst) m = append-Made list calls _ refl refl m
Builds-Made {list} calls (setcc cond dst) m = append-Made list calls _ refl refl m
Builds-Made {list} calls (jmp target) m = append-Made list calls _ refl refl m
Builds-Made {list} calls (jne target) m = append-Made list calls _ refl refl m
Builds-Made {list} calls (je target) m = append-Made list calls _ refl refl m
Builds-Made {list} calls (call symbol) m = append-Made list calls _ refl refl m
Builds-Made {list} calls (movsd_reg_reg src dst) m = append-Made list calls _ refl refl m
Builds-Made {list} calls (movsd_mem_reg base offset dst) m = append-Made list calls _ refl refl m
Builds-Made {list} calls (movsd_reg_mem src base offset) m = append-Made list calls _ refl refl m
Builds-Made {list} calls (movsd_rip_reg symbol dst) m = append-Made list calls _ refl refl m
Builds-Made {list} calls (addsd src dst) m = append-Made list calls _ refl refl m
Builds-Made {list} calls (subsd src dst) m = append-Made list calls _ refl refl m
Builds-Made {list} calls (mulsd src dst) m = append-Made list calls _ refl refl m
Builds-Made {list} calls (divsd src dst) m = append-Made list calls _ refl refl m
Builds-Made {list} calls (xorpd src dst) m = append-Made list calls _ refl refl m
Builds-Made {list} calls (ucomisd src dst) m = append-Made list calls _ refl refl m

-- A list that calls of the builders made from the empty one is never lost on the way, and counts its
-- instructions. They are the instructions that the calls ask for, in the order of the calls: the
-- operation, for SETcc the condition, the registers, widths, constants and addresses of its
-- operands, and the names of labels and symbols. Each of them has the operands of its operation.
pub IsBuilt-Made : {list : Target} (h : IsBuilt list) → Made list (all_called h)
IsBuilt-Made created = record { counted = refl; as_called = refl; fitting = refl }
IsBuilt-Made (built b step) = Builds-Made (all_called b) step (IsBuilt-Made b)
