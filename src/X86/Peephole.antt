-- ===== src/X86/Peephole.antt =====
-- Rules 1 to 5 of the peephole pass, and its inner loop: src/backend/x86_64/x86_64_instr.c.
pub mod Rounds
use cco_lang.Base.{
  ℕ, zero, suc, ℤ, pos, ◌+◌, ◌-◌, pos_part, neg_part, Option, none, some, Bool, true, false, ◌&&◌,
  ◌||◌, not, ◌==◌, String, List, [], ◌∷◌, ◌++◌, length, str_eq, if◌then◌else◌,
}
use cco_lang.X86.Instr.{X86Op, X86Operand, X86OperandKind, X86Instr, X86Reg, reg_code}
use cco_lang.X86.List.{X86InstrList}
use cco_lang.X86.Encode.Instr.{is_reg, is_imm, is_mem_base}
use cco_lang.X86.Encode.Function.{is_label}

abbrev eq_ℤ : ℤ → ℤ → Bool
eq_ℤ a b = pos_part a == pos_part b && neg_part a == neg_part b

reg_eq : X86Reg → X86Reg → Bool
reg_eq a b = eq_ℤ (reg_code a) (reg_code b)

abbrev pub is_mov : X86Op → Bool
is_mov X86Op.mov = true
is_mov _ = false

abbrev pub moves : X86Op → Bool
moves X86Op.mov = true
moves X86Op.movsd = true
moves _ = false

abbrev pub is_jmp : X86Op → Bool
is_jmp X86Op.jmp = true
is_jmp _ = false

abbrev pub is_jcc : X86Op → Bool
is_jcc X86Op.jne = true
is_jcc X86Op.je = true
is_jcc _ = false

abbrev invert : X86Op → X86Op
invert X86Op.jne = X86Op.je
invert _ = X86Op.jne

abbrev pub is_label_kind : X86OperandKind → Bool
is_label_kind X86OperandKind.label_operand = true
is_label_kind _ = false

-- Two names, neither null, that are equal.
abbrev same_symbol : Option String → Option String → Bool
same_symbol (some a) (some b) = str_eq a b
same_symbol _ _ = false

abbrev pub has_symbol : Option String → Bool
has_symbol none = false
has_symbol (some s) = true

-- Rule 1: a move of a register to itself.
pub redundant_move : X86Instr → Bool
redundant_move curr =
    moves curr.op
    && is_reg curr.dst.kind
    && is_reg curr.src.kind
    && reg_eq curr.dst.reg curr.src.reg
    && curr.dst.size == curr.src.size

-- Rule 2: a zero constant.
pub loads_zero : X86Instr → Bool
loads_zero curr =
    is_mov curr.op
    && is_reg curr.dst.kind
    && (curr.dst.size == 4 || curr.dst.size == 8)
    && is_imm curr.src.kind
    && eq_ℤ curr.src.imm (pos 0)

pub zero_by_xor : X86Instr → X86Instr
zero_by_xor curr = record curr {
  op = X86Op.xor;
  dst = record (curr.dst) { size = 4 };
  src = record (curr.src) { kind = X86OperandKind.reg_operand; reg = curr.dst.reg; size = 4 };
}

-- Rule 3: a load of what the instruction before it stored.
pub reloads : X86Instr → X86Instr → Bool
unfolding reg_eq
reloads curr next =
    moves curr.op
    && is_mem_base curr.dst.kind
    && is_reg curr.src.kind
    && moves next.op
    && is_reg next.dst.kind
    && is_mem_base next.src.kind
    && reg_eq curr.dst.reg next.src.reg
    && eq_ℤ curr.dst.imm next.src.imm
    && reg_eq curr.src.reg next.dst.reg
    && curr.dst.size == next.src.size

-- Rule 4: a jump to the label behind it.
pub jumps_to_next : X86Instr → List X86Instr → Bool
jumps_to_next curr [] = false
jumps_to_next curr (next ∷ _) =
    is_jmp curr.op
    && is_label next.op
    && is_label_kind curr.dst.kind
    && is_label_kind next.dst.kind
    && same_symbol curr.dst.symbol next.dst.symbol

-- Rule 5: a conditional jump over a jump.
pub jumps_over : X86Instr → List X86Instr → Bool
jumps_over curr [] = false
jumps_over curr (next ∷ []) = false
jumps_over curr (next ∷ label ∷ _) =
    is_jcc curr.op
    && is_jmp next.op
    && is_label label.op
    && is_label_kind curr.dst.kind
    && is_label_kind next.dst.kind
    && is_label_kind label.dst.kind
    && has_symbol next.dst.symbol
    && same_symbol curr.dst.symbol label.dst.symbol

-- What one round of the inner loop makes of `curr` and the instructions behind it: what it leaves
-- in place of `curr`, where it goes on, how many instructions it takes out.
pub record Round : Type 0 where
  pub left : List X86Instr
  pub rest : List X86Instr
  pub removed : ℕ
  pub changed : Bool

after_reload : X86Instr → List X86Instr → Round
after_reload curr [] = record { left = curr ∷ []; rest = []; removed = 0; changed = false }
after_reload curr (next ∷ after) =
    if reloads curr next
    then record { left = curr ∷ []; rest = after; removed = 1; changed = true }
    else record { left = curr ∷ []; rest = next ∷ after; removed = 0; changed = false }

-- Rules 4 and 5, behind the others.
jump_rules : X86Instr → List X86Instr → Round → Round
jump_rules curr [] other = other
jump_rules curr (next ∷ after) other =
    if jumps_to_next curr (next ∷ after)
    then record { left = []; rest = next ∷ after; removed = 1; changed = true }
    else if jumps_over curr (next ∷ after)
    then record {
      left =
          record curr { op = invert curr.op; dst = record (curr.dst) { symbol = next.dst.symbol } }
          ∷ [];
      rest = after;
      removed = 1;
      changed = true;
    }
    else other

-- Rules 2 to 5 ask for different opcodes of `curr`, so at most one of them applies in a round.
unfoldable pub peephole : X86Instr → List X86Instr → Round
unfolding redundant_move loads_zero zero_by_xor reloads reg_eq after_reload jumps_to_next jumps_over
    jump_rules
peephole curr rest =
    if redundant_move curr
    then record { left = []; rest = rest; removed = 1; changed = true }
    else if loads_zero curr
    then record { left = zero_by_xor curr ∷ []; rest = rest; removed = 0; changed = true }
    else jump_rules curr rest (after_reload curr rest)

pub record Scan : Type 0 where
  pub instrs : List X86Instr
  pub removed : ℕ
  pub changed : Bool

-- The inner loop, on fuel: each round goes on behind `curr`.
unfoldable pub scan : ℕ → List X86Instr → Scan
scan zero list = record { instrs = list; removed = 0; changed = false }
scan (suc fuel) [] = record { instrs = []; removed = 0; changed = false }
scan (suc fuel) (curr ∷ rest) =
    let round = peephole curr rest in
    let tail = scan fuel round.rest in
    record {
      instrs = round.left ++ tail.instrs;
      removed = round.removed + tail.removed;
      changed = round.changed || tail.changed;
    }
