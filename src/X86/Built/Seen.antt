-- ===== src/X86/Built/Seen.antt =====
-- Instructions as the encoder sees them, and the operands that each operation has.
use cco_lang.Base.{ℕ, ℤ, Bool, true, false, ◌&&◌, ◌||◌, Option, none, some, String, List, [], ◌∷◌}
use cco_lang.X86.Instr.{X86Reg, X86CondCode, X86Op, X86OperandKind, X86Operand, X86Instr}

-- What an operand says to the encoder: a register or a place in memory with a width in bytes, a
-- constant, or a name.
pub data Shown : Type 0 where
  nothing : Shown
  in_reg : ℕ → X86Reg → Shown
  constant : ℤ → Shown
  in_memory : ℕ → X86Reg → ℤ → Shown
  at_symbol code_label function : Option String → Shown

abbrev pub shown_as : X86OperandKind → X86Operand → Shown
shown_as X86OperandKind.kind_none o = nothing
shown_as X86OperandKind.reg_operand o = in_reg o.size o.reg
shown_as X86OperandKind.imm_operand o = constant o.imm
shown_as X86OperandKind.mem_base o = in_memory o.size o.reg o.imm
shown_as X86OperandKind.mem_rip o = at_symbol o.symbol
shown_as X86OperandKind.label_operand o = code_label o.symbol
shown_as X86OperandKind.symbol_operand o = function o.symbol

pub record Seen : Type 0 where
  pub op : X86Op
  pub cond : Option X86CondCode
  pub dst : Shown
  pub src : Shown

-- Only a SETcc reads its condition.
abbrev pub cond_of : X86Op → X86CondCode → Option X86CondCode
cond_of X86Op.setcc cond = some cond
cond_of _ cond = none

abbrev pub seen_as : X86Instr → Seen
seen_as inst = record {
  op = inst.op;
  cond = cond_of inst.op inst.cond;
  dst = shown_as inst.dst.kind inst.dst;
  src = shown_as inst.src.kind inst.src;
}

abbrev pub all_seen : List X86Instr → List Seen
all_seen [] = []
all_seen (inst ∷ rest) = seen_as inst ∷ all_seen rest

abbrev pub is_nothing : Shown → Bool
is_nothing nothing = true
is_nothing _ = false

abbrev pub is_in_reg : Shown → Bool
is_in_reg (in_reg size r) = true
is_in_reg _ = false

abbrev pub is_constant : Shown → Bool
is_constant (constant imm) = true
is_constant _ = false

abbrev pub is_memory : Shown → Bool
is_memory (in_memory size base offset) = true
is_memory (at_symbol (some symbol)) = true
is_memory _ = false

abbrev pub is_label_name : Shown → Bool
is_label_name (code_label (some name)) = true
is_label_name _ = false

abbrev pub is_function_name : Shown → Bool
is_function_name (function (some name)) = true
is_function_name _ = false

-- A move between two registers, or between a register and memory.
abbrev pub moves : Shown → Shown → Bool
moves dst src =
    (is_in_reg dst && (is_in_reg src || is_memory src)) || (is_memory dst && is_in_reg src)

-- The operands that an operation has: its destination and its source.
unfoldable pub fits : X86Op → Shown → Shown → Bool
fits X86Op.label dst src = is_label_name dst && is_nothing src
fits X86Op.push dst src = is_in_reg dst && is_nothing src
fits X86Op.pop dst src = is_in_reg dst && is_nothing src
fits X86Op.neg dst src = is_in_reg dst && is_nothing src
fits X86Op.setcc dst src = is_in_reg dst && is_nothing src
fits X86Op.ret dst src = is_nothing dst && is_nothing src
fits X86Op.cltd dst src = is_nothing dst && is_nothing src
fits X86Op.idiv dst src = is_nothing dst && is_in_reg src
fits X86Op.sub_imm dst src = is_in_reg dst && is_constant src
fits X86Op.add_imm dst src = is_in_reg dst && is_constant src
fits X86Op.movb_imm dst src = is_in_reg dst && is_constant src
fits X86Op.cmp_imm dst src = is_in_reg dst && is_constant src
fits X86Op.lea dst src = is_in_reg dst && is_memory src
fits X86Op.mov dst src = moves dst src || (is_in_reg dst && is_constant src)
fits X86Op.movsd dst src = moves dst src
fits X86Op.jmp dst src = is_nothing dst && is_label_name src
fits X86Op.jne dst src = is_nothing dst && is_label_name src
fits X86Op.je dst src = is_nothing dst && is_label_name src
fits X86Op.call dst src = is_nothing dst && is_function_name src
fits _ dst src = is_in_reg dst && is_in_reg src

abbrev pub all_fit : List Seen → Bool
all_fit [] = true
all_fit (c ∷ rest) = fits c.op c.dst c.src && all_fit rest

abbrev pub seen : X86Op → Shown → Shown → Seen
seen op dst src = record { op = op; cond = none; dst = dst; src = src }

abbrev pub seen_if : X86CondCode → X86Op → Shown → Shown → Seen
seen_if cond op dst src = record { op = op; cond = some cond; dst = dst; src = src }
