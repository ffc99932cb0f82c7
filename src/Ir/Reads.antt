-- ===== src/Ir/Reads.antt =====
-- Which registers an instruction reads and defines, described apart from the passes that ask.
use cco_lang.Base.{ℕ, Bool, false, ◌&&◌, ◌||◌, ◌==◌, Option, none, some, List, [], ◌∷◌}
use cco_lang.Ir.Instr.{IrValue, is_reg, IrInstruction, IrBasicBlock}

-- The operand is the register of an id.
abbrev pub is_register : ℕ → Option IrValue → Bool
is_register id none = false
is_register id (some v) = is_reg v.kind && v.id == id

abbrev pub is_argument : ℕ → List IrValue → Bool
is_argument id [] = false
is_argument id (a ∷ args) = is_register id (some a) || is_argument id args

-- An instruction reads a register as its first or second operand or as an argument.
abbrev pub reads : ℕ → IrInstruction → Bool
reads id inst = is_register id inst.lhs || is_register id inst.rhs || is_argument id inst.args

abbrev pub any_reads : ℕ → List IrInstruction → Bool
any_reads id [] = false
any_reads id (inst ∷ rest) = reads id inst || any_reads id rest

abbrev pub read_in : ℕ → List IrBasicBlock → Bool
read_in id [] = false
read_in id (bb ∷ rest) = any_reads id bb.insts || read_in id rest

abbrev pub defines : ℕ → IrInstruction → Bool
defines id inst = is_register id inst.result

abbrev pub any_defines : ℕ → List IrInstruction → Bool
any_defines id [] = false
any_defines id (inst ∷ rest) = defines id inst || any_defines id rest
