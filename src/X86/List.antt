-- ===== src/X86/List.antt =====
-- The instruction list of src/backend/x86_64/x86_64_instr.c: the instructions in their order, and
-- the count that the code keeps beside them. The links in both directions are that order.
use cco_lang.Base.{ℕ, ◌+◌, Option, none, some, List, [], ◌∷◌, ◌++◌}
use cco_lang.X86.Instr.{X86Instr}

pub record X86InstrList : Type 0 where
  pub instrs : List X86Instr
  pub count : ℕ

abbrev pub x86_instr_list_create : X86InstrList
x86_instr_list_create = record { instrs = []; count = 0 }

unfoldable pub x86_instr_list_append : Option X86InstrList → Option X86Instr → Option X86InstrList
x86_instr_list_append none inst = none
x86_instr_list_append (some list) none = some list
x86_instr_list_append (some list) (some inst) =
    some (record { instrs = list.instrs ++ inst ∷ []; count = list.count + 1 })
