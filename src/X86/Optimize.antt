-- ===== src/X86/Optimize.antt =====
-- The peephole pass `x86_instr_list_optimize` of src/backend/x86_64/x86_64_instr.c: rule 6 and the
-- outer loop.
pub mod Keeps
use Prim.Native.String.{slice}
use cco_lang.Base.{
  ℕ, zero, suc, ◌-◌, Option, none, some, Bool, true, false, ◌&&◌, ◌||◌, String, List, [], ◌∷◌,
  length, str_eq, if◌then◌else◌,
}
use cco_lang.X86.Instr.{X86Instr}
use cco_lang.X86.List.{X86InstrList}
use cco_lang.X86.Encode.Function.{is_label}
use cco_lang.X86.Peephole.{is_jmp, is_jcc, is_label_kind, has_symbol, Scan, scan}

-- Rule 6: labels that stand before a jump to elsewhere, at most `room` of them. The code keeps both
-- names in arrays of 128 bytes.
abbrev cut : String → String
cut s = slice s 0 127

abbrev JmpAlias : Type 0
JmpAlias = String × String

alias_names : Option String → Option String → Option JmpAlias
alias_names (some from) (some to) = if str_eq from to then none else some (cut from, cut to)
alias_names _ _ = none

jmp_alias : X86Instr → List X86Instr → Option JmpAlias
jmp_alias it [] = none
jmp_alias it (next ∷ _) =
    if is_label it.op && is_jmp next.op then alias_names it.dst.symbol next.dst.symbol else none

collect_aliases : ℕ → List X86Instr → List JmpAlias
collect_aliases room [] = []
collect_aliases zero (it ∷ rest) = []
collect_aliases (suc room) (it ∷ rest) =
    let skip = collect_aliases (suc room) rest in
    let room_taken = collect_aliases room rest in
    elim (jmp_alias it rest) [ none ↦ skip | some alias ↦ alias ∷ room_taken ]

find_alias : String → List JmpAlias → Option String
find_alias name [] = none
find_alias name ((from, to) ∷ rest) = if str_eq name from then some to else find_alias name rest

new_target : X86Instr → List JmpAlias → Option String
new_target it aliases =
    if (is_jmp it.op || is_jcc it.op) && is_label_kind it.dst.kind
    then (elim it.dst.symbol [ none ↦ none | some name ↦ find_alias name aliases ])
    else none

retarget_one : X86Instr → Option String → X86Instr
retarget_one it none = it
retarget_one it (some to) = record it { dst = record (it.dst) { symbol = some to } }

pub retarget : List JmpAlias → List X86Instr → List X86Instr
unfolding retarget_one new_target find_alias
retarget aliases [] = []
retarget aliases (it ∷ rest) = retarget_one it (new_target it aliases) ∷ retarget aliases rest

pub retargets : List JmpAlias → List X86Instr → Bool
unfolding new_target find_alias
retargets aliases [] = false
retargets aliases (it ∷ rest) = has_symbol (new_target it aliases) || retargets aliases rest

-- One iteration of the outer loop.
unfoldable pub optimize_once : List X86Instr → Scan
unfolding scan collect_aliases jmp_alias alias_names retarget retargets
optimize_once list =
    let s = scan (length list) list in
    let aliases = collect_aliases 64 s.instrs in
    record {
      instrs = retarget aliases s.instrs;
      removed = s.removed;
      changed = s.changed || retargets aliases s.instrs;
    }

-- `while (changed && iteration < 4)`, on the iterations left.
unfoldable pub optimize_loop : ℕ → X86InstrList → X86InstrList
optimize_loop zero list = list
optimize_loop (suc rounds) list =
    let s = optimize_once list.instrs in
    let list' : X86InstrList = record { instrs = s.instrs; count = list.count - s.removed } in
    let again = optimize_loop rounds list' in if s.changed then again else list'

unfoldable pub x86_instr_list_optimize : Option X86InstrList → Option X86InstrList
x86_instr_list_optimize none = none
x86_instr_list_optimize (some list) = some (optimize_loop 4 list)
