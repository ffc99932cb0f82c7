-- ===== src/Regalloc/Result.antt =====
-- The result of `regalloc_run` and its lookups, src/backend/x86_64/x86_64_regalloc.c, from the
-- intervals on. `qsort` is the C library's, with the comparison `compare_start_pos`.
pub mod Lookup
pub mod Sorted
pub mod Saved
use cco_lang.Base.{
  ℕ, suc, ◌+◌, ◌*◌, Bool, true, false, ◌&&◌, ◌||◌, ltb, ◌==◌, Option, none, some, List, [], ◌∷◌,
  length, if◌then◌else◌, ℤ, pos, negsuc,
}
use cco_lang.X86.Instr.{X86Reg, reg_none}
use cco_lang.Regalloc.Registers.{
  RegClass, reg_class_int, reg_class_float, x86_reg_is_caller_saved, callee_saved_int_pool,
}
use cco_lang.Regalloc.Scan.{LiveInterval, ScanState, scan_start, linear_scan}

-- `compare_start_pos a b <= 0`
abbrev pub starts_first : LiveInterval → LiveInterval → Bool
starts_first a b = if a.start == b.start then ltb a.val_id (suc b.val_id) else ltb a.start b.start

unfoldable pub keep_used : (X86Reg → Bool) → List X86Reg → List X86Reg
keep_used used [] = []
keep_used used (r ∷ pool) = if used r then r ∷ keep_used used pool else keep_used used pool

pub record SpillCounts : Type 0 where
  pub spilled_count : ℕ
  pub int_spill_count : ℕ
  pub float_spill_count : ℕ

abbrev pub no_spills : SpillCounts
no_spills = record { spilled_count = 0; int_spill_count = 0; float_spill_count = 0 }

unfoldable pub count_spill : RegClass → SpillCounts → SpillCounts
count_spill reg_class_float n = record n {
  spilled_count = suc n.spilled_count;
  float_spill_count = suc n.float_spill_count;
}
count_spill reg_class_int n = record n {
  spilled_count = suc n.spilled_count;
  int_spill_count = suc n.int_spill_count;
}

-- The interval needs a slot: it is spilled, or a call destroys its register.
abbrev pub needs_slot : ScanState → LiveInterval → Bool
needs_slot s p =
    s.is_spilled p.val_id || (p.crosses_call && x86_reg_is_caller_saved (s.phys_reg p.val_id))

unfoldable pub count_spills : ScanState → List LiveInterval → SpillCounts → SpillCounts
count_spills s [] n = n
count_spills s (p ∷ rest) n =
    count_spills s rest (if needs_slot s p then count_spill p.reg_class n else n)

pub record RegAllocResult : Type 0 where
  pub total_regs : ℕ
  pub intervals : List LiveInterval
  pub scanned : ScanState
  pub callee_saved_used : List X86Reg
  pub callee_saved_count : ℕ
  pub counts : SpillCounts
  pub total_spill_bytes : ℕ

unfoldable pub allocate :
    (List LiveInterval → List LiveInterval) → List LiveInterval → RegAllocResult
allocate qsort intervals =
    let s = linear_scan (qsort intervals) scan_start in
    let saved = keep_used s.used_regs callee_saved_int_pool in
    let counts = count_spills s intervals no_spills in
    record {
      total_regs = length intervals;
      intervals = intervals;
      scanned = s;
      callee_saved_used = saved;
      callee_saved_count = length saved;
      counts = counts;
      total_spill_bytes = counts.spilled_count * 8;
    }

-- A null result is `none`.
unfoldable pub regalloc_get_phys_reg : Option RegAllocResult → ℤ → X86Reg
regalloc_get_phys_reg none val_id = reg_none
regalloc_get_phys_reg (some res) (negsuc n) = reg_none
regalloc_get_phys_reg (some res) (pos v) =
    if ltb v res.total_regs then res.scanned.phys_reg v else reg_none

unfoldable pub regalloc_is_spilled : Option RegAllocResult → ℤ → Bool
regalloc_is_spilled none val_id = false
regalloc_is_spilled (some res) (negsuc n) = false
regalloc_is_spilled (some res) (pos v) =
    if ltb v res.total_regs then res.scanned.is_spilled v else false
