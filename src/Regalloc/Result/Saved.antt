-- ===== src/Regalloc/Result/Saved.antt =====
-- The callee-saved registers that a function must save.
use cco_lang.Base.{
  ◌≡◌, ◌⊎◌, refl, sym, Bool, true, false, some, List, [], ◌∷◌, Bool-cases, inl, inr, pos,
}
use cco_lang.X86.Instr.{X86Reg, reg_none, rbx, r12, r13, r14, r15}
use cco_lang.Regalloc.Registers.{is_none, x86_reg_is_callee_saved, callee_saved_int_pool}
use cco_lang.Regalloc.Scan.{LiveInterval}
use cco_lang.Regalloc.Active.{In}
use cco_lang.Regalloc.Invariant.{scan_start-Invariant}
use cco_lang.Regalloc.Invariant.Settled.{scan_start-Settled}
use cco_lang.Regalloc.Safety.{linear_scan-Scanned}
use cco_lang.Regalloc.Result.{allocate, keep_used, regalloc_get_phys_reg}
use cco_lang.Regalloc.Result.Lookup.{get_phys_reg_at}
use cco_lang.Regalloc.Result.Sorted.{Sorts, IsNumbered, qsort-IsOrdered, qsort-Distinct, qsort-In}

-- The register is in the list.
abbrev pub Listed : X86Reg → List X86Reg → Type 0
Listed r [] = ⊥
Listed r (x ∷ xs) = (r ≡ x) ⊎ Listed r xs

callee_saved_none : (r : X86Reg) → x86_reg_is_callee_saved r ≡ true → is_none r ≡ false
unfolding x86_reg_is_callee_saved
callee_saved_none reg_none h = absurd cc
callee_saved_none _ h = refl

callee_saved-Listed :
    (r : X86Reg) → x86_reg_is_callee_saved r ≡ true → Listed r callee_saved_int_pool
unfolding x86_reg_is_callee_saved
callee_saved-Listed rbx h = inl refl
callee_saved-Listed r12 h = inr (inl refl)
callee_saved-Listed r13 h = inr (inr (inl refl))
callee_saved-Listed r14 h = inr (inr (inr (inl refl)))
callee_saved-Listed r15 h = inr (inr (inr (inr (inl refl))))
callee_saved-Listed _ h = absurd cc

keep_used-Listed :
    (used : X86Reg → Bool) (pool : List X86Reg) (r : X86Reg)
    → used r ≡ true
    → Listed r pool
    → Listed r (keep_used used pool)
unfolding keep_used
keep_used-Listed used [] r is h = absurd h
keep_used-Listed used (x ∷ pool) r is (inl e) =
    let at_x : used x ≡ true = rw (sym e) is in rw at_x (inl e)
keep_used-Listed used (x ∷ pool) r is (inr h) = elim (Bool-cases (used x)) [
  | inl e ↦ rw e (inr (keep_used-Listed used pool r is h))
  | inr e ↦ rw e (keep_used-Listed used pool r is h)
]

-- For the intervals of a function and a sort that sorts, a callee-saved register that the lookup
-- answers for an interval is in the list of the callee-saved registers that are used.
pub callee_saved_covered :
    (qsort : List LiveInterval → List LiveInterval) (list : List LiveInterval) (p : LiveInterval)
    → Sorts qsort
    → IsNumbered 0 list
    → In p list
    → x86_reg_is_callee_saved (regalloc_get_phys_reg (some (allocate qsort list)) (pos p.val_id))
      ≡ true
    → Listed
        (regalloc_get_phys_reg (some (allocate qsort list)) (pos p.val_id))
        (allocate qsort list).callee_saved_used
unfolding allocate
callee_saved_covered qsort list p sorts numbered hp kept =
    let at_p = get_phys_reg_at qsort sorts list numbered p hp in
    let kept' = rw at_p at kept in
    let r =
      linear_scan-Scanned (qsort list) (qsort-IsOrdered sorts list numbered)
        (qsort-Distinct sorts list numbered) (λ x h y hy. absurd hy) scan_start-Invariant
        scan_start-Settled in
    let there = r.covers_rest p (qsort-In sorts list numbered p hp) in
    rw at_p (
      keep_used-Listed _ callee_saved_int_pool _
        (r.settled.used p there (callee_saved_none _ kept')) (callee_saved-Listed _ kept'))
