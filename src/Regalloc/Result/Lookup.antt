-- ===== src/Regalloc/Result/Lookup.antt =====
-- The lookups answer what the scan decided, and nothing for other ids.
use cco_lang.Base.{
  ℕ, ◌<◌, ◌≡◌, ◌≢◌, refl, sym, ◌∙◌, Bool, false, ◌&&◌, ltb, Option, some, List, length, arith,
  Bool-cases, inl, inr, ℤ, pos, negsuc,
}
use cco_lang.X86.Instr.{reg_none}
use cco_lang.Regalloc.Registers.{is_none}
use cco_lang.Regalloc.Scan.{LiveInterval, ScanState, scan_start, linear_scan}
use cco_lang.Regalloc.Active.{In}
use cco_lang.Regalloc.Invariant.{Apart}
use cco_lang.Regalloc.Safety.{linear_scan-Apart, linear_scan-settles}
use cco_lang.Regalloc.Result.{RegAllocResult, allocate, regalloc_get_phys_reg, regalloc_is_spilled}
use cco_lang.Regalloc.Result.Sorted.{
  Sorts, IsNumbered, qsort-IsOrdered, qsort-Distinct, qsort-In, in_range, of_id,
}

-- The id is that of an interval.
abbrev pub is_id : ℕ → ℤ → Bool
is_id total (pos v) = ltb v total
is_id total (negsuc n) = false

module _ (qsort : List LiveInterval → List LiveInterval) (sorts : Sorts qsort)
    (list : List LiveInterval) (numbered : IsNumbered 0 list) where
  abbrev result : Option RegAllocResult
  result = some (allocate qsort list)

  abbrev scanned : ScanState
  scanned = linear_scan (qsort list) scan_start

  -- In range, a lookup reads the state.
  pub get_phys_reg_at :
      (p : LiveInterval)
      → In p list
      → regalloc_get_phys_reg (some (allocate qsort list)) (pos p.val_id)
        ≡ (linear_scan (qsort list) scan_start).phys_reg p.val_id
  unfolding regalloc_get_phys_reg allocate
  get_phys_reg_at p h =
      let below : p.val_id < length list = in_range sorts list numbered p h in ground arith

  -- For the intervals of a function and a sort that sorts, two of them whose lookups answer the same
  -- register do not overlap.
  pub lookup-Apart :
      (p q : LiveInterval)
      → In p list
      → In q list
      → p.val_id ≢ q.val_id
      → is_none (regalloc_get_phys_reg (some (allocate qsort list)) (pos p.val_id)) ≡ false
      → regalloc_get_phys_reg (some (allocate qsort list)) (pos p.val_id)
        ≡ regalloc_get_phys_reg (some (allocate qsort list)) (pos q.val_id)
      → Apart p q
  lookup-Apart p q hp hq differs held same =
      let at_p = get_phys_reg_at p hp in
      linear_scan-Apart (qsort list) p q (qsort-IsOrdered sorts list numbered)
        (qsort-Distinct sorts list numbered) (qsort-In sorts list numbered p hp)
        (qsort-In sorts list numbered q hq) differs (rw at_p at held)
        (sym at_p ∙ same ∙ get_phys_reg_at q hq)

  -- For the intervals of a function and a sort that sorts, the lookup of any integer says that it is
  -- spilled exactly when it is the id of an interval and has no register; any other integer has
  -- neither.
  pub lookups_agree :
      (z : ℤ)
      → (regalloc_is_spilled (some (allocate qsort list)) z ≡ (
          is_id (length list) z && is_none (regalloc_get_phys_reg (some (allocate qsort list)) z)))
        × (is_id (length list) z ≡ false
            → regalloc_get_phys_reg (some (allocate qsort list)) z ≡ reg_none)
  unfolding regalloc_get_phys_reg regalloc_is_spilled allocate
  lookups_agree (negsuc n) = (refl, λ h. refl)
  lookups_agree (pos v) = elim (Bool-cases (ltb v (length list))) [
    | inl below ↦
        let small : v < length list = ground arith in
        let (p, hp, at) = of_id sorts list numbered v small in
        let fit =
          linear_scan-settles (qsort list) p (qsort-IsOrdered sorts list numbered)
            (qsort-Distinct sorts list numbered) (qsort-In sorts list numbered p hp) in
        rw below ((rw at at fit.0), λ h. absurd cc)
    | inr beyond ↦ rw beyond (refl, λ h. refl)
  ]
