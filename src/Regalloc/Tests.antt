-- ===== src/Regalloc/Tests.antt =====
-- Witnesses for the register allocator: five intervals, of which two are floats, and a sort.
use cco_lang.Base.{
  ℕ, ◌≤◌, ◌≡◌, refl, sym, ◌∙◌, Bool, true, false, ◌&&◌, not, some, List, [], ◌∷◌, length, arith,
  inl, inr, ℤ, pos,
}
use cco_lang.Regalloc.Samples.{put_in_order, insertion_sort, insertion_sort-Sorts}
use cco_lang.X86.Instr.{X86Reg, reg_none, rbx}
use cco_lang.Regalloc.Registers.{
  RegClass, reg_class_int, reg_class_float, X86Reg-discrete, is_none, x86_reg_is_callee_saved,
}
use cco_lang.Regalloc.Scan.{
  LiveInterval, scan_start, linear_scan, choose_reg, choose_int, first_free, scan_step, place,
  take_reg, expire, expire_active, expire_busy, free_reg, insert_active,
}
use cco_lang.Regalloc.Distinct.{Distinct}
use cco_lang.Regalloc.Invariant.{Apart}
use cco_lang.Regalloc.Safety.{IsOrdered, linear_scan-settles}
use cco_lang.Regalloc.Invariant.Fits.{allocatable}
use cco_lang.Regalloc.Bound.{linear_scan-bounded}
use cco_lang.Regalloc.Result.{allocate, regalloc_get_phys_reg, regalloc_is_spilled}
use cco_lang.Regalloc.Result.Sorted.{IsNumbered}
use cco_lang.Regalloc.Result.Lookup.{is_id, lookup-Apart, lookups_agree}
use cco_lang.Regalloc.Result.Saved.{Listed, callee_saved_covered}

abbrev interval : ℕ → RegClass → ℕ → ℕ → Bool → LiveInterval
interval id class start end crosses = record {
  val_id = id;
  reg_class = class;
  start = start;
  end = end;
  crosses_call = crosses;
}

abbrev intervals : List LiveInterval
intervals =
    interval 0 reg_class_int 2 9 true
    ∷ interval 1 reg_class_float 0 3 false
    ∷ interval 2 reg_class_int 0 1 true
    ∷ []

intervals-IsNumbered : IsNumbered 0 intervals
intervals-IsNumbered = (refl, omega arith, (refl, omega arith, (refl, omega arith, tt)))

-- What the allocator answers for the interval of an id.
abbrev allocated : ℤ → X86Reg
allocated z = regalloc_get_phys_reg (some (allocate insertion_sort intervals)) z

allocated_first : allocated (pos 0) ≡ rbx
unfolding regalloc_get_phys_reg allocate insertion_sort put_in_order linear_scan scan_step place
    take_reg expire expire_active expire_busy free_reg insert_active choose_reg choose_int
    first_free X86Reg-discrete
allocated_first = refl

allocated_last : allocated (pos 2) ≡ rbx
unfolding regalloc_get_phys_reg allocate insertion_sort put_in_order linear_scan scan_step place
    take_reg expire expire_active expire_busy free_reg insert_active choose_reg choose_int
    first_free X86Reg-discrete
allocated_last = refl

lookup-Apart_example : Apart (interval 0 reg_class_int 2 9 true) (interval 2 reg_class_int 0 1 true)
lookup-Apart_example =
    lookup-Apart insertion_sort insertion_sort-Sorts intervals intervals-IsNumbered
      (interval 0 reg_class_int 2 9 true) (interval 2 reg_class_int 0 1 true) (inl refl)
      (inr (inr (inl refl))) (omega arith) (rw allocated_first refl)
      (allocated_first ∙ sym allocated_last)

lookups_agree_example :
    (regalloc_is_spilled (some (allocate insertion_sort intervals)) (pos 3)
      ≡ (is_id (length intervals) (pos 3) && is_none (allocated (pos 3))))
    × (is_id (length intervals) (pos 3) ≡ false → allocated (pos 3) ≡ reg_none)
lookups_agree_example =
    lookups_agree insertion_sort insertion_sort-Sorts intervals intervals-IsNumbered (pos 3)

callee_saved_covered_example :
    Listed (allocated (pos 0)) (allocate insertion_sort intervals).callee_saved_used
unfolding x86_reg_is_callee_saved
callee_saved_covered_example =
    callee_saved_covered insertion_sort intervals (interval 0 reg_class_int 2 9 true)
      insertion_sort-Sorts intervals-IsNumbered (inl refl) (rw allocated_first refl)

abbrev in_order : List LiveInterval
in_order = interval 2 reg_class_int 0 1 true ∷ interval 0 reg_class_int 2 9 true ∷ []

in_order-IsOrdered : IsOrdered 0 in_order
in_order-IsOrdered = (omega arith, omega arith, (omega arith, omega arith, tt))

in_order-Distinct : Distinct in_order
in_order-Distinct = (
  (λ p h. elim h [ inl e ↦ rw e (omega arith) | inr nothing ↦ absurd nothing ]),
  ((λ p h. absurd h), tt),
)

linear_scan-bounded_example : length (linear_scan in_order scan_start).active ≤ 32
linear_scan-bounded_example = linear_scan-bounded in_order in_order-IsOrdered in_order-Distinct

linear_scan-settles_example :
    ((linear_scan in_order scan_start).is_spilled 0
      ≡ is_none ((linear_scan in_order scan_start).phys_reg 0))
    × (allocatable reg_class_int ((linear_scan in_order scan_start).phys_reg 0)
        ≡ not (is_none ((linear_scan in_order scan_start).phys_reg 0)))
linear_scan-settles_example =
    linear_scan-settles in_order (interval 0 reg_class_int 2 9 true) in_order-IsOrdered
      in_order-Distinct (inr (inl refl))
