-- ===== src/Regalloc/Invariant/Fits.antt =====
-- A register that is chosen for an interval belongs to its class.
use cco_lang.Base.{
  ◌≡◌, refl, Bool, true, false, not, ◌&&◌, List, [], ◌∷◌, arith, Bool-cases, inl, inr,
  if◌then◌else◌,
}
use cco_lang.X86.Instr.{X86Reg, reg_none, rbx, r10, r11, r12, r13, r14, r15, xmm14, xmm15}
use cco_lang.Regalloc.Registers.{
  RegClass, reg_class_int, reg_class_float, is_none, x86_reg_class, caller_saved_int_pool,
  callee_saved_int_pool, float_pool,
}
use cco_lang.Regalloc.Scan.{LiveInterval, first_free, choose_int, choose_reg, or_from}

-- The registers that a class may get.
abbrev allocatable_int : X86Reg → Bool
allocatable_int rbx = true
allocatable_int r10 = true
allocatable_int r11 = true
allocatable_int r12 = true
allocatable_int r13 = true
allocatable_int r14 = true
allocatable_int r15 = true
allocatable_int _ = false

abbrev is_float : RegClass → Bool
is_float reg_class_float = true
is_float reg_class_int = false

abbrev allocatable_float : X86Reg → Bool
allocatable_float xmm14 = false
allocatable_float xmm15 = false
allocatable_float reg = is_float (x86_reg_class reg)

unfoldable pub allocatable : RegClass → X86Reg → Bool
unfolding x86_reg_class
allocatable reg_class_int reg = allocatable_int reg
allocatable reg_class_float reg = allocatable_float reg

pub allocatable-reg_none : (class : RegClass) → allocatable class reg_none ≡ false
unfolding allocatable
allocatable-reg_none reg_class_int = refl
allocatable-reg_none reg_class_float = refl

abbrev all_fit : RegClass → List X86Reg → Bool
all_fit class [] = true
all_fit class (r ∷ pool) = allocatable class r && not (is_none r) && all_fit class pool

first_free-fits :
    (class : RegClass) (busy : X86Reg → Bool) (pool : List X86Reg)
    → all_fit class pool ≡ true
    → allocatable class (first_free busy pool) ≡ not (is_none (first_free busy pool))
unfolding first_free
first_free-fits class busy [] h = allocatable-reg_none class
first_free-fits class busy (r ∷ pool) h = elim (Bool-cases (busy r)) [
  | inl taken ↦
      let rest : all_fit class pool ≡ true = ground arith in
      rw taken (first_free-fits class busy pool rest)
  | inr free ↦ rw free (ground arith)
]

or_from-fits :
    (class : RegClass) (a b : X86Reg)
    → allocatable class a ≡ not (is_none a)
    → allocatable class b ≡ not (is_none b)
    → allocatable class (or_from a b) ≡ not (is_none (or_from a b))
or_from-fits class a b ha hb = fits_either (is_none a) ha hb
  where
    fits_either :
        (t : Bool)
        → allocatable class a ≡ not (is_none a)
        → allocatable class b ≡ not (is_none b)
        → allocatable class (if t then b else a) ≡ not (is_none (if t then b else a))
    fits_either true ha hb = hb
    fits_either false ha hb = ha

choose_int-fits :
    (busy : X86Reg → Bool) (crosses : Bool)
    → allocatable reg_class_int (choose_int busy crosses) ≡ not (is_none (choose_int busy crosses))
unfolding choose_int allocatable
choose_int-fits busy true =
    or_from-fits reg_class_int _ _ (first_free-fits reg_class_int busy callee_saved_int_pool refl)
      (first_free-fits reg_class_int busy caller_saved_int_pool refl)
choose_int-fits busy false =
    or_from-fits reg_class_int _ _ (first_free-fits reg_class_int busy caller_saved_int_pool refl)
      (first_free-fits reg_class_int busy callee_saved_int_pool refl)

pub choose_reg-fits :
    (busy : X86Reg → Bool) (curr : LiveInterval) (class : RegClass)
    → allocatable class (choose_reg busy curr class) ≡ not (is_none (choose_reg busy curr class))
unfolding choose_reg allocatable
choose_reg-fits busy curr reg_class_int = choose_int-fits busy curr.crosses_call
choose_reg-fits busy curr reg_class_float = first_free-fits reg_class_float busy float_pool refl
