-- ===== src/Frame/Places.antt =====
-- Where the slots of a frame belong: those of the function below the saved registers, the parameters
-- on the stack where the caller put them.
use cco_lang.Base.{
  ℕ, ◌+◌, ◌-◌, ◌*◌, ◌≤◌, ◌≡◌, ◌⊎◌, Bool, true, false, List, [], ◌∷◌, String, arith, inl, inr,
  if◌then◌else◌, ℤ, pos, negsuc, neg_part,
}
use cco_lang.Ir.Types.{IrType, is_f64_type}
use cco_lang.Ir.Instr.{IrFunction}
use cco_lang.Frame.{StackSlot, slot_param}

-- How many slots lie above %rbp.
abbrev pub is_above : ℤ → Bool
is_above (pos n) = true
is_above (negsuc n) = false

abbrev pub above : List StackSlot → ℕ
above [] = 0
above (s ∷ rest) = (if is_above s.offset then 1 else 0) + above rest

-- The parameters that are doubles, and the others.
abbrev pub floats : List IrType → List String → ℕ
floats (type ∷ types) (name ∷ names) = (if is_f64_type type then 1 else 0) + floats types names
floats _ _ = 0

abbrev pub others : List IrType → List String → ℕ
others (type ∷ types) (name ∷ names) = (if is_f64_type type then 0 else 1) + others types names
others _ _ = 0

-- Eight doubles and six others come in registers.
abbrev pub stack_params : IrFunction → ℕ
stack_params fn =
    (floats fn.param_types fn.param_names - 8) + (others fn.param_types fn.param_names - 6)

-- Below `top` and down to `bottom`, counted from %rbp, each local slot is eight bytes under the older
-- ones. The n-th slot of the caller, counted from 0, is the parameter in the eight bytes at 16 + 8n
-- above %rbp.
abbrev pub Laid : ℕ → ℕ → List StackSlot → Type 0
Laid top bottom [] = top ≤ bottom
Laid top bottom (s ∷ rest) =
    ((s.offset ≡ pos (16 + above rest * 8))
      × (s.size ≡ 8)
      × (s.kind ≡ slot_param)
      × Laid top bottom rest)
    ⊎ ((neg_part s.offset ≤ bottom)
        × (s.size ≡ 8)
        × (8 ≤ neg_part s.offset)
        × Laid top (neg_part s.offset - 8) rest)

pub below_top : (top bottom : ℕ) (slots : List StackSlot) → Laid top bottom slots → top ≤ bottom
below_top top bottom [] h = h
below_top top bottom (s ∷ rest) (inl (a, b, c, h)) = below_top top bottom rest h
below_top top bottom (s ∷ rest) (inr (a, b, c, h)) =
    omega (arith, below_top top (neg_part s.offset - 8) rest h)

pub Laid-lower :
    (top bottom bottom' : ℕ) (slots : List StackSlot)
    → bottom ≤ bottom'
    → Laid top bottom slots
    → Laid top bottom' slots
Laid-lower top bottom bottom' [] le h = omega arith
Laid-lower top bottom bottom' (s ∷ rest) le (inl (a, b, c, h)) =
    inl (a, b, c, Laid-lower top bottom bottom' rest le h)
Laid-lower top bottom bottom' (s ∷ rest) le (inr (a, b, c, h)) = inr (omega arith, b, c, h)
