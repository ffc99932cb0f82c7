-- ===== src/Regalloc/Active.antt =====
-- Members of the active list under the scan's operations.
use cco_lang.Base.{
  ℕ, ◌≤◌, ◌<◌, ◌≡◌, ◌≢◌, ◌⊎◌, refl, ◌∙◌, Bool, true, false, ltb, List, [], ◌∷◌, ◌++◌, arith,
  Bool-cases, inl, inr,
}
use mathlib.Core.Logic.{if_pos, if_neg}
use cco_lang.X86.Instr.{X86Reg}
use cco_lang.Regalloc.Registers.{is_none}
use cco_lang.Regalloc.Scan.{
  LiveInterval, expire_active, expire_busy, free_reg, set_reg, insert_active,
}

-- The interval is in the list.
abbrev pub In : LiveInterval → List LiveInterval → Type 0
In p [] = ⊥
In p (x ∷ xs) = (p ≡ x) ⊎ In p xs

pub In-append : (p : LiveInterval) (xs ys : List LiveInterval) → In p (xs ++ ys) → In p xs ⊎ In p ys
In-append p [] ys h = inr h
In-append p (x ∷ xs) ys (inl e) = inl (inl e)
In-append p (x ∷ xs) ys (inr h) = elim (In-append p xs ys h) [ inl a ↦ inl (inr a) | inr b ↦ inr b ]

pub append-In_left : (p : LiveInterval) (xs ys : List LiveInterval) → In p xs → In p (xs ++ ys)
append-In_left p [] ys h = absurd h
append-In_left p (x ∷ xs) ys (inl e) = inl e
append-In_left p (x ∷ xs) ys (inr h) = inr (append-In_left p xs ys h)

pub append-In_right : (p : LiveInterval) (xs ys : List LiveInterval) → In p ys → In p (xs ++ ys)
append-In_right p [] ys h = h
append-In_right p (x ∷ xs) ys h = inr (append-In_right p xs ys h)

-- What expiry keeps, and what it drops.
pub In-expire_active :
    (t : ℕ) (p : LiveInterval) (xs : List LiveInterval)
    → In p (expire_active t xs)
    → In p xs × (t ≤ p.end)
unfolding expire_active
In-expire_active t p [] h = absurd h
In-expire_active t p (x ∷ xs) h = elim (Bool-cases (ltb x.end t)) [
  | inl gone ↦ let (there, live) = In-expire_active t p xs (rw gone at h) in (inr there, live)
  | inr stays ↦ elim (rw stays at h) [
    | inl e ↦ (inl e, rw e (ground arith))
    | inr later ↦ let (there, live) = In-expire_active t p xs later in (inr there, live)
  ]
]

pub expire_active-In :
    (t : ℕ) (p : LiveInterval) (xs : List LiveInterval)
    → In p xs
    → In p (expire_active t xs) ⊎ (p.end < t)
unfolding expire_active
expire_active-In t p [] h = absurd h
expire_active-In t p (x ∷ xs) (inl e) = elim (Bool-cases (ltb x.end t)) [
  | inl gone ↦ inr (rw e (ground arith))
  | inr stays ↦ rw stays (inl (inl e))
]
expire_active-In t p (x ∷ xs) (inr h) = elim (Bool-cases (ltb x.end t)) [
  | inl gone ↦ rw gone (expire_active-In t p xs h)
  | inr stays ↦ rw stays (elim (expire_active-In t p xs h) [ inl a ↦ inl (inr a) | inr b ↦ inr b ])
]

pub set_reg_other :
    (f : X86Reg → Bool) (reg r : X86Reg) (b : Bool) → r ≢ reg → set_reg f reg b r ≡ f r
set_reg_other f reg r b h = if_neg _ h b (f r)

pub set_reg_self : (f : X86Reg → Bool) (reg : X86Reg) (b : Bool) → set_reg f reg b reg ≡ b
set_reg_self f reg b = if_pos _ refl b (f reg)

free_reg_other :
    (reg : X86Reg) (busy : X86Reg → Bool) (r : X86Reg) → r ≢ reg → free_reg reg busy r ≡ busy r
unfolding free_reg
free_reg_other reg busy r h = elim (Bool-cases (is_none reg)) [
  | inl none_held ↦ rw none_held refl
  | inr held ↦ rw held (set_reg_other busy reg r false h)
]

-- A register that no expired interval has stays busy.
pub expire_busy-busy :
    (phys : ℕ → X86Reg) (t : ℕ) (xs : List LiveInterval) (busy : X86Reg → Bool) (r : X86Reg)
    → ((a : LiveInterval) → In a xs → a.end < t → r ≢ phys a.val_id)
    → busy r ≡ true
    → expire_busy phys t xs busy r ≡ true
unfolding expire_busy
expire_busy-busy phys t [] busy r other h = h
expire_busy-busy phys t (x ∷ xs) busy r other h = elim (Bool-cases (ltb x.end t)) [
  | inl gone ↦ rw gone (
      expire_busy-busy phys t xs (free_reg (phys x.val_id) busy) r (λ a there. other a (inr there))
        (free_reg_other (phys x.val_id) busy r (other x (inl refl) (ground arith)) ∙ h))
  | inr stays ↦ rw stays (expire_busy-busy phys t xs busy r (λ a there. other a (inr there)) h)
]

pub In-insert_active :
    (p curr : LiveInterval) (xs : List LiveInterval)
    → In p (insert_active curr xs)
    → (p ≡ curr) ⊎ In p xs
unfolding insert_active
In-insert_active p curr [] h = h
In-insert_active p curr (x ∷ xs) h = elim (Bool-cases (ltb curr.end x.end)) [
  | inl here ↦ rw here at h
  | inr on ↦ elim (rw on at h) [
    | inl e ↦ inr (inl e)
    | inr later ↦ elim (In-insert_active p curr xs later) [ inl e ↦ inl e | inr a ↦ inr (inr a) ]
  ]
]

pub insert_active-In :
    (p curr : LiveInterval) (xs : List LiveInterval)
    → (p ≡ curr) ⊎ In p xs
    → In p (insert_active curr xs)
unfolding insert_active
insert_active-In p curr [] h = h
insert_active-In p curr (x ∷ xs) h = elim (Bool-cases (ltb curr.end x.end)) [
  | inl here ↦ rw here h
  | inr on ↦ rw on (elim h [
    | inl e ↦ inr (insert_active-In p curr xs (inl e))
    | inr (inl e) ↦ inl e
    | inr (inr there) ↦ inr (insert_active-In p curr xs (inr there))
  ])
]
