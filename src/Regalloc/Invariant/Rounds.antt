-- ===== src/Regalloc/Invariant/Rounds.antt =====
-- A round of the linear scan keeps the invariant, whichever register the interval gets.
use cco_lang.Base.{
  ℕ, ◌≤◌, ◌<◌, ◌≡◌, ◌≢◌, ◌⊎◌, refl, sym, ◌∙◌, ap, Bool, true, false, Option, none, some, List, [],
  ◌∷◌, ◌++◌, arith, Bool-cases, inl, inr,
}
use mathlib.Core.Logic.{if_pos}
use cco_lang.X86.Instr.{X86Reg}
use cco_lang.Regalloc.Registers.{
  RegClass, reg_class_int, reg_class_float, is_none, X86Reg-discrete, caller_saved_int_pool,
  callee_saved_int_pool, float_pool,
}
use cco_lang.Regalloc.Scan.{
  LiveInterval, ScanState, set_id, set_reg, first_free, choose_int, choose_reg, or_from, Victim,
  find_victim, victim_or, same_class,
}
use cco_lang.Regalloc.Distinct.{Distinct, IsNew}
use cco_lang.Regalloc.Active.{In, set_reg_other}
use cco_lang.Regalloc.Invariant.{Apart, Invariant}

pub set_id_self {ℓ} : {A : Type ℓ} (f : ℕ → A) (i : ℕ) (a : A) → set_id f i a i ≡ a
set_id_self f i a = ground arith

pub set_id_other {ℓ} : {A : Type ℓ} (f : ℕ → A) (i v : ℕ) (a : A) → v ≢ i → set_id f i a v ≡ f v
set_id_other f i v a h = ground arith

pub set_reg_keeps :
    (busy : X86Reg → Bool) (reg r : X86Reg) → busy r ≡ true → set_reg busy reg true r ≡ true
set_reg_keeps busy reg r h = elim (X86Reg-discrete r reg) [
  | yes e ↦ if_pos _ e true (busy r)
  | no differs ↦ set_reg_other busy reg r true differs ∙ h
]

first_free_free :
    (busy : X86Reg → Bool) (pool : List X86Reg)
    → is_none (first_free busy pool) ≡ false
    → busy (first_free busy pool) ≡ false
unfolding first_free
first_free_free busy [] h = cc
first_free_free busy (r ∷ pool) h = elim (Bool-cases (busy r)) [
  | inl taken ↦ rw taken (first_free_free busy pool (rw taken at h))
  | inr free ↦ rw free free
]

or_from_free :
    (busy : X86Reg → Bool) (a b : X86Reg)
    → (is_none a ≡ false → busy a ≡ false)
    → (is_none b ≡ false → busy b ≡ false)
    → is_none (or_from a b) ≡ false
    → busy (or_from a b) ≡ false
or_from_free busy a b ha hb h = elim (Bool-cases (is_none a)) [
  | inl e ↦ rw e (hb (rw e at h))
  | inr e ↦ rw e (ha e)
]

choose_int_free :
    (busy : X86Reg → Bool) (crosses : Bool)
    → is_none (choose_int busy crosses) ≡ false
    → busy (choose_int busy crosses) ≡ false
unfolding choose_int
choose_int_free busy true h =
    or_from_free busy _ _ (first_free_free busy callee_saved_int_pool)
      (first_free_free busy caller_saved_int_pool) h
choose_int_free busy false h =
    or_from_free busy _ _ (first_free_free busy caller_saved_int_pool)
      (first_free_free busy callee_saved_int_pool) h

-- A register that is chosen is free.
pub choose_reg_free :
    (busy : X86Reg → Bool) (curr : LiveInterval) (class : RegClass)
    → is_none (choose_reg busy curr class) ≡ false
    → busy (choose_reg busy curr class) ≡ false
unfolding choose_reg
choose_reg_free busy curr reg_class_float h = first_free_free busy float_pool h
choose_reg_free busy curr reg_class_int h = choose_int_free busy curr.crosses_call h

-- A victim stands in the list and has the class.
abbrev pub IsVictim : RegClass → List LiveInterval → Option Victim → Type 0
IsVictim class xs none = Unit
IsVictim class xs (some v) =
    (xs ≡ v.before ++ (v.victim ∷ v.behind)) × (same_class v.victim.reg_class class ≡ true)

victim_or-IsVictim :
    (class : RegClass) (x : LiveInterval) (xs : List LiveInterval) (fits : Bool) (o : Option Victim)
    → (fits ≡ true → same_class x.reg_class class ≡ true)
    → IsVictim class xs o
    → IsVictim class (x ∷ xs) (victim_or x xs fits o)
victim_or-IsVictim class x xs true none h k = (refl, h refl)
victim_or-IsVictim class x xs false none h k = tt
victim_or-IsVictim class x xs fits (some v) h (at, fit) = (ap (λ ys. x ∷ ys) at, fit)

pub find_victim-IsVictim :
    (class : RegClass) (xs : List LiveInterval) → IsVictim class xs (find_victim class xs)
unfolding find_victim
find_victim-IsVictim class [] = tt
find_victim-IsVictim class (x ∷ xs) =
    victim_or-IsVictim class x xs (same_class x.reg_class class) (find_victim class xs) (λ h. h)
      (find_victim-IsVictim class xs)

-- How a round may change a state in which `seen` has been placed.
pub record Grows (s s' : ScanState) (curr : LiveInterval) (seen : List LiveInterval) : Type 0 where
  pub single : Distinct s'.active
  pub active_from :
      (a : LiveInterval)
      → In a s'.active
      → ((a ≡ curr) × (is_none (s'.phys_reg curr.val_id) ≡ false))
        ⊎ (In a s.active × (s'.phys_reg a.val_id ≡ s.phys_reg a.val_id))
  pub active_still :
      (a : LiveInterval) → In a s.active → is_none (s'.phys_reg a.val_id) ≡ false → In a s'.active
  pub regs_stay :
      (p : LiveInterval)
      → In p seen
      → is_none (s'.phys_reg p.val_id) ≡ false
      → s'.phys_reg p.val_id ≡ s.phys_reg p.val_id
  pub busy_still : (r : X86Reg) → s.reg_busy r ≡ true → s'.reg_busy r ≡ true
  pub curr_active : is_none (s'.phys_reg curr.val_id) ≡ false → In curr s'.active
  pub curr_busy :
      is_none (s'.phys_reg curr.val_id) ≡ false → s'.reg_busy (s'.phys_reg curr.val_id) ≡ true
  pub curr_alone :
      (q : LiveInterval)
      → In q seen
      → is_none (s'.phys_reg curr.val_id) ≡ false
      → s'.phys_reg curr.val_id ≡ s'.phys_reg q.val_id
      → q.end < curr.start

module _ {s s' : ScanState} {curr : LiveInterval} {seen : List LiveInterval}
    (g : Grows s s' curr seen) (v : Invariant s seen curr.start) where
  grown-Apart :
      (p q : LiveInterval)
      → In p (curr ∷ seen)
      → In q (curr ∷ seen)
      → p.val_id ≢ q.val_id
      → is_none (s'.phys_reg p.val_id) ≡ false
      → s'.phys_reg p.val_id ≡ s'.phys_reg q.val_id
      → Apart p q
  grown-Apart p q (inl e) (inl e') differs held same =
      absurd (differs (ap (λ (x : LiveInterval). x.val_id) (e ∙ sym e')))
  grown-Apart p q (inl e) (inr hq) differs held same =
      let at_curr : is_none (s'.phys_reg curr.val_id) ≡ false = rw e at held in
      let same' : s'.phys_reg curr.val_id ≡ s'.phys_reg q.val_id = rw e at same in
      rw e (inr (g.curr_alone q hq at_curr same'))
  grown-Apart p q (inr hp) (inl e) differs held same =
      let same' : s'.phys_reg p.val_id ≡ s'.phys_reg curr.val_id = rw e at same in
      let at_curr : is_none (s'.phys_reg curr.val_id) ≡ false = rw same' at held in
      rw e (inl (g.curr_alone p hp at_curr (sym same')))
  grown-Apart p q (inr hp) (inr hq) differs held same =
      let held_q : is_none (s'.phys_reg q.val_id) ≡ false = rw same at held in
      let was_p = g.regs_stay p hp held in
      let was_q = g.regs_stay q hq held_q in
      v.apart p q hp hq differs (rw was_p at held) (sym was_p ∙ same ∙ was_q)

  pub grow-Invariant :
      curr.start ≤ curr.end → IsNew curr seen → Invariant s' (curr ∷ seen) curr.start
  grow-Invariant long new = record {
    held = λ a h. elim (g.active_from a h) [
      | inl (e, is) ↦ rw e is
      | inr (there, same) ↦ rw same (v.held a there)
    ];
    busy = λ a h. elim (g.active_from a h) [
      | inl (e, is) ↦ rw e (g.curr_busy is)
      | inr (there, same) ↦ rw same (g.busy_still _ (v.busy a there))
    ];
    live = λ a h. elim (g.active_from a h) [
      | inl (e, is) ↦ rw e long
      | inr (there, same) ↦ v.live a there
    ];
    single = g.single;
    distinct = (new, v.distinct);
    placed = λ a h. elim (g.active_from a h) [
      | inl (e, is) ↦ inl e
      | inr (there, same) ↦ inr (v.placed a there)
    ];
    begun = λ p h. elim h [ inl e ↦ rw e (omega arith) | inr there ↦ v.begun p there ];
    kept = λ p h held. elim h [
      | inl e ↦ inl (rw e (g.curr_active (rw e at held)))
      | inr there ↦ elim (v.kept p there (rw (g.regs_stay p there held) at held)) [
        | inl on ↦ inl (g.active_still p on held)
        | inr ended ↦ inr ended
      ]
    ];
    apart = grown-Apart;
  }
