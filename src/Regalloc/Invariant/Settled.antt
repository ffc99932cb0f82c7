-- ===== src/Regalloc/Invariant/Settled.antt =====
-- What a placed interval has: a register of its class, or a spill.
use cco_lang.Base.{
  ℕ, ◌≤◌, ◌≡◌, ◌≢◌, refl, sym, ◌∙◌, ap, Bool, true, false, not, ltb, Option, none, some, List, [],
  ◌∷◌, ◌++◌, arith, Bool-cases, inl, inr,
}
use native.Mathlib.Decide.{ℕ_discrete}
use cco_lang.X86.Instr.{X86Reg, reg_none}
use cco_lang.Regalloc.Registers.{RegClass, is_none}
use cco_lang.Regalloc.Scan.{
  LiveInterval, ScanState, scan_start, set_id, choose_reg, Victim, find_victim, same_class,
  take_reg, spill, steal, steal_or_spill, place, scan_step, expire,
}
use cco_lang.Regalloc.Active.{In, append-In_right, set_reg_self}
use cco_lang.Regalloc.Distinct.{IsNew}
use cco_lang.Regalloc.Invariant.{Invariant, expire-Invariant}
use cco_lang.Regalloc.Invariant.Rounds.{
  set_id_self, set_id_other, set_reg_keeps, IsVictim, find_victim-IsVictim,
}
use cco_lang.Regalloc.Invariant.Fits.{allocatable, allocatable-reg_none, choose_reg-fits}

-- What the scan has settled of the intervals that it has placed.
pub record Settled (s : ScanState) (seen : List LiveInterval) : Type 0 where
  pub spilled :
      (p : LiveInterval) → In p seen → s.is_spilled p.val_id ≡ is_none (s.phys_reg p.val_id)
  pub fits :
      (p : LiveInterval)
      → In p seen
      → allocatable p.reg_class (s.phys_reg p.val_id) ≡ not (is_none (s.phys_reg p.val_id))
  pub untouched : (x : LiveInterval) → IsNew x seen → s.is_spilled x.val_id ≡ false
  pub used :
      (p : LiveInterval)
      → In p seen
      → is_none (s.phys_reg p.val_id) ≡ false
      → s.used_regs (s.phys_reg p.val_id) ≡ true

pub scan_start-Settled : Settled scan_start []
scan_start-Settled = record {
  spilled = λ p h. absurd h;
  fits = λ p h. absurd h;
  untouched = λ x h. refl;
  used = λ p h. absurd h;
}

class_eq : (a b : RegClass) → same_class a b ≡ true → a ≡ b
class_eq a b h = ground arith

-- Another id under the two writes of a steal: it is the victim's, or it is left alone.
module _ (was_spilled : ℕ → Bool) (phys : ℕ → X86Reg) (c x v : ℕ) (reg : X86Reg) (new : v ≢ c) where
  stolen_phys : v ≢ x → set_id (set_id phys c reg) x reg_none v ≡ phys v
  stolen_phys differs =
      set_id_other (set_id phys c reg) x v reg_none differs ∙ set_id_other phys c v reg new

  victim_phys : v ≡ x → set_id (set_id phys c reg) x reg_none v ≡ reg_none
  victim_phys e = rw e (set_id_self (set_id phys c reg) x reg_none)

  stolen_spilled :
      was_spilled v ≡ is_none (phys v)
      → set_id was_spilled x true v ≡ is_none (set_id (set_id phys c reg) x reg_none v)
  stolen_spilled h = elim (ℕ_discrete v x) [
    | yes e ↦
        let at_x : set_id was_spilled x true v ≡ true = rw e (set_id_self was_spilled x true) in
        at_x ∙ sym (ap is_none (victim_phys e))
    | no differs ↦
        set_id_other was_spilled x v true differs ∙ h ∙ sym (ap is_none (stolen_phys differs))
  ]

  stolen_fits :
      (class : RegClass)
      → allocatable class (phys v) ≡ not (is_none (phys v))
      → allocatable class (set_id (set_id phys c reg) x reg_none v)
        ≡ not (is_none (set_id (set_id phys c reg) x reg_none v))
  stolen_fits class h = elim (ℕ_discrete v x) [
    | yes e ↦ rw (victim_phys e) (allocatable-reg_none class)
    | no differs ↦ rw (stolen_phys differs) h
  ]

stolen_used :
    (used : X86Reg → Bool) (phys : ℕ → X86Reg) (c x v : ℕ) (reg : X86Reg)
    → v ≢ c
    → (is_none (phys v) ≡ false → used (phys v) ≡ true)
    → is_none (set_id (set_id phys c reg) x reg_none v) ≡ false
    → used (set_id (set_id phys c reg) x reg_none v) ≡ true
stolen_used used phys c x v reg new h held = elim (ℕ_discrete v x) [
  | yes e ↦
      let gone = victim_phys (λ i. false) phys c x v reg new e in
      let wrong : true ≡ false = rw gone at held in absurd cc
  | no differs ↦
      let same = stolen_phys (λ i. false) phys c x v reg new differs in
      rw same (h (rw same at held))
]

module _ {s : ScanState} {curr : LiveInterval} {seen : List LiveInterval} (new : IsNew curr seen)
    (v : Invariant s seen curr.start) (fit : Settled s seen) where
  -- A state that differs at the ids of `curr` and of one interval more.
  take_reg-Settled :
      (reg : X86Reg)
      → is_none reg ≡ false
      → allocatable curr.reg_class reg ≡ true
      → Settled (take_reg curr reg s) (curr ∷ seen)
  unfolding take_reg
  take_reg-Settled reg is allowed =
      let phys' = set_id s.phys_reg curr.val_id reg in
      let mine : phys' curr.val_id ≡ reg = set_id_self s.phys_reg curr.val_id reg in
      let old : (p : LiveInterval) → In p seen → phys' p.val_id ≡ s.phys_reg p.val_id =
        λ p h. set_id_other s.phys_reg curr.val_id p.val_id reg (new p h) in
      record {
        spilled = λ p h. elim h [
          | inl e ↦ rw e (fit.untouched curr new ∙ sym (ap is_none mine ∙ is))
          | inr there ↦ fit.spilled p there ∙ sym (ap is_none (old p there))
        ];
        fits = λ p h. elim h [
          | inl e ↦ rw (e, mine, is) allowed
          | inr there ↦ rw (old p there) (fit.fits p there)
        ];
        untouched = λ x h. fit.untouched x (λ p there. h p (inr there));
        used = λ p h held. elim h [
          | inl e ↦ rw (e, mine) (set_reg_self s.used_regs reg true)
          | inr there ↦
              rw (old p there)
                (set_reg_keeps s.used_regs reg _ (fit.used p there (rw (old p there) at held)))
        ];
      }

  spill-Settled : Settled (spill curr s) (curr ∷ seen)
  unfolding spill
  spill-Settled =
      let phys' = set_id s.phys_reg curr.val_id reg_none in
      let mine : phys' curr.val_id ≡ reg_none = set_id_self s.phys_reg curr.val_id reg_none in
      let old : (p : LiveInterval) → In p seen → phys' p.val_id ≡ s.phys_reg p.val_id =
        λ p h. set_id_other s.phys_reg curr.val_id p.val_id reg_none (new p h) in
      record {
        spilled = λ p h. elim h [
          | inl e ↦ rw e (set_id_self s.is_spilled curr.val_id true ∙ sym (ap is_none mine))
          | inr there ↦
              set_id_other s.is_spilled curr.val_id p.val_id true (new p there)
              ∙ fit.spilled p there
              ∙ sym (ap is_none (old p there))
        ];
        fits = λ p h. elim h [
          | inl e ↦ rw (e, mine) (allocatable-reg_none curr.reg_class)
          | inr there ↦ rw (old p there) (fit.fits p there)
        ];
        untouched = λ x h.
            set_id_other s.is_spilled curr.val_id x.val_id true
              (λ same. h curr (inl refl) (sym same))
            ∙ fit.untouched x (λ p there. h p (inr there));
        used = λ p h held. elim h [
          | inl e ↦ let wrong : true ≡ false = rw (e, mine) at held in absurd cc
          | inr there ↦ rw (old p there) (fit.used p there (rw (old p there) at held))
        ];
      }

  steal-Settled :
      (w : Victim)
      → s.active ≡ w.before ++ (w.victim ∷ w.behind)
      → same_class w.victim.reg_class curr.reg_class ≡ true
      → Settled (steal curr w s) (curr ∷ seen)
  unfolding steal
  steal-Settled w at alike =
      let x = w.victim in
      let reg = s.phys_reg x.val_id in
      let phys1 = set_id s.phys_reg curr.val_id reg in
      let phys' = set_id phys1 x.val_id reg_none in
      let there : In x s.active = rw at (append-In_right x w.before (x ∷ w.behind) (inl refl)) in
      let placed = v.placed x there in
      let is : is_none reg ≡ false = v.held x there in
      let other : curr.val_id ≢ x.val_id = λ same. new x placed (sym same) in
      let mine : phys' curr.val_id ≡ reg =
        set_id_other phys1 x.val_id curr.val_id reg_none other
        ∙ set_id_self s.phys_reg curr.val_id reg in
      let allowed : allocatable curr.reg_class reg ≡ not (is_none reg) =
        rw (sym (class_eq x.reg_class curr.reg_class alike)) (fit.fits x placed) in
      record {
        spilled = λ p h. elim h [
          | inl e ↦ rw e (
              set_id_other s.is_spilled x.val_id curr.val_id true other
              ∙ fit.untouched curr new
              ∙ sym (ap is_none mine ∙ is))
          | inr before ↦
              stolen_spilled s.is_spilled s.phys_reg curr.val_id x.val_id p.val_id reg
                (new p before) (fit.spilled p before)
        ];
        fits = λ p h. elim h [
          | inl e ↦ rw (e, mine) allowed
          | inr before ↦
              stolen_fits s.is_spilled s.phys_reg curr.val_id x.val_id p.val_id reg (new p before)
                p.reg_class (fit.fits p before)
        ];
        untouched = λ y h.
            set_id_other s.is_spilled x.val_id y.val_id true (λ same. h x (inr placed) (sym same))
            ∙ fit.untouched y (λ p before. h p (inr before));
        used = λ p h held. elim h [
          | inl e ↦ rw (e, mine) (fit.used x placed is)
          | inr before ↦
              stolen_used s.used_regs s.phys_reg curr.val_id x.val_id p.val_id reg (new p before)
                (fit.used p before) held
        ];
      }

  steal_or_spill-Settled :
      (o : Option Victim)
      → IsVictim curr.reg_class s.active o
      → Settled (steal_or_spill curr o s) (curr ∷ seen)
  unfolding steal_or_spill
  steal_or_spill-Settled none h = spill-Settled
  steal_or_spill-Settled (some w) h = elim (Bool-cases (ltb curr.end w.victim.end)) [
    | inl longer ↦ rw longer (steal-Settled w h.0 h.1)
    | inr shorter ↦ rw shorter spill-Settled
  ]

  place-Settled : Settled (place curr s) (curr ∷ seen)
  unfolding place
  place-Settled =
      let reg = choose_reg s.reg_busy curr curr.reg_class in
      elim (Bool-cases (is_none reg)) [
        | inl nothing ↦ rw nothing (
            steal_or_spill-Settled (find_victim curr.reg_class s.active)
              (find_victim-IsVictim curr.reg_class s.active))
        | inr is ↦
            rw is
              (take_reg-Settled reg is (choose_reg-fits s.reg_busy curr curr.reg_class ∙ ap not is))
      ]

-- A round settles its interval and leaves the others settled.
pub scan_step-Settled :
    {s : ScanState} {seen : List LiveInterval} {now : ℕ} (curr : LiveInterval)
    → now ≤ curr.start
    → IsNew curr seen
    → Invariant s seen now
    → Settled s seen
    → Settled (scan_step curr s) (curr ∷ seen)
unfolding scan_step expire
scan_step-Settled curr later new v fit =
    place-Settled new (expire-Invariant curr.start later v) (record {
      spilled = fit.spilled;
      fits = fit.fits;
      untouched = fit.untouched;
      used = fit.used;
    })
