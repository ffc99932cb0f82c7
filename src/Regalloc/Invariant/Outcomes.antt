-- ===== src/Regalloc/Invariant/Outcomes.antt =====
-- The three outcomes of a round: a free register, a spill, a victim's register.
use cco_lang.Base.{
  ℕ, ◌≤◌, ◌≡◌, ◌≢◌, refl, sym, ◌∙◌, ap, true, false, ltb, Option, none, some, List, ◌∷◌, ◌++◌,
  Bool-cases, inl, inr,
}
use cco_lang.X86.Instr.{X86Reg, reg_none}
use cco_lang.Regalloc.Registers.{is_none}
use cco_lang.Regalloc.Scan.{
  LiveInterval, ScanState, set_id, choose_reg, Victim, find_victim, take_reg, spill, steal,
  steal_or_spill, place, scan_step,
}
use cco_lang.Regalloc.Active.{In, append-In_right, In-insert_active, insert_active-In, set_reg_self}
use cco_lang.Regalloc.Distinct.{IsNew, In-more, In-less, Distinct-without, insert_active-Distinct}
use cco_lang.Regalloc.Invariant.{Invariant, active_differ, expire-Invariant}
use cco_lang.Regalloc.Invariant.Rounds.{
  Grows, grow-Invariant, set_id_self, set_id_other, set_reg_keeps, choose_reg_free, IsVictim,
  find_victim-IsVictim,
}

-- The three outcomes of a round.
module _ {s : ScanState} {curr : LiveInterval} {seen : List LiveInterval} (new : IsNew curr seen)
    (v : Invariant s seen curr.start) where
  take_reg-Grows :
      (reg : X86Reg)
      → is_none reg ≡ false
      → s.reg_busy reg ≡ false
      → Grows s (take_reg curr reg s) curr seen
  unfolding take_reg
  take_reg-Grows reg is free =
      let phys' = set_id s.phys_reg curr.val_id reg in
      let mine : phys' curr.val_id ≡ reg = set_id_self s.phys_reg curr.val_id reg in
      let old : (p : LiveInterval) → In p seen → phys' p.val_id ≡ s.phys_reg p.val_id =
        λ p h. set_id_other s.phys_reg curr.val_id p.val_id reg (new p h) in
      record {
        single = insert_active-Distinct curr s.active (λ a h. new a (v.placed a h)) v.single;
        active_from = λ a h. elim (In-insert_active a curr s.active h) [
          | inl e ↦ inl (e, rw mine is)
          | inr there ↦ inr (there, old a (v.placed a there))
        ];
        active_still = λ a h held. insert_active-In a curr s.active (inr h);
        regs_stay = λ p h held. old p h;
        busy_still = λ r h. set_reg_keeps s.reg_busy reg r h;
        curr_active = λ h. insert_active-In curr curr s.active (inl refl);
        curr_busy = λ h. rw mine (set_reg_self s.reg_busy reg true);
        curr_alone = λ q h held same.
            let at_q : reg ≡ s.phys_reg q.val_id = sym mine ∙ same ∙ old q h in
            elim (v.kept q h (rw at_q at is)) [
              | inl on ↦
                  let clash : true ≡ false = sym (v.busy q on) ∙ ap s.reg_busy (sym at_q) ∙ free in
                  cc
              | inr ended ↦ ended
            ];
      }

  spill-Grows : Grows s (spill curr s) curr seen
  unfolding spill
  spill-Grows =
      let phys' = set_id s.phys_reg curr.val_id reg_none in
      let mine : phys' curr.val_id ≡ reg_none = set_id_self s.phys_reg curr.val_id reg_none in
      let old : (p : LiveInterval) → In p seen → phys' p.val_id ≡ s.phys_reg p.val_id =
        λ p h. set_id_other s.phys_reg curr.val_id p.val_id reg_none (new p h) in
      let nowhere : is_none (phys' curr.val_id) ≢ false = λ h. cc (sym h ∙ ap is_none mine) in
      record {
        single = v.single;
        active_from = λ a h. inr (h, old a (v.placed a h));
        active_still = λ a h held. h;
        regs_stay = λ p h held. old p h;
        busy_still = λ r h. h;
        curr_active = λ h. absurd (nowhere h);
        curr_busy = λ h. absurd (nowhere h);
        curr_alone = λ q h held same. absurd (nowhere held);
      }

  steal-Grows :
      (w : Victim)
      → s.active ≡ w.before ++ (w.victim ∷ w.behind)
      → Grows s (steal curr w s) curr seen
  unfolding steal
  steal-Grows w at =
      let x = w.victim in
      let rest = w.before ++ w.behind in
      let reg = s.phys_reg x.val_id in
      let phys1 = set_id s.phys_reg curr.val_id reg in
      let phys' = set_id phys1 x.val_id reg_none in
      let there : In x s.active = rw at (append-In_right x w.before (x ∷ w.behind) (inl refl)) in
      let is : is_none reg ≡ false = v.held x there in
      let other : curr.val_id ≢ x.val_id = λ same. new x (v.placed x there) (sym same) in
      let mine : phys' curr.val_id ≡ reg =
        set_id_other phys1 x.val_id curr.val_id reg_none other
        ∙ set_id_self s.phys_reg curr.val_id reg in
      let gone : phys' x.val_id ≡ reg_none = set_id_self phys1 x.val_id reg_none in
      let old : (p : LiveInterval)
          → In p seen
          → p.val_id ≢ x.val_id
          → phys' p.val_id ≡ s.phys_reg p.val_id =
        λ p h differs.
          set_id_other phys1 x.val_id p.val_id reg_none differs
          ∙ set_id_other s.phys_reg curr.val_id p.val_id reg (new p h) in
      let stays : (p : LiveInterval) → is_none (phys' p.val_id) ≡ false → p.val_id ≢ x.val_id =
        λ p held same. cc (sym held ∙ ap (λ i. is_none (phys' i)) same ∙ ap is_none gone) in
      let (single, apart) = Distinct-without w.before x w.behind (rw at at v.single) in
      let was_active : (a : LiveInterval) → In a rest → In a s.active =
        λ a h. rw at (In-more w.before x w.behind a h) in
      record {
        single =
            insert_active-Distinct curr rest (λ a h. new a (v.placed a (was_active a h))) single;
        active_from = λ a h. elim (In-insert_active a curr rest h) [
          | inl e ↦ inl (e, rw mine is)
          | inr on ↦ inr (was_active a on, old a (v.placed a (was_active a on)) (apart a on))
        ];
        active_still = λ a h held.
            insert_active-In a curr rest (elim (In-less w.before x w.behind a (rw at at h)) [
              | inl e ↦ absurd (stays a held (ap (λ (y : LiveInterval). y.val_id) e))
              | inr on ↦ inr on
            ]);
        regs_stay = λ p h held. old p h (stays p held);
        busy_still = λ r h. h;
        curr_active = λ h. insert_active-In curr curr rest (inl refl);
        curr_busy = λ h. rw mine (v.busy x there);
        curr_alone = λ q h held same.
            let held_q : is_none (phys' q.val_id) ≡ false = rw same at held in
            let at_q : s.phys_reg q.val_id ≡ reg =
              sym (old q h (stays q held_q)) ∙ sym same ∙ mine in
            elim (v.kept q h (rw at_q is)) [
              | inl on ↦ absurd (active_differ v q x on there (stays q held_q) at_q)
              | inr ended ↦ ended
            ];
      }

  steal_or_spill-Grows :
      (o : Option Victim)
      → IsVictim curr.reg_class s.active o
      → Grows s (steal_or_spill curr o s) curr seen
  unfolding steal_or_spill
  steal_or_spill-Grows none h = spill-Grows
  steal_or_spill-Grows (some w) h = elim (Bool-cases (ltb curr.end w.victim.end)) [
    | inl longer ↦ rw longer (steal-Grows w h.0)
    | inr shorter ↦ rw shorter spill-Grows
  ]

  place-Grows : Grows s (place curr s) curr seen
  unfolding place
  place-Grows =
      let reg = choose_reg s.reg_busy curr curr.reg_class in
      elim (Bool-cases (is_none reg)) [
        | inl nothing ↦ rw nothing (
            steal_or_spill-Grows (find_victim curr.reg_class s.active)
              (find_victim-IsVictim curr.reg_class s.active))
        | inr is ↦ rw is (take_reg-Grows reg is (choose_reg_free s.reg_busy curr curr.reg_class is))
      ]

-- A round keeps the invariant.
pub scan_step-Invariant :
    {s : ScanState} {seen : List LiveInterval} {now : ℕ} (curr : LiveInterval)
    → now ≤ curr.start
    → curr.start ≤ curr.end
    → IsNew curr seen
    → Invariant s seen now
    → Invariant (scan_step curr s) (curr ∷ seen) curr.start
unfolding scan_step
scan_step-Invariant curr later long new v =
    let v' = expire-Invariant curr.start later v in grow-Invariant (place-Grows new v') v' long new
