-- ===== src/Regalloc/Invariant.antt =====
-- What holds between the rounds of the linear scan: a register of an active interval is busy, an
-- interval that left the active list has ended, and no two intervals conflict.
pub mod Rounds
pub mod Outcomes
pub mod Fits
pub mod Settled
use cco_lang.Base.{
  ℕ, ◌≤◌, ◌<◌, ◌≡◌, ◌≢◌, ◌⊎◌, refl, sym, ◌∙◌, ap, Bool, true, false, List, [], ◌∷◌, arith,
  Bool-cases, inl, inr,
}
use cco_lang.X86.Instr.{X86Reg}
use cco_lang.Regalloc.Registers.{is_none}
use cco_lang.Regalloc.Scan.{LiveInterval, ScanState, scan_start, expire}
use cco_lang.Regalloc.Distinct.{Distinct, Distinct-one, expire_active-Distinct}
use cco_lang.Regalloc.Active.{In, In-expire_active, expire_active-In, expire_busy-busy}

-- One interval ends before the other begins.
abbrev pub Apart : LiveInterval → LiveInterval → Type 0
Apart p q = (p.end < q.start) ⊎ (q.end < p.start)

pub record Invariant (s : ScanState) (seen : List LiveInterval) (now : ℕ) : Type 0 where
  pub held : (a : LiveInterval) → In a s.active → is_none (s.phys_reg a.val_id) ≡ false
  pub busy : (a : LiveInterval) → In a s.active → s.reg_busy (s.phys_reg a.val_id) ≡ true
  pub live : (a : LiveInterval) → In a s.active → now ≤ a.end
  pub single : Distinct s.active
  pub distinct : Distinct seen
  pub placed : (a : LiveInterval) → In a s.active → In a seen
  pub begun : (p : LiveInterval) → In p seen → p.start ≤ now
  pub kept :
      (p : LiveInterval)
      → In p seen
      → is_none (s.phys_reg p.val_id) ≡ false
      → In p s.active ⊎ (p.end < now)
  pub apart :
      (p q : LiveInterval)
      → In p seen
      → In q seen
      → p.val_id ≢ q.val_id
      → is_none (s.phys_reg p.val_id) ≡ false
      → s.phys_reg p.val_id ≡ s.phys_reg q.val_id
      → Apart p q

pub scan_start-Invariant : Invariant scan_start [] 0
scan_start-Invariant = record {
  held = λ a h. absurd h;
  busy = λ a h. absurd h;
  live = λ a h. absurd h;
  single = tt;
  distinct = tt;
  placed = λ a h. absurd h;
  begun = λ p h. absurd h;
  kept = λ p h. absurd h;
  apart = λ p q h. absurd h;
}

-- Two active intervals have different registers.
pub active_differ :
    {s : ScanState} {seen : List LiveInterval} {now : ℕ}
    → Invariant s seen now
    → (a b : LiveInterval) → In a s.active
    → In b s.active
    → a.val_id ≢ b.val_id
    → s.phys_reg a.val_id ≢ s.phys_reg b.val_id
active_differ v a b ha hb differs same =
    elim (v.apart a b (v.placed a ha) (v.placed b hb) differs (v.held a ha) same) [
      | inl before ↦ omega (arith, before, v.live a ha, v.begun b (v.placed b hb))
      | inr behind ↦ omega (arith, behind, v.live b hb, v.begun a (v.placed a ha))
    ]

-- Expiry up to the start of the next interval keeps it.
pub expire-Invariant :
    {s : ScanState} {seen : List LiveInterval} {now : ℕ} (t : ℕ)
    → now ≤ t
    → Invariant s seen now
    → Invariant (expire t s) seen t
unfolding expire
expire-Invariant {s} {seen} t later v = record {
  held = λ a h. v.held a (In-expire_active t a s.active h).0;
  busy = λ a h.
      let (there, live) = In-expire_active t a s.active h in
      expire_busy-busy s.phys_reg t s.active s.reg_busy (s.phys_reg a.val_id)
        (λ b hb ended. active_differ v a b there hb (λ same.
          let e : a ≡ b =
            Distinct-one seen v.distinct a b (v.placed a there) (v.placed b hb) same in
          omega (arith, ap (λ (x : LiveInterval). x.end) e)))
        (v.busy a there);
  live = λ a h. (In-expire_active t a s.active h).1;
  single = expire_active-Distinct t s.active v.single;
  distinct = v.distinct;
  placed = λ a h. v.placed a (In-expire_active t a s.active h).0;
  begun = λ p h. omega (arith, v.begun p h);
  kept = λ p h held. elim (v.kept p h held) [
    | inl there ↦ expire_active-In t p s.active there
    | inr ended ↦ inr (omega arith)
  ];
  apart = v.apart;
}
