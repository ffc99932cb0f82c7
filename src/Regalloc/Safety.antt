-- ===== src/Regalloc/Safety.antt =====
-- Linear scan is safe: intervals that are alive together never share a register.
use cco_lang.Base.{ℕ, ◌≤◌, ◌≡◌, ◌≢◌, refl, sym, ◌∙◌, ap, false, not, List, [], ◌∷◌, inl, inr}
use cco_lang.Regalloc.Registers.{is_none}
use cco_lang.Regalloc.Scan.{LiveInterval, ScanState, scan_start, linear_scan}
use cco_lang.Regalloc.Active.{In}
use cco_lang.Regalloc.Distinct.{Distinct, IsNew}
use cco_lang.Regalloc.Invariant.{Apart, Invariant, scan_start-Invariant}
use cco_lang.Regalloc.Invariant.Fits.{allocatable}
use cco_lang.Regalloc.Invariant.Settled.{Settled, scan_start-Settled, scan_step-Settled}
use cco_lang.Regalloc.Invariant.Outcomes.{scan_step-Invariant}

-- The intervals stand in the order of their starts, and none ends before it starts.
abbrev pub IsOrdered : ℕ → List LiveInterval → Type 0
IsOrdered now [] = Unit
IsOrdered now (x ∷ rest) = (now ≤ x.start) × (x.start ≤ x.end) × IsOrdered x.start rest

-- No interval of the second list has the id of one of the first.
abbrev pub AllNew : List LiveInterval → List LiveInterval → Type 0
AllNew seen rest = (x : LiveInterval) → In x rest → IsNew x seen

pub record Scanned (s : ScanState) (seen rest : List LiveInterval) : Type 0 where
  pub all : List LiveInterval
  pub last : ℕ
  pub holds : Invariant s all last
  pub settled : Settled s all
  pub covers_seen : (p : LiveInterval) → In p seen → In p all
  pub covers_rest : (p : LiveInterval) → In p rest → In p all

pub linear_scan-Scanned :
    (rest : List LiveInterval) {s : ScanState} {seen : List LiveInterval} {now : ℕ}
    → IsOrdered now rest
    → Distinct rest
    → AllNew seen rest
    → Invariant s seen now
    → Settled s seen
    → Scanned (linear_scan rest s) seen rest
unfolding linear_scan
linear_scan-Scanned [] {seen} {now} o d new v fit = record {
  all = seen;
  settled = fit;
  last = now;
  holds = v;
  covers_seen = λ p h. h;
  covers_rest = λ p h. absurd h;
}
linear_scan-Scanned (curr ∷ rest) {s} {seen} o d new v fit =
    let next = scan_step-Invariant curr o.0 o.1 (new curr (inl refl)) v in
    let fit' = scan_step-Settled curr o.0 (new curr (inl refl)) v fit in
    let new' : AllNew (curr ∷ seen) rest = λ x h p hp. elim hp [
      | inl e ↦ λ same. d.0 x h (sym same ∙ ap (λ (y : LiveInterval). y.val_id) e)
      | inr there ↦ new x (inr h) p there
    ] in
    let r = linear_scan-Scanned rest o.2 d.1 new' next fit' in
    record {
      all = r.all;
      last = r.last;
      holds = r.holds;
      settled = r.settled;
      covers_seen = λ p h. r.covers_seen p (inr h);
      covers_rest =
          λ p h. elim h [ inl e ↦ r.covers_seen p (inl e) | inr there ↦ r.covers_rest p there ];
    }

-- After the scan of intervals in the order of their starts, each with an id of its own, two of them
-- that hold the same register do not overlap: one ends before the other begins.
pub linear_scan-Apart :
    (list : List LiveInterval) (p q : LiveInterval)
    → IsOrdered 0 list
    → Distinct list
    → In p list
    → In q list
    → p.val_id ≢ q.val_id
    → is_none ((linear_scan list scan_start).phys_reg p.val_id) ≡ false
    → (linear_scan list scan_start).phys_reg p.val_id
      ≡ (linear_scan list scan_start).phys_reg q.val_id
    → Apart p q
linear_scan-Apart list p q o d hp hq differs held same =
    let r =
      linear_scan-Scanned list o d (λ x h y hy. absurd hy) scan_start-Invariant
        scan_start-Settled in
    r.holds.apart p q (r.covers_rest p hp) (r.covers_rest q hq) differs held same

-- After the scan of such intervals, an interval is spilled exactly when it holds no register, and a
-- register that it holds belongs to the pools of its class: a vector register below xmm14 for a
-- float, and for the rest one of rbx and r10 to r15.
pub linear_scan-settles :
    (list : List LiveInterval) (p : LiveInterval)
    → IsOrdered 0 list
    → Distinct list
    → In p list
    → ((linear_scan list scan_start).is_spilled p.val_id
        ≡ is_none ((linear_scan list scan_start).phys_reg p.val_id))
      × (allocatable p.reg_class ((linear_scan list scan_start).phys_reg p.val_id)
          ≡ not (is_none ((linear_scan list scan_start).phys_reg p.val_id)))
linear_scan-settles list p o d hp =
    let r =
      linear_scan-Scanned list o d (λ x h y hy. absurd hy) scan_start-Invariant
        scan_start-Settled in
    let at_p = r.covers_rest p hp in (r.settled.spilled p at_p, r.settled.fits p at_p)
