-- ===== src/Regalloc/Bound.antt =====
-- The array of active intervals, of X86_TOTAL_REG_COUNT * 2 entries, is never full.
use cco_lang.Base.{
  ℕ, suc, zero, ◌+◌, ◌≤◌, ◌<◌, ◌≡◌, ◌≢◌, refl, sym, ◌∙◌, ltb, ◌==◌, List, [], ◌∷◌, arith, inl, inr,
  if◌then◌else◌, length,
}
use cco_lang.Regalloc.Scan.{LiveInterval, ScanState, scan_start, linear_scan}
use cco_lang.Regalloc.Active.{In}
use cco_lang.Regalloc.Distinct.{Distinct}
use cco_lang.Regalloc.Invariant.{Invariant, active_differ, scan_start-Invariant}
use cco_lang.Regalloc.Invariant.Settled.{scan_start-Settled}
use cco_lang.Regalloc.Safety.{IsOrdered, linear_scan-Scanned}
use cco_lang.Regalloc.Codes.{code, code_small, code_one}

-- How many intervals have a key below a bound, and how many have that key.
module _ (key : LiveInterval → ℕ) where
  abbrev count_below : ℕ → List LiveInterval → ℕ
  count_below n [] = 0
  count_below n (x ∷ xs) = if ltb (key x) n then suc (count_below n xs) else count_below n xs

  abbrev count_at : ℕ → List LiveInterval → ℕ
  count_at n [] = 0
  count_at n (x ∷ xs) = if key x == n then suc (count_at n xs) else count_at n xs

  below_zero : (xs : List LiveInterval) → count_below 0 xs ≡ 0
  below_zero [] = refl
  below_zero (x ∷ xs) = ground (arith, below_zero xs)

  below_suc :
      (n : ℕ) (xs : List LiveInterval) → count_below (suc n) xs ≡ count_below n xs + count_at n xs
  below_suc n [] = refl
  below_suc n (x ∷ xs) = ground (arith, below_suc n xs)

  below_all :
      (n : ℕ) (xs : List LiveInterval)
      → ((p : LiveInterval) → In p xs → key p < n)
      → count_below n xs ≡ length xs
  below_all n [] h = refl
  below_all n (x ∷ xs) h =
      let here : key x < n = h x (inl refl) in
      let rest : count_below n xs ≡ length xs = below_all n xs (λ p there. h p (inr there)) in
      ground arith

  at_none :
      (n : ℕ) (xs : List LiveInterval)
      → ((p : LiveInterval) → In p xs → key p ≢ n)
      → count_at n xs ≡ 0
  at_none n [] h = refl
  at_none n (x ∷ xs) h =
      let here : key x ≢ n = h x (inl refl) in
      let rest : count_at n xs ≡ 0 = at_none n xs (λ p there. h p (inr there)) in ground arith

  -- No two intervals of the list have the same key.
  abbrev Keyed : List LiveInterval → Type 0
  Keyed [] = Unit
  Keyed (x ∷ xs) = ((p : LiveInterval) → In p xs → key p ≢ key x) × Keyed xs

  at_most_one : (n : ℕ) (xs : List LiveInterval) → Keyed xs → count_at n xs ≤ 1
  at_most_one n [] h = omega arith
  at_most_one n (x ∷ xs) h =
      let rest : count_at n xs ≤ 1 = at_most_one n xs h.1 in
      let alone : key x ≡ n → count_at n xs ≡ 0 =
        λ e. at_none n xs (λ p there same. h.0 p there (same ∙ sym e)) in
      ground arith

  below_bounded : (n : ℕ) (xs : List LiveInterval) → Keyed xs → count_below n xs ≤ n
  below_bounded zero xs h = omega (arith, below_zero xs)
  below_bounded (suc n) xs h =
      omega (arith, below_suc n xs, at_most_one n xs h, below_bounded n xs h)

  length_bounded :
      (n : ℕ) (xs : List LiveInterval)
      → Keyed xs
      → ((p : LiveInterval) → In p xs → key p < n)
      → length xs ≤ n
  length_bounded n xs h small = omega (arith, below_all n xs small, below_bounded n xs h)

-- A list of intervals with ids of their own, whose keys differ where the ids do.
Distinct-Keyed :
    (key : LiveInterval → ℕ) (xs : List LiveInterval)
    → Distinct xs
    → ((p q : LiveInterval) → In p xs → In q xs → p.val_id ≢ q.val_id → key p ≢ key q)
    → Keyed key xs
Distinct-Keyed key [] d h = tt
Distinct-Keyed key (x ∷ xs) d h = (
  (λ p there. h p x (inr there) (inl refl) (d.0 p there)),
  Distinct-Keyed key xs d.1 (λ p q hp hq. h p q (inr hp) (inr hq)),
)

active_fits :
    {s : ScanState} {seen : List LiveInterval} {now : ℕ}
    → Invariant s seen now
    → length s.active ≤ 32
active_fits {s} v =
    length_bounded (λ (p : LiveInterval). code (s.phys_reg p.val_id)) 32 s.active
      (Distinct-Keyed (λ (p : LiveInterval). code (s.phys_reg p.val_id)) s.active v.single
        (λ p q hp hq differs same.
          active_differ v p q hp hq differs (code_one _ _ (v.held p hp) (v.held q hq) same)))
      (λ p hp. code_small _ (v.held p hp))

-- After the scan of intervals in the order of their starts, each with an id of its own, at most 32
-- are active: half of the array's length. A part of such a list that stands at its front is such a
-- list, so this holds after each round.
pub linear_scan-bounded :
    (list : List LiveInterval)
    → IsOrdered 0 list
    → Distinct list
    → length (linear_scan list scan_start).active ≤ 32
linear_scan-bounded list o d =
    let r =
      linear_scan-Scanned list o d (λ x h y hy. absurd hy) scan_start-Invariant
        scan_start-Settled in
    active_fits r.holds
