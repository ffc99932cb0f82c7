-- ===== src/Regalloc/Result/Sorted.antt =====
-- What the sort of `regalloc_run` hands to the linear scan.
use cco_lang.Base.{
  ℕ, suc, ◌+◌, ◌≤◌, ◌<◌, ◌≡◌, ◌↔◌, refl, sym, ◌∙◌, ap, true, List, [], ◌∷◌, length, arith, inl, inr,
}
use native.Mathlib.Decide.{ℕ_discrete}
use cco_lang.Regalloc.Scan.{LiveInterval}
use cco_lang.Regalloc.Active.{In}
use cco_lang.Regalloc.Distinct.{Distinct}
use cco_lang.Regalloc.Safety.{IsOrdered}
use cco_lang.Regalloc.Result.{starts_first}

-- `compare_start_pos` is at most zero on neighbours.
abbrev pub IsSorted : List LiveInterval → Type 0
IsSorted [] = Unit
IsSorted (x ∷ []) = Unit
IsSorted (x ∷ y ∷ rest) = (starts_first x y ≡ true) × IsSorted (y ∷ rest)

-- The same entries in another order, by exchanges of neighbours.
pub data Shuffled : List LiveInterval → List LiveInterval → Type 0 where
  unmoved : (xs : List LiveInterval) → Shuffled xs xs
  under :
      (x : LiveInterval) {xs ys : List LiveInterval} → Shuffled xs ys → Shuffled (x ∷ xs) (x ∷ ys)
  exchange : (x y : LiveInterval) (xs : List LiveInterval) → Shuffled (x ∷ y ∷ xs) (y ∷ x ∷ xs)
  through : {xs ys zs : List LiveInterval} → Shuffled xs ys → Shuffled ys zs → Shuffled xs zs

-- What the C library says of qsort: the same entries, in the order of the comparison.
pub record Sorts (qsort : List LiveInterval → List LiveInterval) : Type 0 where
  pub in_order : (list : List LiveInterval) → IsSorted (qsort list)
  pub permutes : (list : List LiveInterval) → Shuffled list (qsort list)

-- The intervals of a function: the entry at the index i has the id i, and none ends before it starts.
abbrev pub IsNumbered : ℕ → List LiveInterval → Type 0
IsNumbered i [] = Unit
IsNumbered i (x ∷ rest) = (x.val_id ≡ i) × (x.start ≤ x.end) × IsNumbered (suc i) rest

swapped : (p x y : LiveInterval) (xs : List LiveInterval) → In p (x ∷ y ∷ xs) → In p (y ∷ x ∷ xs)
swapped p x y xs (inl e) = inr (inl e)
swapped p x y xs (inr (inl e)) = inl e
swapped p x y xs (inr (inr h)) = inr (inr h)

-- A shuffle keeps the members, and that their ids differ.
pub shuffle-In :
    {xs ys : List LiveInterval} → Shuffled xs ys → (p : LiveInterval) → (In p xs ↔ In p ys)
shuffle-In (unmoved xs) p = ((λ h. h), λ h. h)
shuffle-In (under x d) p =
    let (there, back) = shuffle-In d p in
    (
      (λ h. elim h [ inl e ↦ inl e | inr t ↦ inr (there t) ]),
      λ h. elim h [ inl e ↦ inl e | inr t ↦ inr (back t) ],
    )
shuffle-In (exchange x y xs) p = (swapped p x y xs, swapped p y x xs)
shuffle-In (through d d') p =
    let (a, a') = shuffle-In d p in
    let (b, b') = shuffle-In d' p in ((λ h. b (a h)), λ h. a' (b' h))

pub shuffle-Distinct : {xs ys : List LiveInterval} → Shuffled xs ys → Distinct xs → Distinct ys
shuffle-Distinct (unmoved xs) h = h
shuffle-Distinct (under x d) h =
    ((λ p there. h.0 p ((shuffle-In d p).1 there)), shuffle-Distinct d h.1)
shuffle-Distinct (exchange x y xs) h = (
  (λ p there. elim there [
    | inl e ↦ λ same. h.0 y (inl refl) (sym same ∙ ap (λ (z : LiveInterval). z.val_id) e)
    | inr t ↦ h.1.0 p t
  ]),
  ((λ p there. h.0 p (inr there)), h.1.1),
)
shuffle-Distinct (through d d') h = shuffle-Distinct d' (shuffle-Distinct d h)

numbered_above :
    (i : ℕ) (list : List LiveInterval) (p : LiveInterval)
    → IsNumbered i list
    → In p list
    → (i ≤ p.val_id) × (p.val_id < i + length list) × (p.start ≤ p.end)
numbered_above i [] p n h = absurd h
numbered_above i (x ∷ rest) p n (inl e) = rw e (omega (arith, n.0), omega (arith, n.0), n.1)
numbered_above i (x ∷ rest) p n (inr h) =
    let (above, below, long) = numbered_above (suc i) rest p n.2 h in
    (omega arith, omega arith, long)

numbered_at :
    (i : ℕ) (list : List LiveInterval) (v : ℕ)
    → IsNumbered i list
    → i ≤ v
    → v < i + length list
    → (p : LiveInterval) × In p list × (p.val_id ≡ v)
numbered_at i [] v n above below = absurd (omega arith)
numbered_at i (x ∷ rest) v n above below = elim (ℕ_discrete i v) [
  | yes e ↦ (x, inl refl, n.0 ∙ e)
  | no differs ↦
      let (p, there, at) = numbered_at (suc i) rest v n.2 (omega arith) (omega arith) in
      (p, inr there, at)
]

pub numbered-Distinct : (i : ℕ) (list : List LiveInterval) → IsNumbered i list → Distinct list
numbered-Distinct i [] n = tt
numbered-Distinct i (x ∷ rest) n = (
  (λ p h same. omega (arith, (numbered_above (suc i) rest p n.2 h).0, n.0)),
  numbered-Distinct (suc i) rest n.2,
)

starts_first_le : (x y : LiveInterval) → starts_first x y ≡ true → x.start ≤ y.start
starts_first_le x y h = ground arith

abbrev FirstAfter : ℕ → List LiveInterval → Type 0
FirstAfter now [] = Unit
FirstAfter now (x ∷ rest) = now ≤ x.start

FirstAfter-zero : (list : List LiveInterval) → FirstAfter 0 list
FirstAfter-zero [] = tt
FirstAfter-zero (x ∷ rest) = omega arith

-- A sorted list of intervals that end no earlier than they start.
pub sorted-IsOrdered :
    (list : List LiveInterval) (now : ℕ)
    → IsSorted list
    → ((p : LiveInterval) → In p list → p.start ≤ p.end)
    → FirstAfter now list
    → IsOrdered now list
sorted-IsOrdered [] now sorted long later = tt
sorted-IsOrdered (x ∷ []) now sorted long later = (later, long x (inl refl), tt)
sorted-IsOrdered (x ∷ y ∷ rest) now sorted long later =
    let next : x.start ≤ y.start = starts_first_le x y sorted.0 in
    let rest' = sorted-IsOrdered (y ∷ rest) x.start sorted.1 (λ p h. long p (inr h)) next in
    (later, long x (inl refl), rest')

module _ {qsort : List LiveInterval → List LiveInterval} (sorts : Sorts qsort)
    (list : List LiveInterval) (numbered : IsNumbered 0 list) where
  pub qsort-IsOrdered : IsOrdered 0 (qsort list)
  qsort-IsOrdered =
      sorted-IsOrdered (qsort list) 0 (sorts.in_order list)
        (λ p h. (numbered_above 0 list p numbered ((shuffle-In (sorts.permutes list) p).1 h)).2)
        (FirstAfter-zero (qsort list))

  pub qsort-Distinct : Distinct (qsort list)
  qsort-Distinct = shuffle-Distinct (sorts.permutes list) (numbered-Distinct 0 list numbered)

  pub qsort-In : (p : LiveInterval) → In p list → In p (qsort list)
  qsort-In p h = (shuffle-In (sorts.permutes list) p).0 h

  -- The ids are the numbers below the count.
  pub in_range : (p : LiveInterval) → In p list → p.val_id < length list
  in_range p h = omega (arith, (numbered_above 0 list p numbered h).1)

  pub of_id : (v : ℕ) → v < length list → (p : LiveInterval) × In p list × (p.val_id ≡ v)
  of_id v below = numbered_at 0 list v numbered (omega arith) (omega arith)
