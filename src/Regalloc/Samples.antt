-- ===== src/Regalloc/Samples.antt =====
-- A sort for the tests: insertion in the order of `compare_start_pos`.
use cco_lang.Base.{◌≡◌, true, false, List, [], ◌∷◌, arith, Bool-cases, inl, inr, if◌then◌else◌}
use cco_lang.Regalloc.Scan.{LiveInterval}
use cco_lang.Regalloc.Result.{starts_first}
use cco_lang.Regalloc.Result.Sorted.{IsSorted, Sorts, Shuffled, unmoved, under, exchange, through}

-- An insertion sort in the order of `compare_start_pos`.
unfoldable pub put_in_order : LiveInterval → List LiveInterval → List LiveInterval
put_in_order x [] = x ∷ []
put_in_order x (y ∷ ys) = if starts_first x y then x ∷ y ∷ ys else y ∷ put_in_order x ys

unfoldable pub insertion_sort : List LiveInterval → List LiveInterval
unfolding put_in_order
insertion_sort [] = []
insertion_sort (x ∷ xs) = put_in_order x (insertion_sort xs)

starts_either : (x y : LiveInterval) → starts_first x y ≡ false → starts_first y x ≡ true
starts_either x y h = ground arith

put_in_order-Shuffled :
    (x : LiveInterval) (ys : List LiveInterval) → Shuffled (x ∷ ys) (put_in_order x ys)
unfolding put_in_order
put_in_order-Shuffled x [] = unmoved _
put_in_order-Shuffled x (y ∷ ys) = elim (Bool-cases (starts_first x y)) [
  | inl e ↦ rw e (unmoved _)
  | inr e ↦ rw e (through (exchange x y ys) (under y (put_in_order-Shuffled x ys)))
]

insertion_sort-Shuffled : (xs : List LiveInterval) → Shuffled xs (insertion_sort xs)
unfolding insertion_sort
insertion_sort-Shuffled [] = unmoved _
insertion_sort-Shuffled (x ∷ xs) =
    through (under x (insertion_sort-Shuffled xs)) (put_in_order-Shuffled x (insertion_sort xs))

-- Behind a head that starts first.
put_behind-IsSorted :
    (x z : LiveInterval) (ys : List LiveInterval)
    → starts_first z x ≡ true
    → IsSorted (z ∷ ys)
    → IsSorted (z ∷ put_in_order x ys)
unfolding put_in_order
put_behind-IsSorted x z [] first h = (first, tt)
put_behind-IsSorted x z (y ∷ ys) first h = elim (Bool-cases (starts_first x y)) [
  | inl e ↦ rw e (first, (e, h.1))
  | inr e ↦ rw e (h.0, put_behind-IsSorted x y ys (starts_either x y e) h.1)
]

put_in_order-IsSorted :
    (x : LiveInterval) (ys : List LiveInterval) → IsSorted ys → IsSorted (put_in_order x ys)
unfolding put_in_order
put_in_order-IsSorted x [] h = tt
put_in_order-IsSorted x (y ∷ ys) h = elim (Bool-cases (starts_first x y)) [
  | inl e ↦ rw e (e, h)
  | inr e ↦ rw e (put_behind-IsSorted x y ys (starts_either x y e) h)
]

insertion_sort-IsSorted : (xs : List LiveInterval) → IsSorted (insertion_sort xs)
unfolding insertion_sort
insertion_sort-IsSorted [] = tt
insertion_sort-IsSorted (x ∷ xs) =
    put_in_order-IsSorted x (insertion_sort xs) (insertion_sort-IsSorted xs)

pub insertion_sort-Sorts : Sorts insertion_sort
insertion_sort-Sorts = record {
  in_order = insertion_sort-IsSorted;
  permutes = insertion_sort-Shuffled;
}
