-- ===== src/Runtime/Map/Counts.antt =====
-- Buckets of one kind counted, and what a write does to the count.
use cco_lang.Base.{
  ℕ, zero, suc, ◌+◌, ◌≤◌, ◌<◌, ◌≡◌, ◌≢◌, refl, ap, ◌==◌, Bool, true, false, arith, Bool-cases, inl,
  inr,
}
use cco_lang.Runtime.Map.{Bucket, empty, occupied, tombstone, write, is_occupied, is_tombstone}
use cco_lang.Runtime.Map.Search.{is_used}

abbrev pub one_if : Bool → ℕ
one_if true = 1
one_if false = 0

module _ {ℓ} {A : Type ℓ} where
  -- The buckets that pass a test, among the first `n`.
  unfoldable pub count_where : (Bucket A → Bool) → (ℕ → Bucket A) → ℕ → ℕ
  count_where p buckets zero = 0
  count_where p buckets (suc n) = one_if (p (buckets n)) + count_where p buckets n

  used_by_kind :
      (b : Bucket A) → one_if (is_used b) ≡ one_if (is_occupied b) + one_if (is_tombstone b)
  used_by_kind empty = refl
  used_by_kind tombstone = refl
  used_by_kind (occupied key value) = refl

  -- A bucket in use is occupied or a tombstone.
  pub count_used :
      (buckets : ℕ → Bucket A) (n : ℕ)
      → count_where is_used buckets n
        ≡ count_where is_occupied buckets n + count_where is_tombstone buckets n
  unfolding count_where
  count_used buckets zero = refl
  count_used buckets (suc n) = omega (arith, used_by_kind (buckets n), count_used buckets n)

  count_where-beyond :
      (p : Bucket A → Bool) (buckets : ℕ → Bucket A) (i : ℕ) (b : Bucket A) (n : ℕ)
      → n ≤ i
      → count_where p (write buckets i b) n ≡ count_where p buckets n
  unfolding count_where
  count_where-beyond p buckets i b zero h = refl
  count_where-beyond p buckets i b (suc n) h = ground (arith, count_where-beyond p buckets i b n)

  pub count_where-write :
      (p : Bucket A → Bool) (buckets : ℕ → Bucket A) (i : ℕ) (b : Bucket A) (n : ℕ)
      → i < n
      → count_where p (write buckets i b) n + one_if (p (buckets i))
        ≡ count_where p buckets n + one_if (p b)
  unfolding count_where
  count_where-write p buckets i b zero h = absurd (omega arith)
  count_where-write p buckets i b (suc n) h = elim (Bool-cases (n == i)) [
    | inl same ↦
        let e : n ≡ i = ground arith in
        rw same (
          omega (
            arith,
            count_where-beyond p buckets i b n (omega arith),
            ap (λ j. one_if (p (buckets j))) e,
          ))
    | inr other ↦
        let ne : n ≢ i = ground arith in
        rw other (omega (arith, count_where-write p buckets i b n (omega arith)))
  ]

  pub write_self : (buckets : ℕ → Bucket A) (i : ℕ) (b : Bucket A) → write buckets i b i ≡ b
  write_self buckets i b = ground arith

  pub write_other :
      (buckets : ℕ → Bucket A) (i j : ℕ) (b : Bucket A) → j ≢ i → write buckets i b j ≡ buckets j
  write_other buckets i j b h = ground arith

  not_used : (b : Bucket A) → is_used b ≡ false → b ≡ empty
  not_used empty h = refl
  not_used tombstone h = cc
  not_used (occupied key value) h = cc

  pub find_empty :
      (buckets : ℕ → Bucket A) (n : ℕ)
      → count_where is_used buckets n < n
      → (i : ℕ) × (i < n) × (buckets i ≡ empty)
  unfolding count_where
  find_empty buckets zero h = absurd (omega arith)
  find_empty buckets (suc n) h = elim (Bool-cases (is_used (buckets n))) [
    | inl used ↦
        let fewer : count_where is_used buckets n < n = omega (arith, rw used at h) in
        let (i, inside, e) = find_empty buckets n fewer in (i, omega arith, e)
    | inr unused ↦ (n, omega arith, not_used (buckets n) unused)
  ]
