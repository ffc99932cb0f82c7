-- ===== src/Runtime/Map/Search.antt =====
-- The search loop of the hash map on buckets that hold every key within reach of its home.
use cco_lang.Base.{
  ℕ, zero, suc, ◌+◌, ◌-◌, ◌%◌, ◌^◌, ◌<◌, ◌≡◌, ◌≢◌, ◌⊎◌, refl, sym, ◌∙◌, ap, Option, Bool, true,
  false, arith, Bool-cases, inl, inr,
}
use cco_lang.Base.Masks.{bit_and-low_ones, two_pow_pos}
use native.Mathlib.Nat.{mod-lt, mod-add-mod, add-mod-mod, mod-eq_of_lt, add-mod_right}
use cco_lang.Runtime.Key.{Key, hash_key, key_eq, key_eq_refl, key_eq_sound}
use cco_lang.Runtime.Map.{
  Bucket, empty, occupied, tombstone, home, next_idx, Probe, spent, at_empty, at_key, probe,
  probe_bucket,
}

-- The bucket that a search from `h` visits after `d` steps.
abbrev pub pos : ℕ → ℕ → ℕ → ℕ
pos capacity h d = (h + d) % capacity

pub next_idx-pos : (k h d : ℕ) → next_idx (2 ^ k) (pos (2 ^ k) h d) ≡ pos (2 ^ k) h (d + 1)
unfolding next_idx
next_idx-pos k h d =
    bit_and-low_ones k (pos (2 ^ k) h d + 1)
    ∙ mod-add-mod (h + d) (2 ^ k) 1
    ∙ ap (λ n. n % 2 ^ k) (omega arith)

next_idx-lt : (k idx : ℕ) → next_idx (2 ^ k) idx < 2 ^ k
unfolding next_idx
next_idx-lt k idx = rw (bit_and-low_ones k (idx + 1)) (mod-lt (idx + 1) (two_pow_pos k))

pub home-pos : (k : ℕ) (key : Key) → home (2 ^ k) key ≡ pos (2 ^ k) (hash_key key) 0
unfolding home
home-pos k key = bit_and-low_ones k (hash_key key) ∙ ap (λ n. n % 2 ^ k) (omega arith)

module _ {ℓ} {A : Type ℓ} where
  abbrev pub is_used : Bucket A → Bool
  is_used empty = false
  is_used _ = true

  -- The buckets that a search visits before step `d` are in use.
  abbrev pub PathIsUsed : (ℕ → Bucket A) → ℕ → ℕ → ℕ → Type 0
  PathIsUsed buckets capacity h d = (e : ℕ) → e < d → is_used (buckets (pos capacity h e)) ≡ true

  -- The key stands at `d` steps from its home, behind buckets that are in use.
  pub record Reached (buckets : ℕ → Bucket A) (capacity : ℕ) (key : Key) (i : ℕ) : Type 0 where
    pub distance : ℕ
    pub near : distance < capacity
    pub place : pos capacity (hash_key key) distance ≡ i
    pub path : PathIsUsed buckets capacity (hash_key key) distance

  module _ (buckets : ℕ → Bucket A) (key : Key) where
    -- A search ends at a bucket of its key, inside the array.
    bucket_sound :
        (capacity idx i : ℕ) (value : Option A) (b : Bucket A) (rest : Probe A)
        → idx < capacity
        → buckets idx ≡ b
        → (rest ≡ at_key i value → (buckets i ≡ occupied key value) × (i < capacity))
        → probe_bucket key idx b rest ≡ at_key i value
        → (buckets i ≡ occupied key value) × (i < capacity)
    bucket_sound capacity idx i value empty rest inside e later h = cc
    bucket_sound capacity idx i value tombstone rest inside e later h = later h
    bucket_sound capacity idx i value (occupied k v) rest inside e later h =
        elim (Bool-cases (key_eq k key)) [
          | inl same ↦
              let found : at_key idx v ≡ at_key i value = rw same at h in
              let this : k ≡ key = key_eq_sound k key same in
              let here : idx ≡ i = cc in (cc, omega (arith, here))
          | inr other ↦ later (rw other at h)
        ]

    pub probe_sound :
        (fuel k idx i : ℕ) (value : Option A)
        → idx < 2 ^ k
        → probe fuel buckets (2 ^ k) key idx ≡ at_key i value
        → (buckets i ≡ occupied key value) × (i < 2 ^ k)
    unfolding probe
    probe_sound zero k idx i value inside h = cc
    probe_sound (suc fuel) k idx i value inside h =
        bucket_sound (2 ^ k) idx i value (buckets idx) _ inside refl
          (probe_sound fuel k (next_idx (2 ^ k) idx) i value (next_idx-lt k idx)) h

    -- At a used bucket the search stops at its key, or goes on.
    stop_or_pass :
        (idx : ℕ) (b : Bucket A)
        → is_used b ≡ true
        → ((v : Option A) × (b ≡ occupied key v))
          ⊎ ((rest : Probe A) → probe_bucket key idx b rest ≡ rest)
    stop_or_pass idx empty used = cc
    stop_or_pass idx tombstone used = inr (λ rest. refl)
    stop_or_pass idx (occupied k v) used = elim (Bool-cases (key_eq k key)) [
      | inl same ↦ inl (v, ap (λ k. occupied k v) (key_eq_sound k key same))
      | inr differs ↦ inr (λ rest. rw differs refl)
    ]

    bucket_stops :
        (idx : ℕ) (v : Option A) (b : Bucket A) (rest : Probe A)
        → b ≡ occupied key v
        → probe_bucket key idx b rest ≡ at_key idx v
    bucket_stops idx v b rest e = rw (e, key_eq_refl key) refl

    -- From step `s`, a key that stands `n` steps on is found, if it stands nowhere else.
    pub probe_finds :
        (k h fuel s n : ℕ) (value : Option A)
        → n < fuel
        → PathIsUsed buckets (2 ^ k) h (s + n)
        → buckets (pos (2 ^ k) h (s + n)) ≡ occupied key value
        → ((i : ℕ) (v : Option A)
            → i < 2 ^ k
            → buckets i ≡ occupied key v
            → i ≡ pos (2 ^ k) h (s + n))
        → probe fuel buckets (2 ^ k) key (pos (2 ^ k) h s) ≡ at_key (pos (2 ^ k) h (s + n)) value
    unfolding probe
    probe_finds k h zero s n value few path here only = absurd (omega arith)
    probe_finds k h (suc fuel) s zero value few path here only =
        let at_s : s + 0 ≡ s = omega arith in
        rw at_s (bucket_stops (pos (2 ^ k) h s) value _ _ (rw at_s at here))
    probe_finds k h (suc fuel) s (suc n) value few path here only =
        let c = 2 ^ k in
        elim (stop_or_pass (pos c h s) (buckets (pos c h s)) (path s (omega arith))) [
          | inl (v, e) ↦
              let i = pos c h s in
              let same : i ≡ pos c h (s + suc n) = only i v (mod-lt (h + s) (two_pow_pos k)) e in
              let e' : buckets i ≡ occupied key value = ap buckets same ∙ here in
              bucket_stops i value _ _ e' ∙ ap (λ i. at_key i value) same
          | inr pass ↦
              let on : s + suc n ≡ s + 1 + n = omega arith in
              pass _
              ∙ ap (λ i. probe fuel buckets c key i) (next_idx-pos k h s)
              ∙ rw on (
                  probe_finds k h fuel (s + 1) n value (omega arith) (rw on at path) (rw on at here)
                    (rw on at only))
        ]

    bucket_ends :
        (idx : ℕ) (b : Bucket A) (rest : Probe A)
        → rest ≢ spent
        → probe_bucket key idx b rest ≢ spent
    bucket_ends idx empty rest ends e = cc
    bucket_ends idx tombstone rest ends e = ends e
    bucket_ends idx (occupied k v) rest ends e = elim (Bool-cases (key_eq k key)) [
      | inl same ↦ let stops : at_key idx v ≡ spent = rw same at e in cc
      | inr differs ↦ ends (rw differs at e)
    ]

    -- A search from which an empty bucket is within the fuel ends.
    pub probe_ends :
        (k h fuel s n : ℕ)
        → n < fuel
        → buckets (pos (2 ^ k) h (s + n)) ≡ empty
        → probe fuel buckets (2 ^ k) key (pos (2 ^ k) h s) ≢ spent
    unfolding probe
    probe_ends k h zero s n few here e = absurd (omega arith)
    probe_ends k h (suc fuel) s zero few here e =
        let at_s : s + 0 ≡ s = omega arith in
        let here' : buckets (pos (2 ^ k) h s) ≡ empty = rw at_s at here in
        let stops : at_empty (pos (2 ^ k) h s) ≡ spent = rw here' at e in cc
    probe_ends k h (suc fuel) s (suc n) few here e =
        let on : s + suc n ≡ s + 1 + n = omega arith in
        bucket_ends _ (buckets (pos (2 ^ k) h s)) _
          (rw (next_idx-pos k h s) (probe_ends k h fuel (s + 1) n (omega arith) (rw on at here))) e

-- Every bucket is on the way of a search, from whatever home.
pub every_pos : (k h i : ℕ) → i < 2 ^ k → (d : ℕ) × (d < 2 ^ k) × (pos (2 ^ k) h d ≡ i)
every_pos k h i inside =
    let c = 2 ^ k in
    let p = two_pow_pos k in
    let back = c - h % c in
    let away = mod-lt h p in
    (
      (i + back) % c,
      mod-lt (i + back) p,
      add-mod-mod h (i + back) c
          ∙ sym (mod-add-mod h c (i + back))
          ∙ ap (λ n. n % c) (omega (arith, away))
          ∙ add-mod_right i c
          ∙ mod-eq_of_lt inside,
    )
