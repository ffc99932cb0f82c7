-- ===== src/Runtime/Map/Put.antt =====
-- Where a put writes: `put_probe` against the search loop, and what an insertion keeps.
use cco_lang.Base.{
  ℕ, zero, suc, ◌+◌, ◌^◌, ◌<◌, ◌≡◌, ◌≢◌, refl, ◌∙◌, ap, Option, none, some, Bool, true, false,
  arith, ◌==◌, if◌then◌else◌, Bool-cases, inl, inr,
}
use cco_lang.Runtime.Key.{Key, key_eq}
use cco_lang.Runtime.Map.{
  Bucket, empty, occupied, tombstone, Probe, at_empty, at_key, probe, Spot, insert_at, replace_at,
  put_probe, probe_bucket, put_bucket, next_idx, or_else, is_occupied, is_tombstone,
}
use cco_lang.Runtime.Map.Search.{pos, next_idx-pos, is_used, PathIsUsed}

module _ {ℓ} {A : Type ℓ} (buckets : ℕ → Bucket A) (key : Key) where
  -- The put stops at the key where the search does.
  replace_bucket :
      (idx i : ℕ) (value : Option A) (first : Option ℕ) (b : Bucket A) (p : Probe A) (q : Spot A)
      → (p ≡ at_key i value → q ≡ replace_at i value)
      → probe_bucket key idx b p ≡ at_key i value
      → put_bucket key idx first b q ≡ replace_at i value
  replace_bucket idx i value first empty p q later h = cc
  replace_bucket idx i value first tombstone p q later h = later h
  replace_bucket idx i value first (occupied k v) p q later h = elim (Bool-cases (key_eq k key)) [
    | inl same ↦ let found : at_key idx v ≡ at_key i value = rw same at h in rw same (cc)
    | inr other ↦ rw other (later (rw other at h))
  ]

  pub put_replaces :
      (fuel capacity idx i : ℕ) (first : Option ℕ) (value : Option A)
      → probe fuel buckets capacity key idx ≡ at_key i value
      → put_probe fuel buckets capacity key idx first ≡ replace_at i value
  unfolding probe put_probe
  put_replaces zero capacity idx i first value h = cc
  put_replaces (suc fuel) capacity idx i first value h =
      replace_bucket idx i value first (buckets idx) _ _
        (put_replaces fuel capacity (next_idx capacity idx) i _ value) h

  -- With a tombstone in mind, the put takes it where the search finds nothing.
  tombstone_bucket :
      (idx i f : ℕ) (b : Bucket A) (p : Probe A) (q : Spot A)
      → (p ≡ at_empty i → q ≡ insert_at f)
      → probe_bucket key idx b p ≡ at_empty i
      → put_bucket key idx (some f) b q ≡ insert_at f
  tombstone_bucket idx i f empty p q later h = refl
  tombstone_bucket idx i f tombstone p q later h = later h
  tombstone_bucket idx i f (occupied k v) p q later h = elim (Bool-cases (key_eq k key)) [
    | inl same ↦ let found : at_key idx v ≡ at_empty i = rw same at h in cc
    | inr other ↦ rw other (later (rw other at h))
  ]

  keeps_first : (test : Bool) (idx f : ℕ) → (if test then or_else (some f) idx else some f) ≡ some f
  keeps_first true idx f = refl
  keeps_first false idx f = refl

  put_reuses :
      (fuel capacity idx i f : ℕ)
      → probe fuel buckets capacity key idx ≡ at_empty i
      → put_probe fuel buckets capacity key idx (some f) ≡ insert_at f
  unfolding probe put_probe
  put_reuses zero capacity idx i f h = cc
  put_reuses (suc fuel) capacity idx i f h =
      tombstone_bucket idx i f (buckets idx) _ _
        (λ e.
          ap (λ first. put_probe fuel buckets capacity key (next_idx capacity idx) first)
            (keeps_first (is_tombstone (buckets idx)) idx f)
          ∙ put_reuses fuel capacity (next_idx capacity idx) i f e)
        h

  -- A bucket to insert at: not occupied, and reached from `h` by buckets in use.
  pub record InsertSpot (capacity h bound j : ℕ) : Type 0 where
    pub distance : ℕ
    pub near : distance < bound
    pub place : pos capacity h distance ≡ j
    pub path : PathIsUsed buckets capacity h distance
    pub free : is_occupied (buckets j) ≡ false

  pub longer_path :
      (capacity h s : ℕ)
      → PathIsUsed buckets capacity h s
      → is_used (buckets (pos capacity h s)) ≡ true
      → PathIsUsed buckets capacity h (s + 1)
  longer_path capacity h s path used e near = elim (Bool-cases (e == s)) [
    | inl same ↦ let here : e ≡ s = ground arith in rw here used
    | inr other ↦ let differs : e ≢ s = ground arith in path e (omega arith)
  ]

  data Kind (b : Bucket A) : Type ℓ where
    is_empty : b ≡ empty → Kind b
    is_tomb : b ≡ tombstone → Kind b
    is_key : (k : Key) (v : Option A) → b ≡ occupied k v → Kind b

  kind : (b : Bucket A) → Kind b
  kind empty = is_empty refl
  kind tombstone = is_tomb refl
  kind (occupied k v) = is_key k v refl

  -- Without one, it takes the first bucket that is not occupied.
  pub put_inserts :
      (k h fuel s i : ℕ)
      → probe fuel buckets (2 ^ k) key (pos (2 ^ k) h s) ≡ at_empty i
      → PathIsUsed buckets (2 ^ k) h s
      → (j : ℕ) × (put_probe fuel buckets (2 ^ k) key (pos (2 ^ k) h s) none ≡ insert_at j)
        × InsertSpot (2 ^ k) h (s + fuel) j
  unfolding probe put_probe
  put_inserts k h zero s i e path = cc
  put_inserts k h (suc fuel) s i e path =
      let c = 2 ^ k in
      let here = pos c h s in
      elim (kind (buckets here)) [
        | is_empty b ↦ (
          here,
          rw b refl,
          record { distance = s; near = omega arith; place = refl; path = path; free = rw b refl },
        )
        | is_tomb b ↦ (
          here,
          rw b (put_reuses fuel c (next_idx c here) i here (rw b at e)),
          record { distance = s; near = omega arith; place = refl; path = path; free = rw b refl },
        )
        | is_key k' v b ↦ elim (Bool-cases (key_eq k' key)) [
          | inl same ↦ let found : at_key here v ≡ at_empty i = rw (b, same) at e in cc
          | inr other ↦
              let on : next_idx c here ≡ pos c h (s + 1) = next_idx-pos k h s in
              let e' = rw (b, other, on) at e in
              let (j, at_j, spot) =
                put_inserts k h fuel (s + 1) i e' (longer_path c h s path (rw b refl)) in
              (
                j,
                rw (b, other, on) at_j,
                record {
                  distance = spot.distance;
                  near = omega (arith, spot.near);
                  place = spot.place;
                  path = spot.path;
                  free = spot.free;
                },
              )
        ]
      ]
