-- ===== src/Runtime/Map/Insert.antt =====
-- An insertion into the hash map, and a new value for a key: what the map holds behind them.
use cco_lang.Base.{
  ℕ, ◌+◌, ◌-◌, ◌<◌, ◌≡◌, ◌≢◌, ◌⊎◌, ◌↔◌, refl, sym, ◌∙◌, ap, ap₂, Option, true, false, arith, ◌==◌,
  if◌then◌else◌, Bool-cases, inl, inr,
}
use cco_lang.Runtime.Key.{Key, hash_key}
use cco_lang.Runtime.Map.{
  Bucket, occupied, CcoMap, insert_key, replace_value, with_value, write, is_occupied, is_tombstone,
}
use cco_lang.Runtime.Map.Search.{is_used}
use cco_lang.Runtime.Map.Counts.{count_where, count_where-write, write_self, write_other}
use cco_lang.Runtime.Map.Valid.{Holds, IsValid}
use cco_lang.Runtime.Map.Remove.{still_within_reach, write_used}
use cco_lang.Runtime.Map.Put.{InsertSpot}

module _ {ℓ} {A : Type ℓ} where
  -- What stands in a bucket behind a write: what was written, or what stood there.
  data Behind (buckets : ℕ → Bucket A) (i j : ℕ) (b : Bucket A) : Type ℓ where
    written : j ≡ i → write buckets i b j ≡ b → Behind buckets i j b
    kept : j ≢ i → write buckets i b j ≡ buckets j → Behind buckets i j b

  behind : (buckets : ℕ → Bucket A) (i j : ℕ) (b : Bucket A) → Behind buckets i j b
  behind buckets i j b = elim (Bool-cases (j == i)) [
    | inl same ↦ written (ground arith) (rw same refl)
    | inr other ↦ let differs : j ≢ i = ground arith in kept differs (rw other refl)
  ]

  -- Where a write of an occupied bucket leaves a key.
  key_behind :
      (buckets : ℕ → Bucket A) (i j : ℕ) (key k : Key) (value w : Option A)
      → write buckets i (occupied key value) j ≡ occupied k w
      → ((j ≡ i) × (key ≡ k) × (value ≡ w)) ⊎ ((j ≢ i) × (buckets j ≡ occupied k w))
  key_behind buckets i j key k value w h = elim (behind buckets i j (occupied key value)) [
    | written at_i e ↦
        let both : occupied key value ≡ occupied k w = sym e ∙ h in inl (at_i, cc, cc)
    | kept off_i e ↦ inr (off_i, sym e ∙ h)
  ]

  insert_key-counts :
      (m : CcoMap A) (key : Key) (value : Option A) (j : ℕ)
      → IsValid m
      → j < m.capacity
      → is_occupied (m.buckets j) ≡ false
      → (count_where is_occupied (write m.buckets j (occupied key value)) m.capacity
          ≡ m.occupied_count + 1)
        × (count_where is_tombstone (write m.buckets j (occupied key value)) m.capacity
            ≡ (if is_tombstone (m.buckets j) then m.tombstones - 1 else m.tombstones))
  insert_key-counts m key value j v inside free =
      let b = occupied key value in
      let occ = count_where-write is_occupied m.buckets j b m.capacity inside in
      let tomb = count_where-write is_tombstone m.buckets j b m.capacity inside in
      let counted = v.tombstones_counted in
      (
        omega (arith, rw free at occ, v.occupied_counted),
        elim (Bool-cases (is_tombstone (m.buckets j))) [
          | inl tombed ↦ rw tombed (omega (arith, rw tombed at tomb, counted))
          | inr fresh ↦ rw fresh (omega (arith, rw fresh at tomb, counted))
        ],
      )

  held :
      (m : CcoMap A) (i : ℕ) (key k : Key) (w : Option A)
      → key ≡ k
      → i < m.capacity
      → m.buckets i ≡ occupied k w
      → Holds m key w
  held m i key k w same inside here = record {
    idx = i;
    inside = inside;
    here = here ∙ ap (λ k. occupied k w) (sym same);
  }

  -- An insertion of a new key keeps the map valid while another bucket is empty.
  pub insert_key-IsValid :
      (m : CcoMap A) (key : Key) (value : Option A) (j : ℕ)
      → IsValid m
      → ((w : Option A) → ¬ Holds m key w)
      → m.occupied_count + m.tombstones + 1 < m.capacity
      → j < m.capacity
      → InsertSpot m.buckets key m.capacity (hash_key key) m.capacity j
      → IsValid (insert_key m key value j)
  insert_key-IsValid m key value j v new room inside spot =
      let b = occupied key value in
      let (occ, tomb) = insert_key-counts m key value j v inside spot.free in
      let still = write_used m.buckets j b refl in
      record {
        log = v.log;
        sized = v.sized;
        occupied_counted = occ;
        tombstones_counted = tomb;
        room = ground (arith, room);
        reached = λ i k w inside_i here. elim (key_behind m.buckets j i key k value w here) [
          | inl (at_j, same, _) ↦
              rw (at_j, sym same)
                (record {
                  distance = spot.distance;
                  near = spot.near;
                  place = spot.place;
                  path = λ e near. still _ (spot.path e near);
                })
          | inr (off_j, before) ↦ still_within_reach still (v.reached i k w inside_i before)
        ];
        unique = λ i i' k w w' inside_i inside_i' here there.
            elim (key_behind m.buckets j i key k value w here) [
              | inl (at_j, same, _) ↦ elim (key_behind m.buckets j i' key k value w' there) [
                | inl (at_j', _, _) ↦ at_j ∙ sym at_j'
                | inr (_, before) ↦ absurd (new w' (held m i' key k w' same inside_i' before))
              ]
              | inr (_, before) ↦ elim (key_behind m.buckets j i' key k value w' there) [
                | inl (_, same, _) ↦ absurd (new w (held m i key k w same inside_i before))
                | inr (_, before') ↦ v.unique i i' k w w' inside_i inside_i' before before'
              ]
            ];
      }

  -- The map that holds the value under the key, and under other keys what `m` holds.
  abbrev pub HoldsNow : CcoMap A → Key → Option A → Key → Option A → Type ℓ
  HoldsNow m key value other w = ((other ≡ key) × (w ≡ value)) ⊎ ((other ≢ key) × Holds m other w)

  module _ (m m' : CcoMap A) (key : Key) (value : Option A) (j : ℕ)
      (wide : m'.capacity ≡ m.capacity)
      (set_to : m'.buckets ≡ write m.buckets j (occupied key value)) where
    held_before :
        (other : Key) (w : Option A)
        → ((i : ℕ) (u : Option A) → i < m.capacity → m.buckets i ≡ occupied key u → i ≡ j)
        → Holds m' other w
        → HoldsNow m key value other w
    held_before other w only h =
        let here = sym (ap (λ f. f h.idx) set_to) ∙ h.here in
        elim (key_behind m.buckets j h.idx key other value w here) [
          | inl (_, same, is) ↦ inl (sym same, sym is)
          | inr (off_j, before) ↦
              let inside : h.idx < m.capacity = omega (arith, h.inside, wide) in
              inr (
                (λ same. off_j (only h.idx w inside (before ∙ ap (λ k. occupied k w) same))),
                record { idx = h.idx; inside = inside; here = before },
              )
        ]

    held_after :
        (other : Key) (w : Option A)
        → j < m.capacity
        → ((k : Key) (u : Option A) → m.buckets j ≡ occupied k u → k ≡ key)
        → HoldsNow m key value other w
        → Holds m' other w
    held_after other w inside own (inl (same, is)) = record {
      idx = j;
      inside = omega (arith, inside, wide);
      here =
          ap (λ f. f j) set_to
          ∙ write_self m.buckets j (occupied key value)
          ∙ ap₂ (λ k u. occupied k u) (sym same) (sym is);
    }
    held_after other w inside own (inr (differs, h)) = record {
      idx = h.idx;
      inside = omega (arith, h.inside, wide);
      here =
          ap (λ f. f h.idx) set_to
          ∙ write_other m.buckets j h.idx (occupied key value)
              (λ same. differs (own other w (ap m.buckets (sym same) ∙ h.here)))
          ∙ h.here;
    }

  not_occupied : (b : Bucket A) (k : Key) (u : Option A) → is_occupied b ≡ false → b ≢ occupied k u
  not_occupied b k u free e = let clash : true ≡ false = sym (ap is_occupied e) ∙ free in cc

  pub insert_key-Holds :
      (m : CcoMap A) (key other : Key) (value w : Option A) (j : ℕ)
      → ((u : Option A) → ¬ Holds m key u)
      → j < m.capacity
      → is_occupied (m.buckets j) ≡ false
      → Holds (insert_key m key value j) other w ↔ HoldsNow m key value other w
  insert_key-Holds m key other value w j new inside free =
      let m' = insert_key m key value j in
      (
        held_before m m' key value j refl refl other w
            (λ i u within here. absurd (new u (record { idx = i; inside = within; here = here }))),
        held_after m m' key value j refl refl other w inside
            (λ k u here. absurd (not_occupied (m.buckets j) k u free here)),
      )

  -- A new value for a key that the map holds.
  module _ (m : CcoMap A) (key : Key) (value old : Option A) (j : ℕ) (v : IsValid m)
      (inside : j < m.capacity) (here : m.buckets j ≡ occupied key old) where
    replaced : (replace_value m value j).buckets ≡ write m.buckets j (occupied key value)
    replaced = ap (λ b. write m.buckets j (with_value value b)) here

    pub replace_value-Holds :
        (other : Key) (w : Option A)
        → Holds (replace_value m value j) other w ↔ HoldsNow m key value other w
    replace_value-Holds other w =
        let m' = replace_value m value j in
        (
          held_before m m' key value j refl replaced other w
              (λ i u within there. v.unique i j key u old within inside there here),
          held_after m m' key value j refl replaced other w inside
              (λ k u there. let both : occupied key old ≡ occupied k u = sym here ∙ there in cc),
        )

    -- What it holds there, the map held under some value.
    was_there :
        (i : ℕ) (k : Key) (w : Option A)
        → (replace_value m value j).buckets i ≡ occupied k w
        → (u : Option A) × (m.buckets i ≡ occupied k u)
    was_there i k w at_i =
        elim (key_behind m.buckets j i key k value w (sym (ap (λ f. f i) replaced) ∙ at_i)) [
          | inl (at_j, same, _) ↦ (old, ap m.buckets at_j ∙ here ∙ ap (λ k. occupied k old) same)
          | inr (_, before) ↦ (w, before)
        ]

    pub replace_value-IsValid : IsValid (replace_value m value j)
    replace_value-IsValid =
        let b = occupied key value in
        let occ = count_where-write is_occupied m.buckets j b m.capacity inside in
        let tomb = count_where-write is_tombstone m.buckets j b m.capacity inside in
        record {
          log = v.log;
          sized = v.sized;
          occupied_counted =
              ap (λ f. count_where is_occupied f m.capacity) replaced
              ∙ omega (arith, rw here at occ, v.occupied_counted);
          tombstones_counted =
              ap (λ f. count_where is_tombstone f m.capacity) replaced
              ∙ omega (arith, rw here at tomb, v.tombstones_counted);
          room = v.room;
          reached = λ i k w inside_i at_i.
              let (u, before) = was_there i k w at_i in
              still_within_reach
                (λ e used. ap (λ f. is_used (f e)) replaced ∙ write_used m.buckets j b refl e used)
                (v.reached i k u inside_i before);
          unique = λ i i' k w w' inside_i inside_i' at_i at_i'.
              let (u, before) = was_there i k w at_i in
              let (u', before') = was_there i' k w' at_i' in
              v.unique i i' k u u' inside_i inside_i' before before';
        }
