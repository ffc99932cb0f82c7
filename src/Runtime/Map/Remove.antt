-- ===== src/Runtime/Map/Remove.antt =====
-- Removal from the hash map: it leaves a tombstone, so other keys stay within reach.
use cco_lang.Base.{
  ℕ, ◌<◌, ◌≡◌, ◌≢◌, ◌⊎◌, ◌↔◌, refl, sym, ◌∙◌, ap, Option, some, true, arith, ◌==◌, Bool-cases, inl,
  inr,
}
use cco_lang.Runtime.Key.{Key}
use cco_lang.Runtime.Map.{
  Bucket, occupied, tombstone, CcoMap, returns, fails, map_remove, remove_at, write, is_occupied,
  is_tombstone,
}
use cco_lang.Runtime.Map.Search.{is_used, Reached}
use cco_lang.Runtime.Map.Counts.{count_where-write, write_other}
use cco_lang.Runtime.Map.Valid.{Holds, IsValid, search_exact, on_key, on_empty}

module _ {ℓ} {A : Type ℓ} where
  -- A key stays within reach when buckets in use stay in use.
  pub still_within_reach :
      {buckets buckets' : ℕ → Bucket A} {capacity i : ℕ} {key : Key}
      → ((j : ℕ) → is_used (buckets j) ≡ true → is_used (buckets' j) ≡ true)
      → Reached buckets capacity key i
      → Reached buckets' capacity key i
  still_within_reach still r = record {
    distance = r.distance;
    near = r.near;
    place = r.place;
    path = λ e near. still _ (r.path e near);
  }

  pub write_used :
      (buckets : ℕ → Bucket A) (i : ℕ) (b : Bucket A)
      → is_used b ≡ true
      → (j : ℕ) → is_used (buckets j) ≡ true
      → is_used (write buckets i b j) ≡ true
  write_used buckets i b h j used = ground arith

  -- What a removal leaves occupied stood there before, and elsewhere.
  left_before :
      (buckets : ℕ → Bucket A) (i j : ℕ) (key : Key) (value : Option A)
      → write buckets i tombstone j ≡ occupied key value
      → (j ≢ i) × (buckets j ≡ occupied key value)
  left_before buckets i j key value h = elim (Bool-cases (j == i)) [
    | inl same ↦ let clash : tombstone ≡ occupied key value = rw same at h in cc
    | inr other ↦ (ground arith, rw other at h)
  ]

  remove_at-IsValid :
      (m : CcoMap A) (i : ℕ) (key : Key) (value : Option A)
      → IsValid m
      → i < m.capacity
      → m.buckets i ≡ occupied key value
      → IsValid (remove_at m i)
  remove_at-IsValid m i key value v inside here =
      let occ = count_where-write is_occupied m.buckets i tombstone m.capacity inside in
      let tomb = count_where-write is_tombstone m.buckets i tombstone m.capacity inside in
      record {
        log = v.log;
        sized = v.sized;
        occupied_counted = omega (arith, rw here at occ, v.occupied_counted);
        tombstones_counted = omega (arith, rw here at tomb, v.tombstones_counted);
        room = omega (arith, rw here at occ, v.occupied_counted, v.room);
        reached = λ j k w inside_j there.
            let (other, before) = left_before m.buckets i j k w there in
            still_within_reach (write_used m.buckets i tombstone refl)
              (v.reached j k w inside_j before);
        unique = λ j j' k w w' inside_j inside_j' there there'.
            v.unique j j' k w w' inside_j inside_j' (left_before m.buckets i j k w there).1
              (left_before m.buckets i j' k w' there').1;
      }

  not_after_removal :
      (m : CcoMap A) (i : ℕ) (other : Key) (w : Option A)
      → Holds (remove_at m i) other w
      → (key : Key) (value : Option A) → IsValid m
      → i < m.capacity
      → m.buckets i ≡ occupied key value
      → Holds m other w × (other ≢ key)
  not_after_removal m i other w h key value v inside here =
      let (elsewhere, before) = left_before m.buckets i h.idx other w h.here in
      (
        record { idx = h.idx; inside = h.inside; here = before },
        λ same. elsewhere (
            v.unique h.idx i key w value h.inside inside (before ∙ ap (λ k. occupied k w) same)
              here),
      )

  still_held :
      (m : CcoMap A) (i : ℕ) (key other : Key) (value w : Option A)
      → m.buckets i ≡ occupied key value
      → Holds m other w × (other ≢ key)
      → Holds (remove_at m i) other w
  still_held m i key other value w here (h, differs) =
      let elsewhere : h.idx ≢ i = λ same.
        let clash : occupied other w ≡ occupied key value = sym h.here ∙ ap m.buckets same ∙ here in
        differs cc in
      record {
        idx = h.idx;
        inside = h.inside;
        here = write_other m.buckets i h.idx tombstone elsewhere ∙ h.here;
      }

  -- From a valid map that holds the key, `map_remove` returns the value and a valid map that holds
  -- what the map held under any other key, and nothing under this one. On a valid map that does not
  -- hold the key it fails. Its loop ends.
  pub remove_exact :
      (m : CcoMap A) (key other : Key) (w : Option A)
      → IsValid m
      → ((value : Option A) × (m' : CcoMap A) × Holds m key value
          × (map_remove (some m) key ≡ returns (record { map = m'; value = value }))
          × IsValid m'
          × (Holds m' other w ↔ (Holds m other w × (other ≢ key))))
        ⊎ ((map_remove (some m) key ≡ fails) × ((value : Option A) → ¬ Holds m key value))
  unfolding map_remove
  remove_exact m key other w v = elim (search_exact m key v) [
    | on_key i value e here inside ↦ inl (
      value,
      remove_at m i,
      record { idx = i; inside = inside; here = here },
      rw e refl,
      remove_at-IsValid m i key value v inside here,
      (
        (λ h. not_after_removal m i other w h key value v inside here),
        still_held m i key other value w here,
      ),
    )
    | on_empty i e none_held ↦ inr (rw e refl, none_held)
  ]
