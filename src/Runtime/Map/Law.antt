-- ===== src/Runtime/Map/Law.antt =====
-- The whole put: it rehashes a crowded map and stores the value.
use cco_lang.Base.{◌+◌, ◌<◌, ◌≡◌, ◌↔◌, Option, some, Bool, arith, Bool-cases, inl, inr}
use cco_lang.Runtime.Key.{Key}
use cco_lang.Runtime.Map.{CcoMap, crowded, map_put, PutResult}
use cco_lang.Runtime.Map.Valid.{Holds, IsValid}
use cco_lang.Runtime.Map.Insert.{HoldsNow}
use cco_lang.Runtime.Map.Rehash.{Moved, map_rehash_moves}
use cco_lang.Runtime.Map.Store.{put_in_exact}

module _ {ℓ} {A : Type ℓ} where
  -- A rehashed map holds what the old one held.
  same_holdings :
      (m m' : CcoMap A) (key : Key) (w : Option A)
      → Moved m m.capacity m'
      → Holds m' key w ↔ Holds m key w
  same_holdings m m' key w moved = (
    (λ h.
        let (i, inside, here) = moved.come_from key w h in
        record { idx = i; inside = inside; here = here }),
    (λ h. moved.arrive key w h.idx h.inside h.here),
  )

  carried :
      (m m' : CcoMap A) (key other : Key) (value w : Option A)
      → (Holds m other w → Holds m' other w)
      → HoldsNow m key value other w
      → HoldsNow m' key value other w
  carried m m' key other value w over (inl here) = inl here
  carried m m' key other value w over (inr (differs, h)) = inr (differs, over h)

  -- A put on a valid map ends, in a valid map that holds the value under the key, and under every
  -- other key what the map held before, whether the map was crowded and rehashed or not.
  pub put_exact :
      (m : CcoMap A) (key other : Key) (value w : Option A) (has_free_fn : Bool)
      → IsValid m
      → (r : PutResult A) × (map_put m key value has_free_fn ≡ some r)
        × IsValid r.map
        × (Holds r.map other w ↔ HoldsNow m key value other w)
  unfolding map_put
  put_exact m key other value w has_free_fn v = elim (Bool-cases (crowded m)) [
    | inl full ↦
        let (m', at_m', moved) = map_rehash_moves m v in
        let room : m'.occupied_count + m'.tombstones + 1 < m'.capacity =
          omega (
            arith, moved.no_tombstones, moved.as_many, moved.doubled, v.occupied_counted, v.room,
          ) in
        let (r, at_r, valid, (back, forth)) =
          put_in_exact m' key other value w has_free_fn moved.valid room in
        let (old, new) = same_holdings m m' other w moved in
        (
          r,
          rw (full, at_m') at_r,
          valid,
          (
            (λ h. carried m' m key other value w old (back h)),
            (λ h. forth (carried m m' key other value w new h)),
          ),
        )
    | inr roomy ↦ rw roomy (put_in_exact m key other value w has_free_fn v (ground arith))
  ]
