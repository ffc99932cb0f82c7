-- ===== src/Runtime/Map/Store.antt =====
-- The put behind the test of the load: it ends, and the map holds the new value.
use cco_lang.Base.{
  ℕ, ◌+◌, ◌^◌, ◌<◌, ◌≡◌, ◌↔◌, sym, ◌∙◌, ap, Option, none, some, Bool, arith, if◌then◌else◌,
}
use cco_lang.Base.Masks.{two_pow_pos}
use native.Mathlib.Nat.{mod-lt}
use cco_lang.Runtime.Key.{Key, hash_key}
use cco_lang.Runtime.Map.{
  CcoMap, search, at_empty, insert_at, put_probe, home, insert_key, replace_value, put_in, put_at,
  PutResult,
}
use cco_lang.Runtime.Map.Search.{home-pos}
use cco_lang.Runtime.Map.Valid.{Holds, IsValid, search_exact, on_key, on_empty, search-pos}
use cco_lang.Runtime.Map.Put.{InsertSpot, put_inserts, put_replaces}
use cco_lang.Runtime.Map.Insert.{
  HoldsNow, insert_key-IsValid, insert_key-Holds, replace_value-IsValid, replace_value-Holds,
}

module _ {ℓ} {A : Type ℓ} where
  -- Where a put of a new key goes.
  new_spot :
      (m : CcoMap A) (key : Key) (i : ℕ)
      → IsValid m
      → search m key ≡ at_empty i
      → (j : ℕ) × (put_probe m.capacity m.buckets m.capacity key (home m.capacity key) none
          ≡ insert_at j)
        × InsertSpot m.buckets key m.capacity (hash_key key) m.capacity j
        × (j < m.capacity)
  new_spot m key i v e =
      let c = 2 ^ v.log in
      let (j, at_j, spot) =
        put_inserts m.buckets key v.log (hash_key key) m.capacity 0 i (sym (search-pos m key v) ∙ e)
          (λ e near. absurd (omega arith)) in
      (
        j,
        rw (v.sized, home-pos v.log key) (rw v.sized at at_j),
        record {
          distance = spot.distance;
          near = omega (arith, spot.near);
          place = rw v.sized spot.place;
          path = rw v.sized spot.path;
          free = spot.free;
        },
        omega (
          arith,
          v.sized,
          ap (λ n. n) spot.place,
          mod-lt (hash_key key + spot.distance) (two_pow_pos v.log),
        ),
      )

  -- On a valid map with room for one more bucket in use, the put ends in a valid map that holds the
  -- value under the key, and under every other key what it held before.
  pub put_in_exact :
      (m : CcoMap A) (key other : Key) (value w : Option A) (has_free_fn : Bool)
      → IsValid m
      → m.occupied_count + m.tombstones + 1 < m.capacity
      → (r : PutResult A) × (put_in m key value has_free_fn ≡ some r)
        × IsValid r.map
        × (Holds r.map other w ↔ HoldsNow m key value other w)
  unfolding put_in
  put_in_exact m key other value w has_free_fn v room = elim (search_exact m key v) [
    | on_key i old e here inside ↦ (
      record { map = replace_value m value i; freed = if has_free_fn then old else none },
      ap (put_at m key value has_free_fn) (
          put_replaces m.buckets key m.capacity m.capacity (home m.capacity key) i none old
            (unfold search in e)),
      replace_value-IsValid m key value old i v inside here,
      replace_value-Holds m key value old i v inside here other w,
    )
    | on_empty i e new ↦
        let (j, at_j, spot, inside) = new_spot m key i v e in
        (
          record { map = insert_key m key value j; freed = none },
          ap (put_at m key value has_free_fn) at_j,
          insert_key-IsValid m key value j v new room inside spot,
          insert_key-Holds m key other value w j new inside spot.free,
        )
  ]
