-- ===== src/Runtime/Tests.antt =====
-- The theorems about the hash map at concrete inputs.
use cco_lang.Base.{ℕ, ◌≡◌, ◌≢◌, ◌⊎◌, ◌↔◌, Option, none, some, true, false, [], ◌∷◌}
use cco_lang.Runtime.Key.{int_key, str_key}
use cco_lang.Runtime.Map.{
  CcoMap, map_new, map_get, map_has, map_remove, map_put, PutResult, returns, fails,
}
use cco_lang.Runtime.Map.Valid.{Holds, IsValid, empty_map-IsValid, lookup_exact}
use cco_lang.Runtime.Map.Insert.{HoldsNow}
use cco_lang.Runtime.Map.Law.{put_exact}
use cco_lang.Runtime.Map.Remove.{remove_exact}

abbrev new_map : CcoMap ℕ
new_map = map_new

new_map-IsValid : IsValid new_map
new_map-IsValid = empty_map-IsValid 3

-- A map with the key 5, from a put into the new one.
abbrev put_five :
    (r : PutResult ℕ) × (map_put new_map (int_key 5) (some 1) false ≡ some r)
    × IsValid r.map
    × (Holds r.map (int_key 6) (some 2)
        ↔ HoldsNow new_map (int_key 5) (some 1) (int_key 6) (some 2))
put_five = put_exact new_map (int_key 5) (int_key 6) (some 1) (some 2) false new_map-IsValid

abbrev with_five : CcoMap ℕ
with_five = put_five.0.map

put_exact_example :
    (r : PutResult ℕ) × (map_put with_five (str_key (97 ∷ [])) none true ≡ some r)
    × IsValid r.map
    × (Holds r.map (int_key 5) (some 1)
        ↔ HoldsNow with_five (str_key (97 ∷ [])) none (int_key 5) (some 1))
put_exact_example =
    put_exact with_five (str_key (97 ∷ [])) (int_key 5) none (some 1) true put_five.2

lookup_exact_example :
    ((value : Option ℕ) × Holds with_five (int_key 5) value
      × (map_get (some with_five) (int_key 5) ≡ returns value)
      × (map_has (some with_five) (int_key 5) ≡ some true))
    ⊎ (((value : Option ℕ) → ¬ Holds with_five (int_key 5) value)
        × (map_get (some with_five) (int_key 5) ≡ fails)
        × (map_has (some with_five) (int_key 5) ≡ some false))
lookup_exact_example = lookup_exact with_five (int_key 5) put_five.2

remove_exact_example :
    ((value : Option ℕ) × (m' : CcoMap ℕ) × Holds with_five (int_key 5) value
      × (map_remove (some with_five) (int_key 5) ≡ returns (record { map = m'; value = value }))
      × IsValid m'
      × (Holds m' (int_key 6) none ↔ (Holds with_five (int_key 6) none × (int_key 6 ≢ int_key 5))))
    ⊎ ((map_remove (some with_five) (int_key 5) ≡ fails)
        × ((value : Option ℕ) → ¬ Holds with_five (int_key 5) value))
remove_exact_example = remove_exact with_five (int_key 5) (int_key 6) none put_five.2
