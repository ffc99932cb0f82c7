-- ===== src/X86/Labels.antt =====
-- The label map of the two-pass encoder: src/backend/x86_64/x86_64_encode.c.
use cco_lang.Base.{
  ℕ, ◌+◌, ◌*◌, ◌≤◌, ◌<◌, ◌≡◌, refl, Option, none, some, String, List, [], ◌∷◌, ◌++◌, arith, ltb,
  if◌then◌else◌, length, length-append, str_eq,
}

pub record LabelEntry : Type 0 where
  pub name : String
  pub offset : ℕ

pub record LabelMap : Type 0 where
  pub entries : List LabelEntry
  pub capacity : ℕ

abbrev pub label_map_create : LabelMap
label_map_create = record { entries = []; capacity = 64 }

unfoldable pub label_map_put : LabelMap → Option String → ℕ → LabelMap
label_map_put m none offset = m
label_map_put m (some name) offset = record {
  entries = m.entries ++ record { name = name; offset = offset } ∷ [];
  capacity = if ltb m.capacity (length m.entries + 1) then m.capacity * 2 else m.capacity;
}

-- The loop of `label_map_get`.
unfoldable pub find_label : String → List LabelEntry → Option ℕ
find_label name [] = none
find_label name (entry ∷ rest) =
    if str_eq entry.name name then some entry.offset else find_label name rest

-- The result `false` is `none`; `true` hands back the offset.
unfoldable pub label_map_get : Option LabelMap → Option String → Option ℕ
unfolding find_label
label_map_get none name = none
label_map_get (some m) none = none
label_map_get (some m) (some name) = find_label name m.entries

pub record IsValid (m : LabelMap) : Type 0 where
  pub allocated : 0 < m.capacity
  pub fits : length m.entries ≤ m.capacity

pub label_map_put-IsValid :
    (m : LabelMap) (name : Option String) (offset : ℕ)
    → IsValid m
    → IsValid (label_map_put m name offset)
unfolding label_map_put
label_map_put-IsValid m none offset v = v
label_map_put-IsValid m (some name) offset v =
    ground (arith, length-append m.entries (record { name = name; offset = offset } ∷ []))

-- The first of two results, if there is one.
abbrev pub keep_first : Option ℕ → Option ℕ → Option ℕ
keep_first none b = b
keep_first (some a) b = some a

-- A first definition of a name wins; a new name gets the new offset.
pub find_label-append :
    (name : String) (xs : List LabelEntry) (entry : LabelEntry)
    → find_label name (xs ++ entry ∷ [])
      ≡ keep_first (find_label name xs) (if str_eq entry.name name then some entry.offset else none)
unfolding find_label
find_label-append name [] entry = refl
find_label-append name (x ∷ xs) entry = ground (arith, find_label-append name xs entry)

-- After a name is put, a lookup answers as before where it answered, and where it did not, with the
-- new offset for that name and with nothing for any other.
pub label_map_get-label_map_put :
    (m : LabelMap) (name other : String) (offset : ℕ)
    → label_map_get (some (label_map_put m (some name) offset)) (some other)
      ≡ keep_first
          (label_map_get (some m) (some other))
          (if str_eq name other then some offset else none)
unfolding label_map_get label_map_put
label_map_get-label_map_put m name other offset =
    find_label-append other m.entries (record { name = name; offset = offset })
