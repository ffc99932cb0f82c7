-- ===== src/Runtime/Map.antt =====
-- The hash map of src/runtime/map_runtime.h: buckets with open addressing and tombstones. The
-- array of buckets is a function of the index; its indices are masked with `capacity - 1`.
pub mod Search
pub mod Counts
pub mod Valid
pub mod Remove
pub mod Put
pub mod Insert
pub mod Store
pub mod Rehash
pub mod Law
use Prim.Native.Nat.{bit_and}
use cco_lang.Runtime.Key.{Key, hash_key, key_eq}
use cco_lang.Base.{
  ℕ, zero, suc, ◌+◌, ◌-◌, ◌*◌, ◌/◌, ◌%◌, ◌^◌, Option, none, some, Bool, true, false, ◌&&◌, ◌==◌,
  leb, List, [], ◌∷◌, if◌then◌else◌,
}

pub data Bucket {ℓ} (A : Type ℓ) : Type ℓ where
  empty : Bucket A
  occupied : (key : Key) (value : Option A) → Bucket A
  tombstone : Bucket A

-- `A` is what the values point at; a null value is `none`.
pub record CcoMap {ℓ} (A : Type ℓ) : Type ℓ where
  pub capacity : ℕ
  pub occupied_count : ℕ
  pub tombstones : ℕ
  pub buckets : ℕ → Bucket A

-- `h & (capacity - 1)` and `(idx + 1) & (capacity - 1)`
unfoldable pub home : ℕ → Key → ℕ
home capacity key = bit_and (hash_key key) (capacity - 1)

unfoldable pub next_idx : ℕ → ℕ → ℕ
next_idx capacity idx = bit_and (idx + 1) (capacity - 1)

-- Where a search ends: on an empty bucket, on the key, or not within its fuel.
pub data Probe {ℓ} (A : Type ℓ) : Type ℓ where
  spent : Probe A
  at_empty : ℕ → Probe A
  at_key : (idx : ℕ) (value : Option A) → Probe A

-- Where `__cco_map_put` writes.
pub data Spot {ℓ} (A : Type ℓ) : Type ℓ where
  no_spot : Spot A
  insert_at : ℕ → Spot A
  replace_at : (idx : ℕ) (value : Option A) → Spot A

-- What a call ends in: `exit(1)` with a message is `fails`.
pub data Outcome {ℓ} (B : Type ℓ) : Type ℓ where
  returns : B → Outcome B
  fails : Outcome B
  spins : Outcome B

-- A put hands a value that it replaces to `free_fn`, if there are both.
pub record PutResult {ℓ} (A : Type ℓ) : Type ℓ where
  pub map : CcoMap A
  pub freed : Option A

pub record RemoveResult {ℓ} (A : Type ℓ) : Type ℓ where
  pub map : CcoMap A
  pub value : Option A

abbrev pub or_else : Option ℕ → ℕ → Option ℕ
or_else none idx = some idx
or_else (some first) idx = some first

abbrev pub insert_idx : Option ℕ → ℕ → ℕ
insert_idx none idx = idx
insert_idx (some first) idx = first

module _ {ℓ} {A : Type ℓ} where
  abbrev pub map_new : CcoMap A
  map_new = record { capacity = 8; occupied_count = 0; tombstones = 0; buckets = λ i. empty }

  abbrev pub write : (ℕ → Bucket A) → ℕ → Bucket A → ℕ → Bucket A
  write buckets idx bucket i = if i == idx then bucket else buckets i

  abbrev pub is_occupied : Bucket A → Bool
  is_occupied (occupied key value) = true
  is_occupied _ = false

  abbrev pub is_tombstone : Bucket A → Bool
  is_tombstone tombstone = true
  is_tombstone _ = false

  abbrev pub probe_bucket : Key → ℕ → Bucket A → Probe A → Probe A
  probe_bucket key idx empty rest = at_empty idx
  probe_bucket key idx (occupied k value) rest = if key_eq k key then at_key idx value else rest
  probe_bucket key idx tombstone rest = rest

  -- The search loop of `__cco_map_get`, `__cco_map_has` and `__cco_map_remove`.
  unfoldable pub probe : ℕ → (ℕ → Bucket A) → ℕ → Key → ℕ → Probe A
  probe zero buckets capacity key idx = spent
  probe (suc fuel) buckets capacity key idx =
      let rest = probe fuel buckets capacity key (next_idx capacity idx) in
      probe_bucket key idx (buckets idx) rest

  -- The loop of `__cco_map_put`, which keeps the first tombstone that it meets.
  abbrev pub put_bucket : Key → ℕ → Option ℕ → Bucket A → Spot A → Spot A
  put_bucket key idx first empty rest = insert_at (insert_idx first idx)
  put_bucket key idx first (occupied k value) rest =
      if key_eq k key then replace_at idx value else rest
  put_bucket key idx first tombstone rest = rest

  unfoldable pub put_probe : ℕ → (ℕ → Bucket A) → ℕ → Key → ℕ → Option ℕ → Spot A
  put_probe zero buckets capacity key idx first = no_spot
  put_probe (suc fuel) buckets capacity key idx first =
      let first' = if is_tombstone (buckets idx) then or_else first idx else first in
      let rest = put_probe fuel buckets capacity key (next_idx capacity idx) first' in
      put_bucket key idx first (buckets idx) rest

  -- Rehashing: `while (state == OCCUPIED)`.
  unfoldable pub find_free : ℕ → (ℕ → Bucket A) → ℕ → ℕ → Option ℕ
  find_free zero buckets capacity idx = none
  find_free (suc fuel) buckets capacity idx =
      let rest = find_free fuel buckets capacity (next_idx capacity idx) in
      if is_occupied (buckets idx) then rest else some idx

  abbrev pub occupy : CcoMap A → Key → Option A → ℕ → CcoMap A
  occupy m key value idx = record m {
    buckets = write m.buckets idx (occupied key value);
    occupied_count = m.occupied_count + 1;
  }

  abbrev pub occupy_found : CcoMap A → Key → Option A → Option ℕ → Option (CcoMap A)
  occupy_found m key value none = none
  occupy_found m key value (some idx) = some (occupy m key value idx)

  abbrev pub rehash_bucket : Bucket A → CcoMap A → Option (CcoMap A)
  rehash_bucket empty m = some m
  rehash_bucket tombstone m = some m
  rehash_bucket (occupied key value) m =
      occupy_found m key value (find_free m.capacity m.buckets m.capacity (home m.capacity key))

  -- The first `n` old buckets, in their order.
  unfoldable pub rehash_buckets : ℕ → (ℕ → Bucket A) → CcoMap A → Option (CcoMap A)
  rehash_buckets zero old m = some m
  rehash_buckets (suc n) old m = elim (rehash_buckets n old m) [
    | none ↦ none
    | some m' ↦ rehash_bucket (old n) m'
  ]

  unfoldable pub map_rehash : CcoMap A → Option (CcoMap A)
  map_rehash m = rehash_buckets m.capacity m.buckets (record {
    capacity = m.capacity * 2;
    occupied_count = 0;
    tombstones = 0;
    buckets = λ i. empty;
  })

  abbrev pub crowded : CcoMap A → Bool
  crowded m = leb (m.capacity * 7) ((m.occupied_count + m.tombstones + 1) * 10)

  abbrev pub insert_key : CcoMap A → Key → Option A → ℕ → CcoMap A
  insert_key m key value idx = record m {
    tombstones = if is_tombstone (m.buckets idx) then m.tombstones - 1 else m.tombstones;
    buckets = write m.buckets idx (occupied key value);
    occupied_count = m.occupied_count + 1;
  }

  -- The old key stays where the value is replaced.
  abbrev with_value : Option A → Bucket A → Bucket A
  with_value value (occupied k old) = occupied k value
  with_value value empty = empty
  with_value value tombstone = tombstone

  abbrev pub replace_value : CcoMap A → Option A → ℕ → CcoMap A
  replace_value m value idx = record m {
    buckets = write m.buckets idx (with_value value (m.buckets idx));
  }

  abbrev pub put_at : CcoMap A → Key → Option A → Bool → Spot A → Option (PutResult A)
  put_at m key value has_free_fn no_spot = none
  put_at m key value has_free_fn (insert_at idx) =
      some (record { map = insert_key m key value idx; freed = none })
  put_at m key value has_free_fn (replace_at idx old) =
      some (record { map = replace_value m value idx; freed = if has_free_fn then old else none })

  -- Behind the test of the load.
  unfoldable pub put_in : CcoMap A → Key → Option A → Bool → Option (PutResult A)
  put_in m key value has_free_fn =
      put_at m key value has_free_fn
        (put_probe m.capacity m.buckets m.capacity key (home m.capacity key) none)

  -- On a map that is not null.
  unfoldable pub map_put : CcoMap A → Key → Option A → Bool → Option (PutResult A)
  map_put m key value has_free_fn =
      if crowded m
      then (elim (map_rehash m) [ none ↦ none | some m' ↦ put_in m' key value has_free_fn ])
      else put_in m key value has_free_fn

  unfoldable pub search : CcoMap A → Key → Probe A
  search m key = probe m.capacity m.buckets m.capacity key (home m.capacity key)

  abbrev pub get_result : Probe A → Outcome (Option A)
  get_result spent = spins
  get_result (at_empty idx) = fails
  get_result (at_key idx value) = returns value

  -- `none` where the loop does not end.
  abbrev pub has_result : Probe A → Option Bool
  has_result spent = none
  has_result (at_empty idx) = some false
  has_result (at_key idx value) = some true

  unfoldable pub map_has : Option (CcoMap A) → Key → Option Bool
  map_has none key = some false
  map_has (some m) key = has_result (search m key)

  unfoldable pub map_get : Option (CcoMap A) → Key → Outcome (Option A)
  map_get none key = fails
  map_get (some m) key = get_result (search m key)

  abbrev pub remove_at : CcoMap A → ℕ → CcoMap A
  remove_at m idx = record m {
    buckets = write m.buckets idx tombstone;
    occupied_count = m.occupied_count - 1;
    tombstones = m.tombstones + 1;
  }

  abbrev pub remove_result : CcoMap A → Probe A → Outcome (RemoveResult A)
  remove_result m spent = spins
  remove_result m (at_empty idx) = fails
  remove_result m (at_key idx value) = returns (record { map = remove_at m idx; value = value })

  unfoldable pub map_remove : Option (CcoMap A) → Key → Outcome (RemoveResult A)
  map_remove none key = fails
  map_remove (some m) key = remove_result m (search m key)
