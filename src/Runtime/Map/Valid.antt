-- ===== src/Runtime/Map/Valid.antt =====
-- Well-formed hash maps: what they hold, and that a search on one ends and is exact.
use cco_lang.Base.{
  ℕ, zero, suc, ◌+◌, ◌^◌, ◌<◌, ◌≡◌, ◌≢◌, ◌⊎◌, refl, sym, ◌∙◌, ap, Option, some, Bool, true, false,
  arith, inl, inr,
}
use cco_lang.Base.Masks.{two_pow_pos}
use native.Mathlib.Nat.{mod-lt}
use cco_lang.Runtime.Key.{Key, hash_key}
use cco_lang.Runtime.Map.{
  Bucket, empty, occupied, Probe, spent, at_empty, at_key, probe, CcoMap, search, returns, fails,
  map_get, map_has, is_occupied, is_tombstone,
}
use cco_lang.Runtime.Map.Counts.{count_where, one_if, count_used, find_empty}
use cco_lang.Runtime.Map.Search.{
  pos, home-pos, is_used, Reached, every_pos, probe_finds, probe_ends, probe_sound,
}

from_start : (c h d : ℕ) → pos c h (0 + d) ≡ pos c h d
from_start c h d = ap (λ n. pos c h n) (omega arith)

module _ {ℓ} {A : Type ℓ} where
  -- The map holds the value under the key.
  pub record Holds (m : CcoMap A) (key : Key) (value : Option A) : Type ℓ where
    pub idx : ℕ
    pub inside : idx < m.capacity
    pub here : m.buckets idx ≡ occupied key value

  pub record IsValid (m : CcoMap A) : Type ℓ where
    pub log : ℕ
    pub sized : m.capacity ≡ 2 ^ log
    pub occupied_counted : count_where is_occupied m.buckets m.capacity ≡ m.occupied_count
    pub tombstones_counted : count_where is_tombstone m.buckets m.capacity ≡ m.tombstones
    pub room : m.occupied_count + m.tombstones < m.capacity
    pub reached :
        (i : ℕ) (key : Key) (value : Option A)
        → i < m.capacity
        → m.buckets i ≡ occupied key value
        → Reached m.buckets m.capacity key i
    pub unique :
        (i j : ℕ) (key : Key) (v w : Option A)
        → i < m.capacity
        → j < m.capacity
        → m.buckets i ≡ occupied key v
        → m.buckets j ≡ occupied key w
        → i ≡ j

  -- A search from the home of a key.
  pub search-pos :
      (m : CcoMap A) (key : Key) (v : IsValid m)
      → search m key ≡ probe m.capacity m.buckets (2 ^ v.log) key (pos (2 ^ v.log) (hash_key key) 0)
  unfolding search
  search-pos m key v = rw (v.sized, home-pos v.log key) refl

  pub some_unused :
      (m : CcoMap A) → IsValid m → count_where is_used m.buckets m.capacity < m.capacity
  some_unused m v =
      omega
        (arith, count_used m.buckets m.capacity, v.occupied_counted, v.tombstones_counted, v.room)

  pub search_ends : (m : CcoMap A) (key : Key) → IsValid m → search m key ≢ spent
  search_ends m key v e =
      let c = 2 ^ v.log in
      let h = hash_key key in
      let (i, inside, unused) = find_empty m.buckets m.capacity (some_unused m v) in
      let (d, near, at_i) = every_pos v.log h i (omega (arith, inside, v.sized)) in
      probe_ends m.buckets key v.log h m.capacity 0 d (omega (arith, near, v.sized))
        (ap m.buckets (from_start c h d ∙ at_i) ∙ unused) (sym (search-pos m key v) ∙ e)

  -- A key that the map holds is found where it stands.
  pub search_finds :
      (m : CcoMap A) (key : Key) (value : Option A) (i : ℕ)
      → IsValid m
      → i < m.capacity
      → m.buckets i ≡ occupied key value
      → search m key ≡ at_key i value
  search_finds m key value i v inside here =
      let c = 2 ^ v.log in
      let h = hash_key key in
      let r = v.reached i key value inside here in
      let place : pos c h (0 + r.distance) ≡ i =
        from_start c h r.distance ∙ (rw v.sized at r.place) in
      search-pos m key v
      ∙ probe_finds m.buckets key v.log h m.capacity 0 r.distance value r.near
          (λ e near. rw v.sized at (r.path e (omega arith))) (ap m.buckets place ∙ here)
          (λ j w inside_j there.
            v.unique j i key w value (omega (arith, v.sized)) inside there here ∙ sym place)
      ∙ ap (λ j. at_key j value) place

  pub search_sound :
      (m : CcoMap A) (key : Key) (value : Option A) (i : ℕ)
      → IsValid m
      → search m key ≡ at_key i value
      → (m.buckets i ≡ occupied key value) × (i < m.capacity)
  search_sound m key value i v h =
      let (here, inside) =
        probe_sound m.buckets key m.capacity v.log _ i value (mod-lt _ (two_pow_pos v.log))
          (sym (search-pos m key v) ∙ h) in
      (here, omega (arith, inside, v.sized))

  -- How a search on a valid map ends: at the key, which the map holds there, or, where the map
  -- does not hold the key, at an empty bucket.
  pub data SearchEnds (m : CcoMap A) (key : Key) : Type ℓ where
    on_key :
        (i : ℕ) (value : Option A)
        → search m key ≡ at_key i value
        → m.buckets i ≡ occupied key value
        → i < m.capacity
        → SearchEnds m key
    on_empty :
        (i : ℕ)
        → search m key ≡ at_empty i
        → ((value : Option A) → ¬ Holds m key value)
        → SearchEnds m key

  search_cases :
      (m : CcoMap A) (key : Key) (p : Probe A) → IsValid m → search m key ≡ p → SearchEnds m key
  search_cases m key spent v e = absurd (search_ends m key v e)
  search_cases m key (at_key i value) v e =
      let (here, inside) = search_sound m key value i v e in on_key i value e here inside
  search_cases m key (at_empty i) v e = on_empty i e (λ value held.
      let found = search_finds m key value held.idx v held.inside held.here in
      let clash : at_empty i ≡ at_key held.idx value = sym e ∙ found in cc)

  pub search_exact : (m : CcoMap A) (key : Key) → IsValid m → SearchEnds m key
  search_exact m key v = search_cases m key (search m key) v refl

  -- On a valid map, either the map holds the key under one value, which `map_get` returns and of
  -- which `map_has` says so, or it holds the key under none, `map_get` fails and `map_has` says
  -- no. Neither loop runs on.
  pub lookup_exact :
      (m : CcoMap A) (key : Key)
      → IsValid m
      → ((value : Option A) × Holds m key value
          × (map_get (some m) key ≡ returns value)
          × (map_has (some m) key ≡ some true))
        ⊎ (((value : Option A) → ¬ Holds m key value)
            × (map_get (some m) key ≡ fails)
            × (map_has (some m) key ≡ some false))
  unfolding map_get map_has
  lookup_exact m key v = elim (search_exact m key v) [
    | on_key i value e here inside ↦
        inl (value, record { idx = i; inside = inside; here = here }, rw e refl, rw e refl)
    | on_empty i e none_held ↦ inr (none_held, rw e refl, rw e refl)
  ]

  no_buckets : (p : Bucket A → Bool) (n : ℕ) → p empty ≡ false → count_where p (λ i. empty) n ≡ 0
  unfolding count_where
  no_buckets p zero h = refl
  no_buckets p (suc n) h = omega (arith, ap one_if h, no_buckets p n h)

  -- A map without a bucket in use.
  pub empty_map-IsValid :
      (log : ℕ)
      → IsValid
          (record { capacity = 2 ^ log; occupied_count = 0; tombstones = 0; buckets = λ i. empty })
  empty_map-IsValid log = record {
    log = log;
    sized = refl;
    occupied_counted = no_buckets is_occupied (2 ^ log) refl;
    tombstones_counted = no_buckets is_tombstone (2 ^ log) refl;
    room = omega (arith, two_pow_pos log);
    reached = λ i key value inside here. cc;
    unique = λ i j key v w inside inside_j here there. cc;
  }
