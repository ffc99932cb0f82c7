-- ===== src/Runtime/Map/Rehash.antt =====
-- Rehashing: the new array holds what the old one held, and has no tombstones.
use cco_lang.Base.{
  ℕ, zero, suc, ◌+◌, ◌*◌, ◌^◌, ◌≤◌, ◌<◌, ◌≡◌, ◌≢◌, refl, sym, ◌∙◌, ap, ap₂, Option, some, Bool,
  true, false, arith, ◌==◌, Bool-cases, inl, inr,
}
use cco_lang.Base.Masks.{two_pow_pos}
use native.Mathlib.Nat.{mod-lt, pow-suc}
use cco_lang.Runtime.Key.{Key, hash_key}
use cco_lang.Runtime.Map.{
  occupy, occupy_found, insert_key, Bucket, empty, tombstone, occupied, CcoMap, find_free, next_idx,
  home, rehash_bucket, rehash_buckets, map_rehash, is_occupied,
}
use cco_lang.Runtime.Map.Search.{pos, home-pos, next_idx-pos, PathIsUsed, is_used, every_pos}
use cco_lang.Runtime.Map.Counts.{count_where, find_empty, one_if}
use cco_lang.Runtime.Map.Valid.{Holds, IsValid, some_unused, empty_map-IsValid}
use cco_lang.Runtime.Map.Put.{InsertSpot, longer_path}
use cco_lang.Runtime.Map.Insert.{insert_key-IsValid, insert_key-Holds}

module _ {ℓ} {A : Type ℓ} where
  used_of_occupied : (b : Bucket A) → is_occupied b ≡ true → is_used b ≡ true
  used_of_occupied empty h = cc
  used_of_occupied tombstone h = refl
  used_of_occupied (occupied key value) h = refl

  -- The loop ends at the first bucket that is not occupied, if one is within the fuel.
  find_free_finds :
      (buckets : ℕ → Bucket A) (key : Key) (k h fuel s n : ℕ)
      → n < fuel
      → buckets (pos (2 ^ k) h (s + n)) ≡ empty
      → PathIsUsed buckets (2 ^ k) h s
      → (j : ℕ) × (find_free fuel buckets (2 ^ k) (pos (2 ^ k) h s) ≡ some j)
        × InsertSpot buckets key (2 ^ k) h (s + fuel) j
  unfolding find_free
  find_free_finds buckets key k h zero s n few gap path = absurd (omega arith)
  find_free_finds buckets key k h (suc fuel) s zero few gap path =
      let at_s : s + 0 ≡ s = omega arith in
      let gap' : buckets (pos (2 ^ k) h s) ≡ empty = rw at_s at gap in
      (
        pos (2 ^ k) h s,
        rw gap' refl,
        record { distance = s; near = omega arith; place = refl; path = path; free = rw gap' refl },
      )
  find_free_finds buckets key k h (suc fuel) s (suc n) few gap path =
      let c = 2 ^ k in
      let here = pos c h s in
      elim (Bool-cases (is_occupied (buckets here))) [
        | inr free ↦ (
          here,
          rw free refl,
          record { distance = s; near = omega arith; place = refl; path = path; free = free },
        )
        | inl busy ↦
            let step : s + suc n ≡ s + 1 + n = omega arith in
            let on : next_idx c here ≡ pos c h (s + 1) = next_idx-pos k h s in
            let used = used_of_occupied (buckets here) busy in
            let (j, at_j, spot) =
              find_free_finds buckets key k h fuel (s + 1) n (omega arith) (rw step at gap)
                (longer_path buckets key c h s path used) in
            (
              j,
              rw (busy, on) at_j,
              record {
                distance = spot.distance;
                near = omega (arith, spot.near);
                place = spot.place;
                path = spot.path;
                free = spot.free;
              },
            )
      ]

  -- A free bucket of a map of a power of two.
  abbrev FreeAt : CcoMap A → Key → ℕ → Type 0
  FreeAt m key j =
      (find_free m.capacity m.buckets m.capacity (home m.capacity key) ≡ some j)
      × InsertSpot m.buckets key m.capacity (hash_key key) m.capacity j
      × (j < m.capacity)

  at_capacity :
      (m : CcoMap A) (key : Key) (log j : ℕ)
      → m.capacity ≡ 2 ^ log
      → find_free m.capacity m.buckets (2 ^ log) (pos (2 ^ log) (hash_key key) 0) ≡ some j
      → InsertSpot m.buckets key (2 ^ log) (hash_key key) (0 + m.capacity) j
      → FreeAt m key j
  at_capacity m key log j sized at_j spot = (
    rw (sized, home-pos log key) (rw sized at at_j),
    record {
      distance = spot.distance;
      near = omega (arith, spot.near);
      place = rw sized spot.place;
      path = rw sized spot.path;
      free = spot.free;
    },
    omega (arith, sized, spot.place, mod-lt (hash_key key + spot.distance) (two_pow_pos log)),
  )

  pub free_spot : (m : CcoMap A) (key : Key) → IsValid m → (j : ℕ) × FreeAt m key j
  free_spot m key v =
      let c = 2 ^ v.log in
      let h = hash_key key in
      let (i, inside, unused) = find_empty m.buckets m.capacity (some_unused m v) in
      let (d, near, at_i) = every_pos v.log h i (omega (arith, inside, v.sized)) in
      let start : pos c h (0 + d) ≡ pos c h d = ap (λ n. pos c h n) (omega arith) in
      let (j, at_j, spot) =
        find_free_finds m.buckets key v.log h m.capacity 0 d (omega (arith, near, v.sized))
          (ap m.buckets (start ∙ at_i) ∙ unused) (λ e near. absurd (omega arith)) in
      (j, at_capacity m key v.log j v.sized at_j spot)

  -- Without tombstones, occupying a bucket is an insertion.
  occupy-insert_key :
      (m : CcoMap A) (key : Key) (value : Option A) (j : ℕ)
      → m.tombstones ≡ 0
      → occupy m key value j ≡ insert_key m key value j
  occupy-insert_key m key value j none_left =
      ap (λ t. record (occupy m key value j) { tombstones = t }) (ground (arith, none_left))

  -- The first `n` old buckets have moved.
  pub record Moved (m : CcoMap A) (n : ℕ) (m' : CcoMap A) : Type ℓ where
    pub valid : IsValid m'
    pub no_tombstones : m'.tombstones ≡ 0
    pub doubled : m'.capacity ≡ m.capacity * 2
    pub as_many : m'.occupied_count ≡ count_where is_occupied m.buckets n
    pub come_from :
        (key : Key) (w : Option A)
        → Holds m' key w
        → (i : ℕ) × (i < n) × (m.buckets i ≡ occupied key w)
    pub arrive :
        (key : Key) (w : Option A) (i : ℕ) → i < n → m.buckets i ≡ occupied key w → Holds m' key w

  count_where-le :
      (p : Bucket A → Bool) (buckets : ℕ → Bucket A) (n : ℕ) → count_where p buckets n ≤ n
  unfolding count_where
  count_where-le p buckets zero = omega arith
  count_where-le p buckets (suc n) = ground (arith, count_where-le p buckets n)

  count_where-test :
      (p : Bucket A → Bool) (buckets : ℕ → Bucket A) (n : ℕ) (t : Bool)
      → p (buckets n) ≡ t
      → count_where p buckets (suc n) ≡ one_if t + count_where p buckets n
  unfolding count_where
  count_where-test p buckets n t h = ap (λ t. one_if t + count_where p buckets n) h

  -- A bucket that is not occupied does not move.
  pass_free :
      (m : CcoMap A) (n : ℕ) (m' : CcoMap A)
      → is_occupied (m.buckets n) ≡ false
      → Moved m n m'
      → Moved m (suc n) m'
  pass_free m n m' free moved = record {
    valid = moved.valid;
    no_tombstones = moved.no_tombstones;
    doubled = moved.doubled;
    as_many = omega (arith, moved.as_many, count_where-test is_occupied m.buckets n false free);
    come_from = λ key w h. let (i, near, here) = moved.come_from key w h in (i, omega arith, here);
    arrive = λ key w i near here. elim (Bool-cases (i == n)) [
      | inl same ↦
          let e : i ≡ n = ground arith in
          let clash : true ≡ false = sym (ap is_occupied (sym (ap m.buckets e) ∙ here)) ∙ free in cc
      | inr other ↦ let e : i ≢ n = ground arith in moved.arrive key w i (omega arith) here
    ];
  }

  -- An occupied bucket is inserted.
  insert_next :
      (m : CcoMap A) (n : ℕ) (m' : CcoMap A) (key : Key) (value : Option A)
      → IsValid m
      → n < m.capacity
      → m.buckets n ≡ occupied key value
      → Moved m n m'
      → (m'' : CcoMap A) × (rehash_bucket (occupied key value) m' ≡ some m'') × Moved m (suc n) m''
  insert_next m n m' key value v inside here moved =
      let (j, (at_j, spot, near)) = free_spot m' key moved.valid in
      let few = count_where-le is_occupied m.buckets n in
      let new : (w : Option A) → ¬ Holds m' key w = λ w held.
        let (i, before, there) = moved.come_from key w held in
        let same : i ≡ n = v.unique i n key w value (omega arith) inside there here in
        omega (arith, same, before) in
      let room : m'.occupied_count + m'.tombstones + 1 < m'.capacity =
        omega (arith, moved.no_tombstones, moved.as_many, moved.doubled, few) in
      (
        insert_key m' key value j,
        ap (occupy_found m' key value) at_j
            ∙ ap some (occupy-insert_key m' key value j moved.no_tombstones),
        record {
          valid = insert_key-IsValid m' key value j moved.valid new room near spot;
          no_tombstones = ground (arith, moved.no_tombstones);
          doubled = moved.doubled;
          as_many = omega (
            arith,
            moved.as_many,
            count_where-test is_occupied m.buckets n true (ap is_occupied here),
          );
          come_from = λ k w h. elim ((insert_key-Holds m' key k value w j new near spot.free).0 h) [
            | inl (same, is) ↦
                (n, omega arith, here ∙ ap₂ (λ k w. occupied k w) (sym same) (sym is))
            | inr (_, before) ↦
                let (i, close, there) = moved.come_from k w before in (i, omega arith, there)
          ];
          arrive = λ k w i close there.
              (insert_key-Holds m' key k value w j new near spot.free).1
                (elim (Bool-cases (i == n)) [
                  | inl at_n ↦
                      let e : i ≡ n = ground arith in
                      let both : occupied k w ≡ occupied key value =
                        sym there ∙ ap m.buckets e ∙ here in
                      inl (cc, cc)
                  | inr other ↦
                      let e : i ≢ n = ground arith in
                      let far : i < n = omega arith in
                      inr (
                        (λ same. e (
                            v.unique i n key w value (omega arith) inside
                              (there ∙ ap (λ k. occupied k w) same) here)),
                        moved.arrive k w i far there,
                      )
                ]);
        },
      )

  next_bucket :
      (m : CcoMap A) (n : ℕ) (m' : CcoMap A) (b : Bucket A)
      → IsValid m
      → n < m.capacity
      → m.buckets n ≡ b
      → Moved m n m'
      → (m'' : CcoMap A) × (rehash_bucket b m' ≡ some m'') × Moved m (suc n) m''
  next_bucket m n m' empty v inside here moved =
      (m', refl, pass_free m n m' (ap is_occupied here) moved)
  next_bucket m n m' tombstone v inside here moved =
      (m', refl, pass_free m n m' (ap is_occupied here) moved)
  next_bucket m n m' (occupied key value) v inside here moved =
      insert_next m n m' key value v inside here moved

  abbrev fresh : ℕ → CcoMap A
  fresh capacity = record {
    capacity = capacity;
    occupied_count = 0;
    tombstones = 0;
    buckets = λ i. empty;
  }

  fresh-IsValid : (m : CcoMap A) → IsValid m → IsValid (fresh (m.capacity * 2))
  fresh-IsValid m v =
      let twice : m.capacity * 2 ≡ 2 ^ suc v.log = omega (arith, v.sized, pow-suc 2 v.log) in
      rw twice (empty_map-IsValid (suc v.log))

  rehash_moves :
      (m : CcoMap A) (n : ℕ)
      → IsValid m
      → n ≤ m.capacity
      → (m' : CcoMap A) × (rehash_buckets n m.buckets (fresh (m.capacity * 2)) ≡ some m')
        × Moved m n m'
  unfolding rehash_buckets count_where
  rehash_moves m zero v inside = (
    fresh (m.capacity * 2),
    refl,
    record {
      valid = fresh-IsValid m v;
      no_tombstones = refl;
      doubled = refl;
      as_many = refl;
      come_from = λ key w h. cc (h.here);
      arrive = λ key w i near here. absurd (omega arith);
    },
  )
  rehash_moves m (suc n) v inside =
      let (m', at_m', moved) = rehash_moves m n v (omega arith) in
      let (m'', at_m'', moved') = next_bucket m n m' (m.buckets n) v (omega arith) refl moved in
      (m'', rw at_m' at_m'', moved')

  -- Rehashing a valid map ends, in a valid map of twice the capacity without tombstones.
  pub map_rehash_moves :
      (m : CcoMap A)
      → IsValid m
      → (m' : CcoMap A) × (map_rehash m ≡ some m') × Moved m m.capacity m'
  unfolding map_rehash
  map_rehash_moves m v = rehash_moves m m.capacity v (omega arith)
