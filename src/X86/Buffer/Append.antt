-- ===== src/X86/Buffer/Append.antt =====
-- The appends of the byte buffer: what they store, and that they stay inside the allocation.
use cco_lang.Base.{
  ℕ, zero, suc, ◌+◌, ◌*◌, ◌/◌, ◌%◌, ◌^◌, ◌≤◌, ◌<◌, ◌≡◌, refl, ap, none, some, List, [], ◌∷◌, ◌++◌,
  arith, length, length-append, append_assoc, append-nil, sym, ◌∙◌,
}
use native.Mathlib.Nat.{div-div-eq-div-mul}
use cco_lang.X86.Buffer.{
  ByteBuffer, byte_buf_size, byte_buf_create, double_capacity, byte_buf_ensure_space, shifted_bytes,
  byte_buf_append_u8, byte_buf_append_u16, byte_buf_append_u32, byte_buf_append_u64,
}

-- The bytes in use fit the allocation.
pub record IsValid (b : ByteBuffer) : Type 0 where
  pub allocated : 0 < b.capacity
  pub fits : byte_buf_size b ≤ b.capacity

pub byte_buf_create-IsValid : IsValid byte_buf_create
byte_buf_create-IsValid = omega arith

le-double_capacity :
    (fuel total cap : ℕ) → 0 < cap → total ≤ cap + fuel → total ≤ double_capacity fuel total cap
unfolding double_capacity
le-double_capacity zero total cap h enough = omega arith
le-double_capacity (suc fuel) total cap h enough =
    ground (arith, le-double_capacity fuel total (cap * 2))

double_capacity-grows : (fuel total cap : ℕ) → cap ≤ double_capacity fuel total cap
unfolding double_capacity
double_capacity-grows zero total cap = omega arith
double_capacity-grows (suc fuel) total cap =
    ground (arith, double_capacity-grows fuel total (cap * 2))

-- `b'` is `b` with `bytes` behind it, inside its allocation.
pub record Appended (b : ByteBuffer) (bytes : List ℕ) (b' : ByteBuffer) : Type 0 where
  pub stored : b'.data_bytes ≡ b.data_bytes ++ bytes
  pub inside : IsValid b'

ensure_room :
    (b : ByteBuffer) (n : ℕ)
    → IsValid b
    → byte_buf_size b + n ≤ (byte_buf_ensure_space b n).capacity
unfolding byte_buf_ensure_space
ensure_room b n v = le-double_capacity _ (byte_buf_size b + n) b.capacity v.allocated (omega arith)

ensured_allocated : (b : ByteBuffer) (n : ℕ) → IsValid b → 0 < (byte_buf_ensure_space b n).capacity
unfolding byte_buf_ensure_space
ensured_allocated b n v = omega (
  arith,
  v.allocated,
  double_capacity-grows (byte_buf_size b + n) (byte_buf_size b + n) b.capacity,
)

-- One append: `bytes` are stored behind a reallocation that has room for them.
store-Appended :
    (b : ByteBuffer) (bytes : List ℕ)
    → IsValid b
    → Appended b bytes
        (record (byte_buf_ensure_space b (length bytes)) { data_bytes = b.data_bytes ++ bytes })
store-Appended b bytes v = record {
  stored = refl;
  inside = record {
    allocated = ensured_allocated b (length bytes) v;
    fits = omega (arith, ensure_room b (length bytes) v, length-append b.data_bytes bytes);
  };
}

-- The little-endian bytes of a value, and the value of little-endian bytes.
abbrev pub le_bytes : ℕ → ℕ → List ℕ
le_bytes zero val = []
le_bytes (suc n) val = val % 256 ∷ le_bytes n (val / 256)

abbrev pub le_value : List ℕ → ℕ
le_value [] = 0
le_value (x ∷ xs) = x + 256 * le_value xs

pub le_value-le_bytes_4 : (val : ℕ) → le_value (le_bytes 4 val) ≡ val % 2 ^ 32
le_value-le_bytes_4 val = omega arith

pub le_value-le_bytes_8 : (val : ℕ) → le_value (le_bytes 8 val) ≡ val % 2 ^ 64
le_value-le_bytes_8 val = omega arith

pub length-le_bytes : (n val : ℕ) → length (le_bytes n val) ≡ n
length-le_bytes zero val = refl
length-le_bytes (suc n) val = ap suc (length-le_bytes n (val / 256))

shifted_bytes-eq-le_bytes : (val : ℕ) → shifted_bytes 8 0 val ≡ le_bytes 8 val
unfolding shifted_bytes
shifted_bytes-eq-le_bytes val = ground arith

-- A null buffer stays null.
pub append_u8-null : (x : ℕ) → byte_buf_append_u8 none x ≡ none
unfolding byte_buf_append_u8
append_u8-null x = refl

pub append_u32-null : (x : ℕ) → byte_buf_append_u32 none x ≡ none
unfolding byte_buf_append_u32
append_u32-null x = refl

pub append_u64-null : (x : ℕ) → byte_buf_append_u64 none x ≡ none
unfolding byte_buf_append_u64
append_u64-null x = refl

module _ (b : ByteBuffer) (v : IsValid b) where
  pub append_u8-Appended :
      (byte : ℕ)
      → (b' : ByteBuffer) × (byte_buf_append_u8 (some b) byte ≡ some b') × Appended b (byte ∷ []) b'
  unfolding byte_buf_append_u8
  append_u8-Appended byte = (_, refl, store-Appended b (byte ∷ []) v)

  pub append_u16-Appended :
      (val : ℕ)
      → (b' : ByteBuffer) × (byte_buf_append_u16 (some b) val ≡ some b')
        × Appended b (le_bytes 2 val) b'
  unfolding byte_buf_append_u16
  append_u16-Appended val = (_, refl, store-Appended b _ v)

  pub append_u32-Appended :
      (val : ℕ)
      → (b' : ByteBuffer) × (byte_buf_append_u32 (some b) val ≡ some b')
        × Appended b (le_bytes 4 val) b'
  unfolding byte_buf_append_u32
  append_u32-Appended val = (_, refl, simp div-div-eq-div-mul (store-Appended b _ v))

  pub append_u64-Appended :
      (val : ℕ)
      → (b' : ByteBuffer) × (byte_buf_append_u64 (some b) val ≡ some b')
        × Appended b (le_bytes 8 val) b'
  unfolding byte_buf_append_u64
  append_u64-Appended val =
      (_, refl, rw shifted_bytes-eq-le_bytes (store-Appended b (le_bytes 8 val) v))

-- An eight-byte append to a valid buffer leaves the old contents in place and stores eight bytes
-- behind them that read, in little-endian order, as the value modulo 2 ^ 64. The buffer is valid.
pub append_u64_reads_back :
    (b : ByteBuffer) (val : ℕ)
    → IsValid b
    → (b' : ByteBuffer) × (bytes : List ℕ) × (byte_buf_append_u64 (some b) val ≡ some b')
      × (b'.data_bytes ≡ b.data_bytes ++ bytes)
      × (length bytes ≡ 8)
      × (le_value bytes ≡ val % 2 ^ 64)
      × IsValid b'
append_u64_reads_back b val v =
    let (b', eq, a) = append_u64-Appended b v val in
    (b', le_bytes 8 val, eq, a.stored, refl, le_value-le_bytes_8 val, a.inside)

pub Appended-nil : {b : ByteBuffer} → IsValid b → Appended b [] b
Appended-nil {b} v = record { stored = sym (append-nil b.data_bytes); inside = v }

pub Appended-append :
    {b b' b'' : ByteBuffer} {xs ys : List ℕ}
    → Appended b xs b'
    → Appended b' ys b''
    → Appended b (xs ++ ys) b''
Appended-append {b} {xs} {ys} p q = record {
  stored = q.stored ∙ ap (λ zs. zs ++ ys) p.stored ∙ append_assoc b.data_bytes xs ys;
  inside = q.inside;
}
