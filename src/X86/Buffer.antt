-- ===== src/X86/Buffer.antt =====
-- The byte buffer of src/backend/x86_64/x86_64_encode.c. `data` holds the bytes below `size`.
-- Allocation is taken to succeed.
pub mod Append
use cco_lang.Base.{
  ℕ, zero, suc, ◌+◌, ◌*◌, ◌/◌, ◌%◌, ◌^◌, ◌≤◌, ◌<◌, ◌≡◌, refl, Bool, true, false, Option, none, some,
  List, [], ◌∷◌, ◌++◌, arith, ltb, if◌then◌else◌, length, length-append, append_assoc,
}

pub record ByteBuffer : Type 0 where
  pub data_bytes : List ℕ
  pub capacity : ℕ

abbrev pub byte_buf_size : ByteBuffer → ℕ
byte_buf_size b = length b.data_bytes

abbrev pub byte_buf_create : ByteBuffer
byte_buf_create = record { data_bytes = []; capacity = 4096 }

-- `while (size + needed > capacity) capacity *= 2`, on fuel.
double_capacity : ℕ → ℕ → ℕ → ℕ
double_capacity zero total cap = cap
double_capacity (suc fuel) total cap =
    let rest = double_capacity fuel total (cap * 2) in if ltb cap total then rest else cap

-- Each round adds at least one to a capacity that is not 0, so `total` rounds suffice.
unfoldable pub byte_buf_ensure_space : ByteBuffer → ℕ → ByteBuffer
unfolding double_capacity
byte_buf_ensure_space b needed = record b {
  capacity = double_capacity (byte_buf_size b + needed) (byte_buf_size b + needed) b.capacity;
}

-- Bytes stored behind `size`.
abbrev store : ByteBuffer → List ℕ → ByteBuffer
store b bytes = record b { data_bytes = b.data_bytes ++ bytes }

unfoldable pub byte_buf_append_u8 : Option ByteBuffer → ℕ → Option ByteBuffer
unfolding byte_buf_ensure_space
byte_buf_append_u8 none byte = none
byte_buf_append_u8 (some b) byte = some (store (byte_buf_ensure_space b 1) (byte ∷ []))

unfoldable pub byte_buf_append_u16 : Option ByteBuffer → ℕ → Option ByteBuffer
unfolding byte_buf_ensure_space
byte_buf_append_u16 none val = none
byte_buf_append_u16 (some b) val =
    some (store (byte_buf_ensure_space b 2) (val % 256 ∷ (val / 2 ^ 8) % 256 ∷ []))

unfoldable pub byte_buf_append_u32 : Option ByteBuffer → ℕ → Option ByteBuffer
unfolding byte_buf_ensure_space
byte_buf_append_u32 none val = none
byte_buf_append_u32 (some b) val = some (
    store (byte_buf_ensure_space b 4)
      (val % 256 ∷ (val / 2 ^ 8) % 256 ∷ (val / 2 ^ 16) % 256 ∷ (val / 2 ^ 24) % 256 ∷ []))

-- The loop of `byte_buf_append_u64` from `i`, on the rounds left.
shifted_bytes : ℕ → ℕ → ℕ → List ℕ
shifted_bytes zero i val = []
shifted_bytes (suc rounds) i val = (val / 2 ^ (i * 8)) % 256 ∷ shifted_bytes rounds (i + 1) val

unfoldable pub byte_buf_append_u64 : Option ByteBuffer → ℕ → Option ByteBuffer
unfolding byte_buf_ensure_space shifted_bytes
byte_buf_append_u64 none val = none
byte_buf_append_u64 (some b) val = some (store (byte_buf_ensure_space b 8) (shifted_bytes 8 0 val))

unfoldable pub byte_buf_append_bytes : Option ByteBuffer → Option (List ℕ) → Option ByteBuffer
unfolding byte_buf_ensure_space
byte_buf_append_bytes none bytes = none
byte_buf_append_bytes (some b) none = some b
byte_buf_append_bytes (some b) (some []) = some b
byte_buf_append_bytes (some b) (some (x ∷ xs)) =
    some (store (byte_buf_ensure_space b (suc (length xs))) (x ∷ xs))
