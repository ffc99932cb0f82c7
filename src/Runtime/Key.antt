-- ===== src/Runtime/Key.antt =====
-- The keys of the hash map and their hashes: src/runtime/map_runtime.h.
use Prim.Native.Nat.{bit_xor}
use cco_lang.Base.{
  ℕ, ◌*◌, ◌/◌, ◌%◌, ◌^◌, ◌≡◌, refl, ap, ap₂, Bool, true, false, ◌&&◌, ◌==◌, List, [], ◌∷◌, arith,
}

-- A key is an integer, by the bits of its pointer, or a string without its null byte. The
-- `key_type` of a map says which of the two its keys are; here the key says it.
pub data Key : Type 0 where
  int_key : ℕ → Key
  str_key : List ℕ → Key

-- FNV-1a
hash_bytes : ℕ → List ℕ → ℕ
hash_bytes hash [] = hash
hash_bytes hash (byte ∷ rest) = hash_bytes (bit_xor hash (byte % 2 ^ 8) * 16777619 % 2 ^ 32) rest

hash_str : List ℕ → ℕ
unfolding hash_bytes
hash_str str = hash_bytes 2166136261 str

hash_int : ℕ → ℕ
hash_int key =
    let x = key % 2 ^ 32 in
    let x' = bit_xor (x / 2 ^ 16) x * 0x45d9f3b % 2 ^ 32 in
    let x'' = bit_xor (x' / 2 ^ 16) x' * 0x45d9f3b % 2 ^ 32 in bit_xor (x'' / 2 ^ 16) x''

unfoldable pub hash_key : Key → ℕ
unfolding hash_str hash_int
hash_key (int_key key) = hash_int key
hash_key (str_key str) = hash_str str

bytes_eq : List ℕ → List ℕ → Bool
bytes_eq [] [] = true
bytes_eq [] (y ∷ ys) = false
bytes_eq (x ∷ xs) [] = false
bytes_eq (x ∷ xs) (y ∷ ys) = x == y && bytes_eq xs ys

unfoldable pub key_eq : Key → Key → Bool
unfolding bytes_eq
key_eq (int_key k1) (int_key k2) = k1 == k2
key_eq (int_key k1) (str_key k2) = false
key_eq (str_key k1) (int_key k2) = false
key_eq (str_key k1) (str_key k2) = bytes_eq k1 k2

-- The test decides equality.
bytes_eq_refl : (xs : List ℕ) → bytes_eq xs xs ≡ true
unfolding bytes_eq
bytes_eq_refl [] = refl
bytes_eq_refl (x ∷ xs) = ground (arith, bytes_eq_refl xs)

bytes_eq_sound : (xs ys : List ℕ) → bytes_eq xs ys ≡ true → xs ≡ ys
unfolding bytes_eq
bytes_eq_sound [] [] h = refl
bytes_eq_sound [] (y ∷ ys) h = cc
bytes_eq_sound (x ∷ xs) [] h = cc
bytes_eq_sound (x ∷ xs) (y ∷ ys) h =
    let head : x ≡ y = ground arith in
    let tail : bytes_eq xs ys ≡ true = ground arith in
    ap₂ (λ z zs. z ∷ zs) head (bytes_eq_sound xs ys tail)

pub key_eq_refl : (key : Key) → key_eq key key ≡ true
unfolding key_eq
key_eq_refl (int_key key) = ground arith
key_eq_refl (str_key str) = bytes_eq_refl str

pub key_eq_sound : (k1 k2 : Key) → key_eq k1 k2 ≡ true → k1 ≡ k2
unfolding key_eq
key_eq_sound (int_key k1) (int_key k2) h = ap int_key (ground arith)
key_eq_sound (int_key k1) (str_key k2) h = cc
key_eq_sound (str_key k1) (int_key k2) h = cc
key_eq_sound (str_key k1) (str_key k2) h = ap str_key (bytes_eq_sound k1 k2 h)
