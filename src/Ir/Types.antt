-- ===== src/Ir/Types.antt =====
-- The types of the intermediate representation: src/ir/ir.h and ir.c.
use cco_lang.Base.{
  ◌≡◌, refl, Bool, true, false, ◌==◌, Option, none, some, String, str_eq, eq_refl, arith,
  if◌then◌else◌, ℤ, pos, negsuc,
}

-- A kind with what it carries. A pointer's element type may be null, which is the second constructor
-- for pointers; the array size is -1 where it is dynamic.
pub data IrType : Type 0 where
  ir_type_void ir_type_i32 ir_type_i64 ir_type_f64 ir_type_bool ir_type_char : IrType
  ir_type_ptr : IrType → IrType
  ir_type_opaque_ptr : IrType
  ir_type_struct : String → IrType
  ir_type_array : IrType → ℤ → IrType

abbrev pub is_void_type : IrType → Bool
is_void_type ir_type_void = true
is_void_type _ = false

abbrev pub is_bool_type : IrType → Bool
is_bool_type ir_type_bool = true
is_bool_type _ = false

abbrev pub is_f64_type : IrType → Bool
is_f64_type ir_type_f64 = true
is_f64_type _ = false

abbrev pub is_ptr_type : IrType → Bool
is_ptr_type (ir_type_ptr t) = true
is_ptr_type ir_type_opaque_ptr = true
is_ptr_type _ = false

unfoldable pub is_numeric_type : IrType → Bool
is_numeric_type ir_type_i32 = true
is_numeric_type ir_type_i64 = true
is_numeric_type ir_type_f64 = true
is_numeric_type _ = false

unfoldable pub elem_type : IrType → Option IrType
elem_type (ir_type_ptr t) = some t
elem_type (ir_type_array t n) = some t
elem_type _ = none

abbrev same_size : ℤ → ℤ → Bool
same_size (pos m) (pos n) = m == n
same_size (negsuc m) (negsuc n) = m == n
same_size _ _ = false

unfoldable pub ir_type_equals : IrType → IrType → Bool
ir_type_equals ir_type_void ir_type_void = true
ir_type_equals ir_type_i32 ir_type_i32 = true
ir_type_equals ir_type_i64 ir_type_i64 = true
ir_type_equals ir_type_f64 ir_type_f64 = true
ir_type_equals ir_type_bool ir_type_bool = true
ir_type_equals ir_type_char ir_type_char = true
ir_type_equals ir_type_opaque_ptr ir_type_opaque_ptr = true
ir_type_equals ir_type_opaque_ptr (ir_type_ptr b) = true
ir_type_equals (ir_type_ptr a) ir_type_opaque_ptr = true
ir_type_equals (ir_type_ptr a) (ir_type_ptr b) = ir_type_equals a b
ir_type_equals (ir_type_struct a) (ir_type_struct b) = str_eq a b
ir_type_equals (ir_type_array a m) (ir_type_array b n) =
    if same_size m n then ir_type_equals a b else false
ir_type_equals _ _ = false

unfoldable pub ir_type_to_string : IrType → String
ir_type_to_string ir_type_void = "void"
ir_type_to_string ir_type_i32 = "i32"
ir_type_to_string ir_type_i64 = "i64"
ir_type_to_string ir_type_f64 = "f64"
ir_type_to_string ir_type_bool = "bool"
ir_type_to_string ir_type_char = "char"
ir_type_to_string (ir_type_ptr t) = "ptr"
ir_type_to_string ir_type_opaque_ptr = "ptr"
ir_type_to_string (ir_type_struct name) = name
ir_type_to_string (ir_type_array t n) = "array"

-- The shortcut for the same pointer changes no answer.
pub ir_type_equals_refl : (t : IrType) → ir_type_equals t t ≡ true
unfolding ir_type_equals
ir_type_equals_refl ir_type_void = refl
ir_type_equals_refl ir_type_i32 = refl
ir_type_equals_refl ir_type_i64 = refl
ir_type_equals_refl ir_type_f64 = refl
ir_type_equals_refl ir_type_bool = refl
ir_type_equals_refl ir_type_char = refl
ir_type_equals_refl (ir_type_ptr t) = ir_type_equals_refl t
ir_type_equals_refl ir_type_opaque_ptr = refl
ir_type_equals_refl (ir_type_struct name) = eq_refl name
ir_type_equals_refl (ir_type_array t (pos n)) = rw (ir_type_equals_refl t) (ground arith)
ir_type_equals_refl (ir_type_array t (negsuc n)) = rw (ir_type_equals_refl t) (ground arith)
