-- ===== src/Ir/Check.antt =====
-- What the verifier asks of each instruction: `verify_instruction` of src/ir/ir_verify.c by the cases
-- of its switch. The result is `none` where it accepts; where it refuses, it is
-- the format of the error's detail, without the arguments that the format prints.
use cco_lang.Base.{
  ℕ, Bool, true, false, ◌||◌, not, ◌==◌, Option, none, some, List, [], ◌∷◌, String, length,
  if◌then◌else◌,
}
use cco_lang.Ir.Types.{
  IrType, is_void_type, is_bool_type, is_ptr_type, is_numeric_type, elem_type, ir_type_equals,
}
use cco_lang.Ir.Instr.{
  IrValue, IrInstruction, IrBasicBlock, IrFunction, ir_module_find_function, block_exists_in_fn,
}

-- A check that refuses, and one that needs an operand.
abbrev pub refuse : Bool → String → Option String → Option String
refuse true error rest = some error
refuse false error rest = rest

abbrev pub require {ℓ} : {A : Type ℓ} → Option A → String → (A → Option String) → Option String
require none error rest = some error
require (some a) error rest = rest a

abbrev pub first_error : Option String → Option String → Option String
first_error none rest = rest
first_error (some error) rest = some error

abbrev pub differ : IrType → IrType → Bool
differ a b = not (ir_type_equals a b)

-- `elem_type && !ir_type_equals(type, elem_type)`
abbrev pub elem_differs : Option IrType → IrType → Bool
elem_differs none type = false
elem_differs (some elem) type = differ type elem

unfoldable pub verify_alloca : IrInstruction → Option String
verify_alloca inst =
    let error : String = "alloca result must be a pointer type" in
    require inst.result error (λ r. refuse (not (is_ptr_type r.type)) error none)

unfoldable pub verify_load : IrInstruction → Option String
verify_load inst = require inst.lhs "load requires pointer operand" (λ p.
    refuse (not (is_ptr_type p.type)) "load source is not a pointer type (got %s)" (
      require inst.result "load requires a destination result register" (λ r.
        refuse (elem_differs (elem_type p.type) r.type)
          "load result type (%s) does not match pointer element type (%s)" none)))

unfoldable pub verify_store : IrInstruction → Option String
verify_store inst =
    let error : String = "store requires value and destination pointer operands" in
    require inst.lhs error (λ v. require inst.rhs error (λ p.
      refuse (not (is_ptr_type p.type)) "store destination is not a pointer (got %s)" (
        refuse (elem_differs (elem_type p.type) v.type)
          "stored value type (%s) does not match destination pointer element type (%s)" none)))

unfoldable pub verify_const : IrInstruction → Option String
verify_const inst =
    let error : String = "const requires literal value and result register" in
    require inst.lhs error (λ v.
      require inst.result error
        (λ r. refuse (differ v.type r.type) "const value type does not match result type" none))

unfoldable pub verify_incoming : IrType → List (Option ℕ × Option IrValue) → Option String
verify_incoming type [] = none
verify_incoming type ((block, value) ∷ rest) = require block "phi operand %d has null block" (λ b.
    require value "phi operand %d has null value" (λ v.
      refuse (differ type v.type) "phi incoming value type (%s) does not match phi result type (%s)"
        (verify_incoming type rest)))

abbrev pub no_incoming : List (Option ℕ × Option IrValue) → Bool
no_incoming [] = true
no_incoming (x ∷ rest) = false

unfoldable pub verify_phi : IrInstruction → Option String
verify_phi inst = require inst.result "phi requires result register" (λ r.
    refuse (no_incoming inst.phi) "phi must have at least one incoming value"
      (verify_incoming r.type inst.phi))

unfoldable pub verify_arithmetic : IrInstruction → Option String
verify_arithmetic inst =
    let error : String = "binary arithmetic requires lhs, rhs, and result" in
    require inst.lhs error (λ a. require inst.rhs error (λ b. require inst.result error (λ r.
      refuse (differ a.type b.type) "operand types do not match (%s vs %s)" (
        refuse (not (is_numeric_type a.type)) "arithmetic operands must be numeric (got %s)" (
          refuse (differ r.type a.type) "result type (%s) does not match operand type (%s)"
            none)))))

unfoldable pub verify_neg : IrInstruction → Option String
verify_neg inst =
    let error : String = "negation requires operand and result" in
    require inst.lhs error (λ a. require inst.result error (λ r.
      refuse (not (is_numeric_type a.type)) "negation operand must be numeric"
        (refuse (differ r.type a.type) "result type does not match negation operand type" none)))

unfoldable pub verify_comparison : IrInstruction → Option String
verify_comparison inst =
    let error : String = "comparison requires lhs, rhs, and result" in
    require inst.lhs error (λ a. require inst.rhs error (λ b. require inst.result error (λ r.
      refuse (differ a.type b.type) "comparison operand types do not match (%s vs %s)"
        (refuse (not (is_bool_type r.type)) "comparison result type must be bool" none))))

unfoldable pub verify_logical : IrInstruction → Option String
verify_logical inst =
    let error : String = "logical op requires lhs, rhs, and result" in
    require inst.lhs error (λ a. require inst.rhs error (λ b. require inst.result error (λ r.
      refuse (not (is_bool_type a.type) || not (is_bool_type b.type))
        "logical op operands must be bool"
        (refuse (not (is_bool_type r.type)) "logical op result must be bool" none))))

unfoldable pub verify_not : IrInstruction → Option String
verify_not inst =
    let error : String = "not requires operand and result" in
    require inst.lhs error (λ a. require inst.result error (λ r.
      refuse (not (is_bool_type a.type) || not (is_bool_type r.type))
        "not operand and result must be bool" none))

unfoldable pub verify_args : List IrValue → List IrType → Option String
verify_args (a ∷ args) (t ∷ types) =
    refuse (differ a.type t)
      "argument %d type (%s) does not match parameter type (%s) in call to @%s"
      (verify_args args types)
verify_args _ _ = none

unfoldable pub verify_signature : IrInstruction → Option IrFunction → Option String
verify_signature inst none = none
verify_signature inst (some target_fn) =
    refuse (not (length target_fn.param_types == length inst.args))
      "callee @%s expects %d arguments, got %d"
      (first_error (verify_args inst.args target_fn.param_types) (
        refuse (differ inst.type target_fn.return_type)
          "call return type (%s) does not match function @%s return type (%s)" none))

unfoldable pub verify_call : List IrFunction → IrInstruction → Option String
verify_call fns inst =
    require inst.callee_name "call missing callee name"
      (λ name. verify_signature inst (ir_module_find_function fns name))

unfoldable pub verify_br : List IrBasicBlock → IrInstruction → Option String
verify_br blocks inst = require inst.target_true "unconditional branch missing target block" (λ t.
    refuse (not (block_exists_in_fn blocks t)) "branch target block '%s' does not exist in function"
      none)

unfoldable pub verify_condbr : List IrBasicBlock → IrInstruction → Option String
verify_condbr blocks inst =
    let error : String = "conditional branch missing true or false target block" in
    require inst.lhs "conditional branch missing condition operand" (λ c.
      refuse (not (is_bool_type c.type)) "conditional branch condition must be bool (got %s)" (
        require inst.target_true error (λ t. require inst.target_false error (λ f.
          refuse (not (block_exists_in_fn blocks t) || not (block_exists_in_fn blocks f))
            "conditional branch target block does not exist in function" none))))

abbrev pub returns_value : Option IrValue → Bool
returns_value none = false
returns_value (some v) = not (is_void_type v.type)

unfoldable pub verify_ret : IrType → IrInstruction → Option String
verify_ret return_type inst =
    if is_void_type return_type
    then refuse (returns_value inst.lhs) "void function cannot return a value" none
    else require inst.lhs "non-void function must return a value (expected %s)" (λ v.
      refuse (differ v.type return_type)
        "returned value type (%s) does not match function return type (%s)" none)

unfoldable pub verify_print : IrInstruction → Option String
verify_print inst = require inst.lhs "print instruction missing value operand" (λ v. none)

unfoldable pub verify_free : IrInstruction → Option String
verify_free inst =
    let error : String = "deallocation requires pointer operand" in
    require inst.lhs error (λ p. refuse (not (is_ptr_type p.type)) error none)
