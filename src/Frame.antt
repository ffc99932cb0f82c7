-- ===== src/Frame.antt =====
-- The stack frame: src/backend/x86_64/x86_64_target.c. The linked list of slots, the newest first, is
-- a list; an offset is an integer, and the counter of the bytes below %rbp a number.
pub mod Places
pub mod Layout
pub mod Spilled
mod Tests
use cco_lang.Base.{
  ℕ, suc, ◌+◌, ◌-◌, ◌*◌, ◌/◌, Bool, true, false, ◌&&◌, ◌||◌, not, ltb, ◌==◌, Option, none, some,
  List, [], ◌∷◌, String, str_eq, if◌then◌else◌, ℤ, pos, negsuc, sub_ℕ,
}
use cco_lang.X86.Instr.{X86Reg}
use cco_lang.Ir.Types.{IrType, is_f64_type, elem_type}
use cco_lang.Ir.Instr.{
  IrValueKind, ir_val_var, ir_val_reg, ir_val_param, IrValue, is_reg, IrOpcode, ir_op_alloca,
  IrInstruction, IrBasicBlock, IrFunction,
}
use cco_lang.Regalloc.Scan.{LiveInterval}
use cco_lang.Regalloc.Intervals.{all_insts}
use cco_lang.Regalloc.Result.{RegAllocResult, needs_slot}

pub data SlotKind : Type 0 where
  slot_var slot_spill slot_param : SlotKind

pub record StackSlot : Type 0 where
  pub kind : SlotKind
  pub id : ℤ
  pub name : Option String
  pub offset : ℤ
  pub size : ℕ

abbrev pub same_kind : SlotKind → SlotKind → Bool
same_kind slot_var slot_var = true
same_kind slot_spill slot_spill = true
same_kind slot_param slot_param = true
same_kind _ _ = false

abbrev pub same_id : ℤ → ℤ → Bool
same_id (pos m) (pos n) = m == n
same_id (negsuc m) (negsuc n) = m == n
same_id _ _ = false

abbrev pub same_name : Option String → Option String → Bool
same_name (some a) (some b) = str_eq a b
same_name _ _ = false

unfoldable pub find_var_slot : Option String → List StackSlot → Option StackSlot
find_var_slot name [] = none
find_var_slot name (s ∷ rest) =
    if same_kind s.kind slot_var && same_name s.name name then some s else find_var_slot name rest

-- The slot of a kind and an id: `find_spill_slot` and `find_param_slot`.
unfoldable pub find_slot : SlotKind → ℤ → List StackSlot → Option StackSlot
find_slot kind id [] = none
find_slot kind id (s ∷ rest) =
    if same_kind s.kind kind && same_id s.id id then some s else find_slot kind id rest

-- The slots and `offset_counter`.
pub record Slots : Type 0 where
  pub slots : List StackSlot
  pub counter : ℕ

unfoldable pub add_fixed_slot : SlotKind → ℤ → Option String → ℕ → Slots → Slots
add_fixed_slot kind id name fixed_offset f = record f {
  slots =
      (record { kind = kind; id = id; name = name; offset = pos fixed_offset; size = 8 }) ∷ f.slots;
}

unfoldable pub add_slot : SlotKind → ℤ → Option String → Slots → Slots
add_slot kind id name f = record {
  slots =
      (record { kind = kind; id = id; name = name; offset = sub_ℕ 0 (f.counter + 8); size = 8 })
      ∷ f.slots;
  counter = f.counter + 8;
}

-- A parameter in a register gets a slot, one on the stack has its place above the frame.
unfoldable pub add_param : Bool → ℕ → ℕ → Option String → Slots → Slots
add_param true p stack_arg_idx name f = add_slot slot_param (pos p) name f
add_param false p stack_arg_idx name f =
    add_fixed_slot slot_param (pos p) name (16 + stack_arg_idx * 8) f

unfoldable pub add_params : ℕ → ℕ → ℕ → ℕ → List IrType → List String → Slots → Slots
add_params p int_arg_idx float_arg_idx stack_arg_idx (type ∷ types) (name ∷ names) f =
    let is_float = is_f64_type type in
    let in_reg = if is_float then ltb float_arg_idx 8 else ltb int_arg_idx 6 in
    add_params (suc p) (if in_reg && not is_float then suc int_arg_idx else int_arg_idx)
      (if in_reg && is_float then suc float_arg_idx else float_arg_idx)
      (if in_reg then stack_arg_idx else suc stack_arg_idx) types names
      (add_param in_reg p stack_arg_idx (some name) f)
add_params p int_arg_idx float_arg_idx stack_arg_idx _ _ f = f

abbrev pub is_var : IrValueKind → Bool
is_var ir_val_var = true
is_var _ = false

abbrev pub is_alloca : IrOpcode → Bool
is_alloca ir_op_alloca = true
is_alloca _ = false

abbrev pub missing : Option StackSlot → Bool
missing none = true
missing (some s) = false

unfoldable pub add_var : IrOpcode → Option IrValue → Slots → Slots
add_var op none f = f
add_var op (some v) f =
    if is_alloca op && is_var v.kind && missing (find_var_slot v.name f.slots)
    then add_slot slot_var (negsuc 0) v.name f
    else f

unfoldable pub add_vars : List IrInstruction → Slots → Slots
add_vars [] f = f
add_vars (inst ∷ rest) f = add_vars rest (add_var inst.op inst.result f)

-- The slots that the register allocation asks for.
unfoldable pub add_spills : RegAllocResult → List LiveInterval → Slots → Slots
add_spills res [] f = f
add_spills res (p ∷ rest) f =
    add_spills res rest
      (if needs_slot res.scanned p then add_slot slot_spill (pos p.val_id) none f else f)

-- Without a register allocation, one for each register that is defined.
unfoldable pub add_result : Option IrValue → Slots → Slots
add_result none f = f
add_result (some v) f =
    if is_reg v.kind && missing (find_slot slot_spill (pos v.id) f.slots)
    then add_slot slot_spill (pos v.id) none f
    else f

unfoldable pub add_results : List IrInstruction → Slots → Slots
add_results [] f = f
add_results (inst ∷ rest) f = add_results rest (add_result inst.result f)

unfoldable pub add_registers : Option RegAllocResult → List IrInstruction → Slots → Slots
add_registers (some res) insts f = add_spills res res.intervals f
add_registers none insts f = add_results insts f

pub record X86FunctionFrame : Type 0 where
  pub slots : List StackSlot
  pub total_stack_size : ℕ
  pub callee_saved_count : ℕ
  pub callee_saved_regs : List X86Reg

abbrev pub saved_count : Option RegAllocResult → ℕ
saved_count none = 0
saved_count (some res) = res.callee_saved_count

abbrev pub saved_regs : Option RegAllocResult → List X86Reg
saved_regs none = []
saved_regs (some res) = res.callee_saved_used

-- `(total_needed + 15) & ~15`
abbrev pub align_16 : ℕ → ℕ
align_16 n = (n + 15) / 16 * 16

unfoldable pub frame_slots : IrFunction → Option RegAllocResult → Slots
frame_slots fn regalloc = add_registers regalloc (all_insts fn.blocks) (
    add_vars (all_insts fn.blocks) (
      add_params 0 0 0 0 fn.param_types fn.param_names
        (record { slots = []; counter = saved_count regalloc * 8 })))

unfoldable pub x86_frame_build : IrFunction → Option RegAllocResult → X86FunctionFrame
x86_frame_build fn regalloc =
    let k = saved_count regalloc in
    let f = frame_slots fn regalloc in
    let raw_locals = f.counter - k * 8 in
    let total_needed = k * 8 + raw_locals in
    record {
      slots = f.slots;
      total_stack_size = align_16 total_needed - k * 8;
      callee_saved_count = k;
      callee_saved_regs = saved_regs regalloc;
    }

-- `*out_offset` and `*out_size`
abbrev pub offset_and_size : Option StackSlot → Option (ℤ × ℕ)
offset_and_size none = none
offset_and_size (some s) = some (s.offset, s.size)

unfoldable pub find_param_name : Option String → List StackSlot → Option StackSlot
find_param_name name [] = none
find_param_name name (s ∷ rest) =
    if same_kind s.kind slot_param && same_name s.name name
    then some s
    else find_param_name name rest

abbrev pub or_param_name : Option StackSlot → Option String → List StackSlot → Option StackSlot
or_param_name none name slots = find_param_name name slots
or_param_name (some s) name slots = some s

unfoldable pub find_value_slot : IrValueKind → IrValue → List StackSlot → Option StackSlot
find_value_slot ir_val_var v slots = find_var_slot v.name slots
find_value_slot ir_val_reg v slots = find_slot slot_spill (pos v.id) slots
find_value_slot ir_val_param v slots =
    or_param_name (find_slot slot_param (pos v.id) slots) v.name slots
find_value_slot _ v slots = none

unfoldable pub x86_frame_get_offset : Option X86FunctionFrame → Option IrValue → Option (ℤ × ℕ)
x86_frame_get_offset (some frame) (some v) = offset_and_size (find_value_slot v.kind v frame.slots)
x86_frame_get_offset _ _ = none

abbrev pub offset_of : Option StackSlot → Option ℤ
offset_of none = none
offset_of (some s) = some s.offset

unfoldable pub x86_frame_get_spill_offset : Option X86FunctionFrame → ℤ → Option ℤ
x86_frame_get_spill_offset none val_id = none
x86_frame_get_spill_offset (some frame) val_id = offset_of (find_slot slot_spill val_id frame.slots)
