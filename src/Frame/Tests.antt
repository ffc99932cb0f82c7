-- ===== src/Frame/Tests.antt =====
-- Witnesses for the frame: a function with a float and two integers, and one spilled register.
use cco_lang.Base.{◌≡◌, refl, true, false, some, [], ◌∷◌, inl, ℤ, pos}
use cco_lang.Ir.Types.{ir_type_i32, ir_type_f64}
use cco_lang.Ir.Instr.{IrFunction}
use cco_lang.Regalloc.Registers.{reg_class_int}
use cco_lang.Regalloc.Scan.{LiveInterval, scan_start}
use cco_lang.Regalloc.Result.{RegAllocResult, no_spills}
use cco_lang.Frame.{x86_frame_build, x86_frame_get_spill_offset}
use cco_lang.Frame.Spilled.{x86_frame_get_spill_offset_found}

abbrev three : IrFunction
three = record {
  name = "three";
  return_type = ir_type_i32;
  param_names = "a" ∷ "b" ∷ "c" ∷ [];
  param_types = ir_type_i32 ∷ ir_type_f64 ∷ ir_type_i32 ∷ [];
  entry_block = some 0;
  blocks = [];
  next_reg_id = 1;
  next_block_id = 1;
}

abbrev spilled : LiveInterval
spilled = record { val_id = 0; reg_class = reg_class_int; start = 0; end = 3; crosses_call = false }

abbrev allocation : RegAllocResult
allocation = record {
  total_regs = 1;
  intervals = spilled ∷ [];
  scanned = record scan_start { is_spilled = λ v. true };
  callee_saved_used = [];
  callee_saved_count = 0;
  counts = no_spills;
  total_spill_bytes = 8;
}

-- Two of the eight parameters come on the stack.
abbrev eight : IrFunction
eight = record three {
  name = "eight";
  param_names = "a" ∷ "b" ∷ "c" ∷ "d" ∷ "e" ∷ "f" ∷ "g" ∷ "h" ∷ [];
  param_types =
      ir_type_i32 ∷ ir_type_i32 ∷ ir_type_i32 ∷ ir_type_i32 ∷ ir_type_i32 ∷ ir_type_i32
      ∷ ir_type_i32 ∷ ir_type_i32 ∷ [];
}

x86_frame_get_spill_offset_found_example :
    (z : ℤ) × (x86_frame_get_spill_offset (some (x86_frame_build three (some allocation))) (pos 0)
      ≡ some z)
x86_frame_get_spill_offset_found_example =
    x86_frame_get_spill_offset_found three allocation spilled (inl refl) refl
