-- ===== src/Regalloc/Intervals.antt =====
-- The live intervals of `regalloc_run`, src/backend/x86_64/x86_64_regalloc.c, and the whole function.
-- Each loop over the registers touches the entry of its own register only, so the loops stand here
-- for one register, `v`. A start of INT_MAX and an end of -1, which say that there is none yet, are
-- `none`; instructions number below INT_MAX.
pub mod Covers
pub mod Whole
use cco_lang.Base.{
  ℕ, zero, suc, ◌+◌, Bool, true, false, ◌&&◌, ◌||◌, not, ltb, ◌==◌, Option, none, some, List, [],
  ◌∷◌, ◌++◌, length, if◌then◌else◌,
}
use cco_lang.Ir.Types.{is_f64_type}
use cco_lang.Ir.Instr.{
  IrValue, IrOpcode, ir_op_call, ir_op_print, ir_op_free, ir_op_release, IrInstruction,
  IrBasicBlock, IrFunction,
}
use cco_lang.Regalloc.Registers.{RegClass, reg_class_int, reg_class_float}
use cco_lang.Regalloc.Scan.{LiveInterval}
use cco_lang.Regalloc.Liveness.{in_regs, BlockLiveness, Flow, number_blocks, live_sets}
use cco_lang.Regalloc.Result.{RegAllocResult, allocate}

unfoldable pub is_call_op : IrOpcode → Bool
is_call_op ir_op_call = true
is_call_op ir_op_print = true
is_call_op ir_op_free = true
is_call_op ir_op_release = true
is_call_op _ = false

-- The indices of the calls.
unfoldable pub call_positions : ℕ → List IrInstruction → List ℕ
call_positions i [] = []
call_positions i (inst ∷ rest) =
    if is_call_op inst.op then i ∷ call_positions (suc i) rest else call_positions (suc i) rest

unfoldable pub all_insts : List IrBasicBlock → List IrInstruction
all_insts [] = []
all_insts (bb ∷ rest) = bb.insts ++ all_insts rest

pub record Bounds : Type 0 where
  pub start : Option ℕ
  pub end : Option ℕ

abbrev pub lower : ℕ → Option ℕ → Option ℕ
lower i none = some i
lower i (some s) = if ltb i s then some i else some s

abbrev pub raise : ℕ → Option ℕ → Option ℕ
raise i none = some i
raise i (some e) = if ltb e i then some i else some e

abbrev pub or_start : ℕ → Option ℕ → Option ℕ
or_start i none = some i
or_start i (some s) = some s

abbrev pub extend_in : Bool → ℕ → Bounds → Bounds
extend_in false i r = r
extend_in true i r = record { start = lower i r.start; end = raise i r.end }

abbrev pub extend_out : Bool → ℕ → Bounds → Bounds
extend_out false i r = r
extend_out true i r = record r { end = raise i r.end }

-- From the blocks that a register is live into or out of.
unfoldable pub cover_blocks : Flow → ℕ → ℕ → List BlockLiveness → Bounds → Bounds
cover_blocks s v b [] r = r
cover_blocks s v b (bl ∷ rest) r =
    cover_blocks s v (suc b) rest
      (extend_out (s.live_out b v) bl.end_inst (extend_in (s.live_in b v) bl.start_inst r))

abbrev pub is_value : ℕ → ℕ → Option IrValue → Bool
is_value total v none = false
is_value total v (some x) = in_regs total x && x.id == v

abbrev pub extend_use : Bool → ℕ → Bounds → Bounds
extend_use false i r = r
extend_use true i r = record { start = or_start i r.start; end = raise i r.end }

unfoldable pub cover_args : ℕ → ℕ → ℕ → List IrValue → Bounds → Bounds
cover_args total v i [] r = r
cover_args total v i (a ∷ args) r =
    cover_args total v i args (extend_use (is_value total v (some a)) i r)

unfoldable pub cover_inst : ℕ → ℕ → ℕ → IrInstruction → Bounds → Bounds
cover_inst total v i inst r = cover_args total v i inst.args (
    extend_use (is_value total v inst.rhs) i
      (extend_use (is_value total v inst.lhs) i (extend_in (is_value total v inst.result) i r)))

unfoldable pub cover_insts : ℕ → ℕ → ℕ → List IrInstruction → Bounds → Bounds
cover_insts total v i [] r = r
cover_insts total v i (inst ∷ rest) r =
    cover_insts total v (suc i) rest (cover_inst total v i inst r)

abbrev pub no_bounds : Bounds
no_bounds = record { start = none; end = none }

unfoldable pub bounds_of : ℕ → List BlockLiveness → Flow → List IrInstruction → ℕ → Bounds
bounds_of total bls s insts v = cover_insts total v 0 insts (cover_blocks s v 0 bls no_bounds)

-- The normalised start and end.
abbrev pub start_of : Bounds → ℕ
start_of r = elim r.start [ none ↦ 0 | some s ↦ s ]

abbrev pub end_or : ℕ → Option ℕ → ℕ
end_or s none = s
end_or s (some e) = if ltb e s then s else e

abbrev pub end_of : Bounds → ℕ
end_of r = elim r.start [ none ↦ 0 | some s ↦ end_or s r.end ]

unfoldable pub crosses_any : ℕ → ℕ → List ℕ → Bool
crosses_any start end [] = false
crosses_any start end (c ∷ calls) = (ltb start c && ltb c end) || crosses_any start end calls

abbrev pub class_of_value : Option IrValue → RegClass
class_of_value none = reg_class_int
class_of_value (some v) = if is_f64_type v.type then reg_class_float else reg_class_int

-- The class that the last definition gives.
unfoldable pub class_of : ℕ → ℕ → List IrInstruction → RegClass → RegClass
class_of total v [] class = class
class_of total v (inst ∷ rest) class =
    class_of total v rest
      (if is_value total v inst.result then class_of_value inst.result else class)

unfoldable pub interval_of : ℕ → List BlockLiveness → Flow → List IrInstruction → ℕ → LiveInterval
interval_of total bls s insts v =
    let r = bounds_of total bls s insts v in
    record {
      val_id = v;
      reg_class = class_of total v insts reg_class_int;
      start = start_of r;
      end = end_of r;
      crosses_call = crosses_any (start_of r) (end_of r) (call_positions 0 insts);
    }

-- The entries from an index on.
unfoldable pub entries {ℓ} : {A : Type ℓ} → ℕ → ℕ → (ℕ → A) → List A
entries i zero f = []
entries i (suc n) f = f i ∷ entries (suc i) n f

unfoldable pub live_intervals : IrFunction → List LiveInterval
live_intervals fn =
    let total = fn.next_reg_id in
    let bls = number_blocks total 0 fn.blocks in
    entries 0 total (interval_of total bls (live_sets total bls) (all_insts fn.blocks))

-- With no registers the code returns before it allocates; there is then nothing to allocate.
unfoldable pub regalloc_run :
    (List LiveInterval → List LiveInterval) → Option IrFunction → Option RegAllocResult
regalloc_run qsort none = none
regalloc_run qsort (some fn) = some (allocate qsort (live_intervals fn))
