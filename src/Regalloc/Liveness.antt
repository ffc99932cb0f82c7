-- ===== src/Regalloc/Liveness.antt =====
-- The liveness analysis of `regalloc_run`, src/backend/x86_64/x86_64_regalloc.c: the numbering of the
-- instructions, what each block uses and defines, and the backwards dataflow. An array over the
-- virtual registers is a function of the register's id, and a block is known by its index.
pub mod Ends
pub mod Solved
pub mod Paths
pub mod ReadsFirst
pub mod Marks
use cco_lang.Base.{
  ℕ, zero, suc, ◌+◌, ◌-◌, ◌*◌, Bool, true, false, ◌&&◌, ◌||◌, not, ltb, ◌==◌, Option, none, some,
  List, [], ◌∷◌, length, get_elem?, if◌then◌else◌,
}
use cco_lang.Ir.Instr.{IrValue, is_reg, IrInstruction, IrBasicBlock, IrFunction}
use cco_lang.Regalloc.Scan.{set_id}

-- The value is a virtual register in range.
abbrev pub in_regs : ℕ → IrValue → Bool
in_regs total v = is_reg v.kind && ltb v.id total

pub record UseDef : Type 0 where
  pub use_set : ℕ → Bool
  pub def_set : ℕ → Bool

unfoldable pub mark_use : ℕ → Option IrValue → UseDef → UseDef
mark_use total none s = s
mark_use total (some v) s =
    if in_regs total v && not (s.def_set v.id)
    then record s { use_set = set_id s.use_set v.id true }
    else s

unfoldable pub mark_def : ℕ → Option IrValue → UseDef → UseDef
mark_def total none s = s
mark_def total (some v) s =
    if in_regs total v then record s { def_set = set_id s.def_set v.id true } else s

unfoldable pub mark_args : ℕ → List IrValue → UseDef → UseDef
mark_args total [] s = s
mark_args total (a ∷ args) s = mark_args total args (mark_use total (some a) s)

unfoldable pub mark_inst : ℕ → IrInstruction → UseDef → UseDef
mark_inst total inst s =
    mark_def total inst.result
      (mark_args total inst.args (mark_use total inst.rhs (mark_use total inst.lhs s)))

unfoldable pub mark_insts : ℕ → List IrInstruction → UseDef → UseDef
mark_insts total [] s = s
mark_insts total (inst ∷ rest) s = mark_insts total rest (mark_inst total inst s)

-- What is fixed of a block before the dataflow.
pub record BlockLiveness : Type 0 where
  pub id : ℕ
  pub successors : List ℕ
  pub start_inst : ℕ
  pub end_inst : ℕ
  pub sets : UseDef

abbrev pub no_marks : UseDef
no_marks = record { use_set = λ v. false; def_set = λ v. false }

unfoldable pub number_blocks : ℕ → ℕ → List IrBasicBlock → List BlockLiveness
number_blocks total start [] = []
number_blocks total start (bb ∷ rest) =
    let behind = start + length bb.insts in
    (record {
      id = bb.id;
      successors = bb.successors;
      start_inst = start;
      end_inst = if ltb start behind then behind - 1 else start;
      sets = mark_insts total bb.insts no_marks;
    })
    ∷ number_blocks total behind rest

-- The state of the dataflow: `live_in` and `live_out` by block and register, and `changed`.
pub record Flow : Type 0 where
  pub live_in : ℕ → ℕ → Bool
  pub live_out : ℕ → ℕ → Bool
  pub changed : Bool

abbrev pub flow_start : Flow
flow_start = record { live_in = λ b v. false; live_out = λ b v. false; changed = true }

abbrev pub next_index : Option ℕ → Option ℕ
next_index none = none
next_index (some i) = some (suc i)

-- The index of a block.
unfoldable pub find_block : List BlockLiveness → ℕ → Option ℕ
find_block [] id = none
find_block (bl ∷ rest) id = if bl.id == id then some 0 else next_index (find_block rest id)

abbrev pub live_at : (ℕ → ℕ → Bool) → Option ℕ → ℕ → Bool
live_at live_in none v = false
live_at live_in (some i) v = live_in i v

-- The register is live into one of the successors.
unfoldable pub live_after : (ℕ → ℕ → Bool) → List BlockLiveness → List ℕ → ℕ → Bool
live_after live_in bls [] v = false
live_after live_in bls (s ∷ succs) v =
    live_at live_in (find_block bls s) v || live_after live_in bls succs v

abbrev pub differ_at : Bool → Bool → Bool
differ_at true b = not b
differ_at false b = b

unfoldable pub differ_below : ℕ → (ℕ → Bool) → (ℕ → Bool) → Bool
differ_below zero f g = false
differ_below (suc n) f g = differ_at (f n) (g n) || differ_below n f g

abbrev pub new_out : List BlockLiveness → BlockLiveness → ℕ → Flow → ℕ → Bool
new_out bls bl b s v = s.live_out b v || live_after s.live_in bls bl.successors v

abbrev pub new_in : List BlockLiveness → BlockLiveness → ℕ → Flow → ℕ → Bool
new_in bls bl b s v = bl.sets.use_set v || (new_out bls bl b s v && not (bl.sets.def_set v))

-- The two assignments for a block.
unfoldable pub flow_block : ℕ → List BlockLiveness → ℕ → Option BlockLiveness → Flow → Flow
flow_block total bls b none s = s
flow_block total bls b (some bl) s = record {
  live_in = set_id s.live_in b (new_in bls bl b s);
  live_out = set_id s.live_out b (new_out bls bl b s);
  changed =
      s.changed
      || differ_below total (s.live_out b) (new_out bls bl b s)
      || differ_below total (s.live_in b) (new_in bls bl b s);
}

-- A round over the blocks below an index, from the last to the first.
unfoldable pub flow_round : ℕ → List BlockLiveness → ℕ → Flow → Flow
flow_round total bls zero s = s
flow_round total bls (suc b) s = flow_round total bls b (flow_block total bls b (get_elem? bls b) s)

unfoldable pub flow_loop : ℕ → ℕ → List BlockLiveness → Flow → Flow
flow_loop zero total bls s = s
flow_loop (suc fuel) total bls s =
    let next = flow_round total bls (length bls) (record s { changed = false }) in
    let rest = flow_loop fuel total bls next in if next.changed then rest else next

-- A round that changes anything sets an entry of one of the two arrays.
unfoldable pub live_sets : ℕ → List BlockLiveness → Flow
live_sets total bls = flow_loop (suc (2 * (length bls * total))) total bls flow_start
