-- ===== src/Ir/Cfg.antt =====
-- The edges of the control flow graph: `ir_block_add_successor` and `ir_recompute_cfg` of src/ir/ir.c. A pointer to a block is its id.
pub mod Writes
pub mod Edges
use cco_lang.Base.{
  ℕ, Bool, true, false, ◌&&◌, ◌||◌, ◌==◌, Option, none, some, List, [], ◌∷◌, ◌++◌, if◌then◌else◌,
}
use cco_lang.Ir.Instr.{
  IrOpcode, ir_op_br, ir_op_condbr, ir_op_alloca, ir_is_terminator, IrInstruction, IrBasicBlock,
}

-- The block with an id.
unfoldable pub block_of : List IrBasicBlock → ℕ → Option IrBasicBlock
block_of [] id = none
block_of (bb ∷ rest) id = if bb.id == id then some bb else block_of rest id

-- A write through a pointer to a block.
unfoldable pub update_block :
    ℕ → (IrBasicBlock → IrBasicBlock) → List IrBasicBlock → List IrBasicBlock
update_block id f [] = []
update_block id f (bb ∷ rest) =
    if bb.id == id then f bb ∷ update_block id f rest else bb ∷ update_block id f rest

unfoldable pub listed : ℕ → List ℕ → Bool
listed x [] = false
listed x (y ∷ ys) = x == y || listed x ys

abbrev pub push_successor : ℕ → IrBasicBlock → IrBasicBlock
push_successor to bb = record bb { successors = bb.successors ++ (to ∷ []) }

abbrev pub push_predecessor : ℕ → IrBasicBlock → IrBasicBlock
push_predecessor from bb = record bb {
  predecessors =
      if listed from bb.predecessors then bb.predecessors else bb.predecessors ++ (from ∷ []);
}

unfoldable pub add_edge : ℕ → ℕ → Option IrBasicBlock → List IrBasicBlock → List IrBasicBlock
add_edge from to none blocks = blocks
add_edge from to (some source) blocks =
    if listed to source.successors
    then blocks
    else update_block to (push_predecessor from) (update_block from (push_successor to) blocks)

unfoldable pub ir_block_add_successor : ℕ → Option ℕ → List IrBasicBlock → List IrBasicBlock
ir_block_add_successor from none blocks = blocks
ir_block_add_successor from (some to) blocks = add_edge from to (block_of blocks from) blocks

unfoldable pub clear_edges : List IrBasicBlock → List IrBasicBlock
clear_edges [] = []
clear_edges (bb ∷ rest) = (record bb { predecessors = []; successors = [] }) ∷ clear_edges rest

unfoldable pub last_of : List IrInstruction → Option IrInstruction
last_of [] = none
last_of (inst ∷ []) = some inst
last_of (inst ∷ next ∷ rest) = last_of (next ∷ rest)

unfoldable pub add_targets : ℕ → IrOpcode → IrInstruction → List IrBasicBlock → List IrBasicBlock
add_targets from ir_op_br term blocks = ir_block_add_successor from term.target_true blocks
add_targets from ir_op_condbr term blocks =
    ir_block_add_successor from term.target_false
      (ir_block_add_successor from term.target_true blocks)
add_targets from _ term blocks = blocks

unfoldable pub add_last : ℕ → Option IrInstruction → List IrBasicBlock → List IrBasicBlock
add_last from none blocks = blocks
add_last from (some term) blocks = add_targets from term.op term blocks

-- The second loop, over the blocks of `fn`.
unfoldable pub add_all_edges : List IrBasicBlock → List IrBasicBlock → List IrBasicBlock
add_all_edges [] blocks = blocks
add_all_edges (bb ∷ rest) blocks = add_all_edges rest (add_last bb.id (last_of bb.insts) blocks)

unfoldable pub ir_recompute_cfg : List IrBasicBlock → List IrBasicBlock
ir_recompute_cfg blocks = add_all_edges blocks (clear_edges blocks)
