-- ===== src/Ir/Cfg/Edges.antt =====
-- The two lists of a graph's edges agree.
use cco_lang.Base.{
  ℕ, ◌≡◌, refl, sym, ◌∙◌, ap, Bool, true, false, ◌&&◌, ◌||◌, ◌==◌, Option, none, some, List, [],
  ◌∷◌, arith, Bool-cases, inl, inr, if◌then◌else◌,
}
use native.Mathlib.Decide.{ℕ_discrete}
use cco_lang.Ir.Instr.{IrOpcode, ir_op_br, ir_op_condbr, IrInstruction, IrBasicBlock}
use cco_lang.Ir.Cfg.{
  block_of, update_block, listed, push_successor, push_predecessor, add_edge,
  ir_block_add_successor, clear_edges, last_of, add_targets, add_last, add_all_edges,
  ir_recompute_cfg,
}
use cco_lang.Ir.Cfg.Writes.{
  successors_of, predecessors_of, exists, update_other, update_self, or_false, succ_push, succ_keep,
  pred_keep, pred_push, exists_update,
}

-- Between two blocks of a function, one is a successor where the other is a predecessor.
pub record Paired (blocks : List IrBasicBlock) : Type 0 where
  pub paired :
      (b c : ℕ)
      → exists (block_of blocks b) ≡ true
      → exists (block_of blocks c) ≡ true
      → listed c (successors_of (block_of blocks b))
        ≡ listed b (predecessors_of (block_of blocks c))

-- What the two writes of an edge do to the lists of all blocks.
module _ (from to : ℕ) (blocks : List IrBasicBlock) where
  abbrev sourced : List IrBasicBlock
  sourced = update_block from (push_successor to) blocks

  succ_after :
      (b c : ℕ)
      → exists (block_of blocks b) ≡ true
      → listed c (successors_of (block_of (update_block to (push_predecessor from) sourced) b))
        ≡ (listed c (successors_of (block_of blocks b)) || (b == from && c == to))
  succ_after b c h = same_successors ∙ at_source
    where
      same_successors :
          listed c (successors_of (block_of (update_block to (push_predecessor from) sourced) b))
          ≡ listed c (successors_of (block_of sourced b))
      same_successors = elim (ℕ_discrete b to) [
        | yes e ↦
            rw (e, update_self to (push_predecessor from) (λ bb. refl) sourced)
              (ap (listed c) (succ_keep from (block_of sourced to)))
        | no differs ↦
            ap (λ o. listed c (successors_of o))
              (update_other to (push_predecessor from) (λ bb. refl) sourced b differs)
      ]

      at_source :
          listed c (successors_of (block_of sourced b))
          ≡ (listed c (successors_of (block_of blocks b)) || (b == from && c == to))
      at_source = elim (ℕ_discrete b from) [
        | yes e ↦
            let test : (b == from) ≡ true = ground arith in
            let is : exists (block_of blocks from) ≡ true = rw e at h in
            rw (test, e, update_self from (push_successor to) (λ bb. refl) blocks)
              (succ_push to c (block_of blocks from) is)
        | no differs ↦
            let test : (b == from) ≡ false = ground arith in
            let kept =
              ap (λ o. listed c (successors_of o))
                (update_other from (push_successor to) (λ bb. refl) blocks b differs) in
            rw test (kept ∙ or_false _)
      ]

  pred_after :
      (c b : ℕ)
      → exists (block_of blocks c) ≡ true
      → listed b (predecessors_of (block_of (update_block to (push_predecessor from) sourced) c))
        ≡ (listed b (predecessors_of (block_of blocks c)) || (b == from && c == to))
  pred_after c b h = at_target
    where
      same_predecessors :
          (x : ℕ)
          → listed b (predecessors_of (block_of sourced x))
            ≡ listed b (predecessors_of (block_of blocks x))
      same_predecessors x = elim (ℕ_discrete x from) [
        | yes e ↦
            rw (e, update_self from (push_successor to) (λ bb. refl) blocks)
              (ap (listed b) (pred_keep to (block_of blocks from)))
        | no differs ↦
            ap (λ o. listed b (predecessors_of o))
              (update_other from (push_successor to) (λ bb. refl) blocks x differs)
      ]

      at_target :
          listed b (predecessors_of (block_of (update_block to (push_predecessor from) sourced) c))
          ≡ (listed b (predecessors_of (block_of blocks c)) || (b == from && c == to))
      at_target = elim (ℕ_discrete c to) [
        | yes e ↦
            let test : (c == to) ≡ true = ground arith in
            let is : exists (block_of blocks to) ≡ true = rw e at h in
            let still : exists (block_of sourced to) ≡ true =
              exists_update from (push_successor to) (λ bb. refl) blocks to ∙ is in
            let old = same_predecessors to in
            let pushed = pred_push from b (block_of sourced to) still in
            rw (test, e, update_self to (push_predecessor from) (λ bb. refl) sourced)
              (pushed ∙ ap (λ (a : Bool). a || b == from) old ∙ ground arith)
        | no differs ↦
            let test : (c == to) ≡ false = ground arith in
            let kept =
              ap (λ o. listed b (predecessors_of o))
                (update_other to (push_predecessor from) (λ bb. refl) sourced c differs) in
            let none_new : (b == from && c == to) ≡ false = rw test (ground arith) in
            rw none_new (kept ∙ same_predecessors c ∙ or_false _)
      ]

  pushed-Paired : Paired blocks → Paired (update_block to (push_predecessor from) sourced)
  pushed-Paired p = record {
    paired = λ b c hb hc.
        let was : (x : ℕ)
            → exists (block_of (update_block to (push_predecessor from) sourced) x)
              ≡ exists (block_of blocks x) =
          λ x.
            exists_update to (push_predecessor from) (λ bb. refl) sourced x
            ∙ exists_update from (push_successor to) (λ bb. refl) blocks x in
        let hb' = sym (was b) ∙ hb in
        let hc' = sym (was c) ∙ hc in
        succ_after b c hb'
        ∙ ap (λ (a : Bool). a || (b == from && c == to)) (p.paired b c hb' hc')
        ∙ sym (pred_after c b hc');
  }

add_edge-Paired :
    (from to : ℕ) (o : Option IrBasicBlock) (blocks : List IrBasicBlock)
    → Paired blocks
    → Paired (add_edge from to o blocks)
unfolding add_edge
add_edge-Paired from to none blocks p = p
add_edge-Paired from to (some bb) blocks p =
    either (listed to bb.successors) (pushed-Paired from to blocks p)
  where
    either :
        (t : Bool)
        → Paired
            (update_block to (push_predecessor from) (update_block from (push_successor to) blocks))
        → Paired (
            if t
            then blocks
            else update_block to
                (push_predecessor from)
                (update_block from (push_successor to) blocks))
    either true q = p
    either false q = q

ir_block_add_successor-Paired :
    (from : ℕ) (to : Option ℕ) (blocks : List IrBasicBlock)
    → Paired blocks
    → Paired (ir_block_add_successor from to blocks)
unfolding ir_block_add_successor
ir_block_add_successor-Paired from none blocks p = p
ir_block_add_successor-Paired from (some to) blocks p =
    add_edge-Paired from to (block_of blocks from) blocks p

add_targets-Paired :
    (from : ℕ) (op : IrOpcode) (term : IrInstruction) (blocks : List IrBasicBlock)
    → Paired blocks
    → Paired (add_targets from op term blocks)
unfolding add_targets
add_targets-Paired from ir_op_br term blocks p =
    ir_block_add_successor-Paired from term.target_true blocks p
add_targets-Paired from ir_op_condbr term blocks p =
    ir_block_add_successor-Paired from term.target_false _
      (ir_block_add_successor-Paired from term.target_true blocks p)
add_targets-Paired from _ term blocks p = p

add_last-Paired :
    (from : ℕ) (o : Option IrInstruction) (blocks : List IrBasicBlock)
    → Paired blocks
    → Paired (add_last from o blocks)
unfolding add_last
add_last-Paired from none blocks p = p
add_last-Paired from (some term) blocks p = add_targets-Paired from term.op term blocks p

add_all_edges-Paired :
    (todo blocks : List IrBasicBlock) → Paired blocks → Paired (add_all_edges todo blocks)
unfolding add_all_edges
add_all_edges-Paired [] blocks p = p
add_all_edges-Paired (bb ∷ rest) blocks p =
    add_all_edges-Paired rest _ (add_last-Paired bb.id (last_of bb.insts) blocks p)

clear_edges-empty :
    (blocks : List IrBasicBlock) (b : ℕ)
    → (successors_of (block_of (clear_edges blocks) b) ≡ [])
      × (predecessors_of (block_of (clear_edges blocks) b) ≡ [])
unfolding clear_edges block_of
clear_edges-empty [] b = (refl, refl)
clear_edges-empty (bb ∷ rest) b = elim (Bool-cases (bb.id == b)) [
  | inl e ↦ rw e (refl, refl)
  | inr e ↦ rw e (clear_edges-empty rest b)
]

-- Whatever edges the blocks had, after the recomputation a block of the function is a successor of
-- another exactly where that one is its predecessor.
pub ir_recompute_cfg-Paired : (blocks : List IrBasicBlock) → Paired (ir_recompute_cfg blocks)
unfolding ir_recompute_cfg listed
ir_recompute_cfg-Paired blocks = add_all_edges-Paired blocks (clear_edges blocks) (record {
  paired = λ b c hb hc.
      ap (listed c) (clear_edges-empty blocks b).0
      ∙ sym (ap (listed b) (clear_edges-empty blocks c).1);
})
