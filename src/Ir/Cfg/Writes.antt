-- ===== src/Ir/Cfg/Writes.antt =====
-- What the writes of an edge do to the lists of a block and of the others.
use cco_lang.Base.{
  ℕ, ◌≡◌, ◌≢◌, refl, ap, Bool, true, false, ◌||◌, ◌==◌, Option, none, some, List, [], ◌∷◌, ◌++◌,
  arith, Bool-cases, inl, inr, if◌then◌else◌,
}
use native.Mathlib.Decide.{ℕ_discrete}
use cco_lang.Ir.Instr.{IrBasicBlock}
use cco_lang.Ir.Cfg.{block_of, update_block, listed, push_successor, push_predecessor}

abbrev pub successors_of : Option IrBasicBlock → List ℕ
successors_of none = []
successors_of (some bb) = bb.successors

abbrev pub predecessors_of : Option IrBasicBlock → List ℕ
predecessors_of none = []
predecessors_of (some bb) = bb.predecessors

abbrev pub exists : Option IrBasicBlock → Bool
exists none = false
exists (some bb) = true

pub listed-append : (x y : ℕ) (xs : List ℕ) → listed x (xs ++ (y ∷ [])) ≡ (listed x xs || x == y)
unfolding listed
listed-append x y [] = ground arith
listed-append x y (z ∷ zs) = rw (listed-append x y zs) (ground arith)

abbrev pub KeepsId : (IrBasicBlock → IrBasicBlock) → Type 0
KeepsId f = (bb : IrBasicBlock) → (f bb).id ≡ bb.id

abbrev pub map_block : (IrBasicBlock → IrBasicBlock) → Option IrBasicBlock → Option IrBasicBlock
map_block f none = none
map_block f (some bb) = some (f bb)

pub update_other :
    (i : ℕ) (f : IrBasicBlock → IrBasicBlock)
    → KeepsId f
    → (blocks : List IrBasicBlock) (b : ℕ) → b ≢ i
    → block_of (update_block i f blocks) b ≡ block_of blocks b
unfolding block_of update_block
update_other i f keeps [] b h = refl
update_other i f keeps (bb ∷ rest) b h =
    let r = update_other i f keeps rest b h in
    let same : (f bb).id ≡ bb.id = keeps bb in
    elim (Bool-cases (bb.id == i)) [
      | inl at ↦
          let new_id : ((f bb).id == b) ≡ false = ground arith in
          let old_id : (bb.id == b) ≡ false = ground arith in rw (at, new_id, old_id) r
      | inr not_at ↦ rw not_at (same_head bb.id b r)
    ]
  where
    same_head :
        (id b : ℕ)
        → block_of (update_block i f rest) b ≡ block_of rest b
        → (if id == b then some bb else block_of (update_block i f rest) b)
          ≡ (if id == b then some bb else block_of rest b)
    same_head id b r = rw r refl

pub update_self :
    (i : ℕ) (f : IrBasicBlock → IrBasicBlock)
    → KeepsId f
    → (blocks : List IrBasicBlock)
    → block_of (update_block i f blocks) i ≡ map_block f (block_of blocks i)
unfolding block_of update_block
update_self i f keeps [] = refl
update_self i f keeps (bb ∷ rest) =
    let same : (f bb).id ≡ bb.id = keeps bb in
    elim (Bool-cases (bb.id == i)) [
      | inl at ↦ let new_id : ((f bb).id == i) ≡ true = ground arith in rw (at, new_id) refl
      | inr not_at ↦ rw (not_at, not_at) (update_self i f keeps rest)
    ]

pub or_false : (a : Bool) → a ≡ (a || false)
or_false true = refl
or_false false = refl

-- What a write does to the lists of one block.
pub succ_push :
    (to c : ℕ) (o : Option IrBasicBlock)
    → exists o ≡ true
    → listed c (successors_of (map_block (push_successor to) o))
      ≡ (listed c (successors_of o) || c == to)
succ_push to c none h = absurd cc
succ_push to c (some bb) h = listed-append c to bb.successors

pub succ_keep :
    (from : ℕ) (o : Option IrBasicBlock)
    → successors_of (map_block (push_predecessor from) o) ≡ successors_of o
succ_keep from none = refl
succ_keep from (some bb) = refl

pub pred_keep :
    (to : ℕ) (o : Option IrBasicBlock)
    → predecessors_of (map_block (push_successor to) o) ≡ predecessors_of o
pred_keep to none = refl
pred_keep to (some bb) = refl

push_once :
    (from b : ℕ) (t : Bool) (xs : List ℕ)
    → listed from xs ≡ t
    → listed b (if t then xs else xs ++ (from ∷ [])) ≡ (listed b xs || b == from)
push_once from b false xs h = listed-append b from xs
push_once from b true xs h = elim (ℕ_discrete b from) [
  | yes e ↦ let there : listed b xs ≡ true = rw e h in rw there refl
  | no differs ↦ ground arith
]

pub pred_push :
    (from b : ℕ) (o : Option IrBasicBlock)
    → exists o ≡ true
    → listed b (predecessors_of (map_block (push_predecessor from) o))
      ≡ (listed b (predecessors_of o) || b == from)
pred_push from b none h = absurd cc
pred_push from b (some bb) h = push_once from b (listed from bb.predecessors) bb.predecessors refl

exists_map :
    (f : IrBasicBlock → IrBasicBlock) (o : Option IrBasicBlock) → exists (map_block f o) ≡ exists o
exists_map f none = refl
exists_map f (some bb) = refl

pub exists_update :
    (i : ℕ) (f : IrBasicBlock → IrBasicBlock)
    → KeepsId f
    → (blocks : List IrBasicBlock) (b : ℕ)
    → exists (block_of (update_block i f blocks) b) ≡ exists (block_of blocks b)
exists_update i f keeps blocks b = elim (ℕ_discrete b i) [
  | yes e ↦ rw (e, update_self i f keeps blocks) (exists_map f (block_of blocks i))
  | no differs ↦ ap exists (update_other i f keeps blocks b differs)
]
