-- ===== src/Regalloc/Liveness/Paths.antt =====
-- The dataflow finds every register that is live along a path of blocks.
use cco_lang.Base.{
  ℕ, zero, suc, ◌*◌, ◌<◌, ◌≡◌, ◌⊎◌, ◌↔◌, refl, sym, ◌∙◌, Bool, true, false, Option, none, some,
  List, [], ◌∷◌, length, get_elem?, arith, Bool-cases, inl, inr, if◌then◌else◌,
}
use native.Mathlib.Decide.{ℕ_discrete}
use cco_lang.Regalloc.Scan.{set_id}
use cco_lang.Regalloc.Liveness.{
  BlockLiveness, Flow, find_block, live_at, live_after, new_out, new_in, flow_block, flow_round,
  flow_loop, live_sets,
}
use cco_lang.Regalloc.Liveness.Solved.{live_sets-Solved}
use cco_lang.Regalloc.Liveness.Ends.{get_elem?_below, live_sets-ends}

-- The block with the index `j` is one of the successors.
abbrev pub Successor : List BlockLiveness → ℕ → List ℕ → Type 0
Successor bls j [] = ⊥
Successor bls j (s ∷ succs) = (find_block bls s ≡ some j) ⊎ Successor bls j succs

-- The register is used along a path from the block on before it is defined.
pub data LiveInto (bls : List BlockLiveness) (v : ℕ) : ℕ → Type 0 where
  used_here :
      (b : ℕ) (bl : BlockLiveness)
      → get_elem? bls b ≡ some bl
      → bl.sets.use_set v ≡ true
      → LiveInto bls v b
  passed_on :
      (b j : ℕ) (bl : BlockLiveness)
      → get_elem? bls b ≡ some bl
      → bl.sets.def_set v ≡ false
      → Successor bls j bl.successors
      → LiveInto bls v j
      → LiveInto bls v b

live_after_found :
    (succs : List ℕ) (bls : List BlockLiveness) (live_in : ℕ → ℕ → Bool) (j v : ℕ)
    → Successor bls j succs
    → live_in j v ≡ true
    → live_after live_in bls succs v ≡ true
unfolding live_after
live_after_found [] bls live_in j v h is = absurd h
live_after_found (x ∷ succs) bls live_in j v (inl e) is = rw (e, is) refl
live_after_found (x ∷ succs) bls live_in j v (inr h) is =
    let rest = live_after_found succs bls live_in j v h is in ground arith

LiveInto-found :
    {total : ℕ} {bls : List BlockLiveness} {v b : ℕ}
    → LiveInto bls v b
    → v < total
    → (live_sets total bls).live_in b v ≡ true
LiveInto-found {total} {bls} {v} (used_here b bl at is_used) lt =
    let eq = (live_sets-Solved total bls b (get_elem?_below bls b bl at)).solved_in bl at v lt in
    eq ∙ rw is_used refl
LiveInto-found {total} {bls} {v} (passed_on b j bl at undefined next path) lt =
    let s = live_sets total bls in
    let eq = (live_sets-Solved total bls b (get_elem?_below bls b bl at)).solved_in bl at v lt in
    let there = LiveInto-found path lt in
    let behind : live_after s.live_in bls bl.successors v ≡ true =
      live_after_found bl.successors bls s.live_in j v next there in
    eq ∙ ground arith

-- Conversely, each entry that the dataflow sets has such a path.
record Justified (bls : List BlockLiveness) (s : Flow) : Type 0 where
  pub ins : (b v : ℕ) → s.live_in b v ≡ true → LiveInto bls v b
  pub outs :
      (b v : ℕ) (bl : BlockLiveness)
      → get_elem? bls b ≡ some bl
      → s.live_out b v ≡ true
      → (j : ℕ) × Successor bls j bl.successors × LiveInto bls v j

index_of_live :
    (live_in : ℕ → ℕ → Bool) (o : Option ℕ) (v : ℕ)
    → live_at live_in o v ≡ true
    → (j : ℕ) × (o ≡ some j) × (live_in j v ≡ true)
index_of_live live_in none v h = absurd cc
index_of_live live_in (some j) v h = (j, refl, h)

live_after_from :
    (succs : List ℕ) (bls : List BlockLiveness) (live_in : ℕ → ℕ → Bool) (v : ℕ)
    → live_after live_in bls succs v ≡ true
    → (j : ℕ) × Successor bls j succs × (live_in j v ≡ true)
unfolding live_after
live_after_from [] bls live_in v h = absurd cc
live_after_from (x ∷ succs) bls live_in v h =
    elim (Bool-cases (live_at live_in (find_block bls x) v)) [
      | inl here ↦
          let (j, is, live) = index_of_live live_in (find_block bls x) v here in (j, inl is, live)
      | inr not_here ↦
          let (j, there, live) = live_after_from succs bls live_in v (rw not_here at h) in
          (j, inr there, live)
    ]

module _ {bls : List BlockLiveness} {s : Flow} (g : Justified bls s) where
  new_out_from :
      (b v : ℕ) (bl : BlockLiveness)
      → get_elem? bls b ≡ some bl
      → new_out bls bl b s v ≡ true
      → (j : ℕ) × Successor bls j bl.successors × LiveInto bls v j
  new_out_from b v bl at h = elim (Bool-cases (s.live_out b v)) [
    | inl before ↦ g.outs b v bl at before
    | inr not_before ↦
        let (j, next, live) = live_after_from bl.successors bls s.live_in v (rw not_before at h) in
        (j, next, g.ins j v live)
  ]

  new_in_from :
      (b v : ℕ) (bl : BlockLiveness)
      → get_elem? bls b ≡ some bl
      → new_in bls bl b s v ≡ true
      → LiveInto bls v b
  new_in_from b v bl at h = elim (Bool-cases (bl.sets.use_set v)) [
    | inl is_used ↦ used_here b bl at is_used
    | inr not_used ↦
        let out : new_out bls bl b s v ≡ true = ground arith in
        let undefined : bl.sets.def_set v ≡ false = ground arith in
        let (j, next, path) = new_out_from b v bl at out in passed_on b j bl at undefined next path
  ]

  flow_block-Justified :
      (total b : ℕ) (bl : BlockLiveness)
      → get_elem? bls b ≡ some bl
      → Justified bls (flow_block total bls b (some bl) s)
  unfolding flow_block
  flow_block-Justified total b bl at = record {
    ins = λ b' v h. elim (ℕ_discrete b' b) [
      | yes e ↦
          let now : set_id s.live_in b (new_in bls bl b s) b' ≡ new_in bls bl b s = ground arith in
          rw e (new_in_from b v bl at (rw now at h))
      | no differs ↦
          let now : set_id s.live_in b (new_in bls bl b s) b' ≡ s.live_in b' = ground arith in
          g.ins b' v (rw now at h)
    ];
    outs = λ b' v bl' at' h. elim (ℕ_discrete b' b) [
      | yes e ↦
          let at_b : get_elem? bls b ≡ some bl' = rw e at at' in
          let same : bl ≡ bl' = cc in
          let now : set_id s.live_out b (new_out bls bl b s) b' ≡ new_out bls bl b s =
            ground arith in
          rw (sym same) (new_out_from b v bl at (rw now at h))
      | no differs ↦
          let now : set_id s.live_out b (new_out bls bl b s) b' ≡ s.live_out b' = ground arith in
          g.outs b' v bl' at' (rw now at h)
    ];
  }

  flow_at-Justified :
      (total b : ℕ) (o : Option BlockLiveness)
      → get_elem? bls b ≡ o
      → Justified bls (flow_block total bls b o s)
  unfolding flow_block
  flow_at-Justified total b none at = g
  flow_at-Justified total b (some bl) at = flow_block-Justified total b bl at

flow_round-Justified :
    (b total : ℕ) {bls : List BlockLiveness} {s : Flow}
    → Justified bls s
    → Justified bls (flow_round total bls b s)
unfolding flow_round
flow_round-Justified zero total g = g
flow_round-Justified (suc b) total {bls} g =
    flow_round-Justified b total (flow_at-Justified g total b (get_elem? bls b) refl)

either_flow :
    {bls : List BlockLiveness} (changed : Bool) {next rest : Flow}
    → Justified bls next
    → Justified bls rest
    → Justified bls (if changed then rest else next)
either_flow true g h = h
either_flow false g h = g

flow_loop-Justified :
    (fuel total : ℕ) {bls : List BlockLiveness} {s : Flow}
    → Justified bls s
    → Justified bls (flow_loop fuel total bls s)
unfolding flow_loop
flow_loop-Justified zero total g = g
flow_loop-Justified (suc fuel) total {bls} {s} g =
    let quiet : Justified bls (record s { changed = false }) = record {
      ins = g.ins;
      outs = g.outs;
    } in
    let next = flow_round-Justified (length bls) total quiet in
    either_flow _ next (flow_loop-Justified fuel total next)

-- The dataflow comes to an end without a change, and a register in range is then live into a block
-- exactly where a path from the block on uses it before it is defined.
pub live_sets_exact :
    (total : ℕ) (bls : List BlockLiveness)
    → ((live_sets total bls).changed ≡ false)
      × ((b v : ℕ) → v < total → (((live_sets total bls).live_in b v ≡ true) ↔ LiveInto bls v b))
unfolding live_sets
live_sets_exact total bls = (
  live_sets-ends total bls,
  λ b v lt. (
    (flow_loop-Justified (suc (2 * (length bls * total))) total
          (record { ins = λ b' v' h. absurd cc; outs = λ b' v' bl at h. absurd cc })).ins
        b v,
    λ path. LiveInto-found path lt,
  ),
)
