-- ===== src/Regalloc/Liveness/Solved.antt =====
-- The dataflow ends with both of its equations solved for every block.
use cco_lang.Base.{
  ℕ, zero, suc, ◌*◌, ◌<◌, ◌≡◌, refl, sym, ◌∙◌, ap, ap₂, Bool, true, false, ◌&&◌, ◌||◌, not, Option,
  none, some, List, [], ◌∷◌, length, get_elem?, arith, if◌then◌else◌,
}
use native.Mathlib.Decide.{ℕ_discrete}
use cco_lang.Regalloc.Scan.{set_id}
use cco_lang.Regalloc.Liveness.{
  BlockLiveness, Flow, flow_start, find_block, live_at, live_after, differ_below, new_out, new_in,
  flow_block, flow_round, flow_loop, live_sets,
}
use cco_lang.Regalloc.Liveness.Ends.{live_sets-ends}

-- The arrays agree on the registers in range.
pub record Agree (total : ℕ) (s s' : Flow) : Type 0 where
  pub ins : (b v : ℕ) → v < total → s.live_in b v ≡ s'.live_in b v
  pub outs : (b v : ℕ) → v < total → s.live_out b v ≡ s'.live_out b v

-- Both equations hold for a block.
pub record Solved (total : ℕ) (bls : List BlockLiveness) (b : ℕ) (s : Flow) : Type 0 where
  pub solved_out :
      (bl : BlockLiveness)
      → get_elem? bls b ≡ some bl
      → (v : ℕ) → v < total
      → s.live_out b v ≡ new_out bls bl b s v
  pub solved_in :
      (bl : BlockLiveness)
      → get_elem? bls b ≡ some bl
      → (v : ℕ) → v < total
      → s.live_in b v ≡ new_in bls bl b s v

differ_below_same :
    (n : ℕ) (f g : ℕ → Bool) → differ_below n f g ≡ false → (v : ℕ) → v < n → f v ≡ g v
unfolding differ_below
differ_below_same zero f g h v lt = absurd (omega arith)
differ_below_same (suc n) f g h v lt = elim (ℕ_discrete v n) [
  | yes e ↦ let here : f n ≡ g n = ground arith in rw e here
  | no differs ↦
      let rest : differ_below n f g ≡ false = ground arith in
      differ_below_same n f g rest v (omega arith)
]

live_after_same :
    {total : ℕ} {s s' : Flow} (succs : List ℕ) (bls : List BlockLiveness) (v : ℕ)
    → Agree total s s'
    → v < total
    → live_after s.live_in bls succs v ≡ live_after s'.live_in bls succs v
unfolding live_after
live_after_same [] bls v a lt = refl
live_after_same {s} {s'} (x ∷ succs) bls v a lt =
    ap₂ (λ (p q : Bool). p || q) (at_index (find_block bls x)) (live_after_same succs bls v a lt)
  where
    at_index : (o : Option ℕ) → live_at s.live_in o v ≡ live_at s'.live_in o v
    at_index none = refl
    at_index (some i) = a.ins i v lt

new_out_same :
    {total : ℕ} {s s' : Flow} (bls : List BlockLiveness) (bl : BlockLiveness) (b v : ℕ)
    → Agree total s s'
    → v < total
    → new_out bls bl b s v ≡ new_out bls bl b s' v
new_out_same bls bl b v a lt =
    ap₂ (λ (p q : Bool). p || q) (a.outs b v lt) (live_after_same bl.successors bls v a lt)

transfer-Solved :
    {total : ℕ} {s s' : Flow} (bls : List BlockLiveness) (b : ℕ)
    → Agree total s s'
    → Solved total bls b s
    → Solved total bls b s'
transfer-Solved bls b a h = record {
  solved_out =
      λ bl at v lt. sym (a.outs b v lt) ∙ h.solved_out bl at v lt ∙ new_out_same bls bl b v a lt;
  solved_in = λ bl at v lt.
      sym (a.ins b v lt)
      ∙ h.solved_in bl at v lt
      ∙ ap (λ (p : Bool). bl.sets.use_set v || (p && not (bl.sets.def_set v)))
          (new_out_same bls bl b v a lt);
}

Agree-sym : {total : ℕ} {s s' : Flow} → Agree total s s' → Agree total s' s
Agree-sym a = record { ins = λ b v lt. sym (a.ins b v lt); outs = λ b v lt. sym (a.outs b v lt) }

-- What a part of a round that changes nothing leaves: the state, and its blocks solved.
pub record Quiet (total : ℕ) (bls : List BlockLiveness) (b : ℕ) (s s' : Flow) : Type 0 where
  pub before : s.changed ≡ false
  pub agrees : Agree total s s'
  pub solves : (b' : ℕ) → b' < b → Solved total bls b' s

unchanged_block :
    (total : ℕ) (bls : List BlockLiveness) (b : ℕ) (bl : BlockLiveness) (s : Flow)
    → get_elem? bls b ≡ some bl
    → (flow_block total bls b (some bl) s).changed ≡ false
    → (s.changed ≡ false)
      × Agree total s (flow_block total bls b (some bl) s)
      × Solved total bls b s
unfolding flow_block
unchanged_block total bls b bl s at h =
    let same_out = differ_below_same total (s.live_out b) (new_out bls bl b s) (ground arith) in
    let same_in = differ_below_same total (s.live_in b) (new_in bls bl b s) (ground arith) in
    (
      ground arith,
      record {
        ins = λ b' v lt. elim (ℕ_discrete b' b) [
          | yes e ↦
              let now : set_id s.live_in b (new_in bls bl b s) b' ≡ new_in bls bl b s =
                ground arith in
              rw (now, e) (same_in v lt)
          | no differs ↦
              let now : set_id s.live_in b (new_in bls bl b s) b' ≡ s.live_in b' = ground arith in
              rw now refl
        ];
        outs = λ b' v lt. elim (ℕ_discrete b' b) [
          | yes e ↦
              let now : set_id s.live_out b (new_out bls bl b s) b' ≡ new_out bls bl b s =
                ground arith in
              rw (now, e) (same_out v lt)
          | no differs ↦
              let now : set_id s.live_out b (new_out bls bl b s) b' ≡ s.live_out b' =
                ground arith in
              rw now refl
        ];
      },
      record {
        solved_out = λ bl' at' v lt. let same : bl ≡ bl' = cc in rw (sym same) (same_out v lt);
        solved_in = λ bl' at' v lt. let same : bl ≡ bl' = cc in rw (sym same) (same_in v lt);
      },
    )

unchanged_at :
    (total : ℕ) (bls : List BlockLiveness) (b : ℕ) (o : Option BlockLiveness) (s : Flow)
    → get_elem? bls b ≡ o
    → (flow_block total bls b o s).changed ≡ false
    → (s.changed ≡ false) × Agree total s (flow_block total bls b o s) × Solved total bls b s
unfolding flow_block
unchanged_at total bls b none s at h = (
  h,
  record { ins = λ b v lt. refl; outs = λ b v lt. refl },
  record { solved_out = λ bl at' v lt. absurd cc; solved_in = λ bl at' v lt. absurd cc },
)
unchanged_at total bls b (some bl) s at h = unchanged_block total bls b bl s at h

unchanged_round :
    (b total : ℕ) (bls : List BlockLiveness) (s : Flow)
    → (flow_round total bls b s).changed ≡ false
    → Quiet total bls b s (flow_round total bls b s)
unfolding flow_round
unchanged_round zero total bls s h = record {
  before = h;
  agrees = record { ins = λ b v lt. refl; outs = λ b v lt. refl };
  solves = λ b' lt. absurd (omega arith);
}
unchanged_round (suc b) total bls s h =
    let r = unchanged_round b total bls (flow_block total bls b (get_elem? bls b) s) h in
    let (before, agrees, solved) = unchanged_at total bls b (get_elem? bls b) s refl r.before in
    record {
      before = before;
      agrees = record {
        ins = λ b' v lt. agrees.ins b' v lt ∙ r.agrees.ins b' v lt;
        outs = λ b' v lt. agrees.outs b' v lt ∙ r.agrees.outs b' v lt;
      };
      solves = λ b' lt. elim (ℕ_discrete b' b) [
        | yes e ↦ rw e solved
        | no differs ↦ transfer-Solved bls b' (Agree-sym agrees) (r.solves b' (omega arith))
      ];
    }

-- The last round is the one that changes nothing.
last_round :
    {total : ℕ} {bls : List BlockLiveness} {b : ℕ} (changed : Bool) (next rest : Flow)
    → next.changed ≡ changed
    → (next.changed ≡ true → rest.changed ≡ false → Solved total bls b rest)
    → (next.changed ≡ false → Solved total bls b next)
    → (if changed then rest else next).changed ≡ false
    → Solved total bls b (if changed then rest else next)
last_round true next rest is again done ended = again is ended
last_round false next rest is again done ended = done is

flow_loop_solves :
    (fuel total : ℕ) (bls : List BlockLiveness) (s : Flow)
    → s.changed ≡ true
    → (flow_loop fuel total bls s).changed ≡ false
    → (b : ℕ) → b < length bls
    → Solved total bls b (flow_loop fuel total bls s)
unfolding flow_loop
flow_loop_solves zero total bls s go ended b below = absurd cc
flow_loop_solves (suc fuel) total bls s go ended b below =
    let quiet : Flow = record s { changed = false } in
    let next = flow_round total bls (length bls) quiet in
    last_round next.changed next (flow_loop fuel total bls next) refl
      (λ changed ended'. flow_loop_solves fuel total bls next changed ended' b below)
      (λ unchanged.
        let q = unchanged_round (length bls) total bls quiet unchanged in
        transfer-Solved bls b q.agrees (q.solves b below))
      ended

pub live_sets-Solved :
    (total : ℕ) (bls : List BlockLiveness) (b : ℕ)
    → b < length bls
    → Solved total bls b (live_sets total bls)
unfolding live_sets
live_sets-Solved total bls b below =
    flow_loop_solves (suc (2 * (length bls * total))) total bls flow_start refl
      (live_sets-ends total bls) b below
