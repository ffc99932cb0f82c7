-- ===== src/Regalloc/Liveness/Ends.antt =====
-- The dataflow only sets entries, so it ends.
use cco_lang.Base.{
  ℕ, zero, suc, ◌+◌, ◌*◌, ◌≤◌, ◌<◌, ◌≡◌, ◌⊎◌, refl, sym, Bool, true, false, ◌&&◌, ◌||◌, not, some,
  List, [], ◌∷◌, length, get_elem?, arith, Bool-cases, Option-cases, inl, inr, if◌then◌else◌,
}
use native.Mathlib.Decide.{ℕ_discrete}
use cco_lang.Regalloc.Scan.{set_id}
use cco_lang.Regalloc.Liveness.{
  BlockLiveness, Flow, flow_start, differ_below, new_out, new_in, flow_block, flow_round, flow_loop,
  live_sets,
}

-- How many registers are not set.
abbrev pub unset : ℕ → (ℕ → Bool) → ℕ
unset zero f = 0
unset (suc n) f = (if f n then 0 else 1) + unset n f

abbrev pub Covers : (ℕ → Bool) → (ℕ → Bool) → Type 0
Covers g f = (v : ℕ) → f v ≡ true → g v ≡ true

unset_fewer :
    (n : ℕ) (f g : ℕ → Bool)
    → Covers g f
    → (unset n g ≤ unset n f) × (differ_below n f g ≡ true → unset n g < unset n f)
unfolding differ_below
unset_fewer zero f g h = (omega arith, λ e. absurd cc)
unset_fewer (suc n) f g h =
    let (no_more, fewer) = unset_fewer n f g h in
    let here = h n in (ground arith, λ e. ground arith)

unset_bounded : (n : ℕ) (f : ℕ → Bool) → unset n f ≤ n
unset_bounded zero f = omega arith
unset_bounded (suc n) f = ground (arith, unset_bounded n f)

-- The same over the blocks below an index.
abbrev pub unset_all : ℕ → ℕ → (ℕ → ℕ → Bool) → ℕ
unset_all zero total live = 0
unset_all (suc n) total live = unset total (live n) + unset_all n total live

unset_all_bounded : (n total : ℕ) (live : ℕ → ℕ → Bool) → unset_all n total live ≤ n * total
unset_all_bounded zero total live = omega arith
unset_all_bounded (suc n) total live =
    omega (arith, unset_bounded total (live n), unset_all_bounded n total live)

unset_all_beyond :
    (n total b : ℕ) (live : ℕ → ℕ → Bool) (g : ℕ → Bool)
    → n ≤ b
    → unset_all n total (set_id live b g) ≡ unset_all n total live
unset_all_beyond zero total b live g h = refl
unset_all_beyond (suc n) total b live g h =
    let rest = unset_all_beyond n total b live g (omega arith) in
    let other : set_id live b g n ≡ live n = ground arith in rw (other, rest) refl

unset_all_at :
    (n total b : ℕ) (live : ℕ → ℕ → Bool) (g : ℕ → Bool)
    → b < n
    → unset_all n total (set_id live b g) + unset total (live b)
      ≡ unset_all n total live + unset total g
unset_all_at zero total b live g h = absurd (omega arith)
unset_all_at (suc n) total b live g h = elim (ℕ_discrete n b) [
  | yes e ↦
      let rest = unset_all_beyond n total b live g (omega arith) in
      let here : set_id live b g n ≡ g = ground arith in
      let same : unset total (live n) ≡ unset total (live b) = rw e refl in
      rw here (omega (arith, rest, same))
  | no differs ↦
      let rest = unset_all_at n total b live g (omega arith) in
      let other : set_id live b g n ≡ live n = ground arith in rw other (omega (arith, rest))
]

-- `live_in` holds no more than its equation allows.
pub record Grounded (bls : List BlockLiveness) (s : Flow) : Type 0 where
  pub grounded :
      (b : ℕ) (bl : BlockLiveness)
      → get_elem? bls b ≡ some bl
      → (v : ℕ) → s.live_in b v ≡ true
      → (bl.sets.use_set v || (s.live_out b v && not (bl.sets.def_set v))) ≡ true

flow_start-Grounded : (bls : List BlockLiveness) → Grounded bls flow_start
flow_start-Grounded bls = record { grounded = λ b bl at v h. absurd cc }

abbrev pub unset_in : ℕ → List BlockLiveness → Flow → ℕ
unset_in total bls s =
    unset_all (length bls) total s.live_in + unset_all (length bls) total s.live_out

-- A part of a round: it sets entries only, and one at least where it reports a change.
pub record Advances (total : ℕ) (bls : List BlockLiveness) (s s' : Flow) : Type 0 where
  pub still : Grounded bls s'
  pub no_more : unset_in total bls s' ≤ unset_in total bls s
  pub fewer :
      s'.changed ≡ true → (s.changed ≡ true) ⊎ (unset_in total bls s' < unset_in total bls s)

pub get_elem?_below :
    {A : Type 0} (xs : List A) (i : ℕ) (x : A) → get_elem? xs i ≡ some x → i < length xs
get_elem?_below [] i x h = absurd cc
get_elem?_below (y ∷ ys) zero x h = omega arith
get_elem?_below (y ∷ ys) (suc i) x h = omega (arith, get_elem?_below ys i x h)

flow_block-Grounded :
    (total : ℕ) (bls : List BlockLiveness) (b : ℕ) (bl : BlockLiveness) (s : Flow)
    → get_elem? bls b ≡ some bl
    → Grounded bls s
    → Grounded bls (flow_block total bls b (some bl) s)
unfolding flow_block
flow_block-Grounded total bls b bl s at g = record {
  grounded = λ b' bl' at' v h. elim (ℕ_discrete b' b) [
    | yes e ↦
        let at_b : get_elem? bls b ≡ some bl' = rw e at at' in
        let same : bl ≡ bl' = cc in
        let in_b : set_id s.live_in b (new_in bls bl b s) b' ≡ new_in bls bl b s = ground arith in
        let out_b : set_id s.live_out b (new_out bls bl b s) b' ≡ new_out bls bl b s =
          ground arith in
        rw (out_b, sym same) (rw in_b at h)
    | no differs ↦
        let in_b : set_id s.live_in b (new_in bls bl b s) b' ≡ s.live_in b' = ground arith in
        let out_b : set_id s.live_out b (new_out bls bl b s) b' ≡ s.live_out b' = ground arith in
        rw out_b (g.grounded b' bl' at' v (rw in_b at h))
  ];
}

flow_block-Advances :
    (total : ℕ) (bls : List BlockLiveness) (b : ℕ) (bl : BlockLiveness) (s : Flow)
    → get_elem? bls b ≡ some bl
    → Grounded bls s
    → Advances total bls s (flow_block total bls b (some bl) s)
unfolding flow_block
flow_block-Advances total bls b bl s at g =
    let out' = new_out bls bl b s in
    let in' = new_in bls bl b s in
    let below : b < length bls = get_elem?_below bls b bl at in
    let out_covers : Covers out' (s.live_out b) = λ v h. ground arith in
    let in_covers : Covers in' (s.live_in b) =
      λ v h. let why = g.grounded b bl at v h in ground arith in
    let (out_le, out_lt) = unset_fewer total (s.live_out b) out' out_covers in
    let (in_le, in_lt) = unset_fewer total (s.live_in b) in' in_covers in
    let out_at = unset_all_at (length bls) total b s.live_out out' below in
    let in_at = unset_all_at (length bls) total b s.live_in in' below in
    record {
      still = flow_block-Grounded total bls b bl s at g;
      no_more = omega arith;
      fewer = λ h. elim (Bool-cases s.changed) [
        | inl already ↦ inl already
        | inr unchanged ↦ elim (Bool-cases (differ_below total (s.live_out b) out')) [
          | inl there ↦ inr (omega (arith, out_lt there))
          | inr not_out ↦
              let there : differ_below total (s.live_in b) in' ≡ true = ground arith in
              inr (omega (arith, in_lt there))
        ]
      ];
    }

Advances-trans :
    {total : ℕ} {bls : List BlockLiveness} {s s' s'' : Flow}
    → Advances total bls s s'
    → Advances total bls s' s''
    → Advances total bls s s''
Advances-trans a a' = record {
  still = a'.still;
  no_more = omega (arith, a.no_more, a'.no_more);
  fewer = λ h. elim (a'.fewer h) [
    | inl before ↦ elim (a.fewer before) [
      | inl first ↦ inl first
      | inr there ↦ inr (omega (arith, a'.no_more))
    ]
    | inr there ↦ inr (omega (arith, a.no_more))
  ];
}

Advances-refl :
    {total : ℕ} {bls : List BlockLiveness} (s : Flow) → Grounded bls s → Advances total bls s s
Advances-refl s g = record { still = g; no_more = omega arith; fewer = λ h. inl h }

pub flow_round-Advances :
    (b total : ℕ) (bls : List BlockLiveness) (s : Flow)
    → Grounded bls s
    → Advances total bls s (flow_round total bls b s)
unfolding flow_round flow_block
flow_round-Advances zero total bls s g = Advances-refl s g
flow_round-Advances (suc b) total bls s g = elim (Option-cases (get_elem? bls b)) [
  | inl beyond ↦ rw beyond (flow_round-Advances b total bls s g)
  | inr (bl, at) ↦ rw at (
      let a = flow_block-Advances total bls b bl s at g in
      Advances-trans a
        (flow_round-Advances b total bls (flow_block total bls b (some bl) s) a.still))
]

-- As many rounds as there are entries not set, and one more, are enough.
pub flow_loop_enough :
    (fuel total : ℕ) (bls : List BlockLiveness) (s : Flow)
    → Grounded bls s
    → unset_in total bls s < fuel
    → (flow_loop fuel total bls s).changed ≡ false
unfolding flow_loop flow_round
flow_loop_enough zero total bls s g enough = absurd (omega arith)
flow_loop_enough (suc fuel) total bls s g enough =
    let quiet : Flow = record s { changed = false } in
    let next = flow_round total bls (length bls) quiet in
    let a = flow_round-Advances (length bls) total bls quiet (record { grounded = g.grounded }) in
    elim (Bool-cases next.changed) [
      | inl changed ↦ elim (a.fewer changed) [
        | inl wrong ↦ absurd cc
        | inr fewer ↦ rw changed (flow_loop_enough fuel total bls next a.still (omega arith))
      ]
      | inr ended ↦ rw ended ended
    ]

-- The dataflow ends with a round that changes nothing.
pub live_sets-ends : (total : ℕ) (bls : List BlockLiveness) → (live_sets total bls).changed ≡ false
unfolding live_sets
live_sets-ends total bls =
    flow_loop_enough (suc (2 * (length bls * total))) total bls flow_start (flow_start-Grounded bls)
      (omega (arith, unset_all_bounded (length bls) total (λ b v. false)))
