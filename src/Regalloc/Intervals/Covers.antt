-- ===== src/Regalloc/Intervals/Covers.antt =====
-- The interval of a register covers the blocks that it is live into.
use cco_lang.Base.{
  ℕ, zero, suc, ◌+◌, ◌≤◌, ◌<◌, ◌≡◌, refl, sym, ap, Bool, true, false, ltb, Option, none, some, List,
  [], ◌∷◌, get_elem?, arith, Bool-cases, inl, inr,
}
use native.Mathlib.Decide.{ℕ_discrete}
use cco_lang.Ir.Instr.{IrValue, IrInstruction, IrFunction}
use cco_lang.Regalloc.Scan.{LiveInterval}
use cco_lang.Regalloc.Active.{In}
use cco_lang.Regalloc.Liveness.{BlockLiveness, Flow, number_blocks, live_sets}
use cco_lang.Regalloc.Result.Sorted.{IsNumbered}
use cco_lang.Regalloc.Intervals.{
  Bounds, lower, raise, or_start, extend_in, extend_out, cover_blocks, is_value, extend_use,
  cover_args, cover_inst, cover_insts, no_bounds, bounds_of, start_of, end_of, interval_of, entries,
  all_insts, live_intervals,
}

-- The bounds reach from at most one index to at least another.
abbrev pub StartsBy : ℕ → Option ℕ → Type 0
StartsBy i none = ⊥
StartsBy i (some s) = s ≤ i

abbrev pub EndsAfter : ℕ → Option ℕ → Type 0
EndsAfter i none = ⊥
EndsAfter i (some e) = i ≤ e

pub record Reaches (r : Bounds) (from to : ℕ) : Type 0 where
  pub starts : StartsBy from r.start
  pub ends : EndsAfter to r.end

lower_starts : (i : ℕ) (o : Option ℕ) → StartsBy i (lower i o)
lower_starts i none = omega arith
lower_starts i (some s) = elim (Bool-cases (ltb i s)) [
  | inl e ↦ rw e (omega arith)
  | inr e ↦ let le : s ≤ i = ground arith in rw e le
]

lower_keeps : (i from : ℕ) (o : Option ℕ) → StartsBy from o → StartsBy from (lower i o)
lower_keeps i from none h = absurd h
lower_keeps i from (some s) h = elim (Bool-cases (ltb i s)) [
  | inl e ↦ let le : i ≤ from = ground arith in rw e le
  | inr e ↦ rw e h
]

raise_ends : (i : ℕ) (o : Option ℕ) → EndsAfter i (raise i o)
raise_ends i none = omega arith
raise_ends i (some e) = elim (Bool-cases (ltb e i)) [
  | inl is ↦ rw is (omega arith)
  | inr is ↦ let le : i ≤ e = ground arith in rw is le
]

raise_keeps : (i to : ℕ) (o : Option ℕ) → EndsAfter to o → EndsAfter to (raise i o)
raise_keeps i to none h = absurd h
raise_keeps i to (some e) h = elim (Bool-cases (ltb e i)) [
  | inl is ↦ let le : to ≤ i = ground arith in rw is le
  | inr is ↦ rw is h
]

or_start_keeps : (i from : ℕ) (o : Option ℕ) → StartsBy from o → StartsBy from (or_start i o)
or_start_keeps i from none h = absurd h
or_start_keeps i from (some s) h = h

-- No step takes anything back.
module _ {from to : ℕ} where
  extend_in_keeps :
      (t : Bool) (i : ℕ) (r : Bounds) → Reaches r from to → Reaches (extend_in t i r) from to
  extend_in_keeps false i r h = h
  extend_in_keeps true i r h = record {
    starts = lower_keeps i from r.start h.starts;
    ends = raise_keeps i to r.end h.ends;
  }

  extend_out_keeps :
      (t : Bool) (i : ℕ) (r : Bounds) → Reaches r from to → Reaches (extend_out t i r) from to
  extend_out_keeps false i r h = h
  extend_out_keeps true i r h = record { starts = h.starts; ends = raise_keeps i to r.end h.ends }

  extend_use_keeps :
      (t : Bool) (i : ℕ) (r : Bounds) → Reaches r from to → Reaches (extend_use t i r) from to
  extend_use_keeps false i r h = h
  extend_use_keeps true i r h = record {
    starts = or_start_keeps i from r.start h.starts;
    ends = raise_keeps i to r.end h.ends;
  }

  cover_blocks_keeps :
      (bls : List BlockLiveness) (s : Flow) (v b : ℕ) (r : Bounds)
      → Reaches r from to
      → Reaches (cover_blocks s v b bls r) from to
  unfolding cover_blocks
  cover_blocks_keeps [] s v b r h = h
  cover_blocks_keeps (bl ∷ rest) s v b r h = cover_blocks_keeps rest s v (suc b) _ (
      extend_out_keeps (s.live_out b v) bl.end_inst _
        (extend_in_keeps (s.live_in b v) bl.start_inst r h))

  cover_args_keeps :
      (args : List IrValue) (total v i : ℕ) (r : Bounds)
      → Reaches r from to
      → Reaches (cover_args total v i args r) from to
  unfolding cover_args
  cover_args_keeps [] total v i r h = h
  cover_args_keeps (a ∷ args) total v i r h =
      cover_args_keeps args total v i _ (extend_use_keeps (is_value total v (some a)) i r h)

  cover_insts_keeps :
      (insts : List IrInstruction) (total v i : ℕ) (r : Bounds)
      → Reaches r from to
      → Reaches (cover_insts total v i insts r) from to
  unfolding cover_insts cover_inst
  cover_insts_keeps [] total v i r h = h
  cover_insts_keeps (inst ∷ rest) total v i r h = cover_insts_keeps rest total v (suc i) _ (
      cover_args_keeps inst.args total v i _ (
        extend_use_keeps (is_value total v inst.rhs) i _ (
          extend_use_keeps (is_value total v inst.lhs) i _
            (extend_in_keeps (is_value total v inst.result) i r h))))

extend_in-Reaches : (i : ℕ) (r : Bounds) (t : Bool) → t ≡ true → Reaches (extend_in t i r) i i
extend_in-Reaches i r false h = absurd cc
extend_in-Reaches i r true h = record { starts = lower_starts i r.start; ends = raise_ends i r.end }

-- A block that the register is live into has its first instruction within the bounds.
cover_blocks-Reaches :
    (bls : List BlockLiveness) (k b : ℕ) (bl : BlockLiveness) (s : Flow) (v : ℕ) (r : Bounds)
    → get_elem? bls k ≡ some bl
    → s.live_in (b + k) v ≡ true
    → Reaches (cover_blocks s v b bls r) bl.start_inst bl.start_inst
unfolding cover_blocks
cover_blocks-Reaches [] k b bl s v r at live = absurd cc
cover_blocks-Reaches (x ∷ rest) zero b bl s v r at live =
    let same : x ≡ bl = cc in
    let index : b + 0 ≡ b = omega arith in
    let here : s.live_in b v ≡ true = rw index at live in
    cover_blocks_keeps rest s v (suc b) _ (
      extend_out_keeps (s.live_out b v) x.end_inst _
        (rw (sym same) (extend_in-Reaches x.start_inst r (s.live_in b v) here)))
cover_blocks-Reaches (x ∷ rest) (suc k) b bl s v r at live =
    let index : b + suc k ≡ suc b + k = omega arith in
    cover_blocks-Reaches rest k (suc b) bl s v _ at (rw index at live)

reach_between :
    (start end : Option ℕ) (from to : ℕ)
    → StartsBy from start
    → EndsAfter to end
    → (start_of (record { start = start; end = end }) ≤ from)
      × (to ≤ end_of (record { start = start; end = end }))
reach_between none end from to h k = absurd h
reach_between (some s) none from to h k = absurd k
reach_between (some s) (some e) from to h k = elim (Bool-cases (ltb e s)) [
  | inl is ↦ let le : to ≤ s = ground arith in rw is (h, le)
  | inr is ↦ rw is (h, k)
]

-- An interval starts no later than a block that its register is live into, and does not end before.
pub interval_of_covers :
    (total : ℕ) (bls : List BlockLiveness) (s : Flow) (insts : List IrInstruction) (v b : ℕ)
    (bl : BlockLiveness)
    → get_elem? bls b ≡ some bl
    → s.live_in b v ≡ true
    → ((interval_of total bls s insts v).start ≤ bl.start_inst)
      × (bl.start_inst ≤ (interval_of total bls s insts v).end)
unfolding interval_of bounds_of
interval_of_covers total bls s insts v b bl at live =
    let index : b ≡ 0 + b = omega arith in
    let r =
      cover_insts_keeps insts total v 0 _
        (cover_blocks-Reaches bls b 0 bl s v no_bounds at (rw index at live)) in
    reach_between _ _ bl.start_inst bl.start_inst r.starts r.ends

-- No interval ends before it starts.
pub interval_of_ordered :
    (total : ℕ) (bls : List BlockLiveness) (s : Flow) (insts : List IrInstruction) (v : ℕ)
    → (interval_of total bls s insts v).start ≤ (interval_of total bls s insts v).end
unfolding interval_of
interval_of_ordered total bls s insts v =
    ordered (bounds_of total bls s insts v).start (bounds_of total bls s insts v).end
  where
    ordered :
        (start end : Option ℕ)
        → start_of (record { start = start; end = end })
          ≤ end_of (record { start = start; end = end })
    ordered none end = omega arith
    ordered (some s) none = omega arith
    ordered (some s) (some e) = elim (Bool-cases (ltb e s)) [
      | inl is ↦ rw is (omega arith)
      | inr is ↦ let le : s ≤ e = ground arith in rw is le
    ]

entries-IsNumbered :
    (n i : ℕ) (f : ℕ → LiveInterval)
    → ((v : ℕ) → (f v).val_id ≡ v)
    → ((v : ℕ) → (f v).start ≤ (f v).end)
    → IsNumbered i (entries i n f)
unfolding entries
entries-IsNumbered zero i f ids ordered = tt
entries-IsNumbered (suc n) i f ids ordered =
    (ids i, ordered i, entries-IsNumbered n (suc i) f ids ordered)

entries-In : (n i v : ℕ) (f : ℕ → LiveInterval) → i ≤ v → v < i + n → In (f v) (entries i n f)
unfolding entries
entries-In zero i v f low high = absurd (omega arith)
entries-In (suc n) i v f low high = elim (ℕ_discrete i v) [
  | yes e ↦ inl (ap f (sym e))
  | no differs ↦ inr (entries-In n (suc i) v f (omega arith) (omega arith))
]

pub live_intervals-IsNumbered : (fn : IrFunction) → IsNumbered 0 (live_intervals fn)
unfolding live_intervals interval_of
live_intervals-IsNumbered fn =
    let total = fn.next_reg_id in
    let bls = number_blocks total 0 fn.blocks in
    entries-IsNumbered total 0 _ (λ v. refl)
      (λ v. interval_of_ordered total bls (live_sets total bls) (all_insts fn.blocks) v)

-- The interval of a register of a function.
abbrev pub interval_in : IrFunction → ℕ → LiveInterval
interval_in fn v =
    let bls = number_blocks fn.next_reg_id 0 fn.blocks in
    interval_of fn.next_reg_id bls (live_sets fn.next_reg_id bls) (all_insts fn.blocks) v

pub interval_in_listed :
    (fn : IrFunction) (v : ℕ) → v < fn.next_reg_id → In (interval_in fn v) (live_intervals fn)
unfolding live_intervals
interval_in_listed fn v lt = entries-In fn.next_reg_id 0 v _ (omega arith) (omega arith)
