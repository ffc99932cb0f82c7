-- ===== src/X86/Peephole/Rounds.antt =====
-- The rounds of the inner loop of the peephole pass: what each takes out, and what it keeps.
use cco_lang.Base.{
  ℕ, zero, suc, ◌+◌, ◌≤◌, ◌≡◌, refl, sym, ◌∙◌, ap, Bool, true, false, ◌&&◌, List, [], ◌∷◌, ◌++◌,
  arith, length, length-append, if◌then◌else◌, Bool-cases, inl, inr,
}
use cco_lang.X86.Instr.{X86Instr, X86Op}
use cco_lang.X86.Encode.Lengths.{has_form_of}
use cco_lang.X86.Built.{has_operands, all_have_operands}
use cco_lang.X86.Peephole.{
  moves, is_mov, redundant_move, loads_zero, zero_by_xor, Round, peephole, scan, jumps_to_next,
  jumps_over, after_reload, jump_rules, reloads,
}

-- The opcodes of the instructions that the move rules take out or replace.
abbrev pub is_move : X86Op → Bool
is_move X86Op.mov = true
is_move X86Op.movsd = true
is_move X86Op.xor = true
is_move _ = false

-- The instructions that are no moves, in their order.
abbrev pub others : List X86Instr → List X86Instr
others [] = []
others (inst ∷ rest) = if is_move inst.op then others rest else inst ∷ others rest

-- A round takes out as many instructions as it says, and goes on behind `curr`.
pub record RoundFits (rest : List X86Instr) (r : Round) : Type 0 where
  pub balanced : length r.left + length r.rest + r.removed ≡ suc (length rest)
  pub shorter : length r.rest ≤ length rest

after_reload-RoundFits :
    (curr : X86Instr) (rest : List X86Instr) → RoundFits rest (after_reload curr rest)
unfolding after_reload
after_reload-RoundFits curr [] = omega arith
after_reload-RoundFits curr (next ∷ rest) = ground arith

jump_rules-RoundFits :
    (curr : X86Instr) (rest : List X86Instr) (other : Round)
    → RoundFits rest other
    → RoundFits rest (jump_rules curr rest other)
unfolding jump_rules
jump_rules-RoundFits curr [] other h = h
jump_rules-RoundFits curr (next ∷ rest) other h = ground arith

if-RoundFits :
    (test : Bool) {rest : List X86Instr} {r r' : Round}
    → RoundFits rest r
    → RoundFits rest r'
    → RoundFits rest (if test then r else r')
if-RoundFits true h h' = h
if-RoundFits false h h' = h'

pub peephole-RoundFits :
    (curr : X86Instr) (rest : List X86Instr) → RoundFits rest (peephole curr rest)
unfolding peephole
peephole-RoundFits curr rest = if-RoundFits (redundant_move curr) (omega arith) (
    if-RoundFits (loads_zero curr) (omega arith)
      (jump_rules-RoundFits curr rest _ (after_reload-RoundFits curr rest)))

-- A round that keeps every instruction that is no move, and leaves operands that fit.
pub record RoundKeeps (curr : X86Instr) (rest : List X86Instr) (r : Round) : Type 0 where
  pub kept : others r.left ++ others r.rest ≡ others (curr ∷ rest)
  pub left_fit : all_have_operands r.left ≡ true
  pub rest_fit : all_have_operands r.rest ≡ true

-- The jump rules do not apply to an instruction whose operands the builders made.
jump_rules-other :
    (curr : X86Instr) (rest : List X86Instr) (other : Round)
    → has_operands curr ≡ true
    → jump_rules curr rest other ≡ other
unfolding jump_rules jumps_to_next jumps_over has_operands
jump_rules-other curr [] other h = refl
jump_rules-other curr (next ∷ []) other h = ground arith
jump_rules-other curr (next ∷ label ∷ rest) other h = ground arith

others-move :
    (curr : X86Instr) (rest : List X86Instr)
    → is_move curr.op ≡ true
    → others (curr ∷ rest) ≡ others rest
others-move curr rest h = rw h

mov-is_move : (op : X86Op) → is_mov op ≡ true → is_move op ≡ true
mov-is_move op h = ground arith

moves-is_move : (op : X86Op) → moves op ≡ true → is_move op ≡ true
moves-is_move op h = ground arith

-- The first of a row of tests.
first_test : (a b : Bool) → (a && b) ≡ true → a ≡ true
first_test true b h = refl
first_test false b h = cc

loads_zero-moves : (curr : X86Instr) → loads_zero curr ≡ true → is_move curr.op ≡ true
unfolding loads_zero
loads_zero-moves curr h = ground (arith, mov-is_move curr.op)

redundant_move-moves : (curr : X86Instr) → redundant_move curr ≡ true → is_move curr.op ≡ true
unfolding redundant_move
redundant_move-moves curr h = ground (arith, moves-is_move curr.op)

reloads-moves : (curr next : X86Instr) → reloads curr next ≡ true → is_move next.op ≡ true
unfolding reloads
reloads-moves curr next h = ground (arith, moves-is_move next.op)

zero_by_xor-RoundKeeps :
    (curr : X86Instr) (rest : List X86Instr)
    → loads_zero curr ≡ true
    → all_have_operands rest ≡ true
    → RoundKeeps curr rest
        (record { left = zero_by_xor curr ∷ []; rest = rest; removed = 0; changed = true })
unfolding zero_by_xor all_have_operands has_operands has_form_of
zero_by_xor-RoundKeeps curr rest z h = record {
  kept = sym (others-move curr rest (loads_zero-moves curr z));
  left_fit = refl;
  rest_fit = h;
}

after_reload-RoundKeeps :
    (curr : X86Instr) (rest : List X86Instr)
    → has_operands curr ≡ true
    → all_have_operands rest ≡ true
    → RoundKeeps curr rest (after_reload curr rest)
unfolding after_reload all_have_operands
after_reload-RoundKeeps curr [] c h = record {
  kept = ground arith;
  left_fit = ground arith;
  rest_fit = refl;
}
after_reload-RoundKeeps curr (next ∷ rest) c h = elim (Bool-cases (reloads curr next)) [
  | inl e ↦ rw e (record {
    kept = rw (others-move next rest (reloads-moves curr next e)) (ground arith);
    left_fit = ground arith;
    rest_fit = ground arith;
  })
  | inr e ↦ rw e (record { kept = ground arith; left_fit = ground arith; rest_fit = h })
]

pub peephole-RoundKeeps :
    (curr : X86Instr) (rest : List X86Instr)
    → has_operands curr ≡ true
    → all_have_operands rest ≡ true
    → RoundKeeps curr rest (peephole curr rest)
unfolding peephole
peephole-RoundKeeps curr rest c h = elim (Bool-cases (redundant_move curr)) [
  | inl e ↦ rw e (record {
    kept = sym (others-move curr rest (redundant_move-moves curr e));
    left_fit = unfold all_have_operands in refl;
    rest_fit = h;
  })
  | inr e ↦ rw e (elim (Bool-cases (loads_zero curr)) [
    | inl z ↦ rw z (zero_by_xor-RoundKeeps curr rest z h)
    | inr z ↦
        rw (z, jump_rules-other curr rest (after_reload curr rest) c)
          (after_reload-RoundKeeps curr rest c h)
  ])
]

-- Two lists in a row.
pub others-append : (xs ys : List X86Instr) → others (xs ++ ys) ≡ others xs ++ others ys
others-append [] ys = refl
others-append (x ∷ xs) ys = ground (arith, others-append xs ys)

all_have_operands-append :
    (xs ys : List X86Instr)
    → all_have_operands xs ≡ true
    → all_have_operands ys ≡ true
    → all_have_operands (xs ++ ys) ≡ true
unfolding all_have_operands
all_have_operands-append [] ys h k = k
all_have_operands-append (x ∷ xs) ys h k = ground (arith, all_have_operands-append xs ys)

-- The scan takes out as many instructions as it says, whatever the fuel.
pub scan-balanced :
    (fuel : ℕ) (list : List X86Instr)
    → length (scan fuel list).instrs + (scan fuel list).removed ≡ length list
unfolding scan
scan-balanced zero list = omega arith
scan-balanced (suc fuel) [] = omega arith
scan-balanced (suc fuel) (curr ∷ rest) =
    let round = peephole curr rest in
    omega (
      arith,
      (peephole-RoundFits curr rest).balanced,
      length-append round.left (scan fuel round.rest).instrs,
      scan-balanced fuel round.rest,
    )

split :
    (curr : X86Instr) (rest : List X86Instr)
    → all_have_operands (curr ∷ rest) ≡ true
    → (has_operands curr ≡ true) × (all_have_operands rest ≡ true)
unfolding all_have_operands
split curr rest h = ground arith

-- The scan keeps the instructions that are no moves, and operands that fit.
pub scan-keeps :
    (fuel : ℕ) (list : List X86Instr)
    → all_have_operands list ≡ true
    → (others (scan fuel list).instrs ≡ others list)
      × (all_have_operands (scan fuel list).instrs ≡ true)
unfolding scan
scan-keeps zero list h = (refl, h)
scan-keeps (suc fuel) [] h = (refl, h)
scan-keeps (suc fuel) (curr ∷ rest) h =
    let (c, t) = split curr rest h in
    let round = peephole curr rest in
    let k = peephole-RoundKeeps curr rest c t in
    let (same, fit) = scan-keeps fuel round.rest k.rest_fit in
    (
      others-append round.left (scan fuel round.rest).instrs
          ∙ ap (λ ys. others round.left ++ ys) same
          ∙ k.kept,
      all_have_operands-append round.left (scan fuel round.rest).instrs k.left_fit fit,
    )

-- The scan ends by itself: any two amounts of fuel that are no less than the length of the list
-- give the same result.
pub scan_enough :
    (fuel more : ℕ) (list : List X86Instr)
    → length list ≤ fuel
    → length list ≤ more
    → scan fuel list ≡ scan more list
unfolding scan
scan_enough zero zero [] h k = refl
scan_enough zero (suc more) [] h k = refl
scan_enough (suc fuel) zero [] h k = refl
scan_enough (suc fuel) (suc more) [] h k = refl
scan_enough zero more (curr ∷ rest) h k = absurd (omega arith)
scan_enough (suc fuel) zero (curr ∷ rest) h k = absurd (omega arith)
scan_enough (suc fuel) (suc more) (curr ∷ rest) h k =
    let round = peephole curr rest in
    let fits = peephole-RoundFits curr rest in
    rw
      (scan_enough fuel more round.rest (omega (arith, fits.shorter)) (omega (arith, fits.shorter)))
