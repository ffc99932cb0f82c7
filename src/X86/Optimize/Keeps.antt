-- ===== src/X86/Optimize/Keeps.antt =====
-- What the whole peephole pass keeps. On lists that the builders make its jump rules never apply:
-- a jump keeps its label in the source operand, and those rules read the destination.
use cco_lang.Base.{
  ℕ, zero, suc, ◌+◌, ◌-◌, ◌≤◌, ◌≡◌, refl, ◌∙◌, ap, none, some, true, List, [], ◌∷◌, arith, length,
  Bool-cases, inl, inr,
}
use cco_lang.X86.Instr.{X86Instr}
use cco_lang.X86.List.{X86InstrList}
use cco_lang.X86.Built.{has_operands, all_have_operands, IsSound}
use cco_lang.X86.Peephole.{scan}
use cco_lang.X86.Peephole.Rounds.{others, scan-balanced, scan-keeps}
use cco_lang.X86.Optimize.{
  JmpAlias, retarget, optimize_once, optimize_loop, x86_instr_list_optimize, retarget_one,
  new_target, collect_aliases,
}

length-retarget :
    (aliases : List JmpAlias) (list : List X86Instr) → length (retarget aliases list) ≡ length list
unfolding retarget
length-retarget aliases [] = refl
length-retarget aliases (it ∷ rest) = ap suc (length-retarget aliases rest)

-- A jump that the builders made has no label in its destination.
no_new_target :
    (it : X86Instr) (aliases : List JmpAlias)
    → has_operands it ≡ true
    → new_target it aliases ≡ none
unfolding new_target has_operands
no_new_target it aliases h = ground arith

retarget_none :
    (aliases : List JmpAlias) (list : List X86Instr)
    → all_have_operands list ≡ true
    → retarget aliases list ≡ list
unfolding retarget all_have_operands retarget_one
retarget_none aliases [] h = refl
retarget_none aliases (it ∷ rest) h =
    let c : has_operands it ≡ true = ground arith in
    let t : all_have_operands rest ≡ true = ground arith in
    rw (no_new_target it aliases c) (ap (λ xs. it ∷ xs) (retarget_none aliases rest t))

optimize_once-balanced :
    (list : List X86Instr)
    → length (optimize_once list).instrs + (optimize_once list).removed ≡ length list
unfolding optimize_once
optimize_once-balanced list =
    let s = scan (length list) list in
    omega (
      arith,
      scan-balanced (length list) list,
      length-retarget (collect_aliases 64 s.instrs) s.instrs,
    )

optimize_once-keeps :
    (list : List X86Instr)
    → all_have_operands list ≡ true
    → (others (optimize_once list).instrs ≡ others list)
      × (all_have_operands (optimize_once list).instrs ≡ true)
unfolding optimize_once
optimize_once-keeps list h =
    let s = scan (length list) list in
    let (same, fit) = scan-keeps (length list) list h in
    rw (retarget_none (collect_aliases 64 s.instrs) s.instrs fit) (same, fit)

pub record Counted (list list' : X86InstrList) : Type 0 where
  pub counted : list'.count ≡ length list'.instrs
  pub shorter : length list'.instrs ≤ length list.instrs

optimize_loop-Counted :
    (rounds : ℕ) (list : X86InstrList)
    → list.count ≡ length list.instrs
    → Counted list (optimize_loop rounds list)
unfolding optimize_loop
optimize_loop-Counted zero list h = omega arith
optimize_loop-Counted (suc rounds) list h =
    let s = optimize_once list.instrs in
    let next : X86InstrList = record { instrs = s.instrs; count = list.count - s.removed } in
    let fits = optimize_once-balanced list.instrs in
    let c = optimize_loop-Counted rounds next (omega (arith, fits)) in
    elim (Bool-cases s.changed) [
      | inl e ↦ rw e (record { counted = c.counted; shorter = omega (arith, c.shorter, fits) })
      | inr e ↦ rw e (record { counted = omega (arith, fits); shorter = omega (arith, fits) })
    ]

pub record Keeps (list list' : X86InstrList) : Type 0 where
  pub others_stay : others list'.instrs ≡ others list.instrs
  pub operands : all_have_operands list'.instrs ≡ true

optimize_loop-Keeps :
    (rounds : ℕ) (list : X86InstrList)
    → all_have_operands list.instrs ≡ true
    → Keeps list (optimize_loop rounds list)
unfolding optimize_loop
optimize_loop-Keeps zero list h = record { others_stay = refl; operands = h }
optimize_loop-Keeps (suc rounds) list h =
    let s = optimize_once list.instrs in
    let next : X86InstrList = record { instrs = s.instrs; count = list.count - s.removed } in
    let (same, fit) = optimize_once-keeps list.instrs h in
    let k = optimize_loop-Keeps rounds next fit in
    elim (Bool-cases s.changed) [
      | inl e ↦ rw e (record { others_stay = k.others_stay ∙ same; operands = k.operands })
      | inr e ↦ rw e (record { others_stay = same; operands = fit })
    ]

-- The pass keeps the count of a list right and never makes the list longer, whatever is in it.
pub optimize_counted :
    (list : X86InstrList)
    → list.count ≡ length list.instrs
    → (list' : X86InstrList) × (x86_instr_list_optimize (some list) ≡ some list')
      × (list'.count ≡ length list'.instrs)
      × (length list'.instrs ≤ length list.instrs)
unfolding x86_instr_list_optimize
optimize_counted list h =
    let c = optimize_loop-Counted 4 list h in (optimize_loop 4 list, refl, c.counted, c.shorter)

-- On a sound list, such as the builders make, the pass leaves every instruction but MOV, MOVSD and
-- XOR as it is and in its place: no label, jump or call is dropped or changed. The result is sound
-- again.
pub optimize_keeps :
    (list : X86InstrList)
    → IsSound list
    → (list' : X86InstrList) × (x86_instr_list_optimize (some list) ≡ some list')
      × (others list'.instrs ≡ others list.instrs)
      × IsSound list'
unfolding x86_instr_list_optimize
optimize_keeps list s =
    let c = optimize_loop-Counted 4 list s.counted in
    let k = optimize_loop-Keeps 4 list s.formed in
    (optimize_loop 4 list, refl, k.others_stay, record { counted = c.counted; formed = k.operands })
