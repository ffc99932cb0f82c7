-- ===== src/Frame/Spilled.antt =====
-- Each register that needs a slot has one.
use cco_lang.Base.{
  ℕ, ◌≡◌, refl, sym, Bool, true, false, ◌&&◌, not, ◌==◌, Option, none, some, List, [], ◌∷◌, String,
  arith, Bool-cases, inl, inr, if◌then◌else◌, ℤ, pos,
}
use cco_lang.Ir.Instr.{IrFunction}
use cco_lang.Regalloc.Scan.{LiveInterval}
use cco_lang.Regalloc.Active.{In}
use cco_lang.Regalloc.Result.{RegAllocResult, needs_slot}
use cco_lang.Frame.{
  SlotKind, slot_spill, StackSlot, Slots, same_kind, same_id, find_slot, add_slot, add_spills,
  add_registers, missing, offset_of, frame_slots, x86_frame_build, x86_frame_get_spill_offset,
}

-- The frame has a spill slot for the id.
abbrev has_slot : ℕ → Slots → Bool
has_slot id f = not (missing (find_slot slot_spill (pos id) f.slots))

add_slot_keeps :
    (id : ℕ) (kind : SlotKind) (new : ℤ) (name : Option String) (f : Slots)
    → has_slot id f ≡ true
    → has_slot id (add_slot kind new name f) ≡ true
unfolding find_slot add_slot
add_slot_keeps id kind new name f h =
    elim (Bool-cases (same_kind kind slot_spill && same_id new (pos id))) [
      | inl e ↦ rw e refl
      | inr e ↦ rw e h
    ]

add_slot_gives : (id : ℕ) (f : Slots) → has_slot id (add_slot slot_spill (pos id) none f) ≡ true
unfolding find_slot add_slot
add_slot_gives id f = let self : (id == id) ≡ true = ground arith in rw self refl

spill_keeps :
    (id : ℕ) (t : Bool) (new : ℤ) (f : Slots)
    → has_slot id f ≡ true
    → has_slot id (if t then add_slot slot_spill new none f else f) ≡ true
spill_keeps id true new f h = add_slot_keeps id slot_spill new none f h
spill_keeps id false new f h = h

spill_gives :
    (id : ℕ) (t : Bool) (f : Slots)
    → t ≡ true
    → has_slot id (if t then add_slot slot_spill (pos id) none f else f) ≡ true
spill_gives id true f h = add_slot_gives id f
spill_gives id false f h = absurd cc

add_spills_keeps :
    (list : List LiveInterval) (res : RegAllocResult) (id : ℕ) (f : Slots)
    → has_slot id f ≡ true
    → has_slot id (add_spills res list f) ≡ true
unfolding add_spills
add_spills_keeps [] res id f h = h
add_spills_keeps (p ∷ rest) res id f h =
    add_spills_keeps rest res id _ (spill_keeps id (needs_slot res.scanned p) (pos p.val_id) f h)

add_spills_gives :
    (list : List LiveInterval) (res : RegAllocResult) (p : LiveInterval) (f : Slots)
    → In p list
    → needs_slot res.scanned p ≡ true
    → has_slot p.val_id (add_spills res list f) ≡ true
unfolding add_spills
add_spills_gives [] res p f h needs = absurd h
add_spills_gives (x ∷ rest) res p f (inl e) needs =
    let needs_x : needs_slot res.scanned x ≡ true = rw (sym e) needs in
    rw e (
      add_spills_keeps rest res x.val_id _
        (spill_gives x.val_id (needs_slot res.scanned x) f needs_x))
add_spills_gives (x ∷ rest) res p f (inr h) needs = add_spills_gives rest res p _ h needs

slot_offset : (o : Option StackSlot) → not (missing o) ≡ true → (z : ℤ) × (offset_of o ≡ some z)
slot_offset none h = absurd cc
slot_offset (some s) h = (s.offset, refl)

-- An interval of the allocation that is spilled, or whose register a call that it crosses destroys,
-- has a spill slot in the frame.
pub x86_frame_get_spill_offset_found :
    (fn : IrFunction) (res : RegAllocResult) (p : LiveInterval)
    → In p res.intervals
    → needs_slot res.scanned p ≡ true
    → (z : ℤ) × (x86_frame_get_spill_offset (some (x86_frame_build fn (some res))) (pos p.val_id)
        ≡ some z)
unfolding x86_frame_get_spill_offset x86_frame_build frame_slots add_registers
x86_frame_get_spill_offset_found fn res p h needs =
    slot_offset _ (add_spills_gives res.intervals res p _ h needs)
