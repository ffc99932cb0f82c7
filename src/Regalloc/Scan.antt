-- ===== src/Regalloc/Scan.antt =====
-- The linear scan of `regalloc_run`, src/backend/x86_64/x86_64_regalloc.c. What the scan writes into
-- an interval, `phys_reg` and `is_spilled`, stands in the state under the interval's `val_id`; an
-- array of registers is a function.
use cco_lang.Base.{
  ℕ, Bool, true, false, ◌==◌, ltb, Option, none, some, List, [], ◌∷◌, ◌++◌, if◌then◌else◌,
}
use mathlib.Core.Logic.{ite}
use cco_lang.X86.Instr.{X86Reg, reg_none}
use cco_lang.Regalloc.Registers.{
  RegClass, reg_class_int, reg_class_float, X86Reg-discrete, is_none, caller_saved_int_pool,
  callee_saved_int_pool, float_pool,
}

pub record LiveInterval : Type 0 where
  pub val_id : ℕ
  pub reg_class : RegClass
  pub start : ℕ
  pub end : ℕ
  pub crosses_call : Bool

pub record ScanState : Type 0 where
  pub active : List LiveInterval
  pub reg_busy : X86Reg → Bool
  pub phys_reg : ℕ → X86Reg
  pub is_spilled : ℕ → Bool
  pub used_regs : X86Reg → Bool

abbrev pub scan_start : ScanState
scan_start = record {
  active = [];
  reg_busy = λ r. false;
  phys_reg = λ v. reg_none;
  is_spilled = λ v. false;
  used_regs = λ r. false;
}

abbrev pub set_id {ℓ} : {A : Type ℓ} → (ℕ → A) → ℕ → A → ℕ → A
set_id f id a v = if v == id then a else f v

abbrev pub set_reg {ℓ} : {A : Type ℓ} → (X86Reg → A) → X86Reg → A → X86Reg → A
set_reg f reg a r = ite (X86Reg-discrete r reg) a (f r)

-- Expiry: `active[a]->end < curr->start` leaves the list and frees its register.
abbrev pub expired : ℕ → LiveInterval → Bool
expired start a = ltb a.end start

unfoldable pub expire_active : ℕ → List LiveInterval → List LiveInterval
expire_active start [] = []
expire_active start (a ∷ rest) =
    if expired start a then expire_active start rest else a ∷ expire_active start rest

unfoldable pub free_reg : X86Reg → (X86Reg → Bool) → X86Reg → Bool
free_reg reg busy = if is_none reg then busy else set_reg busy reg false

unfoldable pub expire_busy : (ℕ → X86Reg) → ℕ → List LiveInterval → (X86Reg → Bool) → X86Reg → Bool
unfolding free_reg
expire_busy phys start [] busy = busy
expire_busy phys start (a ∷ rest) busy =
    expire_busy phys start rest (if expired start a then free_reg (phys a.val_id) busy else busy)

unfoldable pub expire : ℕ → ScanState → ScanState
expire start s = record s {
  active = expire_active start s.active;
  reg_busy = expire_busy s.phys_reg start s.active s.reg_busy;
}

-- The first register of a pool that is not busy.
unfoldable pub first_free : (X86Reg → Bool) → List X86Reg → X86Reg
first_free busy [] = reg_none
first_free busy (r ∷ pool) = if busy r then first_free busy pool else r

abbrev pub or_from : X86Reg → X86Reg → X86Reg
or_from chosen other = if is_none chosen then other else chosen

unfoldable pub choose_int : (X86Reg → Bool) → Bool → X86Reg
choose_int busy true =
    or_from (first_free busy callee_saved_int_pool) (first_free busy caller_saved_int_pool)
choose_int busy false =
    or_from (first_free busy caller_saved_int_pool) (first_free busy callee_saved_int_pool)

unfoldable pub choose_reg : (X86Reg → Bool) → LiveInterval → RegClass → X86Reg
choose_reg busy curr reg_class_float = first_free busy float_pool
choose_reg busy curr reg_class_int = choose_int busy curr.crosses_call

-- The active list stands in the order of the ends.
unfoldable pub insert_active : LiveInterval → List LiveInterval → List LiveInterval
insert_active curr [] = curr ∷ []
insert_active curr (a ∷ rest) =
    if ltb curr.end a.end then curr ∷ a ∷ rest else a ∷ insert_active curr rest

abbrev pub same_class : RegClass → RegClass → Bool
same_class reg_class_int reg_class_int = true
same_class reg_class_float reg_class_float = true
same_class _ _ = false

-- The last active interval of a class, and what stands before and behind it.
pub record Victim : Type 0 where
  pub before : List LiveInterval
  pub victim : LiveInterval
  pub behind : List LiveInterval

abbrev pub victim_or : LiveInterval → List LiveInterval → Bool → Option Victim → Option Victim
victim_or a rest fits none =
    if fits then some (record { before = []; victim = a; behind = rest }) else none
victim_or a rest fits (some v) =
    some (record { before = a ∷ v.before; victim = v.victim; behind = v.behind })

unfoldable pub find_victim : RegClass → List LiveInterval → Option Victim
find_victim class [] = none
find_victim class (a ∷ rest) =
    victim_or a rest (same_class a.reg_class class) (find_victim class rest)

unfoldable pub take_reg : LiveInterval → X86Reg → ScanState → ScanState
take_reg curr reg s = record s {
  active = insert_active curr s.active;
  reg_busy = set_reg s.reg_busy reg true;
  phys_reg = set_id s.phys_reg curr.val_id reg;
  used_regs = set_reg s.used_regs reg true;
}

unfoldable pub spill : LiveInterval → ScanState → ScanState
spill curr s = record s {
  phys_reg = set_id s.phys_reg curr.val_id reg_none;
  is_spilled = set_id s.is_spilled curr.val_id true;
}

-- `curr` takes the victim's register, and the victim is spilled.
unfoldable pub steal : LiveInterval → Victim → ScanState → ScanState
steal curr v s = record s {
  active = insert_active curr (v.before ++ v.behind);
  phys_reg =
      set_id (set_id s.phys_reg curr.val_id (s.phys_reg v.victim.val_id)) v.victim.val_id reg_none;
  is_spilled = set_id s.is_spilled v.victim.val_id true;
}

unfoldable pub steal_or_spill : LiveInterval → Option Victim → ScanState → ScanState
steal_or_spill curr none s = spill curr s
steal_or_spill curr (some v) s = if ltb curr.end v.victim.end then steal curr v s else spill curr s

-- One round: `curr` gets a free register, or that of a victim, or none.
unfoldable pub place : LiveInterval → ScanState → ScanState
place curr s =
    let reg = choose_reg s.reg_busy curr curr.reg_class in
    if is_none reg
    then steal_or_spill curr (find_victim curr.reg_class s.active) s
    else take_reg curr reg s

unfoldable pub scan_step : LiveInterval → ScanState → ScanState
scan_step curr s = place curr (expire curr.start s)

-- The intervals in the order of their starts.
unfoldable pub linear_scan : List LiveInterval → ScanState → ScanState
linear_scan [] s = s
linear_scan (curr ∷ rest) s = linear_scan rest (scan_step curr s)
