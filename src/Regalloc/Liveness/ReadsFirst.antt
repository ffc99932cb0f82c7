-- ===== src/Regalloc/Liveness/ReadsFirst.antt =====
-- The instructions of a block that read a register before one defines it.
use cco_lang.Base.{ℕ, ◌≡◌, refl, ap, Bool, true, false, ◌&&◌, ◌||◌, not, List, [], ◌∷◌, ◌++◌, arith}
use cco_lang.Ir.Instr.{IrInstruction}
use cco_lang.Ir.Reads.{reads, defines, any_defines}

-- An instruction reads the register, and none before it defines it.
pub record ReadsFirst (v : ℕ) (insts : List IrInstruction) : Type 0 where
  pub before : List IrInstruction
  pub inst : IrInstruction
  pub behind : List IrInstruction
  pub split : insts ≡ before ++ inst ∷ behind
  pub undefined : any_defines v before ≡ false
  pub read : reads v inst ≡ true

abbrev pub reads_first : ℕ → List IrInstruction → Bool
reads_first v [] = false
reads_first v (inst ∷ rest) = reads v inst || (not (defines v inst) && reads_first v rest)

find_reader :
    (v : ℕ) (inst : IrInstruction) (rest : List IrInstruction) (r d f : Bool)
    → reads v inst ≡ r
    → defines v inst ≡ d
    → (f ≡ true → ReadsFirst v rest)
    → (r || (not d && f)) ≡ true
    → ReadsFirst v (inst ∷ rest)
find_reader v inst rest true d f is_r is_d later h = record {
  before = [];
  inst = inst;
  behind = rest;
  split = refl;
  undefined = refl;
  read = is_r;
}
find_reader v inst rest false true f is_r is_d later h = absurd cc
find_reader v inst rest false false f is_r is_d later h =
    let found = later h in
    record {
      before = inst ∷ found.before;
      inst = found.inst;
      behind = found.behind;
      split = ap (λ (xs : List IrInstruction). inst ∷ xs) found.split;
      undefined = rw is_d found.undefined;
      read = found.read;
    }

pub reads_first-ReadsFirst :
    (v : ℕ) (insts : List IrInstruction) → reads_first v insts ≡ true → ReadsFirst v insts
reads_first-ReadsFirst v [] h = absurd cc
reads_first-ReadsFirst v (inst ∷ rest) h =
    find_reader v inst rest (reads v inst) (defines v inst) (reads_first v rest) refl refl
      (reads_first-ReadsFirst v rest) h

pass_over :
    (r d rest_d f : Bool)
    → (d || rest_d) ≡ false
    → (rest_d ≡ false → f ≡ true)
    → (r || (not d && f)) ≡ true
pass_over r d rest_d f h found = ground arith

pub reads_first-split :
    (v : ℕ) (before : List IrInstruction) (inst : IrInstruction) (behind : List IrInstruction)
    → reads v inst ≡ true
    → any_defines v before ≡ false
    → reads_first v (before ++ inst ∷ behind) ≡ true
reads_first-split v [] inst behind is_read clear = rw is_read refl
reads_first-split v (x ∷ before) inst behind is_read clear =
    pass_over (reads v x) (defines v x) (any_defines v before) _ clear
      (reads_first-split v before inst behind is_read)
