-- ===== src/X86/Encode/Jumps.antt =====
-- Jumps in an encoded function: their bytes, and where they go.
use cco_lang.Base.{
  ℕ, ◌+◌, ◌^◌, ◌<◌, ◌≡◌, refl, sym, ◌∙◌, ap, Bool, true, false, Option, some, List, [], ◌∷◌, ◌++◌,
  arith, length, length-append, if◌then◌else◌, pos, ◌+ℤ◌, signed,
}
use native.Mathlib.Nat.{mod-eq_of_lt}
use cco_lang.X86.Instr.{X86Instr, X86Op}
use cco_lang.X86.Buffer.{ByteBuffer}
use cco_lang.X86.Buffer.Append.{IsValid, le_bytes}
use cco_lang.X86.Reloc.{X86RelocList}
use cco_lang.X86.Labels.{LabelMap, label_map_get}
use cco_lang.X86.Encode.Out.{out}
use cco_lang.X86.Encode.Single.{
  rel32, jump_disp, encode_op, encode_jmp, encode_jcc, encode_single_instruction_internal,
}
use cco_lang.X86.Encode.Function.{measure, is_label}
use cco_lang.X86.Encode.Counts.{Written, seq-Emits, u8-Emits, u32-Emits, advance-Emits, ◌then◌}
use cco_lang.X86.Encode.Lengths.{Encoded, encode-measure}

-- The opcode bytes of the jumps.
abbrev pub jump_opcode : X86Op → List ℕ
jump_opcode X86Op.jmp = 0xE9 ∷ []
jump_opcode X86Op.jne = 0x0F ∷ 0x85 ∷ []
jump_opcode X86Op.je = 0x0F ∷ 0x84 ∷ []
jump_opcode _ = []

abbrev pub is_jump : X86Op → Bool
is_jump X86Op.jmp = true
is_jump X86Op.jne = true
is_jump X86Op.je = true
is_jump _ = false

rel32-lt : (target_pc end_pc : ℕ) → rel32 target_pc end_pc < 2 ^ 32
unfolding rel32
rel32-lt target_pc end_pc = omega arith

-- In a text segment of less than 2 GiB the displacement, read in two's complement and added to
-- the end of the jump, is the target.
pub rel32-reaches :
    (target_pc end_pc : ℕ)
    → target_pc < 2 ^ 31
    → end_pc < 2 ^ 31
    → pos end_pc +ℤ signed (2 ^ 32) (rel32 target_pc end_pc) ≡ pos target_pc
unfolding rel32 ◌+ℤ◌
rel32-reaches target_pc end_pc h h' = ground arith

jump_disp-lt :
    (map : Option LabelMap) (inst : X86Instr) (end_pc : ℕ) → jump_disp map inst end_pc < 2 ^ 32
unfolding jump_disp
jump_disp-lt map inst end_pc = grind (arith, rel32-lt)

pub jump_disp-rel32 :
    (map : LabelMap) (inst : X86Instr) (end_pc target_pc : ℕ)
    → label_map_get (some map) inst.src.symbol ≡ some target_pc
    → jump_disp (some map) inst end_pc ≡ rel32 target_pc end_pc
unfolding jump_disp
jump_disp-rel32 map inst end_pc target_pc h = ground arith

-- A jump as an emission: its opcode and its displacement.
pub jump-Written :
    (op : X86Op) (map : Option LabelMap) (pc : ℕ) (inst : X86Instr) (b : ByteBuffer)
    (r : Option X86RelocList)
    → IsValid b
    → is_jump op ≡ true
    → let size = length (jump_opcode op) + 4 in
      let disp = jump_disp map inst (pc + size) in
      Written (encode_op op map pc inst) b r 0 size (jump_opcode op ++ le_bytes 4 disp) []
unfolding encode_op encode_jmp encode_jcc seq-Emits u8-Emits u32-Emits advance-Emits
jump-Written X86Op.jmp map pc inst b r v h =
    let disp = jump_disp map inst (pc + 5) in
    rw (mod-eq_of_lt (jump_disp-lt map inst (pc + 5))) at
      ((u8-Emits 0xE9 then u32-Emits disp then advance-Emits 5).written b r 0 v)
jump-Written X86Op.jne map pc inst b r v h =
    let disp = jump_disp map inst (pc + 6) in
    rw (mod-eq_of_lt (jump_disp-lt map inst (pc + 6))) at
      ((u8-Emits 0x0F then u8-Emits 0x85 then u32-Emits disp then advance-Emits 6).written b r 0 v)
jump-Written X86Op.je map pc inst b r v h =
    let disp = jump_disp map inst (pc + 6) in
    rw (mod-eq_of_lt (jump_disp-lt map inst (pc + 6))) at
      ((u8-Emits 0x0F then u8-Emits 0x84 then u32-Emits disp then advance-Emits 6).written b r 0 v)
jump-Written X86Op.label map pc inst b r v h = cc
jump-Written _ map pc inst b r v h = cc

-- A jump as an instruction of pass 2, with its bytes.
pub jump-Encoded :
    (inst : X86Instr) (map : Option LabelMap) (pc : ℕ) (b : ByteBuffer) (r : Option X86RelocList)
    → IsValid b
    → is_jump inst.op ≡ true
    → let size = length (jump_opcode inst.op) + 4 in
      (e : Encoded inst map pc b r (measure inst 0)) × (e.bytes
        ≡ jump_opcode inst.op ++ le_bytes 4 (jump_disp map inst (pc + size)))
      × (measure inst 0 ≡ size)
unfolding encode_single_instruction_internal
jump-Encoded inst map pc b r v h =
    let w = jump-Written inst.op map pc inst b r v h in
    let e = encode-measure inst map pc 0 b r v in
    let same : measure inst 0 ≡ length (jump_opcode inst.op) + 4 =
      ap (λ o. o.len) (sym e.result ∙ w.result) ∙ omega arith in
    (
      record {
        bytes = _;
        buffer = w.buffer;
        list = w.list;
        result = w.result ∙ ap (out (some w.buffer) w.list) (omega arith);
        appended = w.appended;
        count = length-append (jump_opcode inst.op) _ ∙ sym same;
      },
      refl,
      same,
    )

pub jump-not_label : (op : X86Op) → is_jump op ≡ true → is_label op ≡ false
jump-not_label op h = ground arith
