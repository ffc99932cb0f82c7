-- ===== src/X86/Encode/Landing.antt =====
-- Where the jumps of an encoded function land.
use cco_lang.Base.{
  ℕ, ◌+◌, ◌%◌, ◌^◌, ◌<◌, ◌≡◌, sym, ◌∙◌, ap, ap₂, subst, true, false, Option, none, some, String,
  List, ◌∷◌, ◌++◌, append_assoc, arith, length, pos, ◌+ℤ◌, signed,
}
use cco_lang.X86.Instr.{X86Instr}
use cco_lang.X86.Buffer.{ByteBuffer, byte_buf_size}
use cco_lang.X86.Buffer.Append.{IsValid, le_bytes}
use cco_lang.X86.Reloc.{X86RelocList}
use cco_lang.X86.Labels.{LabelMap, label_map_create, label_map_get}
use cco_lang.X86.Encode.Single.{rel32, jump_disp}
use cco_lang.X86.Encode.Function.{
  measure, is_label, record_labels, Output, emit_code, code_size, contents,
}
use cco_lang.X86.Encode.Passes.{
  output, total, total-append, emit_code-Assembled, emit_code-append, emit_code-step, pc_behind,
  total-step,
}
use cco_lang.X86.Encode.Resolve.{defines, label_resolves, size_behind}
use cco_lang.X86.Encode.Jumps.{
  jump_opcode, is_jump, jump-Encoded, jump-not_label, jump_disp-rel32, rel32-reaches,
}

-- The label map of a program that is encoded behind `b`.
abbrev pub label_map_of : List X86Instr → ByteBuffer → LabelMap
label_map_of program b = record_labels program (byte_buf_size b) label_map_create

-- The output of pass 2 when it has done the first part `part` of a program.
abbrev pub written_by : List X86Instr → List X86Instr → ByteBuffer → Option X86RelocList → Output
written_by part program b r = emit_code part (label_map_of program b) (byte_buf_size b) (output b r)

-- The bytes of a jump inside the bytes of its program.
jump_bytes :
    (before behind : List X86Instr) (jump : X86Instr) (map : LabelMap) (b : ByteBuffer)
    (r : Option X86RelocList)
    → IsValid b
    → byte_buf_size b < 2 ^ 64
    → is_jump jump.op ≡ true
    → let pc = byte_buf_size b in
      let size = length (jump_opcode jump.op) + 4 in
      let disp = jump_disp (some map) jump (pc_behind before pc + size) in
      (rest : List ℕ) × (contents (emit_code (before ++ jump ∷ behind) map pc (output b r)).code
        ≡ contents (emit_code before map pc (output b r)).code
          ++ ((jump_opcode jump.op ++ le_bytes 4 disp) ++ rest))
jump_bytes before behind jump map b r v small j =
    let pc = byte_buf_size b in
    let here = pc_behind before pc in
    let a = emit_code-Assembled before map pc b r v in
    let (e, bytes, size) =
      jump-Encoded jump (some map) here a.buffer a.relocs a.appended.inside j in
    let z =
      emit_code-Assembled behind map ((here + measure jump 0) % 2 ^ 64) e.buffer e.list
        e.appended.inside in
    let run =
      emit_code-append before (jump ∷ behind) map pc b r v small
      ∙ ap (emit_code (jump ∷ behind) map here) a.result
      ∙ emit_code-step jump behind map here a.buffer a.relocs e (jump-not_label jump.op j)
      ∙ z.result in
    (
      z.bytes,
      ap (λ o. contents o.code) run
          ∙ z.appended.stored
          ∙ ap (λ xs. xs ++ z.bytes)
              (e.appended.stored ∙ ap₂ ◌++◌ (sym (ap (λ o. contents o.code) a.result)) bytes)
          ∙ append_assoc _ _ z.bytes,
    )

-- The displacement of a jump that ends at `end_pc`, where nothing wraps.
landing :
    (end_pc here target_pc target disp : ℕ)
    → disp ≡ rel32 target_pc end_pc
    → end_pc ≡ here
    → target_pc ≡ target
    → here < 2 ^ 31
    → target < 2 ^ 31
    → pos here +ℤ signed (2 ^ 32) disp ≡ pos target
landing end_pc here target_pc target disp d e t h h' = rw (d, e, t) (rel32-reaches target here h' h)

-- `label_resolves` for a program that is given as a whole.
resolves_at :
    (program upto after : List X86Instr) (label : X86Instr) (name : String) (b : ByteBuffer)
    (r : Option X86RelocList)
    → IsValid b
    → byte_buf_size b < 2 ^ 64
    → program ≡ upto ++ label ∷ after
    → is_label label.op ≡ true
    → label.dst.symbol ≡ some name
    → defines upto name ≡ false
    → label_map_get (some (label_map_of program b)) (some name)
      ≡ some (code_size (written_by upto program b r).code % 2 ^ 64)
resolves_at program upto after label name b r v small q l ln fresh =
    subst
      (λ pr.
        label_map_get (some (label_map_of pr b)) (some name)
        ≡ some (code_size (written_by upto pr b r).code % 2 ^ 64))
      (sym q) (label_resolves upto after label name b r v small l ln fresh)

-- A jump of an encoded program stands in the output as its opcode and a little-endian displacement
-- that, read in two's complement and added to the offset of the end of the jump, is the offset at
-- which the label was reached. It holds where the label is the first of its name and the output
-- stays below 2 GiB; the jump may stand before or behind the label.
pub jump_lands :
    (program before behind upto after : List X86Instr) (jump label : X86Instr) (name : String)
    (b : ByteBuffer) (r : Option X86RelocList)
    → IsValid b
    → program ≡ before ++ jump ∷ behind
    → is_jump jump.op ≡ true
    → jump.src.symbol ≡ some name
    → program ≡ upto ++ label ∷ after
    → is_label label.op ≡ true
    → label.dst.symbol ≡ some name
    → defines upto name ≡ false
    → code_size (written_by program program b r).code < 2 ^ 31
    → (disp : ℕ) × (rest : List ℕ) × (contents (written_by program program b r).code
        ≡ contents (written_by before program b r).code
          ++ ((jump_opcode jump.op ++ le_bytes 4 disp) ++ rest))
      × (pos (code_size (written_by before program b r).code + (length (jump_opcode jump.op) + 4))
            +ℤ signed (2 ^ 32) disp
          ≡ pos (code_size (written_by upto program b r).code))
jump_lands program before behind upto after jump label name b r v p j jn q l ln fresh small =
    let map = label_map_of program b in
    let pc = byte_buf_size b in
    let size = length (jump_opcode jump.op) + 4 in
    let all = size_behind program map pc b r v in
    let s₁ = size_behind before map pc b r v in
    let s₂ = size_behind upto map pc b r v in
    let split₁ = ap total p ∙ total-append before (jump ∷ behind) in
    let split₂ = ap total q ∙ total-append upto (label ∷ after) in
    let (rest, shape) = jump_bytes before behind jump map b r v (omega arith) j in
    let step = total-step jump behind (jump-not_label jump.op j) in
    let counted = (jump-Encoded jump none 0 b r v j).2 in
    let target = resolves_at program upto after label name b r v (omega arith) q l ln fresh in
    let end_pc = pc_behind before pc + size in
    let offset = code_size (written_by upto program b r).code in
    let disp =
      jump_disp-rel32 map jump end_pc (offset % 2 ^ 64)
        (ap (label_map_get (some map)) jn ∙ target) in
    (
      jump_disp (some map) jump end_pc,
      rest,
      ap (λ pr. contents (emit_code pr map pc (output b r)).code) p ∙ shape,
      landing end_pc _ (offset % 2 ^ 64) offset _ disp (omega (arith, s₁))
          (omega (arith, s₂, all, split₂)) (omega (arith, all, split₁, step, counted))
          (omega (arith, all, split₂)),
    )
