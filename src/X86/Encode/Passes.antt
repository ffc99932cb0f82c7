-- ===== src/X86/Encode/Passes.antt =====
-- The two passes of `x86_encode_function`: the offsets that pass 1 records are the offsets at which
-- pass 2 writes.
use cco_lang.Base.{
  ℕ, ◌+◌, ◌%◌, ◌^◌, ◌<◌, ◌≡◌, refl, sym, ◌∙◌, ap, ap₂, true, false, Option, none, some, List, [],
  ◌∷◌, ◌++◌, arith, length, length-append, if◌then◌else◌, Bool-cases, inl, inr,
}
use cco_lang.X86.Instr.{X86Instr}
use cco_lang.X86.Buffer.{ByteBuffer, byte_buf_size}
use cco_lang.X86.Buffer.Append.{IsValid, Appended, Appended-nil, Appended-append}
use cco_lang.X86.Reloc.{X86RelocList}
use cco_lang.X86.Labels.{LabelMap, label_map_put}
use cco_lang.X86.Encode.Function.{measure, is_label, record_labels, Output, encode_into, emit_code}
use cco_lang.X86.Encode.Lengths.{Encoded, encode-measure, size-eq-measure}

abbrev pub output : ByteBuffer → Option X86RelocList → Output
output b r = record { code = some b; relocs = r }

-- The bytes that pass 1 counts for a list of instructions.
pub total : List X86Instr → ℕ
total [] = 0
total (inst ∷ rest) = (if is_label inst.op then 0 else measure inst 0) + total rest

-- What pass 2 does to a buffer.
pub record Assembled (list : List X86Instr) (map : LabelMap) (pc : ℕ) (b : ByteBuffer)
    (r : Option X86RelocList) : Type 0 where
  pub bytes : List ℕ
  pub buffer : ByteBuffer
  pub relocs : Option X86RelocList
  pub result : emit_code list map pc (output b r) ≡ output buffer relocs
  pub appended : Appended b bytes buffer
  pub count : length bytes ≡ total list

emit_code-label :
    (inst : X86Instr) (rest : List X86Instr) (map : LabelMap) (pc : ℕ) (o : Output)
    → is_label inst.op ≡ true
    → emit_code (inst ∷ rest) map pc o ≡ emit_code rest map pc o
unfolding emit_code
emit_code-label inst rest map pc o h = rw h

-- One step of pass 2 moves the program counter by the measure of pass 1.
pub emit_code-step :
    (inst : X86Instr) (rest : List X86Instr) (map : LabelMap) (pc : ℕ) (b : ByteBuffer)
    (r : Option X86RelocList) (w : Encoded inst (some map) pc b r (measure inst 0))
    → is_label inst.op ≡ false
    → emit_code (inst ∷ rest) map pc (output b r)
      ≡ emit_code rest map ((pc + measure inst 0) % 2 ^ 64) (output w.buffer w.list)
unfolding emit_code encode_into
emit_code-step inst rest map pc b r w h =
    let size : byte_buf_size w.buffer ≡ byte_buf_size b + length w.bytes =
      ap length w.appended.stored ∙ length-append b.data_bytes w.bytes in
    rw (h, w.result)
      (ap (λ n. emit_code rest map ((pc + n) % 2 ^ 64) (output w.buffer w.list))
        (omega (arith, size, w.count)))

-- Pass 2 appends as many bytes as pass 1 counts, behind what the buffer held.
pub emit_code-Assembled :
    (list : List X86Instr) (map : LabelMap) (pc : ℕ) (b : ByteBuffer) (r : Option X86RelocList)
    → IsValid b
    → Assembled list map pc b r
unfolding total
emit_code-Assembled [] map pc b r v = record {
  bytes = [];
  buffer = b;
  relocs = r;
  result = unfold emit_code in refl;
  appended = Appended-nil v;
  count = refl;
}
emit_code-Assembled (inst ∷ rest) map pc b r v = elim (Bool-cases (is_label inst.op)) [
  | inl h ↦
      let a = emit_code-Assembled rest map pc b r v in
      record {
        bytes = a.bytes;
        buffer = a.buffer;
        relocs = a.relocs;
        result = emit_code-label inst rest map pc (output b r) h ∙ a.result;
        appended = a.appended;
        count = rw h (omega (arith, a.count));
      }
  | inr h ↦
      let w = encode-measure inst (some map) pc 0 b r v in
      let pc' = (pc + measure inst 0) % 2 ^ 64 in
      let a = emit_code-Assembled rest map pc' w.buffer w.list w.appended.inside in
      record {
        bytes = w.bytes ++ a.bytes;
        buffer = a.buffer;
        relocs = a.relocs;
        result = emit_code-step inst rest map pc b r w h ∙ a.result;
        appended = Appended-append w.appended a.appended;
        count = rw h (omega (arith, length-append w.bytes a.bytes, w.count, a.count));
      }
]

-- The program counter behind a list, in pass 1 and in pass 2.
abbrev pub pc_behind : List X86Instr → ℕ → ℕ
pc_behind list pc = (pc + total list) % 2 ^ 64

pc_behind-label :
    (inst : X86Instr) (xs : List X86Instr) (pc : ℕ)
    → is_label inst.op ≡ true
    → pc_behind xs pc ≡ pc_behind (inst ∷ xs) pc
unfolding total
pc_behind-label inst xs pc h = rw h (omega arith)

pc_behind-step :
    (inst : X86Instr) (xs : List X86Instr) (pc : ℕ)
    → is_label inst.op ≡ false
    → pc_behind xs ((pc + measure inst 0) % 2 ^ 64) ≡ pc_behind (inst ∷ xs) pc
unfolding total
pc_behind-step inst xs pc h = rw h (omega arith)

-- Pass 2 over two lists in a row.
pub emit_code-append :
    (xs ys : List X86Instr) (map : LabelMap) (pc : ℕ) (b : ByteBuffer) (r : Option X86RelocList)
    → IsValid b
    → pc < 2 ^ 64
    → emit_code (xs ++ ys) map pc (output b r)
      ≡ emit_code ys map (pc_behind xs pc) (emit_code xs map pc (output b r))
emit_code-append [] ys map pc b r v small =
    unfold emit_code total in ap (λ n. emit_code ys map n (output b r)) (omega arith)
emit_code-append (inst ∷ xs) ys map pc b r v small = elim (Bool-cases (is_label inst.op)) [
  | inl h ↦
      emit_code-label inst (xs ++ ys) map pc (output b r) h
      ∙ emit_code-append xs ys map pc b r v small
      ∙ ap₂ (emit_code ys map) (pc_behind-label inst xs pc h)
          (sym (emit_code-label inst xs map pc (output b r) h))
  | inr h ↦
      let w = encode-measure inst (some map) pc 0 b r v in
      let pc' = (pc + measure inst 0) % 2 ^ 64 in
      emit_code-step inst (xs ++ ys) map pc b r w h
      ∙ emit_code-append xs ys map pc' w.buffer w.list w.appended.inside (omega arith)
      ∙ ap₂ (emit_code ys map) (pc_behind-step inst xs pc h)
          (sym (emit_code-step inst xs map pc b r w h))
]

measure_any : (inst : X86Instr) (pc pc' : ℕ) → measure inst pc ≡ measure inst pc'
measure_any inst pc pc' = sym (size-eq-measure inst none pc pc) ∙ size-eq-measure inst none pc pc'

pub record_labels-label :
    (inst : X86Instr) (rest : List X86Instr) (pc : ℕ) (map : LabelMap)
    → is_label inst.op ≡ true
    → record_labels (inst ∷ rest) pc map
      ≡ record_labels rest pc (label_map_put map inst.dst.symbol pc)
unfolding record_labels
record_labels-label inst rest pc map h = rw h

pub record_labels-step :
    (inst : X86Instr) (rest : List X86Instr) (pc : ℕ) (map : LabelMap)
    → is_label inst.op ≡ false
    → record_labels (inst ∷ rest) pc map ≡ record_labels rest ((pc + measure inst 0) % 2 ^ 64) map
unfolding record_labels
record_labels-step inst rest pc map h =
    rw h (ap (λ n. record_labels rest ((pc + n) % 2 ^ 64) map) (measure_any inst pc 0))

-- Pass 1 over two lists in a row.
pub record_labels-append :
    (xs ys : List X86Instr) (pc : ℕ) (map : LabelMap)
    → pc < 2 ^ 64
    → record_labels (xs ++ ys) pc map ≡ record_labels ys (pc_behind xs pc) (record_labels xs pc map)
record_labels-append [] ys pc map small =
    unfold record_labels total in ap (λ n. record_labels ys n map) (omega arith)
record_labels-append (inst ∷ xs) ys pc map small = elim (Bool-cases (is_label inst.op)) [
  | inl h ↦
      record_labels-label inst (xs ++ ys) pc map h
      ∙ record_labels-append xs ys pc (label_map_put map inst.dst.symbol pc) small
      ∙ ap₂ (record_labels ys) (pc_behind-label inst xs pc h)
          (sym (record_labels-label inst xs pc map h))
  | inr h ↦
      let pc' = (pc + measure inst 0) % 2 ^ 64 in
      record_labels-step inst (xs ++ ys) pc map h
      ∙ record_labels-append xs ys pc' map (omega arith)
      ∙ ap₂ (record_labels ys) (pc_behind-step inst xs pc h)
          (sym (record_labels-step inst xs pc map h))
]

pub total-append : (xs ys : List X86Instr) → total (xs ++ ys) ≡ total xs + total ys
unfolding total
total-append [] ys = omega arith
total-append (inst ∷ xs) ys = omega (arith, total-append xs ys)

pub total-step :
    (inst : X86Instr) (rest : List X86Instr)
    → is_label inst.op ≡ false
    → total (inst ∷ rest) ≡ measure inst 0 + total rest
unfolding total
total-step inst rest h = rw h
