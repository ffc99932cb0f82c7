-- ===== src/X86/Encode/Function.antt =====
-- `x86_encode_single_instruction` and the two passes of `x86_encode_function`.
use cco_lang.Base.{
  ℕ, ◌+◌, ◌-◌, ◌%◌, ◌^◌, Bool, true, false, Option, none, some, List, [], ◌∷◌, leb, if◌then◌else◌,
  get_elem?, take, ◌&&◌,
}
use cco_lang.X86.Instr.{X86Instr, X86Op}
use cco_lang.X86.Buffer.{ByteBuffer, byte_buf_create, byte_buf_size}
use cco_lang.X86.Labels.{LabelMap, label_map_create, label_map_put}
use cco_lang.X86.Reloc.{X86Reloc, X86RelocList, x86_reloc_list_create}
use cco_lang.X86.Encode.Out.{out}
use cco_lang.X86.Encode.Single.{encode_single_instruction_internal}

abbrev pub is_label : X86Op → Bool
is_label X86Op.label = true
is_label _ = false

-- `encode_single_instruction_internal(inst, NULL, NULL, NULL, pc)`
unfoldable pub measure : X86Instr → ℕ → ℕ
measure inst pc = (encode_single_instruction_internal inst none pc (out none none 0)).len

-- What `x86_encode_single_instruction` hands back: its length, the bytes that it copied to
-- `out_buf`, and what it wrote to `out_reloc`.
pub record SingleResult : Type 0 where
  pub length_of : ℕ
  pub copied : Option (List ℕ)
  pub first_reloc : Option X86Reloc

abbrev pub contents : Option ByteBuffer → List ℕ
contents none = []
contents (some b) = b.data_bytes

abbrev pub first_of_list : Option X86RelocList → Option X86Reloc
first_of_list none = none
first_of_list (some list) = get_elem? list.items 0

-- `out_buf` and `out_reloc` say whether those pointers are given.
unfoldable pub x86_encode_single_instruction : Option X86Instr → Bool → ℕ → Bool → SingleResult
x86_encode_single_instruction none out_buf max_len out_reloc = record {
  length_of = 0;
  copied = none;
  first_reloc = none;
}
x86_encode_single_instruction (some inst) out_buf max_len out_reloc =
    let relocs = if out_reloc then some x86_reloc_list_create else none in
    let r = encode_single_instruction_internal inst none 0 (out (some byte_buf_create) relocs 0) in
    record {
      length_of = r.len;
      copied = if leb r.len max_len && out_buf then some (take r.len (contents r.buf)) else none;
      first_reloc = first_of_list r.relocs;
    }

-- Pass 1.
unfoldable pub record_labels : List X86Instr → ℕ → LabelMap → LabelMap
record_labels [] pc map = map
record_labels (inst ∷ rest) pc map =
    let at_label = record_labels rest pc (label_map_put map inst.dst.symbol pc) in
    let behind = record_labels rest ((pc + measure inst pc) % 2 ^ 64) map in
    if is_label inst.op then at_label else behind

-- What pass 2 writes to.
pub record Output : Type 0 where
  pub code : Option ByteBuffer
  pub relocs : Option X86RelocList

abbrev pub code_size : Option ByteBuffer → ℕ
code_size none = 0
code_size (some b) = byte_buf_size b

unfoldable pub encode_into : X86Instr → LabelMap → ℕ → Output → Output
encode_into inst map pc o =
    let r = encode_single_instruction_internal inst (some map) pc (out o.code o.relocs 0) in
    record { code = r.buf; relocs = r.relocs }

-- Pass 2.
unfoldable pub emit_code : List X86Instr → LabelMap → ℕ → Output → Output
emit_code [] map pc o = o
emit_code (inst ∷ rest) map pc o =
    let o' = encode_into inst map pc o in
    let before_sz = code_size o.code in
    let written = code_size o'.code - before_sz in
    let skip = emit_code rest map pc o in
    let go = emit_code rest map ((pc + written) % 2 ^ 64) o' in
    if is_label inst.op then skip else go

-- The result of `x86_encode_function`: a message for a null argument, or what was written.
pub data EncodeResult : Type 0 where
  null_arguments : EncodeResult
  encoded : Output → EncodeResult

unfoldable pub x86_encode_function :
    Option (List X86Instr) → Option ByteBuffer → Option X86RelocList → EncodeResult
x86_encode_function none code relocs = null_arguments
x86_encode_function (some list) none relocs = null_arguments
x86_encode_function (some list) (some b) relocs =
    let pc = byte_buf_size b in
    let map = record_labels list pc label_map_create in
    encoded (emit_code list map pc (record { code = some b; relocs = relocs }))
