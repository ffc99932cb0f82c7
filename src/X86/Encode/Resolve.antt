-- ===== src/X86/Encode/Resolve.antt =====
-- Label resolution: the offset that a jump looks up is the offset at which the code behind the
-- label is written.
use cco_lang.Base.{
  ℕ, ◌+◌, ◌%◌, ◌^◌, ◌<◌, ◌≡◌, refl, sym, ◌∙◌, ap, Bool, true, false, ◌&&◌, ◌||◌, Option, none, some,
  String, List, [], ◌∷◌, ◌++◌, arith, length, length-append, if◌then◌else◌, Bool-cases, inl, inr,
  str_eq, eq_refl,
}
use cco_lang.X86.Instr.{X86Instr}
use cco_lang.X86.Buffer.{ByteBuffer, byte_buf_size}
use cco_lang.X86.Buffer.Append.{IsValid}
use cco_lang.X86.Reloc.{X86RelocList}
use cco_lang.X86.Labels.{
  LabelMap, label_map_create, label_map_put, label_map_get, find_label, find_label-append,
  keep_first,
}
use cco_lang.X86.Encode.Function.{is_label, record_labels, emit_code, code_size}
use cco_lang.X86.Encode.Passes.{
  output, total, emit_code-Assembled, pc_behind, record_labels-append, record_labels-label,
  record_labels-step,
}

abbrev pub named : Option String → String → Bool
named none name = false
named (some s) name = str_eq s name

-- A label instruction of that name stands in the list.
unfoldable pub defines : List X86Instr → String → Bool
defines [] name = false
defines (inst ∷ rest) name = is_label inst.op && named inst.dst.symbol name || defines rest name

keep_first-none : (o : Option ℕ) → o ≡ keep_first o none
keep_first-none none = refl
keep_first-none (some a) = refl

keep_first-some : {a : ℕ} (o p : Option ℕ) → o ≡ some a → keep_first o p ≡ some a
keep_first-some none p h = cc
keep_first-some (some b) p h = h

-- What the map answers for a name after a label has been put.
find-label_map_put :
    (name : String) (map : LabelMap) (symbol : Option String) (pc : ℕ)
    → find_label name (label_map_put map symbol pc).entries
      ≡ keep_first (find_label name map.entries) (if named symbol name then some pc else none)
find-label_map_put name map none pc =
    unfold label_map_put in keep_first-none (find_label name map.entries)
find-label_map_put name map (some s) pc =
    unfold label_map_put in find_label-append name map.entries (record { name = s; offset = pc })

-- The first definition of a name stays.
record_labels-keeps :
    (list : List X86Instr) (pc : ℕ) (map : LabelMap) (name : String) (offset : ℕ)
    → find_label name map.entries ≡ some offset
    → find_label name (record_labels list pc map).entries ≡ some offset
record_labels-keeps [] pc map name offset h = unfold record_labels in h
record_labels-keeps (inst ∷ rest) pc map name offset h = elim (Bool-cases (is_label inst.op)) [
  | inl e ↦ rw (record_labels-label inst rest pc map e) (
      record_labels-keeps rest pc (label_map_put map inst.dst.symbol pc) name offset (
        find-label_map_put name map inst.dst.symbol pc
        ∙ keep_first-some (find_label name map.entries) _ h))
  | inr e ↦
      rw (record_labels-step inst rest pc map e) (record_labels-keeps rest _ map name offset h)
]

-- A name that the list does not define stays unknown.
record_labels-skips :
    (list : List X86Instr) (pc : ℕ) (map : LabelMap) (name : String)
    → defines list name ≡ false
    → find_label name map.entries ≡ none
    → find_label name (record_labels list pc map).entries ≡ none
unfolding defines
record_labels-skips [] pc map name d h = unfold record_labels in h
record_labels-skips (inst ∷ rest) pc map name d h = elim (Bool-cases (is_label inst.op)) [
  | inl e ↦ rw (record_labels-label inst rest pc map e) (
      record_labels-skips rest pc (label_map_put map inst.dst.symbol pc) name (ground arith)
        (find-label_map_put name map inst.dst.symbol pc ∙ ground arith))
  | inr e ↦
      rw (record_labels-step inst rest pc map e)
        (record_labels-skips rest _ map name (ground arith) h)
]

pub size_behind :
    (list : List X86Instr) (map : LabelMap) (pc : ℕ) (b : ByteBuffer) (r : Option X86RelocList)
    → IsValid b
    → code_size (emit_code list map pc (output b r)).code ≡ byte_buf_size b + total list
size_behind list map pc b r v =
    let a = emit_code-Assembled list map pc b r v in
    ap (λ o. code_size o.code) a.result
    ∙ ap length a.appended.stored
    ∙ length-append b.data_bytes a.bytes
    ∙ ap (λ n. byte_buf_size b + n) a.count

put_new :
    (name : String) (map : LabelMap) (symbol : Option String) (pc : ℕ)
    → symbol ≡ some name
    → find_label name map.entries ≡ none
    → find_label name (label_map_put map symbol pc).entries ≡ some pc
put_new name map symbol pc called unknown =
    find-label_map_put name map symbol pc ∙ rw (unknown, called, eq_refl)

-- The first label of a name resolves to the offset, modulo 2 ^ 64, at which pass 2 stands when it
-- reaches that label: the size of the output behind all that comes before. The condition says that
-- no label before it has the name; the labels behind it may.
pub label_resolves :
    (before behind : List X86Instr) (label : X86Instr) (name : String) (b : ByteBuffer)
    (r : Option X86RelocList)
    → IsValid b
    → byte_buf_size b < 2 ^ 64
    → is_label label.op ≡ true
    → label.dst.symbol ≡ some name
    → defines before name ≡ false
    → let map = record_labels (before ++ label ∷ behind) (byte_buf_size b) label_map_create in
      label_map_get (some map) (some name)
      ≡ some (code_size (emit_code before map (byte_buf_size b) (output b r)).code % 2 ^ 64)
label_resolves before behind label name b r v small is_l called fresh =
    let pc = byte_buf_size b in
    let seen = record_labels before pc label_map_create in
    let here = pc_behind before pc in
    let unknown =
      record_labels-skips before pc label_map_create name fresh (unfold find_label in refl) in
    let put = put_new name seen label.dst.symbol here called unknown in
    let kept =
      record_labels-keeps behind here (label_map_put seen label.dst.symbol here) name here put in
    unfold label_map_get in
    (ap (λ m. find_label name m.entries)
        (record_labels-append before (label ∷ behind) pc label_map_create small
          ∙ record_labels-label label behind here seen is_l)
      ∙ kept
      ∙ ap (λ n. some (n % 2 ^ 64)) (sym (size_behind before _ pc b r v)))
