-- ===== src/X86/Encode/Fields.antt =====
-- The fields that relocations patch: where an instruction records one, the record points at its
-- last four bytes, and these are zero.
use cco_lang.Base.{
  ℕ, ◌+◌, ◌%◌, ◌^◌, ◌≡◌, refl, ◌∙◌, ap, ap₂, Bool, true, false, Option, some, String, List, [], ◌∷◌,
  ◌++◌, append_assoc, arith, length, length-append, negsuc, if◌then◌else◌,
}
use cco_lang.X86.Instr.{X86Instr, X86Op, X86OperandKind}
use cco_lang.X86.Buffer.{ByteBuffer}
use cco_lang.X86.Buffer.Append.{IsValid}
use cco_lang.X86.Reloc
use cco_lang.X86.Reloc.{X86Reloc, X86RelocList, X86RelocType, pc32, plt32}
use cco_lang.X86.Labels.{LabelMap}
use cco_lang.X86.Encode.Out.{Emit, ◌▹◌, out, u8, advance, no_emit}
use cco_lang.X86.Encode.Operand.{emit_rex_prefix, modrm, rex_byte, reg_hw_id}
use cco_lang.X86.Encode.Instr.{
  encode_lea, encode_mov, emit_rip_operand, is_reg, is_imm, is_mem_base, is_mem_rip,
}
use cco_lang.X86.Encode.Sse.{encode_movsd, encode_movsd_operands}
use cco_lang.X86.Encode.Single.{encode_op, encode_call, encode_single_instruction_internal}
use cco_lang.X86.Encode.Counts.{
  Emits, u8-Emits, u32-Emits, advance-Emits, no_emit-Emits, reloc-Emits, seq-Emits, buffer-Emits,
  ◌then◌,
}
use cco_lang.X86.Encode.Balance.{emit_rip_operand-Emits}

abbrev pub zero_field : List ℕ
zero_field = 0 ∷ 0 ∷ 0 ∷ 0 ∷ []

-- The record of a field that ends an instruction: `symbol` less the four bytes of the field.
abbrev pub field_record : ℕ → Option String → X86RelocType → X86Reloc
field_record at symbol type = record {
  offset = at % 2 ^ 64;
  symbol = symbol;
  type = type;
  addend = negsuc 3;
}

-- The step appends some bytes and a zero field, and records that field.
pub record Field (f : Emit) (pc : ℕ) (symbol : Option String) (type : X86RelocType) : Type 0 where
  pub front : List ℕ
  pub appended : ℕ
  pub counted : ℕ
  pub emits : Emits appended counted f
  pub counted_is : counted ≡ length front + 4
  pub bytes_are : emits.bytes ≡ front ++ zero_field
  pub records_are : emits.records 0 ≡ field_record (pc + length front) symbol type ∷ []

call-Field : (pc : ℕ) (inst : X86Instr) → Field (encode_call pc inst) pc inst.src.symbol plt32
unfolding encode_call seq-Emits u8-Emits u32-Emits advance-Emits reloc-Emits buffer-Emits
call-Field pc inst = record {
  front = 0xE8 ∷ [];
  appended = 5;
  counted = 5;
  counted_is = refl;
  emits = u8-Emits 0xE8 then reloc-Emits _ _ _ then u32-Emits 0 then advance-Emits 5;
  bytes_are = refl;
  records_are = refl;
}

-- Bytes without a relocation, of which the step counts `n`.
record Plain (k n : ℕ) (f : Emit) : Type 0 where
  emits : Emits k n f
  no_records : (l : ℕ) → emits.records l ≡ []

record Prefix (f : Emit) : Type 0 where
  size : ℕ
  counted : ℕ
  same : counted ≡ size
  plain : Plain size counted f

if-Prefix : (test : Bool) {f g : Emit} → Prefix f → Prefix g → Prefix (if test then f else g)
if-Prefix true p q = p
if-Prefix false p q = q

byte-Prefix : (x : ℕ) → Prefix (u8 x ▹ advance 1)
unfolding seq-Emits u8-Emits advance-Emits buffer-Emits
byte-Prefix x = record {
  size = 1;
  counted = 1;
  same = refl;
  plain = record { emits = u8-Emits x then advance-Emits 1; no_records = λ l. refl };
}

none-Prefix : Prefix no_emit
unfolding no_emit-Emits
none-Prefix = record {
  size = 0;
  counted = 0;
  same = refl;
  plain = record { emits = no_emit-Emits; no_records = λ l. refl };
}

rex-Prefix : (w r x b : Bool) → Prefix (emit_rex_prefix w r x b)
unfolding emit_rex_prefix
rex-Prefix w r x b = if-Prefix _ (byte-Prefix (rex_byte w r x b)) none-Prefix

-- A prefix, `k` opcode bytes and a RIP-relative operand.
rip-Field :
    {k : ℕ} {f g : Emit} (pc dst_hw : ℕ) (inst : X86Instr)
    → Prefix f
    → Plain k 0 g
    → Field
        (f ▹ g ▹ emit_rip_operand pc (k + 1) dst_hw inst ▹ advance (k + 5))
        pc
        inst.src.symbol
        pc32
unfolding seq-Emits u8-Emits u32-Emits advance-Emits reloc-Emits buffer-Emits emit_rip_operand-Emits
rip-Field {k} pc dst_hw inst p o =
    let e = p.plain.emits in
    let bytes = e.bytes ++ (o.emits.bytes ++ (modrm 0 (dst_hw % 8) 5 % 256 ∷ [])) in
    let size : length bytes ≡ p.size + (k + 1) = omega (
      arith,
      length-append e.bytes (o.emits.bytes ++ (modrm 0 (dst_hw % 8) 5 % 256 ∷ [])),
      length-append o.emits.bytes (modrm 0 (dst_hw % 8) 5 % 256 ∷ []),
      e.count,
      o.emits.count,
    ) in
    record {
      front = bytes;
      appended = _;
      counted = _;
      emits =
          e
          then o.emits
          then emit_rip_operand-Emits pc (k + 1) dst_hw inst
          then advance-Emits (k + 5);
      counted_is = omega (arith, size, p.same);
      bytes_are = simp append_assoc;
      records_are =
          rw (p.plain.no_records 0, o.no_records (0 + p.counted))
            (ap (λ at. field_record at inst.src.symbol pc32 ∷ []) (omega (arith, size)));
    }

opcode-Plain : (x : ℕ) → Plain 1 0 (u8 x)
unfolding u8-Emits buffer-Emits
opcode-Plain x = record { emits = u8-Emits x; no_records = λ l. refl }

opcodes-Plain : (x y : ℕ) → Plain 2 0 (u8 x ▹ u8 y)
unfolding u8-Emits buffer-Emits seq-Emits
opcodes-Plain x y = record { emits = u8-Emits x then u8-Emits y; no_records = λ l. refl }

-- The instructions that record a relocation, by opcode and type.
pub data Relocates (inst : X86Instr) : X86Op → X86RelocType → Type 0 where
  by_call : Relocates inst X86Op.call plt32
  by_lea : is_mem_rip inst.src.kind ≡ true → Relocates inst X86Op.lea pc32
  by_mov :
      is_mem_rip inst.src.kind ≡ true
      → is_mem_base inst.dst.kind ≡ false
      → Relocates inst X86Op.mov pc32
  by_movsd :
      is_mem_rip inst.src.kind ≡ true
      → is_mem_base inst.dst.kind ≡ false
      → Relocates inst X86Op.movsd pc32

-- A source that is relative to RIP is no other operand.
record RipOnly (kind : X86OperandKind) : Type 0 where
  reg : is_reg kind ≡ false
  imm : is_imm kind ≡ false
  base : is_mem_base kind ≡ false

rip_only : (kind : X86OperandKind) → is_mem_rip kind ≡ true → RipOnly kind
rip_only kind h = ground arith

movsd_prefix : (w r x b : Bool) → Prefix (u8 0xF2 ▹ advance 1 ▹ emit_rex_prefix w r x b)
unfolding seq-Emits u8-Emits advance-Emits buffer-Emits
movsd_prefix w r x b =
    let p = rex-Prefix w r x b in
    record {
      size = 1 + (0 + p.size);
      counted = 0 + (1 + p.counted);
      same = omega (arith, p.same);
      plain = record {
        emits = u8-Emits 0xF2 then advance-Emits 1 then p.plain.emits;
        no_records = λ l. p.plain.no_records _;
      };
    }

op-Field :
    (map : Option LabelMap) (pc : ℕ) (inst : X86Instr) {op : X86Op} {type : X86RelocType}
    → Relocates inst op type
    → Field (encode_op op map pc inst) pc inst.src.symbol type
unfolding encode_op encode_lea encode_mov encode_movsd encode_movsd_operands
op-Field map pc inst by_call = call-Field pc inst
op-Field map pc inst (by_lea src) =
    let only = rip_only inst.src.kind src in
    rw (only.base, src)
      (rip-Field pc (reg_hw_id inst.dst.reg) inst (rex-Prefix _ _ _ _) (opcode-Plain 0x8D))
op-Field map pc inst (by_mov src dst) =
    let only = rip_only inst.src.kind src in
    rw (only.imm, only.reg, only.base, dst, src)
      (rip-Field pc (reg_hw_id inst.dst.reg) inst (rex-Prefix _ _ _ _) (opcode-Plain 0x8B))
op-Field map pc inst (by_movsd src dst) =
    let only = rip_only inst.src.kind src in
    rw (only.reg, only.base, dst, src)
      (unfold ◌▹◌ in
        rip-Field pc (reg_hw_id inst.dst.reg) inst (movsd_prefix _ _ _ _) (opcodes-Plain 0x0F 0x10))

-- An instruction that relocates, encoded behind a valid buffer with a valid relocation list,
-- appends some bytes and four zero bytes. The list gains one record: it has the symbol of the
-- source operand and the addend -4, and its offset is the program counter and the bytes before the
-- zeros, modulo 2 ^ 64. The length that is returned counts all of them.
pub relocates_last_field :
    (inst : X86Instr) (map : Option LabelMap) (pc : ℕ) (type : X86RelocType) (b : ByteBuffer)
    (r : X86RelocList)
    → Relocates inst inst.op type
    → IsValid b
    → Reloc.IsValid r
    → (front : List ℕ) × (b' : ByteBuffer) × (r' : X86RelocList)
      × (encode_single_instruction_internal inst map pc (out (some b) (some r) 0)
          ≡ out (some b') (some r') (length front + 4))
      × (b'.data_bytes ≡ b.data_bytes ++ (front ++ zero_field))
      × (r'.items ≡ r.items ++ field_record (pc + length front) inst.src.symbol type ∷ [])
unfolding encode_single_instruction_internal
relocates_last_field inst map pc type b r h v v' =
    let field = op-Field map pc inst h in
    let w = field.emits.written b (some r) 0 v in
    let (r', at_r', items, valid) = w.recorded v' in
    (
      field.front,
      w.buffer,
      r',
      w.result ∙ ap₂ (λ list l. out (some w.buffer) list l) at_r' (omega (arith, field.counted_is)),
      w.appended.stored ∙ ap (λ bytes. b.data_bytes ++ bytes) field.bytes_are,
      items ∙ ap (λ rs. r.items ++ rs) field.records_are,
    )
