-- ===== src/X86/Tests.antt =====
-- The theorems about the x86-64 backend at concrete inputs, and runs of the encoder.
use cco_lang.Base.{
  ℕ, ◌≡◌, refl, ◌≤◌, none, some, String, List, [], ◌∷◌, ◌++◌, length, negsuc, ◌+◌, ◌%◌, ◌^◌, arith,
  pos, ◌+ℤ◌, signed,
}
use cco_lang.X86.Instr.{X86Instr, X86Op, X86OperandKind, x86_instr_create, cleared_operand}
use cco_lang.X86.Buffer.{byte_buf_create}
use cco_lang.X86.Buffer.Append.{byte_buf_create-IsValid, le_bytes}
use cco_lang.X86.Buffer.{byte_buf_append_u8, byte_buf_append_u32, byte_buf_ensure_space}
use cco_lang.X86.Instr.{X86Reg, reg_code}
use cco_lang.X86.Encode.Out.{u8, u32, advance, no_emit, ◌▹◌}
use cco_lang.X86.Encode.Operand.{emit_rex_prefix, rex_byte, modrm, reg_hw_id, emit_modrm_sib_disp}
use cco_lang.X86.Encode.Instr.{
  encode_rsp_imm, encode_push_pop, encode_mov, encode_mov_imm, encode_op1_src_dst, emit_reg_reg,
}
use cco_lang.X86.Encode.Single.{
  encode_single_instruction_internal, encode_op, encode_jmp, jump_disp, rel32,
}
use cco_lang.X86.Encode.Function.{encode_into}
use cco_lang.X86.Labels.{find_label, label_map_put}
use cco_lang.X86.Labels.{label_map_get}
use cco_lang.X86.Encode.Function.{measure, code_size, contents, emit_code, record_labels}
use cco_lang.X86.Encode.Lengths.{Encoded, encode-measure, measure_bounds, has_form}
use cco_lang.X86.Encode.Resolve.{defines, label_resolves}
use cco_lang.X86.Buffer.{ByteBuffer, byte_buf_append_u64}
use cco_lang.X86.Buffer.Append.{append_u64_reads_back, le_value}
use cco_lang.X86.Buffer.Append
use cco_lang.X86.Labels.{keep_first, label_map_create, label_map_get-label_map_put}
use cco_lang.X86.Reloc
use cco_lang.X86.Reloc.{
  X86Reloc, X86RelocList, X86RelocType, x86_reloc_list_create, x86_reloc_list_append,
  x86_reloc_list_create-IsValid, x86_reloc_list_append_lem,
}
use cco_lang.X86.List.{X86InstrList, x86_instr_list_create, x86_instr_list_append}
use cco_lang.X86.Emit.{x86_emit_label, x86_emit_jmp, x86_emit_mov_reg_reg, reg_at}
use cco_lang.X86.Built
use cco_lang.X86.Built.{IsBuilt, created, built, IsSound, IsBuilt-IsSound}
use cco_lang.X86.Built.Seen.{seen, nothing, in_reg, code_label}
use cco_lang.X86.Built.Calls.{Made, IsBuilt-Made}
use cco_lang.X86.Peephole.{scan}
use cco_lang.X86.Peephole.Rounds.{others, scan_enough}
use cco_lang.X86.Optimize.{x86_instr_list_optimize}
use cco_lang.X86.Optimize.Keeps.{optimize_keeps, optimize_counted}
use cco_lang.X86.Encode.Out.{out}
use cco_lang.X86.Encode.Fields
use cco_lang.X86.Encode.Fields.{zero_field, field_record, relocates_last_field}
use cco_lang.X86.Encode.Landing.{written_by, label_map_of, jump_lands}

abbrev label_at : String → X86Instr
label_at s = record (x86_instr_create X86Op.label) {
  dst = record cleared_operand { kind = X86OperandKind.label_operand; symbol = some s };
}

abbrev jump_to : X86Op → String → X86Instr
jump_to op s = record (x86_instr_create op) {
  src = record cleared_operand { kind = X86OperandKind.label_operand; symbol = some s };
}

-- addq $300, %rsp
abbrev add_rsp : X86Instr
add_rsp = record (x86_instr_create X86Op.add_imm) {
  src = record cleared_operand { kind = X86OperandKind.imm_operand; imm = pos 300 };
}

-- top: addq $300, %rsp; jmp top; ret
abbrev spin : List X86Instr
spin = label_at "top" ∷ add_rsp ∷ jump_to X86Op.jmp "top" ∷ x86_instr_create X86Op.ret ∷ []

-- What a run computes with.
running : Unit {0}
unfolding emit_code record_labels encode_into measure encode_single_instruction_internal encode_op
    encode_rsp_imm encode_jmp encode_push_pop encode_mov encode_mov_imm encode_op1_src_dst u8 u32
    advance no_emit jump_disp rel32 label_map_get find_label label_map_put byte_buf_append_u8
    byte_buf_append_u32 byte_buf_ensure_space emit_rex_prefix rex_byte modrm reg_hw_id reg_code
    emit_reg_reg ◌▹◌ emit_modrm_sib_disp
running = tt

run_spin :
    contents (written_by spin spin byte_buf_create none).code
    ≡ 0x48 ∷ 0x81 ∷ 0xC4 ∷ 0x2C ∷ 0x01 ∷ 0 ∷ 0 ∷ 0xE9 ∷ 0xF4 ∷ 0xFF ∷ 0xFF ∷ 0xFF ∷ 0xC3 ∷ []
unfolding running
run_spin = refl

-- movq 16(%rsp), %r9
abbrev load_r9 : X86Instr
load_r9 = record (x86_instr_create X86Op.mov) {
  src = record cleared_operand {
    kind = X86OperandKind.mem_base;
    size = 8;
    reg = X86Reg.rsp;
    imm = pos 16;
  };
  dst = record cleared_operand { kind = X86OperandKind.reg_operand; size = 8; reg = X86Reg.r9 };
}

run_load :
    contents (written_by (load_r9 ∷ []) (load_r9 ∷ []) byte_buf_create none).code
    ≡ 0x4C ∷ 0x8B ∷ 0x4C ∷ 0x24 ∷ 0x10 ∷ []
unfolding running
run_load = refl

encode-measure_example : Encoded load_r9 none 7 byte_buf_create none (measure load_r9 90)
encode-measure_example =
    encode-measure load_r9 none 7 90 byte_buf_create none byte_buf_create-IsValid

measure_bounds_example : (1 ≤ measure load_r9 3) × (measure load_r9 3 ≤ 10)
measure_bounds_example = measure_bounds load_r9 3 (unfold has_form in refl)

label_resolves_example :
    label_map_get (some (label_map_of spin byte_buf_create)) (some "top")
    ≡ some (code_size (written_by [] spin byte_buf_create none).code % 2 ^ 64)
label_resolves_example =
    label_resolves [] (add_rsp ∷ jump_to X86Op.jmp "top" ∷ x86_instr_create X86Op.ret ∷ [])
      (label_at "top") "top" byte_buf_create none byte_buf_create-IsValid (omega arith) refl refl
      (unfold defines in refl)

jump_lands_example :
    (disp : ℕ) × (rest : List ℕ) × (contents (written_by spin spin byte_buf_create none).code
      ≡ contents (written_by (label_at "top" ∷ add_rsp ∷ []) spin byte_buf_create none).code
        ++ ((0xE9 ∷ le_bytes 4 disp) ++ rest))
    × (pos (
            code_size (written_by (label_at "top" ∷ add_rsp ∷ []) spin byte_buf_create none).code
            + 5)
          +ℤ signed (2 ^ 32) disp
        ≡ pos (code_size (written_by [] spin byte_buf_create none).code))
jump_lands_example =
    jump_lands spin (label_at "top" ∷ add_rsp ∷ []) (x86_instr_create X86Op.ret ∷ []) []
      (add_rsp ∷ jump_to X86Op.jmp "top" ∷ x86_instr_create X86Op.ret ∷ [])
      (jump_to X86Op.jmp "top") (label_at "top") "top" byte_buf_create none byte_buf_create-IsValid
      refl refl refl refl refl refl (unfold defines in refl) (unfold running in omega arith)

-- movq %r9, %r9
abbrev move_r9 : X86Instr
move_r9 = record (x86_instr_create X86Op.mov) { dst = reg_at 8 X86Reg.r9; src = reg_at 8 X86Reg.r9 }

-- top: movq %r9, %r9; jmp top
abbrev moving : X86InstrList
moving = record { instrs = label_at "top" ∷ move_r9 ∷ jump_to X86Op.jmp "top" ∷ []; count = 3 }

moving-IsBuilt : IsBuilt (some moving)
unfolding x86_emit_label x86_emit_mov_reg_reg x86_emit_jmp x86_instr_list_append
moving-IsBuilt =
    built
      (built (built created (Built.Builds.label "top"))
        (Built.Builds.mov_reg_reg 8 X86Reg.r9 X86Reg.r9))
      (Built.Builds.jmp "top")

IsBuilt-Made_example :
    Made
      (x86_emit_jmp
        (x86_emit_mov_reg_reg
          (x86_emit_label (some x86_instr_list_create) "top")
          8
          X86Reg.r9
          X86Reg.rax)
        "top")
      (seen X86Op.label (code_label (some "top")) nothing
        ∷ seen X86Op.mov (in_reg 8 X86Reg.rax) (in_reg 8 X86Reg.r9)
        ∷ seen X86Op.jmp nothing (code_label (some "top"))
        ∷ [])
IsBuilt-Made_example = IsBuilt-Made (
    built
      (built (built created (Built.Builds.label "top"))
        (Built.Builds.mov_reg_reg 8 X86Reg.r9 X86Reg.rax))
      (Built.Builds.jmp "top"))

optimize_keeps_example :
    (list' : X86InstrList) × (x86_instr_list_optimize (some moving) ≡ some list')
    × (others list'.instrs ≡ label_at "top" ∷ jump_to X86Op.jmp "top" ∷ [])
    × IsSound list'
optimize_keeps_example = optimize_keeps moving (IsBuilt-IsSound moving-IsBuilt)

optimize_counted_example :
    (list' : X86InstrList) × (x86_instr_list_optimize (some moving) ≡ some list')
    × (list'.count ≡ length list'.instrs)
    × (length list'.instrs ≤ 3)
optimize_counted_example = optimize_counted moving refl

scan_enough_example : scan 3 moving.instrs ≡ scan 7 moving.instrs
scan_enough_example = scan_enough 3 7 moving.instrs (omega arith) (omega arith)

append_u64_reads_back_example :
    (b' : ByteBuffer) × (bytes : List ℕ) × (byte_buf_append_u64
        (some byte_buf_create)
        0x0102030405060708
      ≡ some b')
    × (b'.data_bytes ≡ bytes)
    × (length bytes ≡ 8)
    × (le_value bytes ≡ 0x0102030405060708 % 2 ^ 64)
    × Append.IsValid b'
append_u64_reads_back_example =
    append_u64_reads_back byte_buf_create 0x0102030405060708 byte_buf_create-IsValid

label_map_get-label_map_put_example :
    label_map_get (some (label_map_put label_map_create (some "a") 7)) (some "b")
    ≡ keep_first (label_map_get (some label_map_create) (some "b")) none
label_map_get-label_map_put_example = label_map_get-label_map_put label_map_create "a" "b" 7

abbrev a_reloc : X86Reloc
a_reloc = record { offset = 1; symbol = some "puts"; type = X86RelocType.plt32; addend = negsuc 3 }

x86_reloc_list_append_lem_example :
    (list' : X86RelocList) × (x86_reloc_list_append (some x86_reloc_list_create) a_reloc
      ≡ some list')
    × (list'.items ≡ a_reloc ∷ [])
    × Reloc.IsValid list'
x86_reloc_list_append_lem_example =
    x86_reloc_list_append_lem x86_reloc_list_create a_reloc x86_reloc_list_create-IsValid

-- leaq greeting(%rip), %r9
abbrev lea_greeting : X86Instr
lea_greeting = record (x86_instr_create X86Op.lea) {
  dst = reg_at 8 X86Reg.r9;
  src = record cleared_operand {
    kind = X86OperandKind.mem_rip;
    size = 8;
    symbol = some "greeting";
  };
}

relocates_last_field_example :
    (front : List ℕ) × (b' : ByteBuffer) × (r' : X86RelocList) × (encode_single_instruction_internal
        lea_greeting none 5
        (out (some byte_buf_create) (some x86_reloc_list_create) 0)
      ≡ out (some b') (some r') (length front + 4))
    × (b'.data_bytes ≡ front ++ zero_field)
    × (r'.items ≡ field_record (5 + length front) (some "greeting") X86RelocType.pc32 ∷ [])
relocates_last_field_example =
    relocates_last_field lea_greeting none 5 X86RelocType.pc32 byte_buf_create x86_reloc_list_create
      (Fields.Relocates.by_lea refl) byte_buf_create-IsValid x86_reloc_list_create-IsValid
