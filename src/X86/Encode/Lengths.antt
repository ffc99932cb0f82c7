-- ===== src/X86/Encode/Lengths.antt =====
-- The lengths of encoded instructions: what pass 1 measures is what pass 2 writes.
use cco_lang.Base.{ℕ, ◌≤◌, ◌≡◌, ◌∙◌, ap, Bool, true, false, Option, none, some, List, arith, length}
use cco_lang.X86.Instr.{X86Instr, X86Op}
use cco_lang.X86.Buffer.{ByteBuffer}
use cco_lang.X86.Buffer.Append.{IsValid, Appended}
use cco_lang.X86.Reloc.{X86RelocList}
use cco_lang.X86.Labels.{LabelMap}
use cco_lang.X86.Encode.Out.{out}
use cco_lang.X86.Encode.Operand.{reg_hw_id}
use cco_lang.X86.Encode.Instr.{encode_op2_dst_src}
use cco_lang.X86.Encode.Sse.{encode_sse_op}
use cco_lang.X86.Encode.Single.{encode_op, encode_single_instruction_internal}
use cco_lang.X86.Encode.Function.{measure}
use cco_lang.X86.Encode.Counts.{Balanced, lower, widen, none-Balanced}
use cco_lang.X86.Encode.Measure.{encode_op-Same}
use cco_lang.X86.Encode.Balance.Moves.{
  lea_form, mov_form, movsd_form, encode_lea-Balanced, encode_mov-Balanced, encode_movsd-Balanced,
  legacy_prefix,
}
use cco_lang.X86.Encode.Balance.Ops.{
  encode_push_pop-Balanced, encode_rsp_imm-Balanced, encode_movb_imm-Balanced,
  encode_op1_dst_src-Balanced, encode_op2_dst_src-Balanced, encode_op1_src_dst-Balanced,
  encode_group3-Balanced, encode_cmp_imm-Balanced, encode_setcc-Balanced, encode_jmp-Balanced,
  encode_jcc-Balanced, encode_call-Balanced, one_byte-Balanced,
}

-- The instructions that the encoder turns into machine code: all but labels, and but moves
-- between operands of kinds that it has no form for.
unfoldable pub has_form_of : X86Op → X86Instr → Bool
has_form_of X86Op.label inst = false
has_form_of X86Op.lea inst = lea_form inst
has_form_of X86Op.mov inst = mov_form inst
has_form_of X86Op.movsd inst = movsd_form inst
has_form_of _ inst = true

unfoldable pub has_form : X86Instr → Bool
unfolding has_form_of
has_form inst = has_form_of inst.op inst

-- The encodings of two opcode bytes, and the SSE2 ones.
two : (w : Bool) (opc : ℕ) (inst : X86Instr) → Balanced 1 10 (encode_op2_dst_src w opc inst)
two w opc inst = widen 1 10 (encode_op2_dst_src-Balanced w opc inst) (omega arith) (omega arith)

sse : (prefix opc : ℕ) (inst : X86Instr) → Balanced 1 10 (encode_sse_op prefix opc inst)
unfolding encode_sse_op
sse prefix opc inst =
    widen 1 10
      (legacy_prefix prefix
        (widen 1 9 (encode_op2_dst_src-Balanced false opc inst) (omega arith) (omega arith)))
      (omega arith) (omega arith)

encode_op-Balanced :
    (op : X86Op) (map : Option LabelMap) (pc : ℕ) (inst : X86Instr)
    → Balanced (lower (has_form_of op inst)) 10 (encode_op op map pc inst)
unfolding encode_op has_form_of
encode_op-Balanced X86Op.label map pc inst = none-Balanced 10
encode_op-Balanced X86Op.push map pc inst = encode_push_pop-Balanced 0x50 inst
encode_op-Balanced X86Op.pop map pc inst = encode_push_pop-Balanced 0x58 inst
encode_op-Balanced X86Op.ret map pc inst = one_byte-Balanced 0xC3
encode_op-Balanced X86Op.sub_imm map pc inst = encode_rsp_imm-Balanced 0xEC inst
encode_op-Balanced X86Op.add_imm map pc inst = encode_rsp_imm-Balanced 0xC4 inst
encode_op-Balanced X86Op.lea map pc inst = encode_lea-Balanced pc inst
encode_op-Balanced X86Op.mov map pc inst = encode_mov-Balanced pc inst
encode_op-Balanced X86Op.movb_imm map pc inst = encode_movb_imm-Balanced inst
encode_op-Balanced X86Op.movslq map pc inst = encode_op1_dst_src-Balanced true 0x63 inst
encode_op-Balanced X86Op.movzbl map pc inst = two false 0xB6 inst
encode_op-Balanced X86Op.cmove map pc inst = two true 0x44 inst
encode_op-Balanced X86Op.add map pc inst = encode_op1_src_dst-Balanced 0x01 inst
encode_op-Balanced X86Op.sub map pc inst = encode_op1_src_dst-Balanced 0x29 inst
encode_op-Balanced X86Op.imul map pc inst = two false 0xAF inst
encode_op-Balanced X86Op.idiv map pc inst = encode_group3-Balanced 7 (reg_hw_id inst.src.reg)
encode_op-Balanced X86Op.cltd map pc inst = one_byte-Balanced 0x99
encode_op-Balanced X86Op.neg map pc inst = encode_group3-Balanced 3 (reg_hw_id inst.dst.reg)
encode_op-Balanced X86Op.and map pc inst = encode_op1_src_dst-Balanced 0x21 inst
encode_op-Balanced X86Op.or map pc inst = encode_op1_src_dst-Balanced 0x09 inst
encode_op-Balanced X86Op.xor map pc inst = encode_op1_src_dst-Balanced 0x31 inst
encode_op-Balanced X86Op.cmp map pc inst = encode_op1_src_dst-Balanced 0x39 inst
encode_op-Balanced X86Op.cmp_imm map pc inst = encode_cmp_imm-Balanced inst
encode_op-Balanced X86Op.setcc map pc inst = encode_setcc-Balanced inst
encode_op-Balanced X86Op.andb map pc inst = encode_op1_src_dst-Balanced 0x20 inst
encode_op-Balanced X86Op.orb map pc inst = encode_op1_src_dst-Balanced 0x08 inst
encode_op-Balanced X86Op.jmp map pc inst =
    widen 1 10 (encode_jmp-Balanced map pc inst) (omega arith) (omega arith)
encode_op-Balanced X86Op.jne map pc inst =
    widen 1 10 (encode_jcc-Balanced 0x85 map pc inst) (omega arith) (omega arith)
encode_op-Balanced X86Op.je map pc inst =
    widen 1 10 (encode_jcc-Balanced 0x84 map pc inst) (omega arith) (omega arith)
encode_op-Balanced X86Op.call map pc inst =
    widen 1 10 (encode_call-Balanced pc inst) (omega arith) (omega arith)
encode_op-Balanced X86Op.movsd map pc inst =
    widen _ 10 (encode_movsd-Balanced pc inst) (omega arith) (omega arith)
encode_op-Balanced X86Op.addsd map pc inst = sse 0xF2 0x58 inst
encode_op-Balanced X86Op.subsd map pc inst = sse 0xF2 0x5C inst
encode_op-Balanced X86Op.mulsd map pc inst = sse 0xF2 0x59 inst
encode_op-Balanced X86Op.divsd map pc inst = sse 0xF2 0x5E inst
encode_op-Balanced X86Op.xorpd map pc inst = sse 0x66 0x57 inst
encode_op-Balanced X86Op.ucomisd map pc inst = sse 0x66 0x2E inst

-- The balance of an instruction, at any label map and program counter.
pub internal-Balanced :
    (inst : X86Instr) (map : Option LabelMap) (pc : ℕ)
    → Balanced (lower (has_form inst)) 10 (encode_single_instruction_internal inst map pc)
unfolding encode_single_instruction_internal has_form
internal-Balanced inst map pc = encode_op-Balanced inst.op map pc inst

pub size-eq-measure :
    (inst : X86Instr) (map : Option LabelMap) (pc pc' : ℕ)
    → (internal-Balanced inst map pc).size ≡ measure inst pc'
unfolding measure encode_single_instruction_internal
size-eq-measure inst map pc pc' =
    let p = internal-Balanced inst map pc in
    let at_map = ap (λ o. o.len) (p.emits.measured none 0) in
    let at_none = ap (λ o. o.len) ((encode_op-Same inst.op map none pc pc' inst).at_null none 0) in
    omega (arith, at_map, at_none)

-- What one instruction does to a buffer.
pub record Encoded (inst : X86Instr) (map : Option LabelMap) (pc : ℕ) (b : ByteBuffer)
    (r : Option X86RelocList) (n : ℕ) : Type 0 where
  pub bytes : List ℕ
  pub buffer : ByteBuffer
  pub list : Option X86RelocList
  pub result :
      encode_single_instruction_internal inst map pc (out (some b) r 0) ≡ out (some buffer) list n
  pub appended : Appended b bytes buffer
  pub count : length bytes ≡ n

-- The length that pass 1 measures, at any program counter, is the length that pass 2 returns and
-- the number of bytes that it appends, at any label map and buffer. The buffer keeps what it held
-- and stays within its allocation.
pub encode-measure :
    (inst : X86Instr) (map : Option LabelMap) (pc pc' : ℕ) (b : ByteBuffer)
    (r : Option X86RelocList)
    → IsValid b
    → Encoded inst map pc b r (measure inst pc')
encode-measure inst map pc pc' b r v =
    let p = internal-Balanced inst map pc in
    let same = size-eq-measure inst map pc pc' in
    let w = p.emits.written b r 0 v in
    record {
      bytes = p.emits.bytes;
      buffer = w.buffer;
      list = w.list;
      result = w.result ∙ ap (out (some w.buffer) w.list) (omega arith);
      appended = w.appended;
      count = p.emits.count ∙ same;
    }

-- An instruction that the encoder has a form for takes between one and ten bytes.
pub measure_bounds :
    (inst : X86Instr) (pc : ℕ)
    → has_form inst ≡ true
    → (1 ≤ measure inst pc) × (measure inst pc ≤ 10)
measure_bounds inst pc known =
    let p = internal-Balanced inst none pc in
    let same = size-eq-measure inst none pc pc in
    let low : lower (has_form inst) ≡ 1 = ap lower known in (omega arith, omega arith)
