-- ===== src/X86/Encode/Operand.antt =====
-- Register numbers, prefixes, ModRM bytes and memory operands.
use Prim.Native.Nat.{bit_or}
use cco_lang.Base.{
  ℕ, ◌-◌, ◌*◌, ◌%◌, ◌^◌, ℤ, pos, negsuc, wrap, leb_ℤ, pos_part, Bool, ◌&&◌, ◌||◌, not, ◌==◌,
  if◌then◌else◌,
}
use cco_lang.X86.Instr.{X86Reg, reg_code, X86CondCode, e, ne, l, le, g, ge, b, be, a, ae, p, np}
use cco_lang.X86.Encode.Out.{Emit, ◌▹◌, no_emit, u8, u32, advance}

-- `lo <= v && v <= hi`
abbrev pub in_range : ℤ → ℤ → ℤ → Bool
in_range lo hi v = leb_ℤ lo v && leb_ℤ v hi

unfoldable pub reg_hw_id : X86Reg → ℕ
unfolding reg_code
reg_hw_id r =
    let code = reg_code r in
    if in_range (pos 16) (pos 31) code
    then pos_part code - 16
    else if in_range (pos 0) (pos 15) code
    then pos_part code
    else 0

-- `if (test) rex |= mask`
set_flag : Bool → ℕ → ℕ → ℕ
set_flag test mask rex = if test then bit_or rex mask else rex

unfoldable pub rex_byte : Bool → Bool → Bool → Bool → ℕ
unfolding set_flag
rex_byte w r x b_bit =
    set_flag b_bit 0x01 (set_flag x 0x02 (set_flag r 0x04 (set_flag w 0x08 0x40)))

unfoldable pub emit_rex_prefix : Bool → Bool → Bool → Bool → Emit
emit_rex_prefix w r x b_bit =
    let rex = rex_byte w r x b_bit in if not (rex == 0x40) || w then u8 rex ▹ advance 1 else no_emit

-- `(mod << 6) | (reg << 3) | rm`
unfoldable pub modrm : ℕ → ℕ → ℕ → ℕ
modrm mode reg rm = bit_or (bit_or (mode * 2 ^ 6) (reg * 2 ^ 3)) rm

abbrev pub fits_int8 : ℤ → Bool
fits_int8 = in_range (negsuc 127) (pos 127)

unfoldable pub emit_modrm_sib_disp : ℕ → X86Reg → ℤ → Emit
emit_modrm_sib_disp reg_3bit base_reg disp =
    let rm_3bit = reg_hw_id base_reg % 8 in
    let reg = reg_3bit % 8 in
    if rm_3bit == 4
    then if fits_int8 disp
      then u8 (modrm 1 reg 4) ▹ u8 0x24 ▹ u8 (wrap (2 ^ 8) disp) ▹ advance 3
      else u8 (modrm 2 reg 4) ▹ u8 0x24 ▹ u32 (wrap (2 ^ 32) disp) ▹ advance 6
    else if rm_3bit == 5
    then if fits_int8 disp
      then u8 (modrm 1 reg 5) ▹ u8 (wrap (2 ^ 8) disp) ▹ advance 2
      else u8 (modrm 2 reg 5) ▹ u32 (wrap (2 ^ 32) disp) ▹ advance 5
    else if in_range (pos 0) (pos 0) disp
    then u8 (modrm 0 reg rm_3bit) ▹ advance 1
    else if fits_int8 disp
    then u8 (modrm 1 reg rm_3bit) ▹ u8 (wrap (2 ^ 8) disp) ▹ advance 2
    else u8 (modrm 2 reg rm_3bit) ▹ u32 (wrap (2 ^ 32) disp) ▹ advance 5

unfoldable pub cond_to_opcode_byte : X86CondCode → ℕ
cond_to_opcode_byte e = 0x94
cond_to_opcode_byte ne = 0x95
cond_to_opcode_byte l = 0x9C
cond_to_opcode_byte ge = 0x9D
cond_to_opcode_byte le = 0x9E
cond_to_opcode_byte g = 0x9F
cond_to_opcode_byte b = 0x92
cond_to_opcode_byte ae = 0x93
cond_to_opcode_byte be = 0x96
cond_to_opcode_byte a = 0x97
cond_to_opcode_byte p = 0x9A
cond_to_opcode_byte np = 0x9B
