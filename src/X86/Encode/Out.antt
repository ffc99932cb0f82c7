-- ===== src/X86/Encode/Out.antt =====
-- What an emission step of `encode_single_instruction_internal` works on: the buffer `b` and the
-- list `relocs`, either of which may be null, and the running `len`.
use cco_lang.Base.{ℕ, ◌+◌, ◌%◌, ◌^◌, negsuc, Option, none, some, String}
use cco_lang.X86.Buffer.{ByteBuffer, byte_buf_append_u8, byte_buf_append_u32, byte_buf_append_u64}
use cco_lang.X86.Reloc.{X86Reloc, X86RelocList, X86RelocType, x86_reloc_list_append}

pub record Out : Type 0 where
  pub buf : Option ByteBuffer
  pub relocs : Option X86RelocList
  pub len : ℕ

abbrev pub out : Option ByteBuffer → Option X86RelocList → ℕ → Out
out b r l = record { buf = b; relocs = r; len = l }

abbrev pub Emit : Type 0
Emit = Out → Out

-- One statement after another.
infixr 3 ◌▹◌
unfoldable pub ◌▹◌ : Emit → Emit → Emit
◌▹◌ f g o = g (f o)

unfoldable pub no_emit : Emit
no_emit o = o

-- `if (b) byte_buf_append_u8(b, byte)`, with the conversion of the argument to `uint8_t`.
unfoldable pub u8 : ℕ → Emit
u8 byte o = record o { buf = byte_buf_append_u8 o.buf (byte % 256) }

unfoldable pub u32 : ℕ → Emit
u32 val o = record o { buf = byte_buf_append_u32 o.buf (val % 2 ^ 32) }

unfoldable pub u64 : ℕ → Emit
u64 val o = record o { buf = byte_buf_append_u64 o.buf (val % 2 ^ 64) }

-- `len += n`
unfoldable pub advance : ℕ → Emit
advance n o = record o { len = o.len + n }

record_reloc : X86Reloc → Option ByteBuffer → Option X86RelocList → Option X86RelocList
record_reloc r none relocs = relocs
record_reloc r (some b) relocs = x86_reloc_list_append relocs r

-- `if (b) { if (relocs) x86_reloc_list_append(relocs, offset, symbol, type, -4) }`; the offset may
-- read the running length.
unfoldable pub reloc : (ℕ → ℕ) → Option String → X86RelocType → Emit
unfolding record_reloc
reloc offset symbol type o = record o {
  relocs =
      record_reloc
        (record { offset = offset o.len % 2 ^ 64; symbol = symbol; type = type; addend = negsuc 3 })
        o.buf o.relocs;
}
