-- ===== src/X86/Reloc.antt =====
-- Relocation records and the list that collects them: src/backend/x86_64/x86_64_encode.c.
-- The two relocation types are the constants R_X86_64_PC32 and R_X86_64_PLT32 of <elf.h>.
use cco_lang.Base.{
  ℕ, ◌+◌, ◌*◌, ◌≤◌, ◌<◌, ◌≡◌, refl, ℤ, Option, none, some, String, List, [], ◌∷◌, ◌++◌, arith, ltb,
  if◌then◌else◌, length, length-append,
}

pub data X86RelocType : Type 0 where
  pc32 plt32 : X86RelocType

pub record X86Reloc : Type 0 where
  pub offset : ℕ
  pub symbol : Option String
  pub type : X86RelocType
  pub addend : ℤ

-- `items` holds the first `count` entries.
pub record X86RelocList : Type 0 where
  pub items : List X86Reloc
  pub capacity : ℕ

abbrev pub x86_reloc_list_create : X86RelocList
x86_reloc_list_create = record { items = []; capacity = 64 }

unfoldable pub x86_reloc_list_append : Option X86RelocList → X86Reloc → Option X86RelocList
x86_reloc_list_append none r = none
x86_reloc_list_append (some list) r = some (record {
  items = list.items ++ r ∷ [];
  capacity = if ltb list.capacity (length list.items + 1) then list.capacity * 2 else list.capacity;
})

pub record IsValid (list : X86RelocList) : Type 0 where
  pub allocated : 0 < list.capacity
  pub fits : length list.items ≤ list.capacity

pub x86_reloc_list_create-IsValid : IsValid x86_reloc_list_create
x86_reloc_list_create-IsValid = omega arith

-- An append to a valid list puts the record last, keeps the others, and leaves a valid list: the
-- one doubling has room for it.
pub x86_reloc_list_append_lem :
    (list : X86RelocList) (r : X86Reloc)
    → IsValid list
    → (list' : X86RelocList) × (x86_reloc_list_append (some list) r ≡ some list')
      × (list'.items ≡ list.items ++ r ∷ [])
      × IsValid list'
unfolding x86_reloc_list_append
x86_reloc_list_append_lem list r v =
    (_, refl, refl, ground (arith, length-append list.items (r ∷ [])))
