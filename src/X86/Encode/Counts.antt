-- ===== src/X86/Encode/Counts.antt =====
-- Emission steps by what they append: the bytes, the relocation records, and the length that they
-- count. A step is `Balanced` when it counts as many bytes as it appends.
use cco_lang.Base.{
  ℕ, ◌+◌, ◌%◌, ◌^◌, ◌≤◌, ◌≡◌, refl, ap, ◌∙◌, sym, subst, Bool, true, false, ◌||◌, Option, none,
  some, String, List, [], ◌∷◌, ◌++◌, arith, if◌then◌else◌, length, length-append, append_assoc,
  append-nil, negsuc,
}
use cco_lang.X86.Buffer.{ByteBuffer, byte_buf_append_u8, byte_buf_append_u32, byte_buf_append_u64}
use cco_lang.X86.Buffer.Append
use cco_lang.X86.Buffer.Append.{
  append_u8-null, append_u32-null, append_u64-null, Appended, Appended-nil, Appended-append,
  append_u8-Appended, append_u32-Appended, append_u64-Appended, le_bytes, length-le_bytes,
}
use cco_lang.X86.Reloc
use cco_lang.X86.Reloc.{
  X86Reloc, X86RelocList, X86RelocType, x86_reloc_list_append, x86_reloc_list_append_lem,
}
use cco_lang.X86.Encode.Out.{out, Emit, ◌▹◌, no_emit, u8, u32, u64, advance, reloc}

-- The relocation list behind a step that adds `rs`; a null list stays null.
abbrev pub Recorded : Option X86RelocList → List X86Reloc → Option X86RelocList → Type 0
Recorded none rs r' = r' ≡ none
Recorded (some r) rs r' =
    Reloc.IsValid r
    → (list : X86RelocList) × (r' ≡ some list) × (list.items ≡ r.items ++ rs) × Reloc.IsValid list

-- The buffer, list and length behind a step that starts with a buffer.
pub record Written (f : Emit) (b : ByteBuffer) (r : Option X86RelocList) (l n : ℕ) (bytes : List ℕ)
    (rs : List X86Reloc) : Type 0 where
  pub buffer : ByteBuffer
  pub list : Option X86RelocList
  pub result : f (out (some b) r l) ≡ out (some buffer) list (l + n)
  pub appended : Appended b bytes buffer
  pub recorded : Recorded r rs list

-- The step appends `k` bytes and counts `n`, whatever it starts from.
pub record Emits (k n : ℕ) (f : Emit) : Type 0 where
  pub bytes : List ℕ
  pub records : ℕ → List X86Reloc
  pub count : length bytes ≡ k
  pub measured : (r : Option X86RelocList) (l : ℕ) → f (out none r l) ≡ out none r (l + n)
  pub written :
      (b : ByteBuffer) (r : Option X86RelocList) (l : ℕ)
      → Append.IsValid b
      → Written f b r l n bytes (records l)

pub Recorded-nil : (r : Option X86RelocList) → Recorded r [] r
Recorded-nil none = refl
Recorded-nil (some r) = λ v. (r, refl, sym (append-nil r.items), v)

pub at_length :
    {b : Option ByteBuffer} {r : Option X86RelocList} {l m : ℕ} → l ≡ m → out b r l ≡ out b r m
at_length {b} {r} e = ap (out b r) e

unfoldable pub no_emit-Emits : Emits 0 0 no_emit
unfolding no_emit
no_emit-Emits = record {
  bytes = [];
  records = λ l. [];
  count = refl;
  measured = λ r l. at_length (omega arith);
  written = λ b r l v. record {
    buffer = b;
    list = r;
    result = at_length (omega arith);
    appended = Appended-nil v;
    recorded = Recorded-nil r;
  };
}

unfoldable pub advance-Emits : (n : ℕ) → Emits 0 n (advance n)
unfolding advance
advance-Emits n = record {
  bytes = [];
  records = λ l. [];
  count = refl;
  measured = λ r l. refl;
  written = λ b r l v. record {
    buffer = b;
    list = r;
    result = refl;
    appended = Appended-nil v;
    recorded = Recorded-nil r;
  };
}

-- A step that only appends to the buffer.
unfoldable pub buffer-Emits :
    (put : Option ByteBuffer → Option ByteBuffer) (bytes : List ℕ) {k : ℕ}
    → length bytes ≡ k
    → put none ≡ none
    → ((b : ByteBuffer)
        → Append.IsValid b
        → (b' : ByteBuffer) × (put (some b) ≡ some b') × Appended b bytes b')
    → Emits k 0 (λ o. record o { buf = put o.buf })
buffer-Emits put bytes size at_null at_buffer = record {
  bytes = bytes;
  records = λ l. [];
  count = size;
  measured = λ r l. rw at_null (at_length (omega arith));
  written = λ b r l v.
      let (b', put_b, a) = at_buffer b v in
      record {
        buffer = b';
        list = r;
        result = rw put_b (at_length (omega arith));
        appended = a;
        recorded = Recorded-nil r;
      };
}

unfoldable pub u8-Emits : (x : ℕ) → Emits 1 0 (u8 x)
unfolding u8 buffer-Emits
u8-Emits x =
    buffer-Emits (λ b. byte_buf_append_u8 b (x % 256)) (x % 256 ∷ []) refl (append_u8-null _)
      (λ b v. append_u8-Appended b v (x % 256))

unfoldable pub u32-Emits : (x : ℕ) → Emits 4 0 (u32 x)
unfolding u32 buffer-Emits
u32-Emits x =
    buffer-Emits (λ b. byte_buf_append_u32 b (x % 2 ^ 32)) (le_bytes 4 (x % 2 ^ 32)) refl
      (append_u32-null _) (λ b v. append_u32-Appended b v (x % 2 ^ 32))

pub u64-Emits : (x : ℕ) → Emits 8 0 (u64 x)
unfolding u64
u64-Emits x =
    buffer-Emits (λ b. byte_buf_append_u64 b (x % 2 ^ 64)) (le_bytes 8 (x % 2 ^ 64)) refl
      (append_u64-null _) (λ b v. append_u64-Appended b v (x % 2 ^ 64))

-- Relocation records stay behind the ones before them.
pub Recorded-append :
    (r r' r'' : Option X86RelocList) (rs rs' : List X86Reloc)
    → Recorded r rs r'
    → Recorded r' rs' r''
    → Recorded r (rs ++ rs') r''
Recorded-append none r' r'' rs rs' h h' = rw h at h'
Recorded-append (some r) r' r'' rs rs' h h' = λ v.
    let (list, at_r', items, v') = h v in
    let (list', at_r'', items', v'') = (rw at_r' at h') v' in
    (list', at_r'', items' ∙ ap (λ xs. xs ++ rs') items ∙ append_assoc r.items rs rs', v'')

unfoldable pub seq-Emits :
    {k n k' n' : ℕ} {f g : Emit} → Emits k n f → Emits k' n' g → Emits (k + k') (n + n') (f ▹ g)
unfolding ◌▹◌
seq-Emits {n} {n'} {f} {g} e e' = record {
  bytes = e.bytes ++ e'.bytes;
  records = λ l. e.records l ++ e'.records (l + n);
  count = omega (arith, length-append e.bytes e'.bytes, e.count, e'.count);
  measured = λ r l. rw (e.measured r l, e'.measured r (l + n)) (at_length (omega arith));
  written = λ b r l v.
      let w = e.written b r l v in
      let w' = e'.written w.buffer w.list (l + n) w.appended.inside in
      record {
        buffer = w'.buffer;
        list = w'.list;
        result = rw (w.result, w'.result) (at_length (omega arith));
        appended = Appended-append w.appended w'.appended;
        recorded = Recorded-append r w.list w'.list _ _ w.recorded w'.recorded;
      };
}

pub reloc-Recorded :
    (r : Option X86RelocList) (entry : X86Reloc)
    → Recorded r (entry ∷ []) (x86_reloc_list_append r entry)
reloc-Recorded none entry = unfold x86_reloc_list_append in refl
reloc-Recorded (some r) entry = λ v. x86_reloc_list_append_lem r entry v

unfoldable pub reloc-Emits :
    (offset : ℕ → ℕ) (symbol : Option String) (type : X86RelocType)
    → Emits 0 0 (reloc offset symbol type)
unfolding reloc
reloc-Emits offset symbol type = record {
  bytes = [];
  records = λ l.
      record { offset = offset l % 2 ^ 64; symbol = symbol; type = type; addend = negsuc 3 } ∷ [];
  count = refl;
  measured = λ r l. at_length (omega arith);
  written = λ b r l v. record {
    buffer = b;
    list = x86_reloc_list_append r _;
    result = at_length (omega arith);
    appended = Appended-nil v;
    recorded = reloc-Recorded r _;
  };
}

-- The number of bytes counted is the number appended, between `lo` and `hi`.
pub record Balanced (lo hi : ℕ) (f : Emit) : Type 0 where
  pub size : ℕ
  pub at_least : lo ≤ size
  pub at_most : size ≤ hi
  pub emits : Emits size size f

pub balance : {k n : ℕ} {f : Emit} → Emits k n f → k ≡ n → Balanced k k f
balance {k} {f} e same = record {
  size = k;
  at_least = omega arith;
  at_most = omega arith;
  emits = subst (λ m. Emits k m f) (sym same) e;
}

pub seq-Balanced :
    {lo hi lo' hi' : ℕ} {f g : Emit}
    → Balanced lo hi f
    → Balanced lo' hi' g
    → Balanced (lo + lo') (hi + hi') (f ▹ g)
seq-Balanced p q = record {
  size = p.size + q.size;
  at_least = omega arith;
  at_most = omega arith;
  emits = seq-Emits p.emits q.emits;
}

pub widen :
    {lo hi : ℕ} (lo' hi' : ℕ) {f : Emit}
    → Balanced lo hi f
    → lo' ≤ lo
    → hi ≤ hi'
    → Balanced lo' hi' f
widen lo' hi' p low high = record {
  size = p.size;
  at_least = omega arith;
  at_most = omega arith;
  emits = p.emits;
}

pub if-Balanced :
    {lo hi : ℕ} (test : Bool) {f g : Emit}
    → Balanced lo hi f
    → Balanced lo hi g
    → Balanced lo hi (if test then f else g)
if-Balanced true p q = p
if-Balanced false p q = q

-- Steps in a row.
infixr 4 ◌then◌
abbrev pub ◌then◌ :
    {k n k' n' : ℕ} {f g : Emit} → Emits k n f → Emits k' n' g → Emits (k + k') (n + n') (f ▹ g)
◌then◌ = seq-Emits

pub within : {lo hi k n : ℕ} {f : Emit} → Emits k n f → k ≡ n → lo ≤ k → k ≤ hi → Balanced lo hi f
within e same low high = widen _ _ (balance e same) low high

-- A chain of cases, of which the last emits nothing.
abbrev pub lower : Bool → ℕ
lower true = 1
lower false = 0

pub choose-Balanced :
    {hi : ℕ} (test others : Bool) {f g : Emit}
    → Balanced 1 hi f
    → Balanced (lower others) hi g
    → Balanced (lower (test || others)) hi (if test then f else g)
choose-Balanced true others p q = p
choose-Balanced false others p q = q

pub none-Balanced : (hi : ℕ) → Balanced (lower false) hi no_emit
none-Balanced hi = within no_emit-Emits refl (omega arith) (omega arith)
