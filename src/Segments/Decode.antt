-- ===== src/Segments/Decode.antt =====
-- kernel/gdt.c and kernel/idt.c: what the processor reads out of the descriptors.
use prajna_os.Base.{
  ℕ, zero, suc, ◌+◌, ◌*◌, ◌/◌, ◌%◌, ◌^◌, ◌≤◌, ◌<◌, ◌≡◌, refl, arith, ◌∙◌, List, true, ◌&&◌, ◌==◌,
  if◌then◌else◌, bit_and, bit_or, passes, passes_at, set, length, length-set, get_elem?,
  get_elem?-set_self, get_elem?-set_ne, Option, some, Bool-cases, inl, inr,
}
use prajna_os.Segments.{
  GdtEntry, IdtEntry, gdt_entry, gdt_set, idt_entry, idt_set, default_from, idt_init,
}

-- The base address of a segment, its limit, and the four flags.
abbrev pub segment_base : GdtEntry → ℕ
segment_base e = e.base_low + e.base_mid * 2 ^ 16 + e.base_high * 2 ^ 24

abbrev pub segment_limit : GdtEntry → ℕ
segment_limit e = e.limit_low + e.granularity % 16 * 2 ^ 16

-- The address of a handler.
abbrev pub handler : IdtEntry → ℕ
handler e = e.base_low + e.base_high * 2 ^ 16

nibbles :
    passes
      (λ l.
        passes
          (λ g.
            let v = bit_or (bit_and l 0x0F) (bit_and g 0xF0) in
            (v % 16 == l % 16) && (v / 16 == g / 16))
          256)
      256
    ≡ true
unfolding passes
nibbles = refl

granularity-fields :
    (l g : ℕ)
    → l < 256
    → g < 256
    → let v = bit_or (bit_and l 0x0F) (bit_and g 0xF0) in (v % 16 ≡ l % 16) × (v / 16 ≡ g / 16)
granularity-fields l g hl hg = split (passes_at _ 256 hg (passes_at _ 256 hl nibbles))
  where
    split :
        let v = bit_or (bit_and l 0x0F) (bit_and g 0xF0) in
        ((v % 16 == l % 16) && (v / 16 == g / 16)) ≡ true → (v % 16 ≡ l % 16) × (v / 16 ≡ g / 16)
    split e = (ground arith, ground arith)

-- For an entry inside the table, a 32-bit base and flags of a byte, what `gdt_set` stores decodes
-- to the base, to the low 20 bits of the limit, to the upper four flag bits and to the access byte.
pub segment-gdt_set :
    (i base limit access gran : ℕ) (gdt : List GdtEntry)
    → i < length gdt
    → base < 2 ^ 32
    → gran < 256
    → (e : GdtEntry) × (get_elem? (gdt_set i base limit access gran gdt) i ≡ some e)
      × (segment_base e ≡ base)
      × (segment_limit e ≡ limit % 2 ^ 20)
      × (e.granularity / 16 ≡ gran / 16)
      × (e.access ≡ access)
unfolding gdt_set gdt_entry
segment-gdt_set i base limit access gran gdt h hb hg =
    let f = granularity-fields (limit / 2 ^ 16 % 2 ^ 8) gran (omega arith) hg in
    (
      gdt_entry base limit access gran,
      get_elem?-set_self gdt i _ h,
      omega arith,
      omega (arith, f.0),
      f.1,
      refl,
    )

length-default_from :
    (left i a : ℕ) (idt : List IdtEntry) → length (default_from left i a idt) ≡ length idt
unfolding default_from idt_set
length-default_from zero i a idt = refl
length-default_from (suc left) i a idt =
    length-default_from left (i + 1) a (set idt i (idt_entry a 0x08 0x8E)) ∙ length-set idt i _

length-idt_set : (i a : ℕ) (idt : List IdtEntry) → length (idt_set i a 0x08 0x8E idt) ≡ length idt
unfolding idt_set
length-idt_set i a idt = length-set idt i (idt_entry a 0x08 0x8E)

default_before :
    (left i a j : ℕ) (idt : List IdtEntry)
    → j < i
    → get_elem? (default_from left i a idt) j ≡ get_elem? idt j
unfolding default_from idt_set
default_before zero i a j idt h = refl
default_before (suc left) i a j idt h =
    default_before left (i + 1) a j (set idt i (idt_entry a 0x08 0x8E)) (omega arith)
    ∙ get_elem?-set_ne idt i j _ (omega arith)

default_at :
    (left i a j : ℕ) (idt : List IdtEntry)
    → i ≤ j
    → j < i + left
    → j < length idt
    → get_elem? (default_from left i a idt) j ≡ some (idt_entry a 0x08 0x8E)
unfolding default_from idt_set
default_at zero i a j idt lo hi l = absurd (omega arith)
default_at (suc left) i a j idt lo hi l = elim (Bool-cases (i == j)) [
  | inl y ↦
      let e : i ≡ j = ground arith in
      rw e (
        default_before left (j + 1) a j (set idt j (idt_entry a 0x08 0x8E)) (omega arith)
        ∙ get_elem?-set_self idt j _ l)
  | inr n ↦
      default_at left (i + 1) a j (set idt i (idt_entry a 0x08 0x8E)) (ground arith) (omega arith)
        (rw length-set l)
]

handler-idt_entry : (a : ℕ) → a < 2 ^ 32 → handler (idt_entry a 0x08 0x8E) ≡ a
unfolding idt_entry
handler-idt_entry a h = omega arith

-- A present kernel gate to the handler at `a`.
Gate : ℕ → Option IdtEntry → Type 0
Gate a o = (e : IdtEntry) × (o ≡ some e) × (handler e ≡ a) × (e.selector ≡ 0x08) × (e.flags ≡ 0x8E)

idt_entry-Gate :
    (a : ℕ) {o : Option IdtEntry} → a < 2 ^ 32 → o ≡ some (idt_entry a 0x08 0x8E) → Gate a o
unfolding Gate idt_entry
idt_entry-Gate a h e = (idt_entry a 0x08 0x8E, e, handler-idt_entry a h, refl, refl)

-- The entry that is set, and the others.
idt_set-Gate :
    (i a b j : ℕ) (idt : List IdtEntry)
    → j < length idt
    → a < 2 ^ 32
    → Gate b (get_elem? idt j)
    → Gate (if i == j then a else b) (get_elem? (idt_set i a 0x08 0x8E idt) j)
unfolding idt_set
idt_set-Gate i a b j idt l h before = elim (Bool-cases (i == j)) [
  | inl y ↦
      let e : i ≡ j = ground arith in rw (y, e) (idt_entry-Gate a h (get_elem?-set_self idt j _ l))
  | inr n ↦ rw (n, get_elem?-set_ne idt i j (idt_entry a 0x08 0x8E) (ground arith)) before
]

idt_init-Gate :
    (d t k j : ℕ) (idt : List IdtEntry)
    → length idt ≡ 256
    → j < 256
    → d < 2 ^ 32
    → t < 2 ^ 32
    → k < 2 ^ 32
    → Gate
        (if 46 == j then d else if 33 == j then k else if 32 == j then t else d)
        (get_elem? (idt_init d t k idt) j)
unfolding idt_init
idt_init-Gate d t k j idt size h hd ht hk =
    let filled = default_from 256 0 d idt in
    let l : length filled ≡ 256 = length-default_from 256 0 d idt ∙ size in
    let g0 =
      idt_entry-Gate d hd (default_at 256 0 d j idt (omega arith) (omega arith) (omega arith)) in
    let g1 = idt_set-Gate 32 t d j filled (omega arith) ht g0 in
    let timed = idt_set 32 t 0x08 0x8E filled in
    let g2 = idt_set-Gate 33 k _ j timed (omega (arith, length-idt_set 32 t filled)) hk g1 in
    idt_set-Gate 46 d _ j (idt_set 33 k 0x08 0x8E timed)
      (omega (arith, length-idt_set 32 t filled, length-idt_set 33 k timed)) hd g2

-- After `idt_init` on a table of 256 entries, with handlers at 32-bit addresses, every entry
-- decodes to a kernel gate of selector 0x08: entry 32 to the timer's handler, 33 to the keyboard's,
-- and all others to the default one.
pub handler-idt_init :
    (isr_default isr_timer isr_keyboard j : ℕ) (idt : List IdtEntry)
    → length idt ≡ 256
    → j < 256
    → isr_default < 2 ^ 32
    → isr_timer < 2 ^ 32
    → isr_keyboard < 2 ^ 32
    → (e : IdtEntry) × (get_elem? (idt_init isr_default isr_timer isr_keyboard idt) j ≡ some e)
      × (handler e ≡ (if j == 32 then isr_timer else if j == 33 then isr_keyboard else isr_default))
      × (e.selector ≡ 0x08)
      × (e.flags ≡ 0x8E)
unfolding Gate
handler-idt_init d t k j idt size h hd ht hk =
    let (e, at, to, sel, fl) = idt_init-Gate d t k j idt size h hd ht hk in
    (e, at, to ∙ ground arith, sel, fl)
