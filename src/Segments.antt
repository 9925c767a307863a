-- ===== src/Segments.antt =====
-- kernel/gdt.c and kernel/idt.c: the descriptors of segments and interrupt handlers, and the tables
-- that `gdt_init` and `idt_init` fill. The loading of the tables by assembly is not modelled.
pub mod Decode
use prajna_os.Base.{
  ℕ, zero, suc, ◌+◌, ◌*◌, ◌-◌, ◌/◌, ◌%◌, ◌^◌, List, [], ◌∷◌, ◌>>>◌, bit_and, bit_or, set, u8, u16,
  u32,
}

-- `struct gdt_entry`
pub record GdtEntry : Type 0 where
  pub limit_low : ℕ
  pub base_low : ℕ
  pub base_mid : ℕ
  pub access : ℕ
  pub granularity : ℕ
  pub base_high : ℕ

-- The value that `gdt_set` stores.
unfoldable pub gdt_entry : ℕ → ℕ → ℕ → ℕ → GdtEntry
gdt_entry base limit access gran = record {
  base_low = u16 base;
  base_mid = u8 (base >>> 16);
  base_high = u8 (base >>> 24);
  limit_low = u16 limit;
  granularity = bit_or (bit_and (u8 (limit >>> 16)) 0x0F) (bit_and gran 0xF0);
  access = access;
}

unfoldable pub gdt_set : ℕ → ℕ → ℕ → ℕ → ℕ → List GdtEntry → List GdtEntry
unfolding gdt_entry
gdt_set i base limit access gran gdt = set gdt i (gdt_entry base limit access gran)

-- The table that `gdt_init` loads, from the three entries before.
unfoldable pub gdt_init : List GdtEntry → List GdtEntry
unfolding gdt_set
gdt_init gdt =
    gdt_set 2 0 0xFFFFFFFF 0x92 0xCF (gdt_set 1 0 0xFFFFFFFF 0x9A 0xCF (gdt_set 0 0 0 0 0 gdt))

-- `struct idt_entry`
pub record IdtEntry : Type 0 where
  pub base_low : ℕ
  pub selector : ℕ
  pub zeroed : ℕ
  pub flags : ℕ
  pub base_high : ℕ

-- The value that `idt_set` stores.
unfoldable pub idt_entry : ℕ → ℕ → ℕ → IdtEntry
idt_entry base sel flags = record {
  base_low = u16 base;
  base_high = u16 (base >>> 16);
  selector = sel;
  zeroed = 0;
  flags = flags;
}

unfoldable pub idt_set : ℕ → ℕ → ℕ → ℕ → List IdtEntry → List IdtEntry
unfolding idt_entry
idt_set i base sel flags idt = set idt i (idt_entry base sel flags)

-- `for (; i < 256; i++)` with `left` entries to go.
unfoldable pub default_from : ℕ → ℕ → ℕ → List IdtEntry → List IdtEntry
unfolding idt_set
default_from zero i isr_default idt = idt
default_from (suc left) i isr_default idt =
    default_from left (i + 1) isr_default (idt_set i isr_default 0x08 0x8E idt)

-- The table that `idt_init` loads, from the addresses of the three handlers.
unfoldable pub idt_init : ℕ → ℕ → ℕ → List IdtEntry → List IdtEntry
unfolding default_from idt_set
idt_init isr_default isr_timer isr_keyboard idt =
    let filled = default_from 256 0 isr_default idt in
    idt_set 46 isr_default 0x08 0x8E
      (idt_set 33 isr_keyboard 0x08 0x8E (idt_set 32 isr_timer 0x08 0x8E filled))

-- The ports and bytes by which `idt_init` moves the interrupt lines to 32 up to 47.
unfoldable pub pic_remap : List (ℕ × ℕ)
pic_remap =
    (0x20, 0x11)
    ∷ (0xA0, 0x11)
    ∷ (0x21, 0x20)
    ∷ (0xA1, 0x28)
    ∷ (0x21, 0x04)
    ∷ (0xA1, 0x02)
    ∷ (0x21, 0x01)
    ∷ (0xA1, 0x01)
    ∷ (0x21, 0x00)
    ∷ (0xA1, 0x00)
    ∷ []
