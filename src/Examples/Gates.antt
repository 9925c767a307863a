-- ===== src/Examples/Gates.antt =====
-- The kernel's code segment and an interrupt table.
use prajna_os.Base.{◌==◌, ◌≡◌, refl, arith, replicate, some, get_elem?, if◌then◌else◌}
use prajna_os.Segments.{GdtEntry, IdtEntry, idt_init}
use prajna_os.Segments.Decode.{handler, handler-idt_init}

abbrev empty : GdtEntry
empty = record {
  limit_low = 0;
  base_low = 0;
  base_mid = 0;
  access = 0;
  granularity = 0;
  base_high = 0;
}

abbrev unset : IdtEntry
unset = record { base_low = 0; selector = 0; zeroed = 0; flags = 0; base_high = 0 }

handler-idt_init_example :
    (e : IdtEntry) × (get_elem? (idt_init 0x100100 0x100200 0x100300 (replicate 256 unset)) 33
      ≡ some e)
    × (handler e ≡ (if 33 == 32 then 0x100200 else if 33 == 33 then 0x100300 else 0x100100))
    × (e.selector ≡ 0x08)
    × (e.flags ≡ 0x8E)
handler-idt_init_example =
    handler-idt_init 0x100100 0x100200 0x100300 33 (replicate 256 unset) refl (omega arith)
      (omega arith) (omega arith) (omega arith)
