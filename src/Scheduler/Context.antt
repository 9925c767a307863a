-- ===== src/Scheduler/Context.antt =====
-- kernel/switch.asm and the jump in `scheduler_start`: the registers that survive a switch.
use prajna_os.Base.{ap, ℕ, ◌+◌, ◌-◌, ◌^◌, ◌≤◌, ◌<◌, ◌≡◌, arith, ◌==◌, if◌then◌else◌, sub32, u32}

-- Memory as 32-bit words at byte addresses that are multiples of 4.
abbrev pub Words : Type 0
Words = ℕ → ℕ

abbrev pub write : Words → ℕ → ℕ → Words
write m a v b = if a == b then v else m b

-- The registers that C expects a call to keep, the stack pointer, and where execution goes on.
pub record Cpu : Type 0 where
  pub edi : ℕ
  pub esi : ℕ
  pub ebx : ℕ
  pub ebp : ℕ
  pub esp : ℕ
  pub eip : ℕ

-- `*--stack = v;` and the instruction `push`.
abbrev pub push_word : Words × ℕ → ℕ → Words × ℕ
push_word (m, sp) v = let sp' = sub32 sp 4 in (write m sp' v, sp')

-- Pops `edi`, `esi`, `ebx` and `ebp`, and returns.
unfoldable pub resume : Words → ℕ → Cpu
resume m sp = record {
  edi = m sp;
  esi = m (u32 (sp + 4));
  ebx = m (u32 (sp + 8));
  ebp = m (u32 (sp + 12));
  eip = m (u32 (sp + 16));
  esp = u32 (sp + 20);
}

-- Saves the four registers of the caller: `cpu.esp` points at the return address. The result is the
-- memory and the stack pointer to store.
unfoldable pub suspend : Words → Cpu → Words × ℕ
suspend m cpu =
    push_word (push_word (push_word (push_word (m, cpu.esp) cpu.ebp) cpu.ebx) cpu.esi) cpu.edi

-- `context_switch`: the memory, the value stored through `old_esp`, and the processor.
unfoldable pub context_switch : Words → Cpu → ℕ → Words × ℕ × Cpu
unfolding suspend resume
context_switch m cpu new_esp = let (m', saved) = suspend m cpu in (m', saved, resume m' new_esp)

-- What a task finds when it is resumed: its registers, behind the call's return.
abbrev pub returned : Words → Cpu → Cpu
returned m cpu = record cpu { eip = m cpu.esp; esp = u32 (cpu.esp + 4) }

-- Memory that agrees on the 20 bytes from `sp` on.
abbrev pub SameFrame : ℕ → Words → Words → Type 0
SameFrame sp m m' = (k : ℕ) → k ≤ 16 → m' (sp + k) ≡ m (sp + k)

-- A task that `context_switch` suspends with 20 bytes of stack in range, and whose stack frame then
-- nobody changes, has its registers and stack pointer when it is resumed, and goes on behind its
-- call.
pub resume-suspend :
    (m m' : Words) (cpu : Cpu)
    → 16 ≤ cpu.esp
    → cpu.esp < 2 ^ 32 - 4
    → SameFrame (cpu.esp - 16) (suspend m cpu).0 m'
    → resume m' (suspend m cpu).1 ≡ returned m cpu
unfolding suspend resume
resume-suspend m m' cpu lo hi same =
    let sp : ℕ = cpu.esp - 16 in
    let a : sub32 cpu.esp 4 ≡ sp + 12 = omega arith in
    let b : sub32 (sp + 12) 4 ≡ sp + 8 = omega arith in
    let c : sub32 (sp + 8) 4 ≡ sp + 4 = omega arith in
    let d : sub32 (sp + 4) 4 ≡ sp = omega arith in
    let same' = rw (a, b, c, d) at same in
    let at_zero : sp + 0 ≡ sp = omega arith in
    let at_end : sp + 16 ≡ cpu.esp = omega arith in
    let di : m' sp ≡ cpu.edi = ground (arith, same' 0, at_zero, ap m' at_zero) in
    let si : m' (u32 (sp + 4)) ≡ cpu.esi =
      let e : u32 (sp + 4) ≡ sp + 4 = omega arith in rw e (ground (arith, same' 4)) in
    let bx : m' (u32 (sp + 8)) ≡ cpu.ebx =
      let e : u32 (sp + 8) ≡ sp + 8 = omega arith in rw e (ground (arith, same' 8)) in
    let bp : m' (u32 (sp + 12)) ≡ cpu.ebp =
      let e : u32 (sp + 12) ≡ sp + 12 = omega arith in rw e (ground (arith, same' 12)) in
    let ip : m' (u32 (sp + 16)) ≡ m cpu.esp =
      let e : u32 (sp + 16) ≡ sp + 16 = omega arith in rw e (ground (arith, same' 16, at_end)) in
    let top : u32 (sp + 20) ≡ u32 (cpu.esp + 4) = omega arith in
    rw (a, b, c, d, di, si, bx, bp, ip, top)
