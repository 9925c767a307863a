-- ===== src/Klib/Clock.antt =====
-- kernel/klib.c, `wait`: when the busy loop on the clock ends.
use prajna_os.Base.{
  ℕ, zero, suc, ◌+◌, ◌*◌, ◌^◌, ◌<◌, ◌≡◌, refl, arith, ap, ◌∙◌, some, true, false, ltb, u32, sub32,
}
use prajna_os.Klib.{wait_rounds, wait}

module _ {S : Type 0} (between : S → S) where
  -- What `n` rounds of interrupts do.
  unfoldable pub after_rounds : ℕ → S → S
  after_rounds zero s = s
  after_rounds (suc n) s = after_rounds n (between s)

module _ {S : Type 0} (pit_get_ticks : S → ℕ) (between : S → S) where
  module _ (Inv : S → Type 0) (keeps : (s : S) → Inv s → Inv (between s))
      (clock : (s : S) → Inv s → pit_get_ticks (between s) ≡ u32 (pit_get_ticks s + 1)) where
    wait_rounds-after_rounds :
        (left passed fuel start : ℕ) (s : S)
        → Inv s
        → start < 2 ^ 32
        → passed + left < 2 ^ 32
        → left < fuel
        → pit_get_ticks s ≡ u32 (start + passed)
        → wait_rounds pit_get_ticks between fuel (passed + left) start s
          ≡ some (after_rounds between left s)
    unfolding wait_rounds after_rounds
    wait_rounds-after_rounds left passed zero start s v a b c e = absurd (omega (arith, c))
    wait_rounds-after_rounds zero passed (suc fuel) start s v a b c e =
        let over : ltb (sub32 (pit_get_ticks s) start) (passed + 0) ≡ false =
          let same : sub32 (u32 (start + passed)) start ≡ passed = omega arith in
          rw (e, same) (ground arith) in
        rw over refl
    wait_rounds-after_rounds (suc left) passed (suc fuel) start s v a b c e =
        let on : ltb (sub32 (pit_get_ticks s) start) (passed + suc left) ≡ true =
          let same : sub32 (u32 (start + passed)) start ≡ passed = omega arith in
          rw (e, same) (ground arith) in
        let shift : passed + suc left ≡ passed + 1 + left = omega arith in
        let next : pit_get_ticks (between s) ≡ u32 (start + (passed + 1)) =
          clock s v ∙ omega (arith, e) in
        rw on (
          ap (λ n. wait_rounds pit_get_ticks between fuel n start (between s)) shift
          ∙ wait_rounds-after_rounds left (passed + 1) fuel start (between s) (keeps s v) a
              (omega arith) (omega arith) next)

    -- The wait ends where the clock moves on in every state that an invariant allows.
    pub wait-after_rounds_while :
        (fuel ticks : ℕ) (s : S)
        → Inv s
        → pit_get_ticks s < 2 ^ 32
        → u32 (ticks * 100) < fuel
        → wait pit_get_ticks between fuel ticks s
          ≡ some (after_rounds between (u32 (ticks * 100)) s)
    unfolding wait
    wait-after_rounds_while fuel ticks s v a b =
        let start : ℕ = pit_get_ticks s in
        let n : ℕ = u32 (ticks * 100) in
        let none_passed : n ≡ 0 + n = omega arith in
        ap (λ n'. wait_rounds pit_get_ticks between fuel n' start s) none_passed
        ∙ wait_rounds-after_rounds n 0 fuel start s v a (omega arith) b (omega arith)

  -- Where the clock is a 32-bit number that every round of interrupts moves on by one, also around
  -- its end, and the fuel exceeds the ticks, `wait` ends after exactly ticks * 100 rounds, modulo
  -- 2^32.
  pub wait-after_rounds :
      (clock : (s : S) → pit_get_ticks (between s) ≡ u32 (pit_get_ticks s + 1)) (fuel ticks : ℕ)
      (s : S)
      → pit_get_ticks s < 2 ^ 32
      → u32 (ticks * 100) < fuel
      → wait pit_get_ticks between fuel ticks s ≡ some (after_rounds between (u32 (ticks * 100)) s)
  wait-after_rounds clock fuel ticks s a b =
      wait-after_rounds_while (λ s'. Unit {0}) (λ s' v. tt) (λ s' v. clock s') fuel ticks s tt a b
