-- ===== src/Worker/Runner/Delay.antt =====
-- `retryDelay` of internal/worker/runner.go against its closed form.
use Prim.Native.Nat.{min}
use native.Mathlib.Nat.{pow-suc, mul_assoc, mul_comm}
use be_better.Prelude.{ℕ, zero, suc, ◌*◌, ◌-◌, ◌^◌, ◌≤◌, ◌≡◌, ap, arith}
use be_better.Model.{second, hour}
use be_better.Worker.Runner.{doubled, retry_delay}

pow_shift : (d k : ℕ) → d * 2 ^ suc k ≡ d * 2 * 2 ^ k
pow_shift d k = omega (
  arith,
  ap (λ x. d * x) (pow-suc 2 k),
  mul_assoc d 2 (2 ^ k),
  ap (λ x. d * x) (mul_comm (2 ^ k) 2),
)

le_shifted : (k d : ℕ) → d ≤ d * 2 ^ k
le_shifted zero d = omega arith
le_shifted (suc k) d = omega (arith, pow_shift d k, le_shifted k (d * 2))

min-doubled : (k d : ℕ) → min hour (doubled k d) ≡ min hour (d * 2 ^ k)
unfolding doubled
min-doubled zero d = omega arith
min-doubled (suc k) d = ground (arith, pow_shift d k, le_shifted (suc k) d, min-doubled k (d * 2))

-- After `attempts` attempts an event waits five seconds doubled for every attempt but the first, an
-- hour at most; a count of attempts below 1 counts as 1.
pub retry_delay-doubles :
    (attempts : ℕ) → retry_delay attempts ≡ min hour (5 * second * 2 ^ (attempts - 1))
unfolding retry_delay
retry_delay-doubles attempts = ground (arith, min-doubled (attempts - 1) (5 * second))
