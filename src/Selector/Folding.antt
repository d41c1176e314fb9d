-- ===== src/Selector/Folding.antt =====
-- core/src/net/selector/mio_adapter.rs: which tokens folding leaves as they are.
use Prim.Native.Nat.{bit_xor, bit_xor-bitwise, differ, digits}
use open_coroutine.Prelude.{ℕ, zero, suc, ◌+◌, ◌/◌, ◌%◌, ◌<◌, ◌≡◌, arith}
use open_coroutine.Selector.Records.{fold_token}

abbrev power : ℕ → ℕ
power zero = 1
power (suc w) = power w + power w

differ-bit : (x y : ℕ) → x < 2 → y < 2 → differ x y < 2
differ-bit zero y h k = k
differ-bit (suc x) zero h k = h
differ-bit (suc zero) (suc zero) h k = omega arith
differ-bit (suc zero) (suc (suc y)) h k = absurd (omega (arith, k))
differ-bit (suc (suc x)) (suc y) h k = absurd (omega (arith, h))

abbrev xor : ℕ → ℕ → ℕ → ℕ
xor = digits (λ b. b) differ

xor-below : (w n a b : ℕ) → a < power w → b < power w → xor n a b < power w
xor-below w zero a b h k = k
xor-below w (suc n) zero b h k = k
xor-below zero (suc n) (suc a) b h k = absurd (omega (arith, h))
xor-below (suc w) (suc n) (suc a) b h k =
    let rest = xor-below w n (suc a / 2) (b / 2) (omega (arith, h)) (omega (arith, k)) in
    let bit = differ-bit (suc a % 2) (b % 2) (omega arith) (omega arith) in omega (arith, rest, bit)

xor-bit_xor : (a b : ℕ) → bit_xor a b ≡ xor a a b
xor-bit_xor a b = bit_xor-bitwise a b

pub fold_token-below : (token : ℕ) → fold_token token < 4294967296
unfolding fold_token
fold_token-below token =
    let high = token / 4294967296 % 4294967296 in
    let low = token % 4294967296 in
    rw (xor-bit_xor high low) (xor-below 32 high high low (omega arith) (omega arith))

pub fold_token-small : (token : ℕ) → token < 4294967296 → fold_token token ≡ token
unfolding fold_token
fold_token-small token h =
    let high : token / 4294967296 % 4294967296 ≡ 0 = omega (arith, h) in
    let low : token % 4294967296 ≡ token = omega (arith, h) in rw (high, low) (xor-bit_xor 0 token)
