-- ===== src/Crypto/Modular/Laws.antt =====
-- Remainders of products and powers.
use ocash_sdk.Prelude.{ℕ, zero, suc, ◌+◌, ◌-◌, ◌*◌, ◌/◌, ◌%◌, ◌^◌, ◌≡◌, refl, sym, ap, ◌∙◌, arith}
use native.Mathlib.Nat.{
  two-pow-succ, add-mod, mod-zero, mod-lt, add-mul-mod_self_left, div-add-mod,
  mul-add-mod_self_left, pow-suc, pow-zero, mul_comm,
}

pub mod-mul : (a b m : ℕ) → a % m * b % m ≡ a * b % m
mod-mul a b m = sym (mul-add-mod_self_left m (a / m * b) (a % m * b)) ∙ ap (λ (k : ℕ). k % m) whole
  where
    whole : m * (a / m * b) + a % m * b ≡ a * b
    whole = omega (arith, ap (λ (k : ℕ). k * b) (div-add-mod a m))

pub mul-mod : (a b m : ℕ) → a * (b % m) % m ≡ a * b % m
mul-mod a b m = rw (mul_comm a (b % m), mod-mul b a m, mul_comm b a) refl

-- A product of remainders.
pub mod-mul-mod : (a b m : ℕ) → a % m * (b % m) % m ≡ a * b % m
mod-mul-mod a b m = rw (mod-mul a (b % m) m, mul-mod a b m) refl

pub pow-add : (a j k : ℕ) → a ^ (j + k) ≡ a ^ j * a ^ k
pow-add a j zero = grind (arith, pow-zero a)
pow-add a j (suc k) = omega (
  arith,
  pow-suc a (j + k),
  ap (λ (n : ℕ). a ^ j * n) (pow-suc a k),
  ap (λ (n : ℕ). n * a) (pow-add a j k),
  ap (λ (n : ℕ). a ^ n) {x = j + suc k} {y = suc (j + k)} (omega arith),
)

pub mul-pow : (a k : ℕ) → (a * a) ^ k ≡ a ^ k * a ^ k
mul-pow a zero = rw (pow-zero (a * a), pow-zero a) refl
mul-pow a (suc k) = rw (pow-suc (a * a) k, pow-suc a k, mul-pow a k) (omega arith)

pub pow-mod : (a k m : ℕ) → (a % m) ^ k % m ≡ a ^ k % m
pow-mod a zero m = rw (pow-zero (a % m), pow-zero a) refl
pow-mod a (suc k) m =
    rw
      (
        pow-suc (a % m) k,
        pow-suc a k,
        mul-mod ((a % m) ^ k) a m,
        ← mod-mul ((a % m) ^ k) a m,
        pow-mod a k m,
        mod-mul (a ^ k) a m,
      )
      refl

pub pow-mul : (a j k : ℕ) → (a ^ j) ^ k ≡ a ^ (j * k)
pow-mul a j zero =
    rw (pow-zero (a ^ j)) (sym (pow-zero a))
    ∙ ap (λ (n : ℕ). a ^ n) {x = 0} {y = j * 0} (omega arith)
pow-mul a j (suc k) =
    rw (pow-suc (a ^ j) k, pow-mul a j k) (sym (pow-add a (j * k) j))
    ∙ ap (λ (n : ℕ). a ^ n) {x = j * k + j} {y = j * suc k} (omega arith)

-- `k` squarings.
abbrev pub squared : ℕ → ℕ → ℕ → ℕ
squared a k m = a ^ (2 ^ k) % m

pub squared-zero : (a m : ℕ) → squared a 0 m ≡ a % m
squared-zero a m =
    ap (λ (n : ℕ). n % m) {x = a ^ 1} {y = a}
      (omega (arith, pow-suc a 0, ap (λ (n : ℕ). n * a) (pow-zero a)))

pub squared-suc : (a k m : ℕ) → squared a k m * squared a k m % m ≡ squared a (suc k) m
squared-suc a k m =
    mod-mul-mod (a ^ (2 ^ k)) (a ^ (2 ^ k)) m
    ∙ ap (λ (n : ℕ). n % m) (sym (pow-add a (2 ^ k) (2 ^ k)))
    ∙ ap (λ (n : ℕ). a ^ n % m) (sym (two-pow-succ k))

pub squared-squared : (a j k m : ℕ) → squared (squared a j m) k m ≡ squared a (j + k) m
squared-squared a j k m =
    pow-mod (a ^ (2 ^ j)) (2 ^ k) m
    ∙ ap (λ (n : ℕ). n % m) (pow-mul a (2 ^ j) (2 ^ k))
    ∙ ap (λ (n : ℕ). a ^ n % m) (sym (pow-add 2 j k))

pub pow-mul_base : (a b k : ℕ) → (a * b) ^ k ≡ a ^ k * b ^ k
pow-mul_base a b zero = rw (pow-zero (a * b), pow-zero a, pow-zero b) refl
pow-mul_base a b (suc k) =
    rw (pow-suc (a * b) k, pow-suc a k, pow-suc b k, pow-mul_base a b k) (omega arith)

pub squared-mul : (a b k m : ℕ) → squared (a * b % m) k m ≡ squared a k m * squared b k m % m
squared-mul a b k m =
    pow-mod (a * b) (2 ^ k) m
    ∙ ap (λ (n : ℕ). n % m) (pow-mul_base a b (2 ^ k))
    ∙ sym (mod-mul-mod (a ^ (2 ^ k)) (b ^ (2 ^ k)) m)

-- Sums and products of numbers that agree modulo `m`.
pub cong_add : (a b c d m : ℕ) → a % m ≡ b % m → c % m ≡ d % m → (a + c) % m ≡ (b + d) % m
cong_add a b c d m e f =
    add-mod a c m
    ∙ ap (λ (k : ℕ). (k + c % m) % m) e
    ∙ ap (λ (k : ℕ). (b % m + k) % m) f
    ∙ sym (add-mod b d m)

pub cong_mul : (a b c d m : ℕ) → a % m ≡ b % m → c % m ≡ d % m → a * c % m ≡ b * d % m
cong_mul a b c d m e f =
    sym (mod-mul-mod a c m)
    ∙ ap (λ (k : ℕ). k * (c % m) % m) e
    ∙ ap (λ (k : ℕ). b % m * k % m) f
    ∙ mod-mul-mod b d m

-- A common summand is cancelled.
pub cong_cancel : (a b c m : ℕ) → (a + c) % m ≡ (b + c) % m → a % m ≡ b % m
cong_cancel a b c zero e = omega (arith, mod-zero (a + c), mod-zero (b + c), mod-zero a, mod-zero b)
cong_cancel a b c (suc k) e = sym (shift a) ∙ cong_add (a + c) (b + c) rest rest m e refl ∙ shift b
  where
    m : ℕ
    m = suc k

    rest : ℕ
    rest = m - c % m

    shift : (n : ℕ) → (n + c + rest) % m ≡ n % m
    shift n =
        ap (λ (j : ℕ). j % m) {x = n + c + rest} {y = n + m * (c / m + 1)}
          (omega (arith, div-add-mod c m, mod-lt c {m = m} (omega arith)))
        ∙ add-mul-mod_self_left n m (c / m + 1)
