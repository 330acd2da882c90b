-- ===== src/Merkle/Proof/Siblings.antt =====
-- The positions of the siblings in a proof path, for a leaf index below 2 ^ 31.
use Prim.Native.Nat.{bit_xor, bit_xor-bitwise, digits, differ}
use ocash_sdk.Prelude.{
  ℕ, zero, suc, ◌+◌, ◌-◌, ◌*◌, ◌/◌, ◌%◌, ◌^◌, ◌≤◌, ◌<◌, ◌≡◌, refl, ap, ◌∙◌, some, ◌==◌, leb,
  if◌then◌else◌, arith, false,
}
use ocash_sdk.Merkle.Proof.{shift_right, non_negative, sibling_position}

-- The other child of the same parent.
abbrev pub sibling : ℕ → ℕ
sibling n = if n % 2 == 0 then n + 1 else n - 1

differ-zero : (n : ℕ) → differ n 0 ≡ n
differ-zero zero = refl
differ-zero (suc n) = refl

digits-zero : (n a : ℕ) → a ≤ n → digits (λ b. b) differ n a 0 ≡ a
digits-zero zero zero h = refl
digits-zero zero (suc a) h = absurd (omega arith)
digits-zero (suc n) zero h = refl
digits-zero (suc n) (suc a) h =
    omega (arith, digits-zero n (suc a / 2) (omega arith), differ-zero (suc a % 2))

differ-one : (d : ℕ) → d < 2 → differ d 1 ≡ 1 - d
differ-one zero h = refl
differ-one (suc zero) h = refl
differ-one (suc (suc d)) h = absurd (omega arith)

bit_xor-one : (n : ℕ) → bit_xor n 1 ≡ sibling n
bit_xor-one zero = bit_xor-bitwise 0 1
bit_xor-one (suc n) =
    let flipped : bit_xor (suc n) 1 ≡ suc n / 2 * 2 + (1 - suc n % 2) = omega (
      arith,
      bit_xor-bitwise (suc n) 1,
      digits-zero n (suc n / 2) (omega arith),
      differ-one (suc n % 2) (omega arith),
    ) in
    ground arith

pub shift_right_lem : (cid level : ℕ) → cid < 2 ^ 31 → shift_right cid level ≡ cid / 2 ^ level
unfolding shift_right
shift_right_lem cid level small =
    let bits : cid % 2 ^ 32 ≡ cid = omega arith in
    let positive : leb (2 ^ 31) cid ≡ false = ground arith in rw (bits, positive) refl

pub sibling_position_lem :
    (cid level : ℕ)
    → cid < 2 ^ 31
    → cid / 2 ^ level < 2 ^ 31
    → sibling_position cid level ≡ some (sibling (cid / 2 ^ level))
unfolding sibling_position
sibling_position_lem cid level small below =
    ap non_negative
      (ap (λ n. bit_xor n 1) (shift_right_lem cid level small) ∙ bit_xor-one (cid / 2 ^ level))
    ∙ non_negative_lem (cid / 2 ^ level) below
  where
    non_negative_lem : (n : ℕ) → n < 2 ^ 31 → non_negative (sibling n) ≡ some (sibling n)
    non_negative_lem n h =
        let positive : leb (2 ^ 31) (sibling n) ≡ false = ground arith in rw (positive) refl
