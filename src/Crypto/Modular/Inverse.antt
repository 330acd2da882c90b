-- ===== src/Crypto/Modular/Inverse.antt =====
-- `ext_gcd` and `mod_inverse` against divisibility and the product.
use ocash_sdk.Prelude.{
  ℕ, zero, suc, ◌+◌, ◌-◌, ◌*◌, ◌/◌, ◌%◌, ◌≤◌, ◌<◌, ◌≡◌, refl, sym, ap, ◌∙◌, true, ◌==◌, arith,
  ==_iff, ◌↔◌,
}
use ocash_sdk.Prelude.Results.{ok}
use mathlib.Core.Path.{subst}
use Prim.Native.Nat.{◌∣◌}
use native.Mathlib.Nat
use ocash_sdk.Prelude.Int.{ℤ, pos, negsuc, pos_part, neg_part, ◌*ℤ◌, -ℤ_parts}
use ocash_sdk.Crypto.Modular.{ext_gcd, ext_gcd_step, mod_inverse, inverse_of, reduced, residue}
use ocash_sdk.Crypto.Modular.Laws.{mul-mod, mod-mul}

-- `gcd ≡ a * x + b * y`, the negative products moved to the other side.
abbrev pub Combines : ℕ → ℕ → ℕ × ℤ × ℤ → Type 0
Combines a b (gcd, x, y) = a * pos_part x + b * pos_part y ≡ gcd + a * neg_part x + b * neg_part y

abbrev pub Divides : ℕ → ℕ → ℕ × ℤ × ℤ → Type 0
Divides a b (gcd, x, y) = (gcd ∣ a) × (gcd ∣ b)

pos*ℤ_parts :
    (q : ℕ) (x : ℤ)
    → pos_part (pos q *ℤ x) + q * neg_part x ≡ neg_part (pos q *ℤ x) + q * pos_part x
unfolding ◌*ℤ◌
pos*ℤ_parts q x = ground arith

step-Combines : (a b : ℕ) (r : ℕ × ℤ × ℤ) → Combines (b % a) a r → Combines a b (ext_gcd_step a b r)
unfolding ext_gcd_step
step-Combines a b (gcd, x1, y1) h = omega (
  arith,
  h,
  ap (λ (k : ℕ). a * k) (-ℤ_parts y1 (pos (b / a) *ℤ x1)),
  ap (λ (k : ℕ). a * k) (pos*ℤ_parts (b / a) x1),
  ap (λ (k : ℕ). k * pos_part x1) (Nat.div-add-mod b a),
  ap (λ (k : ℕ). k * neg_part x1) (Nat.div-add-mod b a),
)

step-Divides : (a b : ℕ) (r : ℕ × ℤ × ℤ) → Divides (b % a) a r → Divides a b (ext_gcd_step a b r)
unfolding ext_gcd_step
step-Divides a b (gcd, x1, y1) (r, s) = (s, (Nat.dvd-mod_iff _ s).0 r)

-- The result of `extgcd` is a combination of its arguments and divides both.
pub ext_gcd_lem :
    (fuel a b : ℕ) → a ≤ fuel → Combines a b (ext_gcd fuel a b) × Divides a b (ext_gcd fuel a b)
unfolding ext_gcd
ext_gcd_lem fuel zero b h = (omega arith, (Nat.dvd-zero b, Nat.dvd_refl b))
ext_gcd_lem zero (suc a) b h = absurd (omega arith)
ext_gcd_lem (suc fuel) (suc a) b h =
    let (c, d) = ext_gcd_lem fuel (b % suc a) (suc a) (omega arith) in
    (
      step-Combines (suc a) b (ext_gcd fuel (b % suc a) (suc a)) c,
      step-Divides (suc a) b (ext_gcd fuel (b % suc a) (suc a)) d,
    )

residue-lt : (x : ℤ) (m : ℕ) → 0 < m → residue x m < m
unfolding residue
residue-lt (pos n) m h = Nat.mod-lt (n % m + m) h
residue-lt (negsuc n) m h = Nat.mod-lt (m - suc n % m) h

pub residue-pos : (n m : ℕ) → residue (pos n) m ≡ n % m
unfolding residue
residue-pos n m = Nat.add-mod_right (n % m) m ∙ Nat.mod-mod n m

-- The residue of an integer differs from it by a multiple of the modulus.
residue_differs :
    (x : ℤ) (m : ℕ)
    → 0 < m
    → (j : ℕ) × ((k : ℕ) × (residue x m + neg_part x + m * j ≡ pos_part x + m * k))
residue_differs (pos n) m h =
    (n / m, (0, rw (residue-pos n m) (omega (arith, Nat.div-add-mod n m))))
residue_differs (negsuc n) m h = (
  (m - suc n % m) / m,
  (
    1 + suc n / m,
    unfold residue in
        omega (
          arith,
          Nat.div-add-mod (suc n) m,
          Nat.div-add-mod (m - suc n % m) m,
          Nat.mod-lt (suc n) h,
        ),
  ),
)

-- A combination that gives 1 inverts.
inverts : (n m : ℕ) (x y : ℤ) → 1 < m → Combines n m (1, x, y) → n * residue x m % m ≡ 1
inverts n m x y h c =
    let (j, (k, e)) = residue_differs x m (omega arith) in
    let whole : n * residue x m + m * (n * j + pos_part y) ≡ 1 + m * (neg_part y + n * k) =
      omega (arith, c, ap (λ (i : ℕ). n * i) e) in
    sym (Nat.add-mul-mod_self_left (n * residue x m) m (n * j + pos_part y))
    ∙ ap (λ (i : ℕ). i % m) whole
    ∙ Nat.add-mul-mod_self_left 1 m (neg_part y + n * k)
    ∙ Nat.mod-eq_of_lt h

-- A number that has an inverse has no divisor in common with the modulus.
coprime : (g n m k : ℕ) → g ∣ n → g ∣ m → n * k % m ≡ 1 → g ≡ 1
coprime g n m k hn hm e = Nat.dvd-one.0 (
    (Nat.dvd-add_iff_right g (Nat.dvd-mul_right_of_dvd g hm (n * k / m))).1
      (subst (λ i. g ∣ i) split (Nat.dvd-mul_right_of_dvd g hn k)))
  where
    split : n * k ≡ m * (n * k / m) + 1
    split = sym (Nat.div-add-mod (n * k) m) ∙ ap (λ (i : ℕ). m * (n * k / m) + i) e

inverse_unique : (n m v w : ℕ) → v < m → w < m → n * v % m ≡ 1 → n * w % m ≡ 1 → v ≡ w
inverse_unique n m v w hv hw ev ew =
    sym (Nat.mod-eq_of_lt hv)
    ∙ ap (λ (i : ℕ). i % m) {x = v} {y = v * 1} (omega arith)
    ∙ ap (λ (i : ℕ). v * i % m) (sym ew)
    ∙ mul-mod v (n * w) m
    ∙ ap (λ (i : ℕ). i % m) {x = v * (n * w)} {y = n * v * w} (omega arith)
    ∙ sym (mod-mul (n * v) w m)
    ∙ ap (λ (i : ℕ). i * w % m) ev
    ∙ ap (λ (i : ℕ). i % m) {x = 1 * w} {y = w} (omega arith)
    ∙ Nat.mod-eq_of_lt hw

of_gcd :
    (r : ℕ × ℤ × ℤ) (n m v : ℕ)
    → 1 < m
    → Combines n m r
    → Divides n m r
    → (inverse_of r m ≡ ok v) ↔ ((v < m) × (n * v % m ≡ 1))
of_gcd (gcd, x, y) n m v h c (dn, dm) = (forth, back)
  where
    one : (gcd == 1) ≡ true → n * residue x m % m ≡ 1
    one e = inverts n m x y h (rw ((==_iff gcd 1).0 e) at c)

    forth : inverse_of (gcd, x, y) m ≡ ok v → (v < m) × (n * v % m ≡ 1)
    forth e = ground (arith, one, residue-lt x m)

    back : (v < m) × (n * v % m ≡ 1) → inverse_of (gcd, x, y) m ≡ ok v
    back (lt, e) =
        let g = (==_iff gcd 1).1 (coprime gcd n m v dn dm e) in
        rw (g, inverse_unique n m (residue x m) v (residue-lt x m (omega arith)) lt (one g) e) refl

reduced_product : (a : ℤ) (m v : ℕ) → reduced a m * v % m ≡ residue a m * v % m
unfolding reduced
reduced_product (pos n) m v = rw (residue-pos n m) (sym (mod-mul n v m))
reduced_product (negsuc n) m v = refl

-- `mod_inverse` returns `v` exactly where `v` is the inverse of `a` below the modulus.
pub mod_inverse_lem :
    (a : ℤ) (m v : ℕ) → 1 < m → (mod_inverse a m ≡ ok v) ↔ ((v < m) × (residue a m * v % m ≡ 1))
unfolding mod_inverse
mod_inverse_lem a m v h =
    let (c, d) = ext_gcd_lem (reduced a m) (reduced a m) m (omega arith) in
    rw (← reduced_product a m v)
      (of_gcd (ext_gcd (reduced a m) (reduced a m) m) (reduced a m) m v h c d)
