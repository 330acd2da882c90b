-- ===== src/Crypto/BabyJubJub/Addition.antt =====
-- `point_add` against the addition law of the curve.
use ocash_sdk.Prelude.{
  ℕ, ◌+◌, ◌-◌, ◌*◌, ◌/◌, ◌%◌, ◌<◌, ◌≡◌, refl, sym, ap, ◌∙◌, true, Bool-cases, inl, inr, arith,
}
use native.Mathlib.Nat
use ocash_sdk.Prelude.Int.{pos}
use ocash_sdk.Prelude.Results.{ok}
use ocash_sdk.Crypto.Modular.{mod_inverse}
use ocash_sdk.Crypto.Modular.Inverse.{mod_inverse_lem, residue-pos}
use ocash_sdk.Crypto.Modular.Laws.{mod-mul-mod, mod-mul, mul-mod, cong_add, cong_mul, cong_cancel}
use ocash_sdk.Crypto.BabyJubJub.{
  CurvePoint, is_identity, edwards_sum, point_add, babyjubjub_scalar_field, babyjubjub_d,
}

-- `d * x1 * x2 * y1 * y2`.
abbrev pub cross_term : ℕ → CurvePoint → CurvePoint → ℕ
cross_term d p1 p2 = d * (p1.x * p1.y * (p2.x * p2.y))

-- The denominators of the addition law; `p - 1` is -1.
abbrev pub denominator_x : ℕ → CurvePoint → CurvePoint → ℕ
denominator_x d p1 p2 = 1 + cross_term d p1 p2

abbrev pub denominator_y : ℕ → ℕ → CurvePoint → CurvePoint → ℕ
denominator_y p d p1 p2 = 1 + (p - 1) * cross_term d p1 p2

-- The twisted Edwards law for -x^2 + y^2 = 1 + d x^2 y^2, with the denominators multiplied out.
abbrev pub Adds : ℕ → ℕ → CurvePoint → CurvePoint → CurvePoint → Type 0
Adds p d p1 p2 r =
    (r.x * denominator_x d p1 p2 % p ≡ (p1.x * p2.y + p1.y * p2.x) % p)
    × (r.y * denominator_y p d p1 p2 % p ≡ (p1.y * p2.y + p1.x * p2.x) % p)

module _ (p d : ℕ) (hp : 2 < p) where
  -- A number and its (p - 1)-fold cancel.
  vanish : (n k : ℕ) → (n + ((p - 1) * k + k)) % p ≡ n % p
  vanish n k =
      ap (λ (j : ℕ). j % p) (minus n (p - 1) (omega arith)) ∙ Nat.add-mul-mod_self_left n p k
    where
      minus : (n a : ℕ) → a + 1 ≡ p → n + (a * k + k) ≡ n + p * k
      minus n a e = rw (← e) (omega arith)

  -- A difference is a sum with the (p - 1)-fold.
  minus_mod : (n k : ℕ) → (n + p - k % p) % p ≡ (n + (p - 1) * k) % p
  minus_mod n k = cong_cancel (n + p - k % p) (n + (p - 1) * k) k p (
      ap (λ (j : ℕ). j % p) {x = n + p - k % p + k} {y = n + p * (k / p + 1)}
        (omega (arith, Nat.div-add-mod k p, Nat.mod-lt k {m = p} (omega arith)))
      ∙ Nat.add-mul-mod_self_left n p (k / p + 1)
      ∙ sym (vanish n k)
      ∙ ap (λ (j : ℕ). j % p) {y = n + (p - 1) * k + k} (omega arith))

  twice_minus : (n k : ℕ) → (n + (p - 1) * ((p - 1) * k)) % p ≡ (n + k) % p
  twice_minus n k =
      let m = (p - 1) * k in
      cong_cancel (n + (p - 1) * m) (n + k) m p (
        ap (λ (j : ℕ). j % p) {x = n + (p - 1) * m + m} (omega arith)
        ∙ vanish n m
        ∙ sym (vanish n k)
        ∙ ap (λ (j : ℕ). j % p) {y = n + k + m} (omega arith))

  module _ (x1 y1 x2 y2 : ℕ) where
    beta : ℕ
    beta = x1 * y2 % p

    gamma : ℕ
    gamma = y1 * x2 % p

    delta : ℕ
    delta = (y1 + p - (p - 1) * x1 % p) % p * ((x2 + y2) % p) % p

    tau : ℕ
    tau = beta * gamma % p

    cross : ℕ
    cross = d * (x1 * y1 * (x2 * y2))

    dtau_lem : d * tau % p ≡ cross % p
    unfolding tau beta gamma cross
    dtau_lem =
        cong_mul d d (x1 * y2 % p * (y1 * x2 % p) % p) (x1 * y2 * (y1 * x2)) p refl
          (Nat.mod-mod _ p ∙ mod-mul-mod (x1 * y2) (y1 * x2) p)
        ∙ ap (λ (k : ℕ). k % p) {x = d * (x1 * y2 * (y1 * x2))} (omega arith)

    denominator_x_lem : (1 + d * tau % p) % p ≡ (1 + cross) % p
    denominator_x_lem = cong_add 1 1 (d * tau % p) cross p refl (Nat.mod-mod (d * tau) p ∙ dtau_lem)

    denominator_y_lem : (1 + p - d * tau % p) % p ≡ (1 + (p - 1) * cross) % p
    denominator_y_lem =
        minus_mod 1 (d * tau)
        ∙ cong_add 1 1 ((p - 1) * (d * tau)) ((p - 1) * cross) p refl
            (cong_mul (p - 1) (p - 1) (d * tau) cross p refl dtau_lem)

    difference_lem : (y1 + p - (p - 1) * x1 % p) % p ≡ (y1 + x1) % p
    difference_lem = minus_mod y1 ((p - 1) * x1) ∙ twice_minus y1 x1

    delta_lem : delta % p ≡ (y1 + x1) * (x2 + y2) % p
    unfolding delta
    delta_lem =
        Nat.mod-mod _ p
        ∙ cong_mul ((y1 + p - (p - 1) * x1 % p) % p) (y1 + x1) ((x2 + y2) % p) (x2 + y2) p
            (Nat.mod-mod _ p ∙ difference_lem) (Nat.mod-mod (x2 + y2) p)

    numerator_x_lem : (beta + gamma) % p ≡ (x1 * y2 + y1 * x2) % p
    unfolding beta gamma
    numerator_x_lem = sym (Nat.add-mod (x1 * y2) (y1 * x2) p)

    numerator_y_lem : (delta + (p - 1) * beta % p + p - gamma) % p ≡ (y1 * y2 + x1 * x2) % p
    unfolding beta gamma
    numerator_y_lem =
        let b = x1 * y2 in
        let g = y1 * x2 in
        let scaled : (p - 1) * (b % p) % p % p ≡ (p - 1) * b % p =
          Nat.mod-mod _ p ∙ mul-mod (p - 1) b p in
        let summed : (delta + (p - 1) * (b % p) % p + (p - 1) * g) % p
            ≡ (delta + (p - 1) * b + (p - 1) * g) % p =
          cong_add _ _ ((p - 1) * g) ((p - 1) * g) p (cong_add delta delta _ _ p refl scaled)
            refl in
        minus_mod (delta + (p - 1) * (b % p) % p) g
        ∙ summed
        ∙ cong_cancel (delta + (p - 1) * b + (p - 1) * g) (y1 * y2 + x1 * x2) (b + g) p (
            ap (λ (k : ℕ). k % p) {x = delta + (p - 1) * b + (p - 1) * g + (b + g)}
              {y = delta + ((p - 1) * (b + g) + (b + g))} (omega arith)
            ∙ vanish delta (b + g)
            ∙ delta_lem
            ∙ ap (λ (k : ℕ). k % p) {y = y1 * y2 + x1 * x2 + (b + g)} (omega arith))

  -- A quotient, multiplied by its denominator.
  quotient :
      (n n2 e e2 inverse : ℕ)
      → n % p ≡ n2 % p
      → e % p ≡ e2 % p
      → e % p * inverse % p ≡ 1
      → n * inverse % p * e2 % p ≡ n2 % p
  quotient n n2 e e2 inverse hn he hi =
      mod-mul (n * inverse) e2 p
      ∙ ap (λ (k : ℕ). k % p) {x = n * inverse * e2} {y = n * (e2 * inverse)} (omega arith)
      ∙ cong_mul n n2 (e2 * inverse) 1 p hn (
          cong_mul e2 e inverse inverse p (sym he) refl
          ∙ sym (mod-mul e inverse p)
          ∙ hi
          ∙ sym (Nat.mod-eq_of_lt (omega arith)))
      ∙ ap (λ (k : ℕ). k % p) {x = n2 * 1} {y = n2} (omega arith)

  inverse_found :
      (e e2 u : ℕ)
      → e % p ≡ e2 % p
      → e2 * u % p ≡ 1
      → (inverse : ℕ) × (mod_inverse (pos e) p ≡ ok inverse) × (e % p * inverse % p ≡ 1)
  inverse_found e e2 u same hu =
      let product : e % p * (u % p) % p ≡ 1 =
        mod-mul-mod e u p ∙ cong_mul e e2 u u p same refl ∙ hu in
      (
        u % p,
        (mod_inverse_lem (pos e) p (u % p) (omega arith)).1
            (Nat.mod-lt u {m = p} (omega arith), rw (residue-pos e p) product),
        product,
      )

  sum_lem :
      (p1 p2 : CurvePoint) (u v : ℕ)
      → denominator_x d p1 p2 * u % p ≡ 1
      → denominator_y p d p1 p2 * v % p ≡ 1
      → (r : CurvePoint) × (edwards_sum p (p - 1) d p1 p2 ≡ ok r) × Adds p d p1 p2 r
  unfolding edwards_sum beta gamma delta tau cross
  sum_lem p1 p2 u v hu hv =
      let x1 = p1.x in
      let y1 = p1.y in
      let x2 = p2.x in
      let y2 = p2.y in
      let dx = 1 + d * tau x1 y1 x2 y2 % p in
      let dy = 1 + p - d * tau x1 y1 x2 y2 % p in
      let (i, found_x, ei) =
        inverse_found (dx % p) (denominator_x d p1 p2) u
          (Nat.mod-mod dx p ∙ denominator_x_lem x1 y1 x2 y2) hu in
      let (j, found_y, ej) =
        inverse_found (dy % p) (denominator_y p d p1 p2) v
          (Nat.mod-mod dy p ∙ denominator_y_lem x1 y1 x2 y2) hv in
      rw (found_x, found_y)
        (
          _,
          refl,
          (
            quotient ((beta x1 y1 x2 y2 + gamma x1 y1 x2 y2) % p) (x1 * y2 + y1 * x2) (dx % p)
                (denominator_x d p1 p2) i (Nat.mod-mod _ p ∙ numerator_x_lem x1 y1 x2 y2)
                (Nat.mod-mod dx p ∙ denominator_x_lem x1 y1 x2 y2) ei,
            quotient
                ((delta x1 y1 x2 y2 + (p - 1) * beta x1 y1 x2 y2 % p + p - gamma x1 y1 x2 y2) % p)
                (y1 * y2 + x1 * x2) (dy % p) (denominator_y p d p1 p2) j
                (Nat.mod-mod _ p ∙ numerator_y_lem x1 y1 x2 y2)
                (Nat.mod-mod dy p ∙ denominator_y_lem x1 y1 x2 y2) ej,
          ),
        )

coordinates : (q : CurvePoint) → is_identity q ≡ true → (q.x ≡ 0) × (q.y ≡ 1)
coordinates q e = ground arith

-- The law where one of the points is the identity.
identity_left : (p d : ℕ) (p1 p2 : CurvePoint) → is_identity p1 ≡ true → Adds p d p1 p2 p2
identity_left p d p1 p2 e =
    let (ex, ey) = coordinates p1 e in
    (
      ap (λ (k : ℕ). k % p) {y = p1.x * p2.y + p1.y * p2.x} (rw (ex, ey) (omega arith)),
      ap (λ (k : ℕ). k % p) {y = p1.y * p2.y + p1.x * p2.x} (rw (ex, ey) (omega arith)),
    )

identity_right : (p d : ℕ) (p1 p2 : CurvePoint) → is_identity p2 ≡ true → Adds p d p1 p2 p1
identity_right p d p1 p2 e =
    let (ex, ey) = coordinates p2 e in
    (
      ap (λ (k : ℕ). k % p) {y = p1.x * p2.y + p1.y * p2.x} (rw (ex, ey) (omega arith)),
      ap (λ (k : ℕ). k % p) {y = p1.y * p2.y + p1.x * p2.x} (rw (ex, ey) (omega arith)),
    )

-- Where the denominators of the addition law have inverses `u` and `v` modulo the field's prime,
-- `point_add` returns a point, and it satisfies the law.
pub point_add-Adds :
    (p1 p2 : CurvePoint) (u v : ℕ)
    → denominator_x babyjubjub_d p1 p2 * u % babyjubjub_scalar_field ≡ 1
    → denominator_y babyjubjub_scalar_field babyjubjub_d p1 p2 * v % babyjubjub_scalar_field ≡ 1
    → (r : CurvePoint) × (point_add p1 p2 ≡ ok r)
      × Adds babyjubjub_scalar_field babyjubjub_d p1 p2 r
unfolding point_add
point_add-Adds p1 p2 u v hu hv = elim (Bool-cases (is_identity p1)) [
  | inl first ↦
      rw (first) (p2, refl, identity_left babyjubjub_scalar_field babyjubjub_d p1 p2 first)
  | inr other ↦ rw (other) (elim (Bool-cases (is_identity p2)) [
    | inl second ↦
        rw (second) (p1, refl, identity_right babyjubjub_scalar_field babyjubjub_d p1 p2 second)
    | inr neither ↦
        rw (neither) (sum_lem babyjubjub_scalar_field babyjubjub_d (omega arith) p1 p2 u v hu hv)
  ])
]
