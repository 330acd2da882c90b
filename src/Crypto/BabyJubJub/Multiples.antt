-- ===== src/Crypto/BabyJubJub/Multiples.antt =====
-- `mul_point` and `scalar_mult`: double and add against the repeated sum.
use ocash_sdk.Prelude.{
  ℕ, zero, suc, ◌+◌, ◌/◌, ◌%◌, ◌≤◌, ◌≡◌, refl, sym, ap, ◌∙◌, true, ◌==◌, Bool-cases, inl, inr,
  ==_iff, lt→ltb, arith,
}
use ocash_sdk.Prelude.Results.{Result, ok, err}
use ocash_sdk.Crypto.Modular.{CurveError}
use ocash_sdk.Crypto.BabyJubJub.{
  CurvePoint, identity, is_identity, point_add, multiples_loop, mul_point,
}

-- A set of points on which `point_add` returns an associative sum, as it does on the curve.
pub record IsGroup (OnGroup : CurvePoint → Type 0) (sum : CurvePoint → CurvePoint → CurvePoint)
    : Type 0 where
  pub has_identity : OnGroup identity
  pub closed : (p q : CurvePoint) → OnGroup p → OnGroup q → OnGroup (sum p q)
  pub agrees : (p q : CurvePoint) → OnGroup p → OnGroup q → point_add p q ≡ ok (sum p q)
  pub assoc :
      (p q r : CurvePoint) → OnGroup p → OnGroup q → OnGroup r → sum (sum p q) r ≡ sum p (sum q r)

-- `n` points added up.
abbrev pub multiple : (CurvePoint → CurvePoint → CurvePoint) → ℕ → CurvePoint → CurvePoint
multiple sum zero p = identity
multiple sum (suc n) p = sum p (multiple sum n p)

of_ok : {A : Type 0} (d : A) → Result CurveError A → A
of_ok d (ok a) = a
of_ok d (err e) = d

identity_eta : (p : CurvePoint) → is_identity p ≡ true → p ≡ identity
identity_eta p e =
    let ex : p.x ≡ 0 = ground arith in
    let ey : p.y ≡ 1 = ground arith in λ i. record { x = ex i; y = ey i }

add-identity : (p : CurvePoint) → point_add p identity ≡ ok p
unfolding point_add
add-identity p = elim (Bool-cases (is_identity p)) [
  | inl e ↦ rw (e) (ap ok (sym (identity_eta p e)))
  | inr e ↦ rw (e) refl
]

identity-add : (p : CurvePoint) → point_add identity p ≡ ok p
unfolding point_add
identity-add p = refl

module _ (OnGroup : CurvePoint → Type 0) (sum : CurvePoint → CurvePoint → CurvePoint)
    (group : IsGroup OnGroup sum) where
  open group use {has_identity, closed, agrees, assoc}

  sum_identity : (p : CurvePoint) → OnGroup p → sum p identity ≡ p
  unfolding of_ok
  sum_identity p h = ap (of_ok p) (sym (agrees p identity h has_identity) ∙ add-identity p)

  identity_sum : (p : CurvePoint) → OnGroup p → sum identity p ≡ p
  unfolding of_ok
  identity_sum p h = ap (of_ok p) (sym (agrees identity p has_identity h) ∙ identity-add p)

  multiple-OnGroup : (n : ℕ) (p : CurvePoint) → OnGroup p → OnGroup (multiple sum n p)
  multiple-OnGroup zero p h = has_identity
  multiple-OnGroup (suc n) p h = closed p (multiple sum n p) h (multiple-OnGroup n p h)

  multiple_double :
      (n : ℕ) (p : CurvePoint) → OnGroup p → multiple sum n (sum p p) ≡ multiple sum (n + n) p
  multiple_double zero p h = refl
  multiple_double (suc n) p h =
      ap (sum (sum p p)) (multiple_double n p h)
      ∙ assoc p p (multiple sum (n + n) p) h h (multiple-OnGroup (n + n) p h)
      ∙ ap (λ (k : ℕ). multiple sum k p) {x = suc (suc (n + n))} {y = suc n + suc n} (omega arith)

  loop-multiple :
      (fuel : ℕ) (r b : CurvePoint) (e : ℕ)
      → OnGroup r
      → OnGroup b
      → e ≤ fuel
      → multiples_loop fuel r b e ≡ ok (sum r (multiple sum e b))
  unfolding multiples_loop
  loop-multiple zero r b zero hr hb h = ap ok (sym (sum_identity r hr))
  loop-multiple zero r b (suc e) hr hb h = absurd (omega arith)
  loop-multiple (suc fuel) r b zero hr hb h = ap ok (sym (sum_identity r hr))
  loop-multiple (suc fuel) r b (suc e) hr hb h = elim (Bool-cases (suc e % 2 == 1)) [
    | inl odd ↦
        rw (lt→ltb 0 (suc e) (omega arith), odd, agrees r b hr hb, agrees b b hb hb, multiples_loop)
          (loop-multiple fuel (sum r b) (sum b b) half (closed r b hr hb) (closed b b hb hb)
              (omega arith)
            ∙ ap ok (
                ap (sum (sum r b)) (multiple_double half b hb)
                ∙ assoc r b (multiple sum (half + half) b) hr hb
                    (multiple-OnGroup (half + half) b hb)
                ∙ ap (λ (k : ℕ). sum r (multiple sum k b)) {x = suc (half + half)} {y = suc e}
                    (ground arith)))
    | inr even ↦
        rw (lt→ltb 0 (suc e) (omega arith), even, agrees b b hb hb, multiples_loop)
          (loop-multiple fuel r (sum b b) half hr (closed b b hb hb) (omega arith)
            ∙ ap ok (
                ap (sum r) (multiple_double half b hb)
                ∙ ap (λ (k : ℕ). sum r (multiple sum k b)) {x = half + half} {y = suc e}
                    (ground arith)))
  ]
    where
      half : ℕ
      half = suc e / 2

  -- Where `point_add` is the sum of a group, `mul_point` returns the sum of `scalar` copies.
  pub mul_point-multiple :
      (base : CurvePoint) (scalar : ℕ)
      → OnGroup base
      → mul_point base scalar ≡ ok (multiple sum scalar base)
  unfolding mul_point
  mul_point-multiple base scalar h = elim (Bool-cases (scalar == 0)) [
    | inl e ↦
        rw (e) (ap (λ (k : ℕ). ok (multiple sum k base)) {x = 0} (sym ((==_iff scalar 0).0 e)))
    | inr e ↦ rw (e) (
        loop-multiple scalar identity base scalar has_identity h (omega arith)
        ∙ ap ok (identity_sum (multiple sum scalar base) (multiple-OnGroup scalar base h)))
  ]
