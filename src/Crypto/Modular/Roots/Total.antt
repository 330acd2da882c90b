-- ===== src/Crypto/Modular/Roots/Total.antt =====
-- `mod_sqrt` on every residue of an odd prime.
use ocash_sdk.Prelude.{
  ℕ, zero, suc, ◌+◌, ◌-◌, ◌*◌, ◌/◌, ◌%◌, ◌^◌, ◌<◌, ◌≡◌, ◌≢◌, refl, sym, ap, ◌∙◌, false, ◌==◌,
  Bool-cases, arith, inl, inr, ==_iff, ◌⊎◌, none, some,
}
use native.Mathlib.Nat
use ocash_sdk.Prelude.Int.{pos, eqb_ℤ}
use ocash_sdk.Crypto.Modular.{
  mod_pow, legendre, split_twos, find_nonresidue, roots_from, shanks_with, tonelli_shanks, mod_sqrt,
}
use ocash_sdk.Crypto.Modular.Laws.{mod-mul, mod-mul-mod, pow-add, mul-pow, pow-mod}
use ocash_sdk.Crypto.Modular.Power.{mod_pow-pow}
use ocash_sdk.Crypto.Modular.Roots.Loop.{roots_loop_lem, loop_start}
use ocash_sdk.Crypto.Modular.Roots.{
  IsOddPrime, legendre-one, legendre-minus_one, Splits, split_twos-Splits, find_nonresidue_lem,
}

module _ (p : ℕ) (prime : IsOddPrime p) where
  open prime use {above_two, odd, fermat, nonresidue, nonresidue_range, nonresidue_power}

  -- Euler's criterion, for a square.
  euler : (r : ℕ) → r * r % p ≢ 0 → (r * r % p) ^ ((p - 1) / 2) % p ≡ 1
  euler r ne =
      let h = (p - 1) / 2 in
      pow-mod (r * r) h p
      ∙ ap (λ (k : ℕ). k % p)
          (mul-pow r h
            ∙ sym (pow-add r h h)
            ∙ ap (λ (k : ℕ). r ^ k) {x = h + h} {y = p - 1} (omega arith))
      ∙ fermat r (λ e. ne (sym (mod-mul-mod r r p) ∙ ap (λ (k : ℕ). k * k % p) e ∙ Nat.zero-mod p))

  -- The root where the modulus is 3 more than a multiple of 4.
  direct_root :
      (n : ℕ)
      → p % 4 ≡ 3
      → n < p
      → n ^ ((p - 1) / 2) % p ≡ 1
      → mod_pow n ((p + 1) / 4) p * mod_pow n ((p + 1) / 4) p % p ≡ n
  direct_root n three lt e =
      let h = (p + 1) / 4 in
      ap (λ (k : ℕ). k * k % p) (mod_pow-pow n h p (omega arith))
      ∙ mod-mul-mod (n ^ h) (n ^ h) p
      ∙ ap (λ (k : ℕ). k % p)
          (sym (pow-add n h h)
            ∙ ap (λ (k : ℕ). n ^ k) {x = h + h} {y = suc ((p - 1) / 2)} (omega arith)
            ∙ Nat.pow-suc n ((p - 1) / 2))
      ∙ sym (mod-mul (n ^ ((p - 1) / 2)) n p)
      ∙ ap (λ (k : ℕ). k * n % p) e
      ∙ ap (λ (k : ℕ). k % p) {x = 1 * n} {y = n} (omega arith)
      ∙ Nat.mod-eq_of_lt lt

  from_nonresidue :
      (n q s : ℕ)
      → q % 2 ≡ 1
      → q * 2 ^ s ≡ p - 1
      → n ^ ((p - 1) / 2) % p ≡ 1
      → (root : ℕ) × (roots_from (find_nonresidue p 2 p) n q s p ≡ some root)
        × (root * root % p ≡ n % p)
  from_nonresidue n q s oddq whole en =
      let (z, found, ez) =
        find_nonresidue_lem p 2 p nonresidue nonresidue_range.0 (omega (arith, nonresidue_range.1))
          ((legendre-minus_one nonresidue p above_two).1 nonresidue_power) in
      rw
        (
          found,
          mod_pow-pow z q p (omega arith),
          mod_pow-pow n q p (omega arith),
          mod_pow-pow n ((q + 1) / 2) p (omega arith),
        )
        (roots_loop_lem p prime s n s (z ^ q % p) (n ^ q % p) (n ^ ((q + 1) / 2) % p) (
          loop_start p prime n z q s (oddq, whole) (some_twos s whole) en
            ((legendre-minus_one z p above_two).0 ez)))
    where
      some_twos : (s : ℕ) → q * 2 ^ s ≡ p - 1 → 0 < s
      some_twos zero e = absurd (ground (arith, oddq, odd, e))
      some_twos (suc s) e = omega arith

  with_split :
      (n : ℕ) (parts : ℕ × ℕ)
      → Splits (p - 1) parts
      → (p % 4 == 3) ≡ false
      → n ^ ((p - 1) / 2) % p ≡ 1
      → (root : ℕ) × (shanks_with parts n p ≡ some root) × (root * root % p ≡ n % p)
  with_split n (q, s) (oddq, whole) other en = elim (Bool-cases (s == 1)) [
    | inl one ↦
        absurd (ground (arith, ap (λ (k : ℕ). q * 2 ^ k) ((==_iff s 1).0 one), oddq, whole, odd))
    | inr more ↦ rw (more, shanks_with) (from_nonresidue n q s oddq whole en)
  ]

  tonelli_shanks_lem :
      (n : ℕ)
      → (p % 4 == 3) ≡ false
      → n ^ ((p - 1) / 2) % p ≡ 1
      → (root : ℕ) × (tonelli_shanks n p ≡ some root) × (root * root % p ≡ n % p)
  unfolding tonelli_shanks
  tonelli_shanks_lem n other en =
      with_split n (split_twos p (p - 1) 0)
        (split_twos-Splits p (p - 1) 0 (p - 1) (omega arith) (omega arith) (omega arith)) other en

  -- For a modulus `p` that satisfies `IsOddPrime` (`p` is odd and above 2, 1 has no square root but 1 and
  -- -1, Fermat's little theorem holds, and a number below `p` has a power that is -1, as one that is no
  -- square has): `mod_sqrt` ends on every residue, with a square root, or with null where there is
  -- none.
  pub mod_sqrt_lem :
      (n : ℕ)
      → n < p
      → ((root : ℕ) × (mod_sqrt n p ≡ some (some root)) × (root * root % p ≡ n))
        ⊎ ((mod_sqrt n p ≡ some none) × ((root : ℕ) → root * root % p ≢ n))
  unfolding mod_sqrt
  mod_sqrt_lem n lt = elim (Bool-cases (n == 0)) [
    | inl null ↦ rw (null, mod_sqrt) (inl (0, refl, Nat.zero-mod p ∙ sym ((==_iff n 0).0 null)))
    | inr some_n ↦
        rw (some_n, mod_sqrt)
          (elim (Bool-cases (eqb_ℤ (legendre n p) (pos 1))) [
            | inl residue ↦
                let en = (legendre-one n p above_two).0 residue in
                rw (residue) (elim (Bool-cases (p % 4 == 3)) [
                  | inl three ↦ rw (three) (
                      inl (
                        mod_pow n ((p + 1) / 4) p,
                        refl,
                        direct_root n ((==_iff _ _).0 three) lt en,
                      ))
                  | inr other ↦
                      let (root, found, e) = tonelli_shanks_lem n other en in
                      rw (other, found) (inl (root, refl, e ∙ Nat.mod-eq_of_lt lt))
                ])
            | inr other ↦ rw (other) (inr (refl, no_root other some_n))
          ])
  ]
    where
      no_root :
          eqb_ℤ (legendre n p) (pos 1) ≡ false → (n == 0) ≡ false → (root : ℕ) → root * root % p ≢ n
      no_root other some_n root e =
          let nonzero : root * root % p ≢ 0 = λ h. absurd (ground (arith, h, e)) in
          let found : n ^ ((p - 1) / 2) % p ≡ 1 =
            ap (λ (k : ℕ). k ^ ((p - 1) / 2) % p) (sym e) ∙ euler root nonzero in
          absurd (ground (arith, (legendre-one n p above_two).1 found))
