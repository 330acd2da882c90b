-- ===== src/Crypto/Modular/Roots/Bounds.antt =====
-- The roots that `mod_sqrt` returns are below the modulus.
use ocash_sdk.Prelude.{
  ℕ, zero, suc, ◌+◌, ◌-◌, ◌/◌, ◌%◌, ◌<◌, ◌==◌, Option, none, some, Bool-cases, inl, inr,
}
use native.Mathlib.Nat
use ocash_sdk.Prelude.Int.{pos, eqb_ℤ}
use ocash_sdk.Crypto.Modular.{
  mod_pow, legendre, split_twos, find_nonresidue, roots_loop, roots_from, shanks_with,
  tonelli_shanks, root_found, mod_sqrt,
}
use ocash_sdk.Crypto.Modular.Power.{mod_pow-pow}

-- What holds of a root, if there is one.
abbrev Found : ℕ → Option ℕ → Type 0
Found p none = Unit
Found p (some r) = r < p

abbrev pub FoundRoot : ℕ → Option (Option ℕ) → Type 0
FoundRoot p none = Unit
FoundRoot p (some r) = Found p r

module _ (p : ℕ) (hp : 0 < p) where
  mod_pow-lt : (b e : ℕ) → mod_pow b e p < p
  mod_pow-lt b e = rw (mod_pow-pow b e p hp) (Nat.mod-lt _ hp)

  roots_loop-lt : (fuel m c t r : ℕ) → r < p → Found p (roots_loop fuel m c t r p)
  unfolding roots_loop
  roots_loop-lt zero m c t r h = tt
  roots_loop-lt (suc fuel) m c t r h = elim (Bool-cases (t == 1)) [
    | inl e ↦ rw (e, roots_loop) h
    | inr e ↦ rw (e, roots_loop) (roots_loop-lt fuel _ _ _ _ (Nat.mod-lt _ hp))
  ]

  roots_from-lt : (z : Option ℕ) (n q s : ℕ) → Found p (roots_from z n q s p)
  roots_from-lt none n q s = tt
  roots_from-lt (some z) n q s = roots_loop-lt (suc s) s _ _ _ (mod_pow-lt n ((q + 1) / 2))

  shanks_with-lt : (parts : ℕ × ℕ) (n : ℕ) → Found p (shanks_with parts n p)
  shanks_with-lt (q, s) n = elim (Bool-cases (s == 1)) [
    | inl e ↦ rw (e, shanks_with) (mod_pow-lt n ((p + 1) / 4))
    | inr e ↦ rw (e, shanks_with) (roots_from-lt (find_nonresidue p 2 p) n q s)
  ]

  root_found-lt : (r : Option ℕ) → Found p r → FoundRoot p (root_found r)
  root_found-lt none h = tt
  root_found-lt (some r) h = h

  pub mod_sqrt-lt : (n : ℕ) → FoundRoot p (mod_sqrt n p)
  unfolding mod_sqrt tonelli_shanks
  mod_sqrt-lt n = elim (Bool-cases (n == 0)) [
    | inl e ↦ rw (e, mod_sqrt) hp
    | inr e ↦ elim (Bool-cases (eqb_ℤ (legendre n p) (pos 1))) [
      | inr l ↦ rw (e, l, mod_sqrt) tt
      | inl l ↦ elim (Bool-cases (p % 4 == 3)) [
        | inl three ↦ rw (e, l, three, mod_sqrt) (mod_pow-lt n ((p + 1) / 4))
        | inr three ↦
            rw (e, l, three, mod_sqrt)
              (root_found-lt (tonelli_shanks n p) (shanks_with-lt (split_twos p (p - 1) 0) n))
      ]
    ]
  ]
