-- ===== src/Crypto/Tests.antt =====
-- Poseidon2 on values of the Solidity contract, record openings, and the curve's points.
use ocash_sdk.Prelude.{
  ℕ, zero, suc, ◌-◌, ◌*◌, ◌%◌, ◌^◌, ◌<◌, ◌≡◌, ◌≢◌, ◌↔◌, ◌⊎◌, inl, inr, refl, sym, ◌∙◌, Bool, true,
  false, ◌&&◌, ◌||◌, not, ◌==◌, List, [], ◌∷◌, ◌++◌, replicate, none, some, Bool-cases, ==_iff,
  arith,
}
use ocash_sdk.Prelude.Int.{pos, negsuc, ◌-ℤ◌, ◌*ℤ◌}
use ocash_sdk.Prelude.Results.{ok}
use ocash_sdk.Crypto.Poseidon2.{hash_sequence_with_domain}
use ocash_sdk.Crypto.Records.{Point, commitment}
use ocash_sdk.Crypto.Openings.{
  opening, draw_opening, create_record_opening, create_record_opening-commitment,
}
use ocash_sdk.Crypto.Modular.{
  residue, ext_gcd, ext_gcd_step, reduced, mod_inverse, mod_pow, mod_pow_loop, mod_sqrt, legendre,
  split_twos, find_nonresidue, order_loop, roots_loop, tonelli_shanks,
}
use ocash_sdk.Crypto.Modular.Laws.{mod-mul-mod, pow-mod}
use ocash_sdk.Crypto.Modular.Power.{mod_pow-pow}
use ocash_sdk.Crypto.Modular.Inverse.{mod_inverse_lem}
use ocash_sdk.Crypto.Modular.Roots.{IsOddPrime}
use ocash_sdk.Crypto.Modular.Roots.Total.{mod_sqrt_lem}
use ocash_sdk.Crypto.FixedBytes.{
  low_byte, shift_byte, big_int_to_fixed_bytes, fixed_bytes_from, bytes_larger,
}
use ocash_sdk.Crypto.BabyJubJub.{
  CurvePoint, babyjubjub_base_point, babyjubjub_scalar_field, babyjubjub_d, babyjubjub_order,
  identity, edwards_sum, point_add, multiples_loop, mul_point, is_point_on_curve,
  is_in_prime_subgroup, negated, is_lexicographically_largest, compress_point, recover_x_coordinate,
  decompress_point,
}
use ocash_sdk.Crypto.BabyJubJub.Addition.{Adds, point_add-Adds}
use ocash_sdk.Crypto.BabyJubJub.Multiples.{IsGroup, multiple, mul_point-multiple}
use ocash_sdk.Crypto.BabyJubJub.Compression.{compress_point-decompress_point}

abbrev owner : Point
owner = record { x = pos 11; y = pos 12 }

create_record_opening-commitment_example :
    commitment (opening (pos 7) (pos 50) owner false (pos 21)) ≢ some 0
unfolding create_record_opening draw_opening hash_sequence_with_domain
create_record_opening-commitment_example =
    create_record_opening-commitment (pos 7) (pos 50) owner (pos 21 ∷ [])
      (opening (pos 7) (pos 50) owner false (pos 21)) refl

-- A test that holds of every number below a bound.
holds_below : (ℕ → Bool) → ℕ → Bool
holds_below test zero = true
holds_below test (suc n) = holds_below test n && test n

holds_below_lem :
    (test : ℕ → Bool) (n : ℕ) → holds_below test n ≡ true → (i : ℕ) → i < n → test i ≡ true
unfolding holds_below
holds_below_lem test zero e i h = absurd (omega arith)
holds_below_lem test (suc n) e i h = elim (Bool-cases (i == n)) [
  | inl same ↦ rw ((==_iff i n).0 same) (ground arith)
  | inr other ↦ holds_below_lem test n (ground arith) i (ground arith)
]

abbrev root_test : ℕ → Bool
root_test x = not (x * x % 17 == 1) || (x == 1) || (x == 16)

abbrev fermat_test : ℕ → Bool
fermat_test x = (x == 0) || (x ^ 16 % 17 == 1)

roots_17 : (x : ℕ) → x * x % 17 ≡ 1 → (x % 17 ≡ 1) ⊎ (x % 17 ≡ 16)
unfolding holds_below
roots_17 x e =
    let t : root_test (x % 17) ≡ true = holds_below_lem root_test 17 refl (x % 17) (omega arith) in
    let e' : x % 17 * (x % 17) % 17 ≡ 1 = mod-mul-mod x x 17 ∙ e in ground (arith, t, e')

fermat_17 : (x : ℕ) → x % 17 ≢ 0 → x ^ 16 % 17 ≡ 1
unfolding holds_below
fermat_17 x ne =
    let t : fermat_test (x % 17) ≡ true =
      holds_below_lem fermat_test 17 refl (x % 17) (omega arith) in
    let e : (x % 17) ^ 16 % 17 ≡ 1 = ground (arith, t, ne) in sym (pow-mod x 16 17) ∙ e

seventeen : IsOddPrime 17
seventeen = record {
  above_two = omega arith;
  odd = refl;
  roots_of_one = roots_17;
  fermat = fermat_17;
  nonresidue = 3;
  nonresidue_range = (omega arith, omega arith);
  nonresidue_power = refl;
}

mod_sqrt_lem_example :
    ((root : ℕ) × (mod_sqrt 2 17 ≡ some (some root)) × (root * root % 17 ≡ 2))
    ⊎ ((mod_sqrt 2 17 ≡ some none) × ((root : ℕ) → root * root % 17 ≢ 2))
mod_sqrt_lem_example = mod_sqrt_lem 17 seventeen 2 (omega arith)

mod_pow-pow_example : mod_pow 7 100 17 ≡ 7 ^ 100 % 17
mod_pow-pow_example = mod_pow-pow 7 100 17 (omega arith)

mod_inverse_lem_example :
    (mod_inverse (negsuc 2) 17 ≡ ok 11) ↔ ((11 < 17) × (residue (negsuc 2) 17 * 11 % 17 ≡ 1))
mod_inverse_lem_example = mod_inverse_lem (negsuc 2) 17 11 (omega arith)

point_add-Adds_example :
    (r : CurvePoint) × (point_add babyjubjub_base_point babyjubjub_base_point ≡ ok r)
    × Adds babyjubjub_scalar_field babyjubjub_d babyjubjub_base_point babyjubjub_base_point r
point_add-Adds_example =
    point_add-Adds babyjubjub_base_point babyjubjub_base_point
      11066757983141200037207844473683842488159951862144506743412856458671334127106
      2931909635742979014657168698048772962991301880353346914183235656562345659872 refl refl

-- The point of order two, and its group.
abbrev half_turn : CurvePoint
half_turn = record { x = 0; y = babyjubjub_scalar_field - 1 }

data IsTurn : CurvePoint → Type 0 where
  none_turn : IsTurn identity
  half : IsTurn half_turn

abbrev compose_turns : CurvePoint → CurvePoint → CurvePoint
compose_turns p q = record { x = 0; y = p.y * q.y % babyjubjub_scalar_field }

turns_closed : (p q : CurvePoint) → IsTurn p → IsTurn q → IsTurn (compose_turns p q)
turns_closed p q none_turn none_turn = none_turn
turns_closed p q none_turn half = half
turns_closed p q half none_turn = half
turns_closed p q half half = none_turn

turns_agree : (p q : CurvePoint) → IsTurn p → IsTurn q → point_add p q ≡ ok (compose_turns p q)
unfolding point_add edwards_sum mod_inverse ext_gcd ext_gcd_step reduced residue ◌-ℤ◌ ◌*ℤ◌
turns_agree p q none_turn none_turn = refl
turns_agree p q none_turn half = refl
turns_agree p q half none_turn = refl
turns_agree p q half half = refl

turns_assoc :
    (p q r : CurvePoint)
    → IsTurn p
    → IsTurn q
    → IsTurn r
    → compose_turns (compose_turns p q) r ≡ compose_turns p (compose_turns q r)
turns_assoc p q r none_turn none_turn none_turn = refl
turns_assoc p q r none_turn none_turn half = refl
turns_assoc p q r none_turn half none_turn = refl
turns_assoc p q r none_turn half half = refl
turns_assoc p q r half none_turn none_turn = refl
turns_assoc p q r half none_turn half = refl
turns_assoc p q r half half none_turn = refl
turns_assoc p q r half half half = refl

turns : IsGroup IsTurn compose_turns
turns = record {
  has_identity = none_turn;
  closed = turns_closed;
  agrees = turns_agree;
  assoc = turns_assoc;
}

mul_point-multiple_example : mul_point half_turn 5 ≡ ok (multiple compose_turns 5 half_turn)
mul_point-multiple_example = mul_point-multiple IsTurn compose_turns turns half_turn 5 half

abbrev base_point_bytes : List ℕ
base_point_bytes =
    139 ∷ 125 ∷ 45 ∷ 135 ∷ 122 ∷ 37 ∷ 60 ∷ 75 ∷ 119 ∷ 51 ∷ 225 ∷ 185 ∷ 31 ∷ 5 ∷ 224 ∷ 252 ∷ 237
    ∷ 249 ∷ 107 ∷ 209 ∷ 28 ∷ 46 ∷ 87 ∷ 37 ∷ 73 ∷ 178 ∷ 160 ∷ 247 ∷ 3 ∷ 114 ∷ 121 ∷ 37 ∷ []

base_point_decompressed : decompress_point base_point_bytes ≡ some (ok babyjubjub_base_point)
unfolding decompress_point recover_x_coordinate is_lexicographically_largest negated
    is_point_on_curve mod_sqrt tonelli_shanks roots_loop order_loop find_nonresidue split_twos
    legendre mod_pow mod_pow_loop mod_inverse reduced ext_gcd ext_gcd_step residue ◌-ℤ◌ ◌*ℤ◌
    fixed_bytes_from big_int_to_fixed_bytes low_byte shift_byte bytes_larger
base_point_decompressed = refl

compress_point-decompress_point_example : compress_point babyjubjub_base_point ≡ ok base_point_bytes
compress_point-decompress_point_example =
    compress_point-decompress_point base_point_bytes babyjubjub_base_point (ground arith)
      base_point_decompressed (λ e. absurd (omega (arith, e)))

-- A point that is not in the subgroup of the prime order passes `is_in_prime_subgroup`: the base point
-- plus the point of order two. Its multiple by the group order is the point of order two.
abbrev mixed_point : CurvePoint
mixed_point = record {
  x = babyjubjub_scalar_field - babyjubjub_base_point.x;
  y = babyjubjub_scalar_field - babyjubjub_base_point.y;
}

mixed_point_accepted : is_in_prime_subgroup mixed_point ≡ ok true
unfolding is_in_prime_subgroup is_point_on_curve mul_point multiples_loop point_add edwards_sum
    mod_inverse reduced ext_gcd ext_gcd_step residue ◌-ℤ◌ ◌*ℤ◌
mixed_point_accepted = refl

mixed_point_outside : mul_point mixed_point babyjubjub_order ≡ ok half_turn
unfolding mul_point multiples_loop point_add edwards_sum mod_inverse reduced ext_gcd ext_gcd_step
    residue ◌-ℤ◌ ◌*ℤ◌
mixed_point_outside = refl

-- The sign bit over an `x` of 0 is accepted, and lost when the point is compressed again.
abbrev signed_zero : List ℕ
signed_zero = 1 ∷ replicate 30 0 ++ 128 ∷ []

signed_zero_accepted : decompress_point signed_zero ≡ some (ok identity)
unfolding decompress_point recover_x_coordinate is_lexicographically_largest negated
    is_point_on_curve mod_sqrt mod_inverse reduced ext_gcd ext_gcd_step residue ◌-ℤ◌ ◌*ℤ◌
    fixed_bytes_from big_int_to_fixed_bytes low_byte shift_byte bytes_larger
signed_zero_accepted = refl

signed_zero_lost : compress_point identity ≡ ok (1 ∷ replicate 31 0)
unfolding compress_point is_lexicographically_largest negated is_point_on_curve
    big_int_to_fixed_bytes low_byte shift_byte bytes_larger
signed_zero_lost = refl
