-- ===== src/Crypto/Poseidon2.antt =====
-- src/crypto/poseidon2.ts and src/crypto/field.ts: the Poseidon2 hash over the BN254 scalar field.
use ocash_sdk.Prelude.{
  ℕ, suc, ◌+◌, ◌-◌, ◌*◌, ◌%◌, ◌==◌, List, [], ◌∷◌, Option, none, some, if◌then◌else◌,
}
use ocash_sdk.Prelude.Int.{ℤ, pos, negsuc}
use ocash_sdk.Crypto.Keys.{State, full_round_keys_start, partial_round_keys, full_round_keys_end}

abbrev pub bn254_field_modulus : ℕ
bn254_field_modulus = 21888242871839275222246405745257275088548364400416034343698204186575808495617

pub data Domain : Type 0 where
  no_domain record_domain nullifier_domain merkle_domain policy_domain array_domain memo_domain :
      Domain
  asset_domain key_derivation_domain : Domain

abbrev pub domain_value : Domain → ℕ
domain_value no_domain = 0x0000000000000000
domain_value record_domain = 0x5245434f52440000
domain_value nullifier_domain = 0x4e554c4c49464945
domain_value merkle_domain = 0x4d45524b4c450000
domain_value policy_domain = 0x504f4c4943590000
domain_value array_domain = 0x4152524159000000
domain_value memo_domain = 0x4d454d4f00000000
domain_value asset_domain = 0x4153534554000000
domain_value key_derivation_domain = 0x4b45594445520000

-- `%` takes the sign of the dividend, so a negative remainder gets the modulus added.
unfoldable pub normalize : ℤ → ℕ
normalize (pos n) = n % bn254_field_modulus
normalize (negsuc n) =
    let r = suc n % bn254_field_modulus in if r == 0 then 0 else bn254_field_modulus - r

-- The operands are field elements, so the remainder is never negative.
abbrev pub add_mod : ℕ → ℕ → ℕ
add_mod a b = (a + b) % bn254_field_modulus

abbrev pub mul_mod : ℕ → ℕ → ℕ
mul_mod a b = a * b % bn254_field_modulus

unfoldable pub sbox : ℕ → ℕ
sbox x = let x2 = mul_mod x x in let x4 = mul_mod x2 x2 in mul_mod x4 x

unfoldable pub external_matrix : State → State
external_matrix s =
    let sum = add_mod (add_mod s.first s.second) s.third in
    record {
      first = add_mod s.first sum;
      second = add_mod s.second sum;
      third = add_mod s.third sum;
    }

unfoldable pub partial_matrix : State → State
partial_matrix s =
    let sum = add_mod (add_mod s.first s.second) s.third in
    record {
      first = add_mod s.first sum;
      second = add_mod s.second sum;
      third = add_mod (add_mod s.third s.third) sum;
    }

unfoldable pub full_rounds : List State → State → State
unfolding sbox external_matrix
full_rounds [] s = s
full_rounds (c ∷ keys) s = full_rounds keys (
    external_matrix (record {
      first = sbox (add_mod s.first c.first);
      second = sbox (add_mod s.second c.second);
      third = sbox (add_mod s.third c.third);
    }))

unfoldable pub partial_rounds : List ℕ → State → State
unfolding sbox partial_matrix
partial_rounds [] s = s
partial_rounds (c ∷ keys) s =
    partial_rounds keys (partial_matrix (record s { first = sbox (add_mod s.first c) }))

unfoldable pub permutation : State → State
unfolding full_rounds partial_rounds external_matrix
permutation s =
    full_rounds full_round_keys_end
      (partial_rounds partial_round_keys (full_rounds full_round_keys_start (external_matrix s)))

unfoldable pub hash_domain : ℤ → ℤ → Domain → ℕ
unfolding normalize permutation
hash_domain a b tag =
    (permutation (record {
      first = normalize a;
      second = normalize b;
      third = normalize (pos (domain_value tag));
    })).first

-- The `for` from `startIndex`.
unfoldable pub fold_hash : ℕ → List ℤ → Domain → ℕ
fold_hash acc [] tag = acc
fold_hash acc (input ∷ inputs) tag = fold_hash (hash_domain (pos acc) input tag) inputs tag

-- `none` is the error for no input and no seed.
unfoldable pub hash_sequence_with_domain : List ℤ → Domain → Option ℤ → Option ℕ
unfolding fold_hash hash_domain normalize
hash_sequence_with_domain [] tag none = none
hash_sequence_with_domain [] tag (some seed) = some (normalize seed)
hash_sequence_with_domain (a ∷ inputs) tag (some seed) =
    some (fold_hash (hash_domain seed a tag) inputs tag)
hash_sequence_with_domain (a ∷ []) tag none = some (hash_domain (pos 0) a tag)
hash_sequence_with_domain (a ∷ b ∷ inputs) tag none =
    some (fold_hash (hash_domain a b tag) inputs tag)
