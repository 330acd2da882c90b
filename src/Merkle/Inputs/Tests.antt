-- ===== src/Merkle/Inputs/Tests.antt =====
-- The input secrets of two utxos.
use ocash_sdk.Prelude.{◌≡◌, refl, [], none, some}
use ocash_sdk.Prelude.{◌∷◌, List, []}
use ocash_sdk.Prelude.Results.{ok, err}
use ocash_sdk.Prelude.Int.{pos}
use ocash_sdk.Prelude.{if◌then◌else◌}
use ocash_sdk.Merkle.Requests.{ProofResponse}
use ocash_sdk.Merkle.Inputs.{
  InputSecret, dummy, input, build_acc_member_witnesses_from, secrets_for,
  build_input_secrets_from_utxos,
}
use ocash_sdk.Merkle.Inputs.Secrets.{Inputs}
use text.Mathlib.Text.{◌==◌ as str_eq}
use ocash_sdk.Prelude.{false}
use ocash_sdk.Prelude.Int.{eqb_ℤ}
use ocash_sdk.Crypto.Records.{RecordOpening}
use ocash_sdk.Crypto.Nullifiers.{Codec, decode_memo_for_owner}
use ocash_sdk.Merkle.Inputs.{OwnerKeyPair, invalid_user_pk}

-- An owner, and a codec where every memo but "bad" decrypts to the opening.
abbrev opening : RecordOpening
opening = record {
  asset_id = pos 7;
  asset_amount = pos 5;
  user_pk = record { x = pos 1; y = pos 2 };
  blinding_factor = pos 3;
  is_frozen = false;
}

abbrev owner : OwnerKeyPair
owner = record { address_sk = some (pos 9); user_pk = record { x = pos 1; y = pos 2 } }

-- The point with the coordinate 0 is off the curve.
abbrev codec : Codec
codec = record {
  to_hex = λ n. "0x05";
  parse = λ s. some (pos 5);
  to_lower = λ s. s;
  decrypt_memo = λ secret_key memo. if str_eq memo "bad" then none else some (some opening);
  decode_record = λ memo. none;
  user_pk_to_address = λ pk. if eqb_ℤ pk.x (pos 0) then none else some "0x0a";
}

abbrev two_proofs : ProofResponse
two_proofs = record {
  proof =
      record { leaf_index = 4; path = 1 ∷ 2 ∷ [] } ∷ record { leaf_index = 9; path = 3 ∷ [] } ∷ [];
  merkle_root = 77;
  latest_cid = pos 9;
}

-- Two utxos, the second without a memo, and room for three.
abbrev three_secrets : List (InputSecret RecordOpening)
three_secrets =
    input opening (record { root = 77; path = 1 ∷ 2 ∷ []; index = 4 }) ∷ dummy ∷ dummy ∷ []

builds_three :
    build_input_secrets_from_utxos codec owner two_proofs (some "0x02" ∷ none ∷ []) (some 3)
    ≡ ok three_secrets
unfolding build_input_secrets_from_utxos build_acc_member_witnesses_from secrets_for
    decode_memo_for_owner
builds_three = refl

off_curve_throws :
    build_input_secrets_from_utxos codec
      (record owner { user_pk = record { x = pos 0; y = pos 2 } })
      two_proofs
      (some "0x02" ∷ none ∷ [])
      (some 3)
    ≡ err invalid_user_pk
unfolding build_input_secrets_from_utxos
off_curve_throws = refl
