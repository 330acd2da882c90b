-- ===== src/Merkle/Inputs.antt =====
-- src/merkle/merkleEngine.ts: `buildAccMemberWitnesses` and `buildInputSecretsFromUtxos`. The dummy secret
-- of the proof bridge is a constructor. Numbers stand for the decimal strings of a witness.
use ocash_sdk.Prelude.{
  ℕ, suc, ◌+◌, ◌-◌, Bool, false, ◌==◌, List, [], ◌∷◌, ◌++◌, Option, none, some, length, replicate,
  get_elem?, ltb, if◌then◌else◌,
}
use Prim.Native.String.{String}
use ocash_sdk.Prelude.Int.{ℤ}
use ocash_sdk.Crypto.Records.{Point, RecordOpening}
use ocash_sdk.Crypto.Nullifiers.{Codec, decode_memo_for_owner}
use ocash_sdk.Prelude.Results.{Result, ok, err, ◌>>=◌}
use ocash_sdk.Merkle.Requests.{ProofEntry, ProofResponse}
pub mod Secrets
mod Tests

pub record AccMemberWitness : Type 0 where
  pub root : ℕ
  pub path : List ℕ
  pub index : ℕ

pub data InputError : Type 0 where
  missing_entry no_utxos too_many_utxos memo_not_decrypted no_valid_utxo : InputError
  invalid_secret_key invalid_user_pk malformed_memo : InputError

abbrev pub witness_for : ℕ → Option ProofEntry → Result InputError AccMemberWitness
witness_for root none = err missing_entry
witness_for root (some entry) =
    ok (record { root = root; path = entry.path; index = entry.leaf_index })

-- The `map` over the utxos, from the position `idx` on.
unfoldable pub build_acc_member_witnesses_from :
    {U : Type 0} → ProofResponse → ℕ → List U → Result InputError (List AccMemberWitness)
build_acc_member_witnesses_from answer idx [] = ok []
build_acc_member_witnesses_from answer idx (utxo ∷ utxos) =
    witness_for answer.merkle_root (get_elem? answer.proof idx) >>= λ witness.
    build_acc_member_witnesses_from answer (idx + 1) utxos >>= λ rest. ok (witness ∷ rest)

abbrev pub build_acc_member_witnesses :
    {U : Type 0} → ProofResponse → List U → Result InputError (List AccMemberWitness)
build_acc_member_witnesses answer utxos = build_acc_member_witnesses_from answer 0 utxos

-- A secret that is not a dummy holds the opening of its memo and the witness; the owner's keys are the
-- same in each.
pub data InputSecret (R : Type 0) : Type 0 where
  dummy : InputSecret R
  input : R → AccMemberWitness → InputSecret R

-- `decode` is `MemoKit.decodeMemoForOwner` for the owner: none where it throws, `some none` for null.
module _ {M R : Type 0} (decode : M → Option (Option R)) where
  abbrev pub opened_memo : AccMemberWitness → Option (Option R) → Result InputError (InputSecret R)
  opened_memo witness none = err malformed_memo
  opened_memo witness (some none) = err memo_not_decrypted
  opened_memo witness (some (some ro)) = ok (input ro witness)

  -- One round of the `for`, on the utxo's memo, if it has one.
  abbrev pub secret_for : AccMemberWitness → Option M → Result InputError (InputSecret R)
  secret_for witness none = ok dummy
  secret_for witness (some memo) = opened_memo witness (decode memo)

  -- `witnesses[i]!`: there is a witness for each utxo.
  unfoldable pub secrets_for :
      List (Option M) → List AccMemberWitness → Result InputError (List (InputSecret R))
  secrets_for [] witnesses = ok []
  secrets_for (memo ∷ memos) [] = err missing_entry
  secrets_for (memo ∷ memos) (witness ∷ witnesses) = secret_for witness memo >>= λ secret.
      secrets_for memos witnesses >>= λ rest. ok (secret ∷ rest)

  -- `valid`.
  abbrev pub count_memos : List (Option M) → ℕ
  count_memos [] = 0
  count_memos (none ∷ memos) = count_memos memos
  count_memos (some memo ∷ memos) = suc (count_memos memos)

  -- `while (out.length < maxInputs)`, where there is a maximum.
  abbrev pub filled_up : Option ℕ → List (InputSecret R) → List (InputSecret R)
  filled_up none out = out
  filled_up (some max_inputs) out = out ++ replicate (max_inputs - length out) dummy

  -- What follows once the owner's key and address are there.
  abbrev pub build_secrets :
      ProofResponse → List (Option M) → Option ℕ → Result InputError (List (InputSecret R))
  build_secrets answer utxos max_inputs = build_acc_member_witnesses answer utxos >>= λ witnesses.
      secrets_for utxos witnesses >>= λ out.
      if count_memos utxos == 0 then err no_valid_utxo else ok (filled_up max_inputs out)

abbrev pub too_many : Option ℕ → ℕ → Bool
too_many none count = false
too_many (some max_inputs) count = ltb max_inputs count

-- The owner's key pair. `address_sk` is `BigInt` of the key, none where that throws.
pub record OwnerKeyPair : Type 0 where
  pub address_sk : Option ℤ
  pub user_pk : Point

module _ (k : Codec) where
  -- `expectedAddress` is the owner's address, and no memo is marked as transparent.
  abbrev pub decode_for : ℤ → String → String → Option (Option RecordOpening)
  decode_for secret_key address memo = decode_memo_for_owner k secret_key memo address false

  -- `BigInt` of the key and then `KeyManager.userPkToAddress`, which throws for a point off the curve.
  abbrev pub build_for_owner :
      Option ℤ
      → Option String
      → ProofResponse
      → List (Option String)
      → Option ℕ
      → Result InputError (List (InputSecret RecordOpening))
  build_for_owner none address answer utxos max_inputs = err invalid_secret_key
  build_for_owner (some secret_key) none answer utxos max_inputs = err invalid_user_pk
  build_for_owner (some secret_key) (some address) answer utxos max_inputs =
      build_secrets (decode_for secret_key address) answer utxos max_inputs

  -- A utxo is its memo, none where it is missing or empty.
  unfoldable pub build_input_secrets_from_utxos :
      OwnerKeyPair
      → ProofResponse
      → List (Option String)
      → Option ℕ
      → Result InputError (List (InputSecret RecordOpening))
  build_input_secrets_from_utxos owner answer utxos max_inputs =
      let built =
        build_for_owner owner.address_sk (k.user_pk_to_address owner.user_pk) answer utxos
          max_inputs in
      if length utxos == 0
      then err no_utxos
      else if too_many max_inputs (length utxos)
      then err too_many_utxos
      else built
