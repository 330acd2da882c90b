-- ===== src/Merkle/Inputs/Secrets.antt =====
-- The input secrets that are built from the proofs and the memos of the utxos.
use ocash_sdk.Prelude.{
  ℕ, ◌+◌, ◌-◌, ◌≤◌, ◌≡◌, ◌≢◌, List, [], ◌∷◌, ◌++◌, Option, none, some, length, replicate, get_elem?,
}
use Prim.Native.String.{String}
use ocash_sdk.Prelude.Int.{ℤ}
use ocash_sdk.Crypto.Records.{RecordOpening}
use ocash_sdk.Crypto.Nullifiers.{Codec}
use ocash_sdk.Prelude.Results.{Result, ◌>>=◌}
use ocash_sdk.Merkle.Requests.{ProofEntry, ProofResponse}
use ocash_sdk.Merkle.Inputs.{
  AccMemberWitness, InputError, build_acc_member_witnesses_from, InputSecret, dummy, input,
  secrets_for, count_memos, decode_for, OwnerKeyPair,
}

abbrev pub witness_of : ProofResponse → ProofEntry → AccMemberWitness
witness_of answer entry = record {
  root = answer.merkle_root;
  path = entry.path;
  index = entry.leaf_index;
}

module _ {M R : Type 0} (decode : M → Option (Option R)) (answer : ProofResponse) where
  -- The secrets of the utxos whose proofs stand from the position `at` on: each utxo has a proof, and a
  -- utxo with a memo has one that the owner can open.
  pub data Secrets : ℕ → List (Option M) → List (InputSecret R) → Type 0 where
    no_more : {at : ℕ} → Secrets at [] []
    without_memo :
        {at : ℕ} {entry : ProofEntry} {utxos : List (Option M)} {out : List (InputSecret R)}
        → get_elem? answer.proof at ≡ some entry
        → Secrets (at + 1) utxos out
        → Secrets at (none ∷ utxos) (dummy ∷ out)
    opened :
        {at : ℕ} {entry : ProofEntry} {memo : M} {ro : R} {utxos : List (Option M)}
        {out : List (InputSecret R)}
        → get_elem? answer.proof at ≡ some entry
        → decode memo ≡ some (some ro)
        → Secrets (at + 1) utxos out
        → Secrets at (some memo ∷ utxos) (input ro (witness_of answer entry) ∷ out)

  -- Both loops, the one for the witnesses and the one for the secrets.
  abbrev both : ℕ → List (Option M) → Result InputError (List (InputSecret R))
  both at utxos = build_acc_member_witnesses_from answer at utxos >>= secrets_for decode utxos

module _ (k : Codec) (owner : OwnerKeyPair) (answer : ProofResponse) where
  -- The owner's key is a number and its point has an address. There is a secret for each utxo, in their
  -- order, and dummies up to `max_inputs`; there is a memo among the utxos, and they are not
  -- more than `max_inputs`.
  pub record Inputs (utxos : List (Option String)) (max_inputs : ℕ)
      (out : List (InputSecret RecordOpening)) : Type 0 where
    pub secret_key : ℤ
    pub is_number : owner.address_sk ≡ some secret_key
    pub address : String
    pub has_address : k.user_pk_to_address owner.user_pk ≡ some address
    pub secrets : List (InputSecret RecordOpening)
    pub of_utxos : Secrets (decode_for k secret_key address) answer 0 utxos secrets
    pub filled : out ≡ secrets ++ replicate (max_inputs - length utxos) dummy
    pub fits : length utxos ≤ max_inputs
    pub has_memo : count_memos (decode_for k secret_key address) utxos ≢ 0
