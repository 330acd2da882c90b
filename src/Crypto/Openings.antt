-- ===== src/Crypto/Openings.antt =====
-- src/crypto/cryptoToolkit.ts: `createRecordOpening`.
use ocash_sdk.Prelude.{
  ℕ, ◌==◌, ◌≡◌, ◌≢◌, inl, inr, Bool, true, false, List, [], ◌∷◌, Option, none, some, if◌then◌else◌,
  arith, Bool-cases,
}
use ocash_sdk.Prelude.Int.{ℤ}
use ocash_sdk.Crypto.Poseidon2.{hash_sequence_with_domain, record_domain}
use ocash_sdk.Crypto.Records.{Point, RecordOpening, elements, commitment}

abbrev pub is_zero_hash : Option ℕ → Bool
is_zero_hash none = false
is_zero_hash (some h) = h == 0

abbrev pub opening : ℤ → ℤ → Point → Bool → ℤ → RecordOpening
opening asset_id amount user_pk is_frozen blinding = record {
  asset_id = asset_id;
  asset_amount = amount;
  user_pk = user_pk;
  blinding_factor = blinding;
  is_frozen = is_frozen;
}

-- The attempts with a random blinding factor: `draws` are the values of `randomBytes32Bigint`, one
-- for each attempt that is left. `none` is the error "Failed to derive non-zero commitment".
unfoldable pub draw_opening : ℤ → ℤ → Point → Bool → List ℤ → Option RecordOpening
draw_opening asset_id amount user_pk is_frozen [] = none
draw_opening asset_id amount user_pk is_frozen (blinding ∷ draws) =
    let ro = opening asset_id amount user_pk is_frozen blinding in
    let again = draw_opening asset_id amount user_pk is_frozen draws in
    if is_zero_hash (hash_sequence_with_domain (elements ro amount) record_domain none)
    then again
    else some ro

-- A given blinding factor is used as it is.
unfoldable pub create_record_opening :
    ℤ → ℤ → Point → Option ℤ → Bool → List ℤ → Option RecordOpening
unfolding draw_opening
create_record_opening asset_id amount user_pk (some blinding) is_frozen draws =
    some (opening asset_id amount user_pk is_frozen blinding)
create_record_opening asset_id amount user_pk none is_frozen draws =
    draw_opening asset_id amount user_pk is_frozen draws

draw_opening_fields :
    (asset_id amount : ℤ) (user_pk : Point) (is_frozen : Bool) (draws : List ℤ) (ro : RecordOpening)
    → draw_opening asset_id amount user_pk is_frozen draws ≡ some ro
    → (ro.asset_id ≡ asset_id)
      × (ro.asset_amount ≡ amount)
      × (ro.user_pk ≡ user_pk)
      × (ro.is_frozen ≡ is_frozen)
unfolding draw_opening
draw_opening_fields asset_id amount user_pk is_frozen [] ro h = cc
draw_opening_fields asset_id amount user_pk is_frozen (b ∷ draws) ro h =
    ground (arith, draw_opening_fields asset_id amount user_pk is_frozen draws ro)

-- The opening has the asset, the amount, the owner and the frozen flag that were asked for.
pub create_record_opening_fields :
    (asset_id amount : ℤ) (user_pk : Point) (blinding : Option ℤ) (is_frozen : Bool)
    (draws : List ℤ) (ro : RecordOpening)
    → create_record_opening asset_id amount user_pk blinding is_frozen draws ≡ some ro
    → (ro.asset_id ≡ asset_id)
      × (ro.asset_amount ≡ amount)
      × (ro.user_pk ≡ user_pk)
      × (ro.is_frozen ≡ is_frozen)
unfolding create_record_opening
create_record_opening_fields asset_id amount user_pk (some b) is_frozen draws ro h = ground arith
create_record_opening_fields asset_id amount user_pk none is_frozen draws ro h =
    draw_opening_fields asset_id amount user_pk is_frozen draws ro h

draw_opening-commitment :
    (asset_id amount : ℤ) (user_pk : Point) (draws : List ℤ) (ro : RecordOpening)
    → draw_opening asset_id amount user_pk false draws ≡ some ro
    → commitment ro ≢ some 0
unfolding draw_opening commitment
draw_opening-commitment asset_id amount user_pk [] ro h = cc
draw_opening-commitment asset_id amount user_pk (b ∷ draws) ro h =
    let first = opening asset_id amount user_pk false b in
    let hash = hash_sequence_with_domain (elements first amount) record_domain none in
    elim (Bool-cases (is_zero_hash hash)) [
      | inl again ↦ draw_opening-commitment asset_id amount user_pk draws ro (rw (again) at h)
      | inr found ↦ λ zeroed.
          let chosen : some first ≡ some ro = rw (found) at h in
          let same : first ≡ ro = cc in
          let zero_hash : hash ≡ some 0 = rw (← same) at zeroed in
          let caught : is_zero_hash hash ≡ true = rw (zero_hash) in cc
    ]

-- With drawn blinding factors and no freezing, the opening that is returned does not have the zero
-- commitment.
pub create_record_opening-commitment :
    (asset_id amount : ℤ) (user_pk : Point) (draws : List ℤ) (ro : RecordOpening)
    → create_record_opening asset_id amount user_pk none false draws ≡ some ro
    → commitment ro ≢ some 0
unfolding create_record_opening
create_record_opening-commitment asset_id amount user_pk draws ro h =
    draw_opening-commitment asset_id amount user_pk draws ro h
