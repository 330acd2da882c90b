-- ===== src/Store/Persisted/RoundTrip.antt =====
-- What a wallet state is after it was serialized and hydrated.
use Prim.Native.String.{String}
use ocash_sdk.Prelude.{
  ℕ, ◌≡◌, ◌≢◌, refl, ap, ◌∙◌, false, Bool-cases, Option-cases, inl, inr, [], ◌∷◌, Option, none,
  some, ltb, All, if◌then◌else◌, ◌==◌, arith,
}
use ocash_sdk.Prelude.Int.{ℤ}
use ocash_sdk.Prelude.Maps.{Eq, Map, lookup, insert, lookup-insert, nat_eq}
use ocash_sdk.Types.{UtxoRecord, SyncCursor}
use ocash_sdk.Store.Memory.{UtxoId, utxo_id_eq, values}
use ocash_sdk.Store.Persisted.{
  WalletState, place, put_integer, put_some, load, persist_cursor, hydrate_cursor, persist_utxo,
  hydrate_utxo, serialize_wallet_state, hydrate_wallet_state,
}

-- The first of two results that is there.
abbrev or_found : {V : Type 0} → Option V → Option V → Option V
or_found none other = other
or_found (some v) other = some v

or_found-none : {V : Type 0} (o : Option V) → or_found o none ≡ o
or_found-none none = refl
or_found-none (some v) = refl

abbrev converted : {V U : Type 0} → (V → Option U) → Option V → Option U
converted f none = none
converted f (some v) = f v

-- No key is there twice, as in every `Map` of JavaScript.
abbrev pub Unique : {K V : Type 0} ⦃e : Eq K⦄ → Map K V → Type 0
Unique [] = Unit
Unique ((k, v) ∷ m) = (lookup k m ≡ none) × Unique m

-- A setter of an object: what is read after it, and that it keeps keys unique.
record Setter {K U : Type 0} ⦃e : Eq K⦄ (put : K → U → Map K U → Map K U) : Type 0 where
  reads :
      (k j : K) (u : U) (m : Map K U)
      → lookup j (put k u m) ≡ (if e.beq j k then some u else lookup j m)
  keeps : (k : K) (u : U) (m : Map K U) → Unique m → Unique (put k u m)

module _ {K V U : Type 0} ⦃e : Eq K⦄ (put : K → U → Map K U → Map K U) (setter : Setter put)
    (f : V → Option U) where
  lookup-put_some :
      (j k : K) (o : Option U) (m : Map K U)
      → lookup j (put_some put f k o m)
        ≡ (if e.beq j k then or_found o (lookup j m) else lookup j m)
  lookup-put_some j k none m = elim (Bool-cases (e.beq j k)) [
    | inl same ↦ rw (same) refl
    | inr other ↦ rw (other) refl
  ]
  lookup-put_some j k (some u) m = setter.reads k j u m

  Unique-put_some : (k : K) (o : Option U) (m : Map K U) → Unique m → Unique (put_some put f k o m)
  Unique-put_some k none m h = h
  Unique-put_some k (some u) m h = setter.keeps k u m h

  lookup-load :
      (j : K) (entries : Map K V) (m : Map K U)
      → Unique entries
      → lookup j (load put f entries m) ≡ or_found (converted f (lookup j entries)) (lookup j m)
  unfolding load
  lookup-load j [] m h = refl
  lookup-load j ((k, v) ∷ entries) m h =
      let rest = lookup-load j entries (put_some put f k (f v) m) h.1 in
      let here = lookup-put_some j k (f v) m in
      elim (Bool-cases (e.beq j k)) [
        | inl same ↦
            let at : j ≡ k = (e.beq_iff j k).0 same in
            let gone : lookup j entries ≡ none = rw (at) h.0 in rw (rest, gone, here, same) refl
        | inr other ↦ rw (rest, here, other) refl
      ]

  Unique-load : (entries : Map K V) (m : Map K U) → Unique m → Unique (load put f entries m)
  unfolding load
  Unique-load [] m h = h
  Unique-load ((k, v) ∷ entries) m h =
      Unique-load entries (put_some put f k (f v) m) (Unique-put_some k (f v) m h)

-- Two loops after each other, from empty objects.
twice :
    {K V U : Type 0} ⦃e : Eq K⦄ (put : K → U → Map K U → Map K U) (back : K → V → Map K V → Map K V)
    → Setter put
    → Setter back
    → (f : V → Option U) (g : U → Option V) (m : Map K V) → Unique m
    → (k : K) → lookup k (load back g (load put f m []) []) ≡ converted g (converted f (lookup k m))
twice put back putter backer f g m h k =
    lookup-load back backer g k (load put f m []) [] (Unique-load put putter f m [] tt)
    ∙ or_found-none (converted g (lookup k (load put f m [])))
    ∙ ap (converted g)
        (lookup-load put putter f k m [] h ∙ or_found-none (converted f (lookup k m)))

Unique-insert :
    {K V : Type 0} ⦃e : Eq K⦄ (k : K) (v : V) (m : Map K V) → Unique m → Unique (insert k v m)
Unique-insert k v [] h = (refl, tt)
Unique-insert ⦃e⦄ k v ((j, w) ∷ m) h = elim (Bool-cases (e.beq k j)) [
  | inl same ↦ let at : k ≡ j = (e.beq_iff k j).0 same in rw (same) (rw (at) h.0, h.1)
  | inr other ↦
      rw (other) (
        ground (arith, lookup-insert k j v m, e.beq_iff j k, e.beq_iff k j),
        Unique-insert k v m h.1,
      )
]

insert-Setter : {K V : Type 0} ⦃e : Eq K⦄ → Setter {K = K} {U = V} insert
insert-Setter = record {
  reads = λ k j u m. lookup-insert k j u m;
  keeps = λ k u m h. Unique-insert k u m h;
}

absent-cons :
    {V : Type 0} (k i : ℕ) (w : V) (m : Map ℕ V)
    → lookup k ((i, w) ∷ m) ≡ none
    → (k ≢ i) × (lookup k m ≡ none)
absent-cons k i w m h = elim (Bool-cases (k == i)) [
  | inl same ↦ let found = rw (same) at h in absurd (ground arith)
  | inr other ↦ let rest = rw (other) at h in (λ e. ground arith, rest)
]

lookup-place :
    {V : Type 0} (k j : ℕ) (v : V) (m : Map ℕ V)
    → lookup k m ≡ none
    → lookup j (place k v m) ≡ (if j == k then some v else lookup j m)
lookup-place k j v [] h = refl
lookup-place k j v ((i, w) ∷ m) h =
    let (apart, rest) = absent-cons k i w m h in
    let later = lookup-place k j v m rest in
    elim (Bool-cases (ltb k i)) [
      | inl before ↦ rw (before) refl
      | inr after ↦ elim (Bool-cases (j == i)) [
        | inl same ↦ let other : (j == k) ≡ false = ground arith in rw (after, same, other) refl
        | inr other ↦ rw (after, other) later
      ]
    ]

Unique-place :
    {V : Type 0} (k : ℕ) (v : V) (m : Map ℕ V) → lookup k m ≡ none → Unique m → Unique (place k v m)
Unique-place k v [] absent h = (refl, tt)
Unique-place k v ((i, w) ∷ m) absent h =
    let (apart, rest) = absent-cons k i w m absent in
    let other : (i == k) ≡ false = ground arith in
    let here = lookup-place k i v m rest in
    elim (Bool-cases (ltb k i)) [
      | inl before ↦ rw (before) (absent, h)
      | inr after ↦ rw (after) (here ∙ rw (other) h.0, Unique-place k v m rest h.1)
    ]

put_integer-Setter : {V : Type 0} → Setter {K = ℕ} {U = V} put_integer
put_integer-Setter = record {
  reads = λ k j u m. elim (Option-cases (lookup k m)) [
    | inl absent ↦ rw (absent) (lookup-place k j u m absent)
    | inr (w, there) ↦ rw (there) (lookup-insert k j u m)
  ];
  keeps = λ k u m h. elim (Option-cases (lookup k m)) [
    | inl absent ↦ rw (absent) (Unique-place k u m absent h)
    | inr (w, there) ↦ rw (there) (Unique-insert k u m h)
  ];
}

cursor_back : (o : Option SyncCursor) → converted hydrate_cursor (converted persist_cursor o) ≡ o
cursor_back none = refl
cursor_back (some c) = refl

module _ (show : ℤ → String) (parse : String → Option ℤ) where
  -- `BigInt` reads back the amount that `toString` writes.
  abbrev pub Readable : UtxoRecord → Type 0
  Readable u = parse (show u.amount) ≡ some u.amount

  utxo_back :
      (k : UtxoId) (m : Map UtxoId UtxoRecord)
      → All Readable (values m)
      → converted (hydrate_utxo show parse) (converted (persist_utxo show parse) (lookup k m))
        ≡ lookup k m
  utxo_back k [] h = refl
  utxo_back k ((j, u) ∷ m) h = elim (Bool-cases (utxo_id_eq.beq k j)) [
    | inl same ↦ rw (same) (rw (h.0) refl)
    | inr other ↦ rw (other) (utxo_back k m h.1)
  ]

  -- Of a wallet state with unique keys, whose amounts `BigInt` reads back, serializing and hydrating
  -- keeps the wallet id, the cursor of every chain and the UTXO under every key.
  pub hydrate_wallet_state-serialize_wallet_state :
      (s : WalletState)
      → Unique s.cursors
      → Unique s.utxos
      → All Readable (values s.utxos)
      → let t = hydrate_wallet_state show parse (serialize_wallet_state show parse s) in
        (t.wallet_id ≡ s.wallet_id)
        × ((chain_id : ℕ) → lookup chain_id t.cursors ≡ lookup chain_id s.cursors)
        × ((key : UtxoId) → lookup key t.utxos ≡ lookup key s.utxos)
  unfolding hydrate_wallet_state serialize_wallet_state
  hydrate_wallet_state-serialize_wallet_state s cursors utxos readable = (
    refl,
    λ c.
        twice put_integer insert put_integer-Setter insert-Setter persist_cursor hydrate_cursor
          s.cursors cursors c
        ∙ cursor_back (lookup c s.cursors),
    λ k.
        twice insert insert insert-Setter insert-Setter (persist_utxo show parse)
          (hydrate_utxo show parse) s.utxos utxos k
        ∙ utxo_back k s.utxos readable,
  )
