-- ===== src/Store/Query.antt =====
-- src/store/internal/utxoQuery.ts, entryMemoQuery.ts, entryNullifierQuery.ts and operationsQuery.ts:
-- filters, order and pages of stored rows. Numbers in a query are integers, where `Math.floor` and
-- `normalizeNumber` change nothing.
pub mod Ordered
pub mod Pages
use Prim.Native.String.{String}
use text.Mathlib.Text.{◌==◌ as str_eq}
use ocash_sdk.Prelude.{
  ℕ, ◌+◌, ◌-◌, ◌==◌, Bool, true, false, ◌&&◌, ◌||◌, not, List, [], ◌∷◌, ◌++◌, Option, none, some,
  length, take, drop, filter, leb, if◌then◌else◌,
}
use ocash_sdk.Prelude.Int.{ℤ, pos, negsuc, pos_part, ◌-ℤ◌, ◌*ℤ◌, ltb_ℤ, leb_ℤ, eqb_ℤ}
use ocash_sdk.Prelude.Sorting.{sort}
use ocash_sdk.Types.{UtxoRecord}

pub record EntryMemoRecord : Type 0 where
  pub chain_id : ℕ
  pub cid : ℕ
  pub commitment : String
  pub memo : String
  pub is_transparent : Option Bool
  pub asset_id : Option String
  pub amount : Option String
  pub partial_hash : Option String
  pub tx_hash : Option String
  pub created_at : Option ℕ

pub record EntryNullifierRecord : Type 0 where
  pub chain_id : ℕ
  pub nid : ℕ
  pub nullifier : String
  pub created_at : Option ℕ

-- `orderBy`: the rows' own index (mkIndex, cid or nid), or createdAt.
pub data OrderBy : Type 0 where
  by_index by_created_at : OrderBy

pub data Order : Type 0 where
  asc desc : Order

abbrev pub order_factor : Order → ℤ
order_factor asc = pos 1
order_factor desc = negsuc 0

abbrev pub compare_created_at : Option ℕ → Option ℕ → ℤ → ℤ
compare_created_at (some a) none factor = negsuc 0
compare_created_at none (some b) factor = pos 1
compare_created_at none none factor = pos 0
compare_created_at (some a) (some b) factor =
    let diff = pos a -ℤ pos b in if eqb_ℤ diff (pos 0) then pos 0 else diff *ℤ factor

abbrev pub compare_index : ℕ → ℕ → ℤ → ℤ
compare_index a b factor =
    let diff = pos a -ℤ pos b in if eqb_ℤ diff (pos 0) then pos 0 else diff *ℤ factor

-- `a || b` of two comparators' results: the second decides when the first is 0.
abbrev pub or_else : ℤ → ℤ → ℤ
or_else a b = if eqb_ℤ a (pos 0) then b else a

-- The comparator of the three row queries, on two rows' index and time.
abbrev pub compare_rows : OrderBy → Order → ℕ × Option ℕ → ℕ × Option ℕ → ℤ
compare_rows by_created_at order (i, t) (j, u) =
    or_else (compare_created_at t u (order_factor order)) (compare_index i j (order_factor order))
compare_rows by_index order (i, t) (j, u) =
    or_else (compare_index i j (order_factor order)) (compare_created_at t u (order_factor order))

-- `a < b` of JavaScript's sort: the comparator is negative.
abbrev pub row_precedes {ℓ} : {A : Type ℓ} → (A → ℕ × Option ℕ) → OrderBy → Order → A → A → Bool
row_precedes key order_by order a b = ltb_ℤ (compare_rows order_by order (key a) (key b)) (pos 0)

abbrev pub offset_or_zero : Option ℤ → ℕ
offset_or_zero none = 0
offset_or_zero (some n) = pos_part n

-- `rows.slice(offset)` or `rows.slice(offset, offset + limit)`; `Math.max(0, n)` is `pos_part n`.
abbrev pub page {ℓ} : {A : Type ℓ} → Option ℤ → Option ℤ → List A → List A
page offset none rows = drop (offset_or_zero offset) rows
page offset (some limit) rows = take (pos_part limit) (drop (offset_or_zero offset) rows)

pub record ListUtxosQuery : Type 0 where
  pub chain_id : Option ℕ
  pub asset_id : Option String
  pub include_spent : Bool
  pub include_frozen : Bool
  pub spent : Option Bool
  pub frozen : Option Bool
  pub offset : Option ℤ
  pub limit : Option ℤ
  pub order_by : OrderBy
  pub order : Order

pub record Paged {ℓ} (A : Type ℓ) : Type ℓ where
  pub total : ℕ
  pub rows : List A

-- A filter that is not given lets everything pass.
abbrev pub passes {ℓ} : {A : Type ℓ} → (A → Bool) → Option A → Bool
passes test none = true
passes test (some a) = test a

-- `spent` decides when it is given, else `includeSpent`; the same for frozen.
abbrev pub flag_passes : Option Bool → Bool → Bool → Bool
flag_passes none include flag = include || not flag
flag_passes (some true) include flag = flag
flag_passes (some false) include flag = not flag

abbrev pub utxo_passes : ListUtxosQuery → UtxoRecord → Bool
utxo_passes q u =
    passes (λ (c : ℕ). u.chain_id == c) q.chain_id
    && passes (λ (a : String). str_eq u.asset_id a) q.asset_id
    && flag_passes q.spent q.include_spent u.is_spent
    && flag_passes q.frozen q.include_frozen u.is_frozen

abbrev pub utxo_key : UtxoRecord → ℕ × Option ℕ
utxo_key u = (u.mk_index, u.created_at)

unfoldable pub apply_utxo_query : List UtxoRecord → ListUtxosQuery → Paged UtxoRecord
apply_utxo_query rows q =
    let sorted = sort (row_precedes utxo_key q.order_by q.order) (filter (utxo_passes q) rows) in
    record { total = length sorted; rows = page q.offset q.limit sorted }

-- `ListEntryMemosQuery` and `ListEntryNullifiersQuery`, which differ in the name of the index.
pub record ListEntriesQuery : Type 0 where
  pub chain_id : ℕ
  pub offset : Option ℤ
  pub limit : Option ℤ
  pub order_by : OrderBy
  pub order : Order
  pub index_from : Option ℤ
  pub index_to : Option ℤ
  pub created_at_from : Option ℤ
  pub created_at_to : Option ℤ

-- A row without a time fails a bound on it.
abbrev pub time_passes : (ℤ → ℤ → Bool) → Option ℕ → Option ℤ → Bool
time_passes test time none = true
time_passes test none (some bound) = false
time_passes test (some t) (some bound) = test (pos t) bound

abbrev pub geb_ℤ : ℤ → ℤ → Bool
geb_ℤ a b = leb_ℤ b a

abbrev pub entry_passes : ListEntriesQuery → ℕ × Option ℕ → Bool
entry_passes q (index, time) =
    passes (λ (from : ℤ). geb_ℤ (pos index) from) q.index_from
    && passes (λ (to : ℤ). leb_ℤ (pos index) to) q.index_to
    && time_passes geb_ℤ time q.created_at_from
    && time_passes leb_ℤ time q.created_at_to

abbrev pub apply_entry_query {ℓ} :
    {A : Type ℓ} → (A → ℕ × Option ℕ) → List A → ListEntriesQuery → Paged A
apply_entry_query key rows q =
    let sorted =
      sort (row_precedes key q.order_by q.order) (filter (λ r. entry_passes q (key r)) rows) in
    record { total = length sorted; rows = page q.offset q.limit sorted }

unfoldable pub apply_entry_memo_query :
    List EntryMemoRecord → ListEntriesQuery → Paged EntryMemoRecord
apply_entry_memo_query = apply_entry_query (λ (r : EntryMemoRecord). (r.cid, r.created_at))

unfoldable pub apply_entry_nullifier_query :
    List EntryNullifierRecord → ListEntriesQuery → Paged EntryNullifierRecord
apply_entry_nullifier_query =
    apply_entry_query (λ (r : EntryNullifierRecord). (r.nid, r.created_at))
