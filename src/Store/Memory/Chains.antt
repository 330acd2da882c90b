-- ===== src/Store/Memory/Chains.antt =====
-- src/store/memoryStore.ts: the Merkle nodes and versions and the entry caches, which are kept by chain.
use ocash_sdk.Prelude.{
  ℕ, Bool-cases, inl, inr, ◌≤◌, ◌≡◌, refl, List, [], ◌∷◌, Option, none, some, All, ltb,
  if◌then◌else◌, arith,
}
use mathlib.Core.List.{Mem, mem-cons_self, mem-cons_of_mem}
use mathlib.Core.List.Perm
use ocash_sdk.Prelude.Maps.{Map, lookup, insert, erase, nat_eq}
use ocash_sdk.Merkle.Nodes.{NodeId, node_id_eq, Node, Version}
use ocash_sdk.Merkle.Insert.{put_nodes}
use ocash_sdk.Store.Query.{
  EntryMemoRecord, EntryNullifierRecord, ListEntriesQuery, Paged, apply_entry_memo_query,
  apply_entry_nullifier_query,
}
use ocash_sdk.Store.Memory.{MemoryStore, values}

-- The map of a chain; one that is missing is empty.
abbrev pub chain_map : {K V : Type 0} → ℕ → Map ℕ (Map K V) → Map K V
chain_map chain_id m = elim (lookup chain_id m) [ none ↦ [] | some inner ↦ inner ]

abbrev pub get_chairman_merkle_node : ℕ → NodeId → MemoryStore → Option Node
get_chairman_merkle_node chain_id id s = lookup id (chain_map chain_id s.nodes)

unfoldable pub put_chairman_merkle_nodes : ℕ → List Node → MemoryStore → MemoryStore
put_chairman_merkle_nodes chain_id [] s = s
put_chairman_merkle_nodes chain_id (n ∷ ns) s =
    let m = put_nodes (n ∷ ns) (chain_map chain_id s.nodes) in
    record s { nodes = insert chain_id m s.nodes }

abbrev pub get_chairman_merkle_version : ℕ → ℕ → MemoryStore → Option Version
get_chairman_merkle_version chain_id version s = lookup version (chain_map chain_id s.versions)

-- `if (!latest || record.version > latest.version) latest = record`.
abbrev pub later_version : Option Version → Version → Version
later_version none v = v
later_version (some latest) v = if ltb latest.version v.version then v else latest

unfoldable pub latest_version : Option Version → List Version → Option Version
latest_version latest [] = latest
latest_version latest (v ∷ vs) = latest_version (some (later_version latest v)) vs

abbrev pub get_latest_chairman_merkle_version : ℕ → MemoryStore → Option Version
get_latest_chairman_merkle_version chain_id s =
    latest_version none (values (chain_map chain_id s.versions))

unfoldable pub put_chairman_merkle_version : ℕ → Version → MemoryStore → MemoryStore
put_chairman_merkle_version chain_id v s =
    let m = insert v.version v (chain_map chain_id s.versions) in
    record s { versions = insert chain_id m s.versions }

abbrev pub clear_chairman_merkle_tree : ℕ → MemoryStore → MemoryStore
clear_chairman_merkle_tree chain_id s = record s {
  nodes = erase chain_id s.nodes;
  versions = erase chain_id s.versions;
}

abbrev pub put_memo :
    EntryMemoRecord → Map ℕ (Map ℕ EntryMemoRecord) → Map ℕ (Map ℕ EntryMemoRecord)
put_memo memo m = insert memo.chain_id (insert memo.cid memo (chain_map memo.chain_id m)) m

unfoldable pub put_memos :
    List EntryMemoRecord → Map ℕ (Map ℕ EntryMemoRecord) → Map ℕ (Map ℕ EntryMemoRecord)
put_memos [] m = m
put_memos (memo ∷ memos) m = put_memos memos (put_memo memo m)

-- The test that `cid` is an integer from 0 holds of every `ℕ`.
abbrev pub upsert_entry_memos : List EntryMemoRecord → MemoryStore → MemoryStore
upsert_entry_memos memos s = record s { entry_memos = put_memos memos s.entry_memos }

abbrev pub list_entry_memos : ListEntriesQuery → MemoryStore → Paged EntryMemoRecord
list_entry_memos q s = apply_entry_memo_query (values (chain_map q.chain_id s.entry_memos)) q

abbrev pub clear_entry_memos : ℕ → MemoryStore → MemoryStore
clear_entry_memos chain_id s = record s { entry_memos = erase chain_id s.entry_memos }

abbrev pub put_nullifier :
    EntryNullifierRecord → Map ℕ (Map ℕ EntryNullifierRecord) → Map ℕ (Map ℕ EntryNullifierRecord)
put_nullifier row m = insert row.chain_id (insert row.nid row (chain_map row.chain_id m)) m

unfoldable pub put_nullifiers :
    List EntryNullifierRecord
    → Map ℕ (Map ℕ EntryNullifierRecord)
    → Map ℕ (Map ℕ EntryNullifierRecord)
put_nullifiers [] m = m
put_nullifiers (row ∷ rows) m = put_nullifiers rows (put_nullifier row m)

abbrev pub upsert_entry_nullifiers : List EntryNullifierRecord → MemoryStore → MemoryStore
upsert_entry_nullifiers rows s = record s {
  entry_nullifiers = put_nullifiers rows s.entry_nullifiers;
}

abbrev pub list_entry_nullifiers : ListEntriesQuery → MemoryStore → Paged EntryNullifierRecord
list_entry_nullifiers q s =
    apply_entry_nullifier_query (values (chain_map q.chain_id s.entry_nullifiers)) q

abbrev pub clear_entry_nullifiers : ℕ → MemoryStore → MemoryStore
clear_entry_nullifiers chain_id s = record s {
  entry_nullifiers = erase chain_id s.entry_nullifiers;
}

-- `latest` is one of a list of versions, and its number is at least that of each.
abbrev pub IsLatest : Option Version → List Version → Type 0
IsLatest none vs = vs ≡ []
IsLatest (some latest) vs = Mem latest vs × All (λ (v : Version). v.version ≤ latest.version) vs

-- A later version is one of the two.
later_version-Mem :
    (l v m : Version) (vs : List Version)
    → Mem m (later_version (some l) v ∷ vs)
    → Mem m (l ∷ v ∷ vs)
later_version-Mem l v m vs member = elim (Bool-cases (ltb l.version v.version)) [
  | inl later ↦ mem-cons_of_mem l (rw (later) at member)
  | inr not_later ↦
      (Perm.mem_iff (Perm.swap l v vs)).0 (mem-cons_of_mem v (rw (not_later) at member))
]

latest_version-from :
    (l : Version) (vs : List Version)
    → (m : Version) × (latest_version (some l) vs ≡ some m)
      × Mem m (l ∷ vs)
      × (l.version ≤ m.version)
      × All (λ (v : Version). v.version ≤ m.version) vs
unfolding latest_version
latest_version-from l [] = (l, refl, mem-cons_self, omega arith, tt)
latest_version-from l (v ∷ vs) =
    let (m, found, member, later, rest) = latest_version-from (later_version (some l) v) vs in
    (m, found, later_version-Mem l v m vs member, ground arith, (ground arith, rest))

latest_version-IsLatest : (vs : List Version) → IsLatest (latest_version none vs) vs
unfolding latest_version
latest_version-IsLatest [] = refl
latest_version-IsLatest (v ∷ vs) =
    let (m, found, member, later, rest) = latest_version-from v vs in
    rw (found) (member, (later, rest))

-- The latest version of a chain is one of its stored versions, of the highest number; there is none only
-- if the chain has no version.
pub get_latest_chairman_merkle_version-IsLatest :
    (chain_id : ℕ) (s : MemoryStore)
    → IsLatest
        (get_latest_chairman_merkle_version chain_id s)
        (values (chain_map chain_id s.versions))
get_latest_chairman_merkle_version-IsLatest chain_id s =
    latest_version-IsLatest (values (chain_map chain_id s.versions))
