-- ===== src/Ops/Tests.antt =====
-- The search when the contract is one index ahead of the client.
use ocash_sdk.Prelude.{ℕ, ◌+◌, ◌≡◌, ◌≢◌, refl, Option, none, some, arith}
use ocash_sdk.Prelude.Int.{ℤ, pos, ◌+ℤ◌, ◌-ℤ◌}
use ocash_sdk.Prelude.Results.{ok}
use ocash_sdk.Ops.RootIndex.{pick_merkle_root_index, pick_merkle_root_index-total}

-- The root at index `n` is 100 + n.
abbrev contract : ℕ → Option ℤ
contract n = some (pos (100 + n))

contract_readable : (k : ℕ) → contract k ≢ none
contract_readable k h = cc

-- The client is ahead by one: the search goes back to 6, below the current index.
pick_merkle_root_index-total_example :
    (k : ℕ) × (pick_merkle_root_index contract (some (pos 106)) (pos 7) none none ≡ ok k)
unfolding ◌+ℤ◌ ◌-ℤ◌
pick_merkle_root_index-total_example =
    pick_merkle_root_index-total contract (some (pos 106)) (pos 7) none none 6 contract_readable
      (pos 106, refl, refl) (omega arith, omega arith)
