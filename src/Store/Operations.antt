-- ===== src/Store/Operations.antt =====
-- src/store/internal/operationTypes.ts and operationsQuery.ts: stored operations and their listing.
use Prim.Native.String.{String}
use text.Mathlib.Text.{◌==◌ as str_eq}
use ocash_sdk.Prelude.{
  ℕ, ◌==◌, Bool, false, ◌&&◌, ◌||◌, List, [], ◌∷◌, ◌++◌, Option, none, some, take, drop, filter,
}
use ocash_sdk.Store.Query.{Order, asc, desc, passes}

-- `detail`, whose type depends on the operation's, is a text here.
pub record StoredOperation : Type 0 where
  pub id : String
  pub type : String
  pub created_at : ℕ
  pub chain_id : Option ℕ
  pub token_id : Option String
  pub status : String
  pub request_url : Option String
  pub relayer_tx_hash : Option String
  pub tx_hash : Option String
  pub detail : Option String
  pub error : Option String

pub record ListOperationsQuery : Type 0 where
  pub limit : Option ℕ
  pub offset : Option ℕ
  pub chain_id : Option ℕ
  pub token_id : Option String
  pub types : Option (List String)
  pub statuses : Option (List String)
  pub sort : Order

abbrev pub default_limit : ℕ
default_limit = 50

abbrev pub or_default : Option ℕ → ℕ → ℕ
or_default none d = d
or_default (some n) d = n

abbrev pub is_number : ℕ → Option ℕ → Bool
is_number a none = false
is_number a (some b) = a == b

abbrev pub is_text : String → Option String → Bool
is_text a none = false
is_text a (some b) = str_eq a b

abbrev pub one_of : String → List String → Bool
one_of x [] = false
one_of x (y ∷ ys) = str_eq x y || one_of x ys

abbrev pub operation_passes : ListOperationsQuery → StoredOperation → Bool
operation_passes q op =
    passes (λ (c : ℕ). is_number c op.chain_id) q.chain_id
    && passes (λ (t : String). is_text t op.token_id) q.token_id
    && passes (λ (ts : List String). one_of op.type ts) q.types
    && passes (λ (ss : List String). one_of op.status ss) q.statuses

abbrev pub reverse : {A : Type 0} → List A → List A
reverse [] = []
reverse (x ∷ xs) = reverse xs ++ x ∷ []

abbrev pub source_order : Order → List StoredOperation → List StoredOperation
source_order asc ops = reverse ops
source_order desc ops = ops

unfoldable pub apply_operations_query :
    List StoredOperation → ListOperationsQuery → List StoredOperation
apply_operations_query ops q =
    take (or_default q.limit default_limit)
      (drop (or_default q.offset 0) (filter (operation_passes q) (source_order q.sort ops)))
