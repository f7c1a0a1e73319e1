-- ===== src/Lru.antt =====
-- The table that three parts of the program share: a hash map from keys to stamped values, beside
-- an ordered set of rows `(instant, sequence number, key)` in which the oldest row comes first
-- (`NonceRegistry` of crates/ullm-tee/src/nonce_registry.rs, `TenantPool` of
-- crates/ullm-tee/src/tenant.rs, `RateLimiter` of crates/ullm-gateway/src/rate_limit.rs).
-- Here stand the collections of Rust's library that they use: `HashMap` as an association list with
-- one entry to a key, `BTreeSet` as a sorted list.
pub mod Synced
pub mod Order
pub mod Lookup
pub mod Evict
pub mod Below
use ullm.Prelude.{
  ℕ, ◌≡◌, Bool, true, false, ◌||◌, ◌&&◌, ◌==◌, ltb, List, [], ◌∷◌, map, Option, ℕ_discrete,
}
use mathlib.Core.List.{erase_p, erase, filter}
use mathlib.Core.Logic.{ite}

-- The order on arrays and texts of bytes.
unfoldable pub bytes_lt : List ℕ → List ℕ → Bool
bytes_lt xs [] = false
bytes_lt [] (y ∷ ys) = true
bytes_lt (x ∷ xs) (y ∷ ys) = ltb x y || (x == y && bytes_lt xs ys)

pub record Row {ℓ} (K : Type ℓ) : Type ℓ where
  pub instant : ℕ
  pub seq : ℕ
  pub key : K

unfoldable pub Row-discrete {ℓ} : {K : Type ℓ} → Discrete K → Discrete (Row K)
Row-discrete dec = hlevel (ℕ_discrete, dec)

unfoldable pub Bool-discrete : Discrete Bool
Bool-discrete = hlevel

-- The order on tuples: the instant, then the sequence number, then the key.
unfoldable pub row_lt {ℓ} : {K : Type ℓ} → (K → K → Bool) → Row K → Row K → Bool
row_lt key_lt a b =
    ltb a.instant b.instant
    || (a.instant == b.instant && (ltb a.seq b.seq || (a.seq == b.seq && key_lt a.key b.key)))

module _ {ℓ} {K : Type ℓ} (dec : Discrete K) where
  -- `BTreeSet::remove`
  abbrev pub remove_row : Row K → List (Row K) → List (Row K)
  remove_row r l = erase (Row-discrete dec) l r

  -- `BTreeSet::insert`
  unfoldable pub insert_row : (K → K → Bool) → Row K → List (Row K) → List (Row K)
  insert_row key_lt r [] = r ∷ []
  insert_row key_lt r (x ∷ xs) =
      ite (Bool-discrete (row_lt key_lt r x) true) (r ∷ x ∷ xs)
        (ite (Row-discrete dec r x) (x ∷ xs) (x ∷ insert_row key_lt r xs))

  -- `BTreeSet::range(..bound)`
  unfoldable pub rows_below : (K → K → Bool) → Row K → List (Row K) → List (Row K)
  rows_below key_lt bound = filter (λ r. Bool-discrete (row_lt key_lt r bound) true)

  -- `HashMap::remove` and `HashMap::insert`
  module _ {κ} {V : Type κ} where
    unfoldable pub remove : K → List (K × V) → List (K × V)
    remove k = erase_p (λ e. dec e.0 k)

    unfoldable pub insert : K → V → List (K × V) → List (K × V)
    unfolding remove
    insert k v m = (k, v) ∷ remove k m

-- `if let Some(oldest) = lru.first() { lru.remove(&oldest); map.remove(&oldest.key) }`, with
-- whether there was one.
module _ {ℓ} {K V : Type ℓ} (dec : Discrete K) where
  unfoldable pub evict_oldest : List (K × V) → List (Row K) → List (K × V) × List (Row K) × Bool
  unfolding remove
  evict_oldest m [] = (m, [], false)
  evict_oldest m (oldest ∷ l) = (remove dec oldest.key m, remove_row dec oldest (oldest ∷ l), true)

  -- The same for every row of a list, in its order.
  unfoldable pub remove_all :
      List (Row K) → List (K × V) → List (Row K) → List (K × V) × List (Row K)
  remove_all [] m l = (m, l)
  remove_all (r ∷ rs) m l = remove_all rs (remove dec r.key m) (remove_row dec r l)
