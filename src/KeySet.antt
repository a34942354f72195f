-- ===== src/KeySet.antt =====
-- armatureanalytics/bounded_keys.go: the set of session keys with oldest-first eviction, which
-- the recorder uses to emit one session_init for a session. A key is any comparable value. The
-- lock is held for the whole of each method, so a method is one step. The proofs are below.
pub mod Valid
pub mod Window
pub mod Refines
use mcp_analytics_go.Prelude.{
  ℕ, Bool, true, false, ◌||◌, Option, none, some, List, [], ◌∷◌, ◌++◌, length, leb, if◌then◌else◌,
  Eq,
}

-- `keys` is the Go map, read as a membership test.
pub record BoundedKeySet {ℓ} (K : Type ℓ) : Type ℓ where
  pub max : ℕ
  pub keys : K → Bool
  pub order : List K

unfoldable pub new_bounded_key_set {ℓ} : {K : Type ℓ} → ℕ → BoundedKeySet K
new_bounded_key_set max_entries = record { max = max_entries; keys = λ k. false; order = [] }

module _ {ℓ} {K : Type ℓ} ⦃e : Eq K⦄ where
  -- `keys[key] = value` for the map of a set, `delete` with the value false.
  abbrev pub write_key : K → Bool → (K → Bool) → K → Bool
  write_key key value keys k = if e.beq key k then value else keys k

  -- `delete(s.keys, s.order[0]); s.order = s.order[1:]`, with the panic on an empty order.
  unfoldable pub evict_oldest : List K → BoundedKeySet K → Option (BoundedKeySet K)
  evict_oldest [] s = none
  evict_oldest (oldest ∷ rest) s =
      some (record s { keys = write_key oldest false s.keys; order = rest })

  -- `s.keys[key] = struct{}{}; s.order = append(s.order, key)`
  unfoldable pub remember : K → BoundedKeySet K → BoundedKeySet K
  remember key s = record s { keys = write_key key true s.keys; order = s.order ++ key ∷ [] }

  unfoldable pub remembered : K → Option (BoundedKeySet K) → Option (BoundedKeySet K × Bool)
  remembered key none = none
  remembered key (some s) = some (remember key s, true)

  -- `Add`; `none` is a panic.
  unfoldable pub add : K → BoundedKeySet K → Option (BoundedKeySet K × Bool)
  unfolding remember remembered evict_oldest
  add key s =
      if s.keys key
      then some (s, false)
      else remembered key (if leb s.max (length s.order) then evict_oldest s.order s else some s)

  -- The loop of `Delete`: the order without the first occurrence of the key.
  unfoldable pub remove_first : K → List K → List K
  remove_first key [] = []
  remove_first key (k ∷ order) = if e.beq k key then order else k ∷ remove_first key order

  -- `Delete`
  unfoldable pub delete : K → BoundedKeySet K → BoundedKeySet K
  unfolding remove_first
  delete key s =
      if s.keys key
      then record s { keys = write_key key false s.keys; order = remove_first key s.order }
      else s
