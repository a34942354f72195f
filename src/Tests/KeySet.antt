-- ===== src/Tests/KeySet.antt =====
-- armatureanalytics/bounded_keys.go: a set of two numbers at most.
use mcp_analytics_go.Prelude.{ℕ, List, ◌≡◌, [], ◌∷◌, some, nat_is_eq, arith}
use mcp_analytics_go.KeySet.{new_bounded_key_set}
use mcp_analytics_go.KeySet.Refines.{
  Op, add_key, delete_key, answers, window_answers, new-window_answers,
}

abbrev three_keys : List (Op ℕ)
three_keys = add_key 1 ∷ add_key 2 ∷ delete_key 1 ∷ add_key 2 ∷ []

new-window_answers_example :
    answers three_keys (new_bounded_key_set 2) ≡ some (window_answers 2 three_keys [])
new-window_answers_example = new-window_answers 2 three_keys (omega arith)
