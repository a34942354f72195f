-- ===== src/Tests/Lifecycle.antt =====
-- armatureanalytics/recorder.go: a call of the feedback tool that completes while the recorder closes.
use mcp_analytics_go.Prelude.{
  ℕ, ◌+◌, ◌≤◌, ◌≡◌, refl, Bool, true, false, none, some, List, [], ◌∷◌, ◌++◌, nat_is_eq, ◌==◌,
}
use mcp_analytics_go.Lifecycle.{
  World, Thread, Turn, before_any, on_success, reserve_capability_request, start_close, resume,
  new_world, run, take_turn, resumed, pick, advance, store_pending_call, find_call, delete_call,
  claim, flag_at, set_flag, done, reserve,
}
use mcp_analytics_go.Lifecycle.Balance.{Balanced, new_world-Balanced, run-Balanced}
use mcp_analytics_go.Lifecycle.Totals.{total, unclaimed}
use mcp_analytics_go.Lifecycle.Final.{closed_final}
use mcp_analytics_go.Lifecycle.Once.{one_if, begun, recorded_le}
use mcp_analytics_go.Lifecycle.Drain.{resumes, left, drain}

-- The hook before the call, the handler's reservation, the close, and the hook after the call.
abbrev closing_call : List (Turn ℕ ℕ)
closing_call =
    before_any 1 5
    ∷ resume 0
    ∷ reserve_capability_request
    ∷ start_close
    ∷ on_success 1 (some 0)
    ∷ []

abbrev always : ℕ → Bool
always c = true

run-Balanced_example :
    (w : World ℕ ℕ) × (run true always closing_call new_world ≡ some w) × Balanced w
run-Balanced_example = run-Balanced true always closing_call new_world (new_world-Balanced ℕ ℕ)

-- The world after the feedback has been sent.
abbrev delivered : List (Turn ℕ ℕ)
delivered = closing_call ++ resume 0 ∷ resume 0 ∷ resume 0 ∷ resume 0 ∷ resume 0 ∷ resume 0 ∷ []

abbrev delivered_world : World ℕ ℕ
delivered_world = record {
  closed = true;
  accepting = false;
  dropped = 0;
  pending = [];
  inflight = 0;
  claimed = true ∷ [];
  threads = [];
  recorded = [];
  sent = 5 ∷ [];
}

-- A call that has passed the last check of `active` when the recorder and its queue are closed.
abbrev late : List (Turn ℕ ℕ)
late =
    before_any 3 7
    ∷ resume 0
    ∷ on_success 3 none
    ∷ resume 0
    ∷ resume 0
    ∷ resume 0
    ∷ start_close
    ∷ resume 1
    ∷ []

abbrev late_world : World ℕ ℕ
late_world = record {
  closed = true;
  accepting = false;
  dropped = 0;
  pending = [];
  inflight = 0;
  claimed = [];
  threads = Thread.queueing 7 ∷ [];
  recorded = [];
  sent = [];
}

closed_final_example :
    (w' : World ℕ ℕ) × (run true always (resume 0 ∷ before_any 2 6 ∷ []) late_world ≡ some w')
    × (w'.recorded ≡ [])
    × (w'.sent ≡ [])
    × (w'.inflight ≡ 0)
unfolding run take_turn resumed pick advance store_pending_call find_call delete_call claim flag_at
    set_flag done reserve
closed_final_example =
    closed_final true always late (resume 0 ∷ before_any 2 6 ∷ []) late_world refl refl refl refl

abbrev is_five : ℕ → Bool
is_five c = c == 5

recorded_le_example :
    (w : World ℕ ℕ) × (run true always delivered new_world ≡ some w)
    × (total (one_if is_five) w.recorded + total (one_if is_five) w.sent
        ≤ total (begun is_five) delivered)
recorded_le_example = recorded_le true always is_five delivered

abbrev claimed_world : World ℕ ℕ
claimed_world = record delivered_world { inflight = 1; threads = Thread.building 5 ∷ []; sent = [] }

drain_example :
    (w' : World ℕ ℕ) × (run true always (resumes (left claimed_world)) claimed_world ≡ some w')
    × (left w' ≡ 0)
    × (w'.inflight ≤ unclaimed claimed_world.claimed)
unfolding Balanced unclaimed total
drain_example = drain true always claimed_world refl
