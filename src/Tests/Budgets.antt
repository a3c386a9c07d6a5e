-- ===== src/Tests/Budgets.antt =====
-- Runs of the admission budgets.
use entropy_service.Prelude.{◌≡◌, ◌≤◌, ◌<◌, ◌+◌, ◌↔◌, refl, true, false, List, [], ◌∷◌, arith}
use entropy_service.Prelude.Int.{◌≤ℤ◌, pos, ◌-ℤ◌}
use entropy_service.Prelude.Outcome.{ok}
use entropy_service.Budget.Defs.{Budget, release, grant, idle_budget}
use entropy_service.Budget.WebSocket.{ws_admit}
use entropy_service.Budget.Laws.{ws_admit-grants_iff}
use entropy_service.Budget.History.{
  Event, request, finish, IsExact, run, ws_admission, fresh_world, step, release_at,
  run-fresh_world-IsExact, ws_admit-drained,
}

-- Two admissions, a refusal for want of a connection, and a closure that is called twice.
abbrev busy : List Event
busy =
    request false (pos 70000)
    ∷ request false (pos 80000)
    ∷ request false (pos 1)
    ∷ finish 1
    ∷ finish 1
    ∷ []

abbrev quiet : List Event
quiet = request false (pos 70000) ∷ request true (pos 80000) ∷ finish 0 ∷ finish 0 ∷ []

abbrev small : Budget
small = idle_budget 2 1000000 128

run-fresh_world-IsExact_example : IsExact (run ws_admission (fresh_world 2 200000 128) busy)
run-fresh_world-IsExact_example = run-fresh_world-IsExact ws_admission 2 200000 128 busy

ws_admit-drained_example :
    ws_admit false (run ws_admission (fresh_world 1 200000 128) quiet).budget (pos 200000) ≡ (
      grant (run ws_admission (fresh_world 1 200000 128) quiet).budget 200000,
      ok (record { needed = 200000; released = false }),
    )
unfolding run step release_at release ws_admit ◌-ℤ◌
ws_admit-drained_example =
    ws_admit-drained 1 200000 128 200000 quiet refl (omega arith) (omega arith) (omega arith)

ws_admit-grants_iff_example :
    (ws_admit false small (pos 70000)
      ≡ (grant small 70000, ok (record { needed = 70000; released = false })))
    ↔ ((false ≡ false) × (pos 1 ≤ℤ pos 70000) × (0 < 2) × (0 + 70000 ≤ 1000000))
ws_admit-grants_iff_example = ws_admit-grants_iff false small (pos 70000)
