-- ===== src/Client/Transport/Socket.antt =====
-- `TestEntropyWS`, over what its loop meets: the context done, a message that fails while the context
-- may be canceled, a message that is not binary, or a binary one. Printing a report keeps its tester.
use entropy_service.Prelude.{
  ℕ, ◌-◌, ◌+◌, ◌%◌, Bool, true, false, String, List, [], ◌∷◌, leb, if◌then◌else◌,
}
use entropy_service.Prelude.Word.{u64_mod}
use entropy_service.Client.Stats.Tester.{Tester, new_tester, add}

pub data SocketEvent : Type 0 where
  context_done other_message : SocketEvent
  message_failed : Bool → String → SocketEvent
  binary_message : List ℕ → SocketEvent

-- How the test ended; `still_open` is a loop whose events have not ended it.
pub data TestEnd : Type 0 where
  test_canceled still_open : TestEnd
  test_failed : String → TestEnd

pub record SocketTest : Type 0 where
  pub tester : Tester
  pub reports : List Tester
  pub end : TestEnd

abbrev pub report_interval : ℕ
report_interval = 1048576

abbrev pub test_ended : Tester → TestEnd → SocketTest
test_ended t end = record { tester = t; reports = []; end = end }

abbrev pub test_reported : Tester → SocketTest → SocketTest
test_reported t rest = record rest { reports = t ∷ rest.reports }

-- The tail of a round: a report is due each time another interval has come in.
abbrev pub after_add : (ℕ → Tester → SocketTest) → ℕ → Tester → SocketTest
after_add again last_report t =
    if leb report_interval ((u64_mod + t.total - last_report) % u64_mod)
    then test_reported t (again t.total t)
    else again last_report t

unfoldable pub test_loop : List SocketEvent → ℕ → Tester → SocketTest
unfolding add
test_loop [] last_report t = test_ended t still_open
test_loop (context_done ∷ events) last_report t = test_ended t test_canceled
test_loop (message_failed true e ∷ events) last_report t = test_ended t test_canceled
test_loop (message_failed false e ∷ events) last_report t = test_ended t (test_failed e)
test_loop (other_message ∷ events) last_report t = test_loop events last_report t
test_loop (binary_message bytes ∷ events) last_report t =
    after_add (test_loop events) last_report (add bytes t)

-- `TestEntropyWS`, once connected.
unfoldable pub test_entropy_ws : List SocketEvent → SocketTest
unfolding test_loop
test_entropy_ws events = test_loop events 0 new_tester
