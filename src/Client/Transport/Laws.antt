-- ===== src/Client/Transport/Laws.antt =====
-- What a fetch accepts, and what the test of a socket covers.
use entropy_service.Prelude.{
  ◌-◌, ◌%◌, ℕ, ◌+◌, ◌%◌, ◌≤◌, ◌<◌, ◌||◌, ◌≡◌, refl, Bool, true, false, Bool-cases, inl, inr, Option,
  none, some, String, List, [], ◌∷◌, ◌++◌, arith, length, length-take, take, lt→ltb, leb→le, ltb,
  leb, if◌then◌else◌,
}
use entropy_service.Prelude.Int.{pos, ltb_ℤ}
use entropy_service.Prelude.Word.{u64_mod}
use entropy_service.Prelude.Outcome.{Outcome, ok, err}
use entropy_service.Client.Frames.Lease.{max_entropy_bytes}
use entropy_service.Client.Stats.Tester.{Tester, new_tester, add}
use entropy_service.Client.Stats.Laws.{add-append}
use entropy_service.Client.Transport.Fetch.{
  Response, FetchError, entropy_too_large, ClientCounts, at_end, read_limited, after_body,
  fetch_entropy,
}
use entropy_service.Client.Transport.Socket.{
  SocketEvent, context_done, other_message, message_failed, binary_message, SocketTest,
  report_interval, after_add, test_loop, test_entropy_ws,
}

cut_off :
    (most : ℕ) (bytes : List ℕ)
    → leb (most + 1) (length bytes) ≡ true
    → ltb most (length (take (most + 1) bytes)) ≡ true
cut_off most bytes e =
    lt→ltb most (length (take (most + 1) bytes))
      (omega (arith, leb→le (most + 1) (length bytes) e, length-take (most + 1) bytes))

not_more : (m n : ℕ) → n ≤ m → ltb m n ≡ false
not_more m n h = ground (arith, h)

module _ {F : Type 0} (zero_rate : F) (bits_per_second : ℕ → ℕ → F) where
  -- What a fetch gives: all the bytes of a successful response, which are counted, or an error, and
  -- nothing is counted.
  abbrev pub Fetches :
      Option String
      → Outcome String Response
      → ClientCounts F
      → ClientCounts F × Outcome FetchError (List ℕ)
      → Type 0
  Fetches request response s (s', err e) = s' ≡ s
  Fetches request response s (s', ok bytes) =
      (request ≡ none)
      × ((r : Response) × (response ≡ ok r)
          × (200 ≤ r.status)
          × (r.status < 300)
          × (bytes ≡ r.body.bytes)
          × (r.body.failure ≡ none)
          × (length bytes ≤ max_entropy_bytes))
      × (s'.received ≡ (s.received + length bytes) % u64_mod)

  after_end-Fetches :
      (now : ℕ) (s : ClientCounts F) (r : Response) (failure : Option String)
      → r.body.failure ≡ failure
      → 200 ≤ r.status
      → r.status < 300
      → length r.body.bytes ≤ max_entropy_bytes
      → Fetches none
          (ok r)
          s
          (after_body zero_rate bits_per_second now s (at_end r.body.bytes failure))
  after_end-Fetches now s r (some e) f low high small = refl
  after_end-Fetches now s r none f low high small =
      rw (not_more max_entropy_bytes (length r.body.bytes) small)
        (refl, (r, refl, low, high, refl, f, small), refl)

  after_body-Fetches :
      (now : ℕ) (s : ClientCounts F) (r : Response)
      → 200 ≤ r.status
      → r.status < 300
      → Fetches none
          (ok r)
          s
          (after_body zero_rate bits_per_second now s (read_limited (max_entropy_bytes + 1) r.body))
  unfolding read_limited
  after_body-Fetches now s r low high =
      elim (Bool-cases (leb (max_entropy_bytes + 1) (length r.body.bytes))) [
        | inl e ↦ rw e (rw (cut_off max_entropy_bytes r.body.bytes e) refl)
        | inr e ↦ rw e (after_end-Fetches now s r r.body.failure refl low high (ground (arith, e)))
      ]

  declared-Fetches :
      (now : ℕ) (s : ClientCounts F) (r : Response)
      → 200 ≤ r.status
      → r.status < 300
      → (declared_more : Bool) → ltb_ℤ (pos max_entropy_bytes) r.content_length ≡ declared_more
      → Fetches none (ok r) s (
          if declared_more
          then (s, err entropy_too_large)
          else after_body zero_rate bits_per_second now s
              (read_limited (max_entropy_bytes + 1) r.body))
  declared-Fetches now s r low high true e = refl
  declared-Fetches now s r low high false e = after_body-Fetches now s r low high

  -- A fetch gives bytes only of a response with a status from 200 to 299 whose body ended without
  -- an error within 32 MiB, and then they are all of its bytes and are counted, up to 2 ^ 64;
  -- otherwise it gives an error and counts nothing. A body is never cut short.
  pub fetch_entropy-Fetches :
      (request : Option String) (response : Outcome String Response) (now : ℕ) (s : ClientCounts F)
      → Fetches request response s (fetch_entropy zero_rate bits_per_second request response now s)
  unfolding fetch_entropy
  fetch_entropy-Fetches (some e) response now s = refl
  fetch_entropy-Fetches none (err e) now s = refl
  fetch_entropy-Fetches none (ok r) now s =
      elim (Bool-cases (ltb r.status 200 || leb 300 r.status)) [
        | inl e ↦ rw e refl
        | inr e ↦ rw e (
            declared-Fetches now s r (ground (arith, e)) (ground (arith, e))
              (ltb_ℤ (pos max_entropy_bytes) r.content_length) refl)
      ]

-- The binary messages that the test of a socket reads, as one list of bytes.
pub binary_of : List SocketEvent → List ℕ
binary_of [] = []
binary_of (context_done ∷ events) = []
binary_of (message_failed canceled e ∷ events) = []
binary_of (other_message ∷ events) = binary_of events
binary_of (binary_message bytes ∷ events) = bytes ++ binary_of events

-- Each report comes at least an interval of bytes after the one before it, by counts that wrap
-- around at 2 ^ 64.
abbrev pub Reported : ℕ → List Tester → Type 0
Reported last [] = Unit {0}
Reported last (t ∷ reports) =
    (report_interval ≤ (u64_mod + t.total - last) % u64_mod) × Reported t.total reports

-- The test of a socket: its tester and its reports.
abbrev pub Covers : ℕ → List ℕ → Tester → SocketTest → Type 0
Covers last bytes t out = (out.tester ≡ add bytes t) × Reported last out.reports

add-nil : (t : Tester) → t ≡ add [] t
unfolding add
add-nil t = refl

after_add-Covers :
    (again : ℕ → Tester → SocketTest) (last : ℕ) (bytes : List ℕ) (t : Tester)
    → ((last : ℕ) → Covers last bytes t (again last t))
    → Covers last bytes t (after_add again last t)
after_add-Covers again last bytes t h = ground (arith, h last, h t.total)

test_loop-Covers :
    (events : List SocketEvent) (last : ℕ) (t : Tester)
    → Covers last (binary_of events) t (test_loop events last t)
unfolding test_loop binary_of
test_loop-Covers [] last t = (add-nil t, tt)
test_loop-Covers (context_done ∷ events) last t = (add-nil t, tt)
test_loop-Covers (message_failed true e ∷ events) last t = (add-nil t, tt)
test_loop-Covers (message_failed false e ∷ events) last t = (add-nil t, tt)
test_loop-Covers (other_message ∷ events) last t = test_loop-Covers events last t
test_loop-Covers (binary_message bytes ∷ events) last t =
    rw (← add-append bytes (binary_of events) t) (
      after_add-Covers (test_loop events) last (binary_of events) (add bytes t)
        (λ last'. test_loop-Covers events last' (add bytes t)))

-- However the events come, the tester of a socket's test is that of the binary messages up to its
-- end, however they are cut into messages, and each report comes at least 2 ^ 20 bytes after the
-- one before it.
pub test_entropy_ws-Covers :
    (events : List SocketEvent)
    → ((test_entropy_ws events).tester ≡ add (binary_of events) new_tester)
      × Reported 0 (test_entropy_ws events).reports
unfolding test_entropy_ws
test_entropy_ws-Covers events = test_loop-Covers events 0 new_tester
