-- ===== src/Words/Route.antt =====
-- `wsWordsHandler` and `randomWordsHandler`. Ticks, the upgrade and the writes are those of the byte
-- routes. The cookie that is set is left out, and so is the page around its three values.
use entropy_service.Prelude.{
  ℕ, ◌+◌, ◌/◌, ◌%◌, ◌==◌, Bool, true, false, Option, String, List, [], ◌∷◌, ◌++◌, if◌then◌else◌,
}
use entropy_service.Prelude.Int.{ℤ, pos}
use entropy_service.Prelude.Outcome.{Outcome, ok, err}
use entropy_service.Metrics.{add_ws_payloads}
use entropy_service.Budget.Defs.{Budget, Refusal, Ticket, release}
use entropy_service.Budget.Http.{http_reservation, http_admit}
use entropy_service.Budget.WebSocket.{ws_reservation, ws_admit}
use entropy_service.Drbg.Algorithm.{Error}
use entropy_service.Drbg.Cipher.{Cipher}
use entropy_service.Drbg.Generator.{Process, Drbg, read}
use entropy_service.Drbg.Connection.{Reader, new_reader, read_connection, close_reader}
use entropy_service.Request.Query.{
  Query, QueryError, ClientPrefs, extract_prefs, extract_words_fields,
}
use entropy_service.Handler.Http.{Server}
use entropy_service.Handler.Socket.{Tick, done, at}
use entropy_service.Words.Frame.{EntropyFrame, WordError, WordPackages, new_word_frame}

-- What a reader of a connection reads from, and what a socket of words has sent.
abbrev pub Source : Type 0 → Type 0
Source Stream = Process × Drbg Stream × Reader Stream

pub record WordServing (Stream : Type 0) : Type 0 where
  pub source : Source Stream
  pub sent : List EntropyFrame

pub data WordReply : Type 0 where
  bad_words : QueryError → WordReply
  words_refused : Refusal → WordReply
  no_upgrade generation_failed : WordReply
  words_served : List EntropyFrame → WordReply
  page : EntropyFrame → ℕ → WordReply

module _ {Block Stream : Type 0} (c : Cipher Block Stream) (w : WordPackages) where
  abbrev pub regroup :
      Process × Drbg Stream × Reader Stream × Outcome Error (List ℕ)
      → Source Stream × Outcome Error (List ℕ)
  regroup (p, d, r, out) = ((p, d, r), out)

  -- `ConnectionReader.Read`, at a time.
  abbrev pub read_source : ℕ → ℕ → Source Stream → Source Stream × Outcome Error (List ℕ)
  read_source now n (p, d, r) = regroup (read_connection c now n p d r)

  -- `metrics.AddWSPayloads(1)`.
  abbrev pub paid : Source Stream → Source Stream
  paid (p, d, r) = (record p { metrics = add_ws_payloads (pos 1) p.metrics }, d, r)

  abbrev pub after_word_frame :
      (WordServing Stream → WordServing Stream)
      → Bool
      → List EntropyFrame
      → Source Stream × Outcome WordError EntropyFrame
      → WordServing Stream
  after_word_frame again written sent (s, err e) = record { source = s; sent = sent }
  after_word_frame again false sent (s, ok frame) = record { source = s; sent = sent }
  after_word_frame again true sent (s, ok frame) =
      again (record { source = paid s; sent = sent ++ (frame ∷ []) })

  -- The loop over the ticks.
  unfoldable pub serve_words : ℤ → List Tick → WordServing Stream → WordServing Stream
  serve_words quantity [] s = s
  serve_words quantity (done ∷ ticks) s = s
  serve_words quantity (at now written ∷ ticks) s =
      after_word_frame (serve_words quantity ticks) written s.sent
        (new_word_frame w (read_source now) quantity s.source)

  -- The deferred calls: the reader is closed, then the admission released.
  abbrev pub leave_words : Server Stream → Ticket → WordServing Stream → Server Stream × WordReply
  leave_words server t s = (
    record server {
      process = (close_reader s.source.0 s.source.2).0;
      root = s.source.1;
      ws = (release server.ws t).0;
    },
    words_served s.sent,
  )

  abbrev pub words_upgraded :
      ℤ → List Tick → Bool → Server Stream → Ticket → Server Stream × WordReply
  words_upgraded quantity ticks false server t =
      (record server { ws = (release server.ws t).0 }, no_upgrade)
  words_upgraded quantity ticks true server t = leave_words server t (
      serve_words quantity ticks
        (record { source = (server.process, server.root, new_reader); sent = [] }))

  abbrev pub words_socket :
      ℤ
      → List Tick
      → Bool
      → Server Stream
      → Budget × Outcome Refusal Ticket
      → Server Stream × WordReply
  words_socket quantity ticks upgrade server (b, err r) =
      (record server { ws = b }, words_refused r)
  words_socket quantity ticks upgrade server (b, ok t) =
      words_upgraded quantity ticks upgrade (record server { ws = b }) t

  abbrev pub words_of :
      List Tick
      → Bool
      → Bool
      → Server Stream
      → Outcome QueryError (ℤ × ℤ)
      → Server Stream × WordReply
  words_of ticks upgrade canceled server (err e) = (server, bad_words e)
  words_of ticks upgrade canceled server (ok (quantity, refresh)) =
      words_socket quantity ticks upgrade server
        (ws_admit canceled server.ws (pos (ws_reservation quantity server.ws.word_memory)))

  unfoldable pub ws_words_handler :
      (String → Option ℤ)
      → Query
      → ℤ
      → ℤ
      → Bool
      → Bool
      → List Tick
      → Server Stream
      → Server Stream × WordReply
  ws_words_handler atoi query max_words default_refresh canceled upgrade ticks server =
      words_of ticks upgrade canceled server
        (extract_words_fields atoi query max_words default_refresh)

  -- Milliseconds to whole seconds, rounded up.
  abbrev pub refresh_seconds : ℕ → ℕ
  refresh_seconds refresh_ms =
      if refresh_ms % 1000 == 0 then refresh_ms / 1000 else refresh_ms / 1000 + 1

  abbrev pub regroup_root :
      Process × Drbg Stream × Outcome Error (List ℕ)
      → (Process × Drbg Stream) × Outcome Error (List ℕ)
  regroup_root (p, d, out) = ((p, d), out)

  abbrev pub read_root :
      ℕ → Process × Drbg Stream → (Process × Drbg Stream) × Outcome Error (List ℕ)
  read_root n (p, d) = regroup_root (read c p n d)

  abbrev pub page_of :
      ℕ
      → Server Stream
      → Ticket
      → (Process × Drbg Stream) × Outcome WordError EntropyFrame
      → Server Stream × WordReply
  page_of refresh_ms server t ((p, d), err e) =
      (record server { process = p; root = d; http = (release server.http t).0 }, generation_failed)
  page_of refresh_ms server t ((p, d), ok frame) = (
    record server { process = p; root = d; http = (release server.http t).0 },
    page frame (refresh_seconds refresh_ms),
  )

  abbrev pub page_admitted :
      ℤ → ℕ → Server Stream → Budget × Outcome Refusal Ticket → Server Stream × WordReply
  page_admitted quantity refresh_ms server (b, err r) =
      (record server { http = b }, words_refused r)
  page_admitted quantity refresh_ms server (b, ok t) =
      page_of refresh_ms (record server { http = b }) t
        (new_word_frame w read_root quantity (server.process, server.root))

  abbrev pub page_for :
      ℕ → Bool → Server Stream → Outcome QueryError ClientPrefs → Server Stream × WordReply
  page_for refresh_ms canceled server (err e) = (server, bad_words e)
  page_for refresh_ms canceled server (ok prefs) = page_admitted prefs.words refresh_ms server (
      http_admit canceled server.http
        (pos (http_reservation prefs.words (pos server.http.word_memory))))

  unfoldable pub random_words_handler :
      (String → Option ℤ)
      → Query
      → ℤ
      → ℕ
      → ℤ
      → Bool
      → Option ClientPrefs
      → Bool
      → Server Stream
      → Server Stream × WordReply
  random_words_handler atoi query quantity refresh_ms max_bytes has_cookie cookie canceled server =
      page_for refresh_ms canceled server
        (extract_prefs atoi query max_bytes quantity has_cookie cookie)
