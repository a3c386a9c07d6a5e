-- ===== src/Handler/Socket.antt =====
-- `wsBytesHandler` and `wsBinaryHandler`: an admitted WebSocket is served from a private
-- generator until its context is done or something fails. A tick of the ticker is an event; the
-- upgrade and the writes of the websocket package succeed or fail as they like. Encoding a frame
-- is `writeByteFrame`.
use entropy_service.Prelude.{ℕ, Bool, true, false, Option, String, List, [], ◌∷◌, ◌++◌}
use entropy_service.Prelude.Int.{ℤ, pos, pos_part}
use entropy_service.Prelude.Outcome.{Outcome, ok, err}
use entropy_service.Metrics.{add_ws_payloads}
use entropy_service.Budget.Defs.{Budget, Refusal, Ticket, release}
use entropy_service.Budget.WebSocket.{ws_byte_reservation, ws_admit}
use entropy_service.Drbg.Algorithm.{Error}
use entropy_service.Drbg.Cipher.{Cipher}
use entropy_service.Drbg.Generator.{Process, Drbg}
use entropy_service.Drbg.Connection.{Reader, new_reader, read_connection, close_reader}
use entropy_service.Request.Query.{
  Query, QueryError, ByteFrameFormat, json, compact, hash, extract_byte_count,
  parse_byte_frame_format,
}
use entropy_service.Handler.Http.{Server}

-- One round of the loop: the context is done, or a tick at a time with a write that may fail.
pub data Tick : Type 0 where
  done : Tick
  at : ℕ → Bool → Tick

-- A connection being served: the process, the parent, its reader and the payloads that went out.
pub record Serving (Stream : Type 0) : Type 0 where
  pub process : Process
  pub parent : Drbg Stream
  pub reader : Reader Stream
  pub sent : List (List ℕ)

pub data SocketReply : Type 0 where
  bad_query : QueryError → SocketReply
  refused : Refusal → SocketReply
  upgrade_failed : SocketReply
  served : List (List ℕ) → SocketReply

module _ {Block Stream : Type 0} (c : Cipher Block Stream) where
  -- The payload is written and counted, or the handler returns.
  abbrev pub after_frame :
      (Serving Stream → Serving Stream)
      → Bool
      → List (List ℕ)
      → Process × Drbg Stream × Reader Stream × Outcome Error (List ℕ)
      → Serving Stream
  after_frame again written sent (p, d, r, err e) = record {
    process = p;
    parent = d;
    reader = r;
    sent = sent;
  }
  after_frame again false sent (p, d, r, ok bytes) = record {
    process = p;
    parent = d;
    reader = r;
    sent = sent;
  }
  after_frame again true sent (p, d, r, ok bytes) = again (record {
    process = record p { metrics = add_ws_payloads (pos 1) p.metrics };
    parent = d;
    reader = r;
    sent = sent ++ (bytes ∷ []);
  })

  -- The loop over the ticks, for frames of n bytes.
  unfoldable pub serve : ℕ → List Tick → Serving Stream → Serving Stream
  serve n [] s = s
  serve n (done ∷ ticks) s = s
  serve n (at now written ∷ ticks) s =
      after_frame (serve n ticks) written s.sent
        (read_connection c now n s.process s.parent s.reader)

  -- The deferred calls, in their order: the reader is closed, then the admission released.
  abbrev pub leave : Server Stream → Ticket → Serving Stream → Server Stream × SocketReply
  leave server t s = (
    record server {
      process = (close_reader s.process s.reader).0;
      root = s.parent;
      ws = (release server.ws t).0;
    },
    served s.sent,
  )

  abbrev pub start : Server Stream → Serving Stream
  start server = record {
    process = server.process;
    parent = server.root;
    reader = new_reader;
    sent = [];
  }

  abbrev pub upgraded : ℕ → List Tick → Bool → Server Stream → Ticket → Server Stream × SocketReply
  upgraded n ticks false server t = (record server { ws = (release server.ws t).0 }, upgrade_failed)
  upgraded n ticks true server t = leave server t (serve n ticks (start server))

  abbrev pub socket :
      ℕ
      → List Tick
      → Bool
      → Server Stream
      → Budget × Outcome Refusal Ticket
      → Server Stream × SocketReply
  socket n ticks upgrade server (b, err r) = (record server { ws = b }, refused r)
  socket n ticks upgrade server (b, ok t) = upgraded n ticks upgrade (record server { ws = b }) t

  abbrev pub is_json : ByteFrameFormat → Bool
  is_json json = true
  is_json compact = false
  is_json hash = false

  abbrev pub socket_of :
      Bool
      → List Tick
      → Bool
      → Bool
      → Server Stream
      → Outcome QueryError ℤ
      → Server Stream × SocketReply
  socket_of json_frame ticks upgrade canceled server (err e) = (server, bad_query e)
  socket_of json_frame ticks upgrade canceled server (ok n) =
      socket (pos_part n) ticks upgrade server
        (ws_admit canceled server.ws (pos (ws_byte_reservation n json_frame)))

  abbrev pub with_format :
      (ByteFrameFormat → Server Stream × SocketReply)
      → Server Stream
      → Outcome QueryError ByteFrameFormat
      → Server Stream × SocketReply
  with_format next server (err e) = (server, bad_query e)
  with_format next server (ok format) = next format

  -- `wsBinaryHandler`.
  unfoldable pub ws_binary_handler :
      (String → Option ℤ)
      → Query
      → ℤ
      → ℤ
      → Bool
      → Bool
      → List Tick
      → Server Stream
      → Server Stream × SocketReply
  ws_binary_handler atoi query default_quantity max_bytes canceled upgrade ticks server =
      socket_of false ticks upgrade canceled server
        (extract_byte_count atoi query default_quantity max_bytes)

  -- `wsBytesHandler`.
  unfoldable pub ws_bytes_handler :
      (String → Option ℤ)
      → Query
      → ℤ
      → Bool
      → Bool
      → List Tick
      → Server Stream
      → Server Stream × SocketReply
  ws_bytes_handler atoi query max_bytes canceled upgrade ticks server =
      with_format
        (λ format.
          socket_of (is_json format) ticks upgrade canceled server
            (extract_byte_count atoi query (pos 2048) max_bytes))
        server (parse_byte_frame_format query)
