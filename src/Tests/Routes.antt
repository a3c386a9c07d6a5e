-- ===== src/Tests/Routes.antt =====
-- Runs of the byte routes.
use entropy_service.Prelude.{true, false, none, List, [], ◌∷◌}
use entropy_service.Prelude.Int.{pos}
use entropy_service.Request.Query.{Query}
use entropy_service.Handler.Http.{Piece, random_bytes_handler}
use entropy_service.Handler.Socket.{done, at, ws_binary_handler}
use entropy_service.Handler.Laws.{
  Leaves, Frees, random_bytes_handler-Leaves, ws_binary_handler-Frees,
}
use entropy_service.Tests.Samples.{plain_cipher, plain_cipher-Documented, server, small_atoi}

abbrev asks : Query
asks = ("bytes", "16" ∷ []) ∷ []

-- Ten bytes, then the rest.
abbrev pieces : List Piece
pieces =
    record { canceled = false; size = 10; written = true }
    ∷ record { canceled = false; size = 10; written = true }
    ∷ []

random_bytes_handler-Leaves_example : Leaves plain_cipher plain_cipher-Documented server (
    random_bytes_handler plain_cipher small_atoi asks
      (pos 1000)
      (pos 20)
      false
      none
      false
      3
      pieces
      server)
random_bytes_handler-Leaves_example =
    random_bytes_handler-Leaves plain_cipher plain_cipher-Documented small_atoi asks (pos 1000)
      (pos 20) false none false 3 pieces server

-- Two frames, the second of which fails to be written.
ws_binary_handler-Frees_example : Frees plain_cipher server (
    ws_binary_handler plain_cipher small_atoi asks
      (pos 64)
      (pos 1000)
      false
      true
      (at 4 true ∷ at 5 false ∷ done ∷ [])
      server)
ws_binary_handler-Frees_example =
    ws_binary_handler-Frees plain_cipher small_atoi asks (pos 64) (pos 1000) false true
      (at 4 true ∷ at 5 false ∷ done ∷ []) server
