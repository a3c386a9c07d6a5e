-- ===== src/Tests/Words.antt =====
-- The word routes and the upload route, at small values.
use entropy_service.Prelude.{true, false, none, some, String, List, [], ◌∷◌, arith}
use entropy_service.Prelude.Int.{pos}
use entropy_service.Prelude.Outcome.{ok}
use entropy_service.Budget.Defs.{Budget, idle_budget}
use entropy_service.Request.Query.{Query}
use entropy_service.Handler.Socket.{at}
use entropy_service.Upload.Analyze.{Pass, more, eof}
use entropy_service.Upload.Route.{upload_handler}
use entropy_service.Upload.Answers.{Answers, upload_handler-Answers}
use entropy_service.Words.Frame.{WordPackages}
use entropy_service.Words.Route.{ws_words_handler, random_words_handler}
use entropy_service.Words.Laws.{DrawsBelow}
use entropy_service.Words.Answers.{
  LeavesWs, LeavesHttp, ws_words_handler-Leaves, random_words_handler-Leaves,
}
use entropy_service.Tests.Samples.{plain_cipher, server, small_atoi}

-- A dictionary of two words, of which the first is always drawn.
abbrev two_words : WordPackages
two_words = record {
  dictionary = "acid" ∷ "bolt" ∷ [];
  rand_int = λ read limit s. (s, ok 0);
  join = λ words separator. "phrase";
  sha256_hex = λ phrase. "digest";
}

two_words-DrawsBelow : DrawsBelow two_words
two_words-DrawsBelow = λ S read limit s h. h

abbrev query : Query
query = ("words", "3" ∷ []) ∷ []

ws_words_handler-Leaves_example :
    LeavesWs plain_cipher two_words two_words-DrawsBelow (pos 5) server (
      ws_words_handler plain_cipher two_words small_atoi query
        (pos 5)
        (pos 500)
        false
        true
        (at 6 true ∷ at 7 false ∷ [])
        server)
ws_words_handler-Leaves_example =
    ws_words_handler-Leaves plain_cipher two_words two_words-DrawsBelow small_atoi query (pos 5)
      (pos 500) false true (at 6 true ∷ at 7 false ∷ []) server (omega arith)
      (omega arith, omega arith)

random_words_handler-Leaves_example :
    LeavesHttp plain_cipher two_words two_words-DrawsBelow (pos 5) server (
      random_words_handler plain_cipher two_words small_atoi query
        (pos 5)
        1500
        (pos 100)
        false
        none
        false
        server)
random_words_handler-Leaves_example =
    random_words_handler-Leaves plain_cipher two_words two_words-DrawsBelow small_atoi query (pos 5)
      1500 (pos 100) false none false server (omega arith) (omega arith)

abbrev two_chunks : List (Pass String)
two_chunks =
    record { context = none; chunk = 1 ∷ 2 ∷ []; end = more }
    ∷ record { context = none; chunk = 3 ∷ []; end = eof }
    ∷ []

abbrev uploads : Budget
uploads = idle_budget 2 1000000 128

upload_handler-Answers_example :
    Answers
      (λ xs. xs)
      (λ e. false)
      (pos 2)
      "POST"
      (some "application/octet-stream")
      (pos 3)
      two_chunks
      uploads
      (upload_handler
        (λ xs. xs)
        (λ e. false)
        (pos 2)
        "POST"
        (some "application/octet-stream")
        (pos 3)
        false
        two_chunks
        false
        uploads)
upload_handler-Answers_example =
    upload_handler-Answers (λ xs. xs) (λ e. false) (pos 2) "POST" (some "application/octet-stream")
      (pos 3) two_chunks false false uploads
