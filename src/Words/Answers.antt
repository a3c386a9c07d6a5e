-- ===== src/Words/Answers.antt =====
-- What the word routes leave behind, and what they answer.
use entropy_service.Prelude.{
  ℕ, ◌<◌, ◌≡◌, refl, Bool, true, false, Option, String, List, [], ◌∷◌, ◌++◌, arith,
}
use entropy_service.Prelude.Int.{ℤ, pos, negsuc, pos_part, ◌≤ℤ◌}
use entropy_service.Prelude.Outcome.{Outcome, ok, err}
use entropy_service.Budget.Defs.{Budget, Refusal, Ticket, release}
use entropy_service.Budget.Http.{http_reservation, http_admit}
use entropy_service.Budget.WebSocket.{ws_reservation, ws_admit}
use entropy_service.Budget.Settles.{SameUse, Settles, http_admit-Settles, ws_admit-Settles}
use entropy_service.Drbg.Cipher.{Cipher}
use entropy_service.Drbg.Generator.{Process, Drbg}
use entropy_service.Request.Query.{
  Query, QueryError, ClientPrefs, extract_prefs, extract_words_fields,
}
use entropy_service.Handler.Http.{Server}
use entropy_service.Handler.Socket.{Tick, done, at}
use entropy_service.Request.Bounds.{Within, extract_prefs_range, extract_words_fields_range}
use entropy_service.Words.Laws.{DrawsBelow, IsWordFrame, Frames, new_word_frame-Frames}
use entropy_service.Drbg.Connection.{new_reader}
use entropy_service.Words.Route.{
  Source, WordServing, WordReply, bad_words, words_refused, no_upgrade, generation_failed,
  words_served, page, read_source, paid, after_word_frame, serve_words, words_socket, words_of,
  ws_words_handler, read_root, page_of, page_admitted, page_for, random_words_handler,
}
use entropy_service.Words.Frame.{EntropyFrame, WordError, WordPackages, new_word_frame}

module _ {Block Stream : Type 0} (c : Cipher Block Stream) (w : WordPackages)
    (draws : DrawsBelow w) where
  -- Every frame that went out has so many words.
  abbrev pub AllFrames : ℕ → List EntropyFrame → Type 0
  AllFrames count [] = Unit {0}
  AllFrames count (frame ∷ frames) = IsWordFrame w count frame × AllFrames count frames

  AllFrames-append :
      (count : ℕ) (frames : List EntropyFrame) (frame : EntropyFrame)
      → AllFrames count frames
      → IsWordFrame w count frame
      → AllFrames count (frames ++ (frame ∷ []))
  AllFrames-append count [] frame h k = (k, tt)
  AllFrames-append count (f ∷ frames) frame (a, h) k = (a, AllFrames-append count frames frame h k)

  after_word_frame-AllFrames :
      (quantity : ℤ) (again : WordServing Stream → WordServing Stream) (written : Bool)
      (sent : List EntropyFrame) (now : ℕ) (before : Source Stream)
      (r : Source Stream × Outcome WordError EntropyFrame)
      → AllFrames (pos_part quantity) sent
      → Frames w (read_source c w now) draws quantity before r
      → ((s : WordServing Stream)
          → AllFrames (pos_part quantity) s.sent
          → AllFrames (pos_part quantity) (again s).sent)
      → AllFrames (pos_part quantity) (after_word_frame c w again written sent r).sent
  after_word_frame-AllFrames quantity again written sent now before (s, err e) h k keeps = h
  after_word_frame-AllFrames quantity again false sent now before (s, ok frame) h k keeps = h
  after_word_frame-AllFrames quantity again true sent now before (s, ok frame) h k keeps =
      keeps (record { source = paid c w s; sent = sent ++ (frame ∷ []) })
        (AllFrames-append (pos_part quantity) sent frame h k.1)

  serve_words-AllFrames :
      (quantity : ℤ) (ticks : List Tick) (s : WordServing Stream)
      → AllFrames (pos_part quantity) s.sent
      → AllFrames (pos_part quantity) (serve_words c w quantity ticks s).sent
  unfolding serve_words
  serve_words-AllFrames quantity [] s h = h
  serve_words-AllFrames quantity (done ∷ ticks) s h = h
  serve_words-AllFrames quantity (at now written ∷ ticks) s h =
      after_word_frame-AllFrames quantity (serve_words c w quantity ticks) written s.sent now
        s.source (new_word_frame w (read_source c w now) quantity s.source) h
        (new_word_frame-Frames w (read_source c w now) draws quantity s.source)
        (λ s' k. serve_words-AllFrames quantity ticks s' k)

  -- What a request for some number of words may be answered with.
  abbrev pub IsHonestWords : ℤ → WordReply → Type 0
  IsHonestWords most (words_served frames) =
      (count : ℕ) × (pos count ≤ℤ most) × (0 < count) × AllFrames count frames
  IsHonestWords most (page frame seconds) =
      (count : ℕ) × (pos count ≤ℤ most) × (0 < count) × IsWordFrame w count frame
  IsHonestWords most (bad_words e) = Unit {0}
  IsHonestWords most (words_refused r) = Unit {0}
  IsHonestWords most no_upgrade = Unit {0}
  IsHonestWords most generation_failed = Unit {0}

  -- What a route of each kind leaves of the server: its budget's use and the other budget, and its
  -- reply.
  abbrev pub LeavesWs : ℤ → Server Stream → Server Stream × WordReply → Type 0
  LeavesWs most s r = SameUse s.ws r.0.ws × (r.0.http ≡ s.http) × IsHonestWords most r.1

  abbrev pub LeavesHttp : ℤ → Server Stream → Server Stream × WordReply → Type 0
  LeavesHttp most s r = SameUse s.http r.0.http × (r.0.ws ≡ s.ws) × IsHonestWords most r.1

  abbrev FieldsFit : ℤ → Outcome QueryError (ℤ × ℤ) → Type 0
  FieldsFit most (err e) = Unit {0}
  FieldsFit most (ok (quantity, refresh)) = (pos 1 ≤ℤ quantity) × (quantity ≤ℤ most)

  fields-Fit :
      (most : ℤ) (q : Outcome QueryError (ℤ × ℤ))
      → ((fields : ℤ × ℤ) → q ≡ ok fields → (pos 1 ≤ℤ fields.0) × (fields.0 ≤ℤ most))
      → FieldsFit most q
  fields-Fit most (err e) h = tt
  fields-Fit most (ok (quantity, refresh)) h = h (quantity, refresh) refl

  abbrev WordsFit : ℤ → Outcome QueryError ClientPrefs → Type 0
  WordsFit most (err e) = Unit {0}
  WordsFit most (ok prefs) = prefs.words ≤ℤ most

  words-Fit :
      (most : ℤ) (q : Outcome QueryError ClientPrefs)
      → ((prefs : ClientPrefs) → q ≡ ok prefs → prefs.words ≤ℤ most)
      → WordsFit most q
  words-Fit most (err e) h = tt
  words-Fit most (ok prefs) h = h prefs refl

  words_socket-Leaves :
      (quantity most : ℤ) (ticks : List Tick) (upgrade : Bool) (s : Server Stream)
      (r : Budget × Outcome Refusal Ticket)
      → pos 1 ≤ℤ quantity
      → quantity ≤ℤ most
      → Settles s.ws r
      → LeavesWs most s (words_socket c w quantity ticks upgrade s r)
  words_socket-Leaves quantity most ticks upgrade s (b, err x) low high h = (h, refl, tt)
  words_socket-Leaves quantity most ticks false s (b, ok t) low high h = (h, refl, tt)
  words_socket-Leaves (negsuc n) most ticks true s (b, ok t) low high h =
      absurd (omega (arith, low))
  words_socket-Leaves (pos n) most ticks true s (b, ok t) low high h = (
    h,
    refl,
    (
      n,
      high,
      omega (arith, low),
      serve_words-AllFrames (pos n) ticks
          (record { source = (s.process, s.root, new_reader); sent = [] }) tt,
    ),
  )

  words_of-Leaves :
      (most : ℤ) (ticks : List Tick) (upgrade canceled : Bool) (s : Server Stream)
      (q : Outcome QueryError (ℤ × ℤ))
      → FieldsFit most q
      → LeavesWs most s (words_of c w ticks upgrade canceled s q)
  words_of-Leaves most ticks upgrade canceled s (err e) h = (ground arith, refl, tt)
  words_of-Leaves most ticks upgrade canceled s (ok (quantity, refresh)) (low, high) =
      words_socket-Leaves quantity most ticks upgrade s
        (ws_admit canceled s.ws (pos (ws_reservation quantity s.ws.word_memory))) low high
        (ws_admit-Settles canceled s.ws (pos (ws_reservation quantity s.ws.word_memory)))

  page_of-Leaves :
      (most : ℤ) (refresh_ms : ℕ) (s s' : Server Stream) (t : Ticket) (quantity : ℤ)
      (before : Process × Drbg Stream)
      (r : (Process × Drbg Stream) × Outcome WordError EntropyFrame)
      → quantity ≤ℤ most
      → SameUse s.http (release s'.http t).0
      → s'.ws ≡ s.ws
      → Frames w (read_root c w) draws quantity before r
      → LeavesHttp most s (page_of c w refresh_ms s' t r)
  page_of-Leaves most refresh_ms s s' t quantity before ((p, d), err e) high h k f = (h, k, tt)
  page_of-Leaves most refresh_ms s s' t (pos n) before ((p, d), ok frame) high h k (low, f) =
      (h, k, (n, high, omega (arith, low), f))
  page_of-Leaves most refresh_ms s s' t (negsuc n) before ((p, d), ok frame) high h k (low, f) =
      absurd (omega (arith, low))

  page_admitted-Leaves :
      (most quantity : ℤ) (refresh_ms : ℕ) (s : Server Stream) (r : Budget × Outcome Refusal Ticket)
      → quantity ≤ℤ most
      → Settles s.http r
      → LeavesHttp most s (page_admitted c w quantity refresh_ms s r)
  page_admitted-Leaves most quantity refresh_ms s (b, err x) high h = (h, refl, tt)
  page_admitted-Leaves most quantity refresh_ms s (b, ok t) high h =
      page_of-Leaves most refresh_ms s (record s { http = b }) t quantity (s.process, s.root)
        (new_word_frame w (read_root c w) quantity (s.process, s.root)) high h refl
        (new_word_frame-Frames w (read_root c w) draws quantity (s.process, s.root))

  page_for-Leaves :
      (most : ℤ) (refresh_ms : ℕ) (canceled : Bool) (s : Server Stream)
      (q : Outcome QueryError ClientPrefs)
      → WordsFit most q
      → LeavesHttp most s (page_for c w refresh_ms canceled s q)
  page_for-Leaves most refresh_ms canceled s (err e) h = (ground arith, refl, tt)
  page_for-Leaves most refresh_ms canceled s (ok prefs) high =
      page_admitted-Leaves most prefs.words refresh_ms s
        (http_admit canceled s.http (pos (http_reservation prefs.words (pos s.http.word_memory))))
        high
        (http_admit-Settles canceled s.http
          (pos (http_reservation prefs.words (pos s.http.word_memory))))

  -- If the numbers that are drawn lie below their limit, the maximum of words is at least 1 and the
  -- default interval is from 1 to 60000 ms: however a WebSocket of words is refused, fails to
  -- upgrade, is served or ends, its admission and memory are given back and the HTTP budget is left
  -- alone; and every frame that is served holds one and the same number of words, from 1 to the
  -- maximum, each of them in the dictionary, with the digest of the phrase.
  pub ws_words_handler-Leaves :
      (atoi : String → Option ℤ) (query : Query) (max_words default_refresh : ℤ)
      (canceled upgrade : Bool) (ticks : List Tick) (s : Server Stream)
      → pos 1 ≤ℤ max_words
      → Within (pos 1) (pos 60000) default_refresh
      → LeavesWs max_words s
          (ws_words_handler c w atoi query max_words default_refresh canceled upgrade ticks s)
  unfolding ws_words_handler
  ws_words_handler-Leaves atoi query max_words default_refresh canceled upgrade ticks s h k =
      words_of-Leaves max_words ticks upgrade canceled s
        (extract_words_fields atoi query max_words default_refresh)
        (fields-Fit max_words (extract_words_fields atoi query max_words default_refresh)
          (λ fields e.
            let range = extract_words_fields_range atoi query max_words default_refresh h k e in
            range.0))

  -- If the numbers that are drawn lie below their limit and both maxima are at least 1: whatever
  -- the request asks, the page of words gives back the admission and the memory that it took and
  -- leaves the WebSocket budget alone, and a page that is sent holds from 1 to the maximum of
  -- words, each of them in the dictionary, with the digest of the phrase.
  pub random_words_handler-Leaves :
      (atoi : String → Option ℤ) (query : Query) (max_words : ℤ) (refresh_ms : ℕ) (max_bytes : ℤ)
      (has_cookie : Bool) (cookie : Option ClientPrefs) (canceled : Bool) (s : Server Stream)
      → pos 1 ≤ℤ max_bytes
      → pos 1 ≤ℤ max_words
      → LeavesHttp max_words s (
          random_words_handler c w atoi query max_words refresh_ms max_bytes has_cookie cookie
            canceled s)
  unfolding random_words_handler
  random_words_handler-Leaves atoi query max_words refresh_ms max_bytes has_cookie cookie canceled s
        h k =
      page_for-Leaves max_words refresh_ms canceled s
        (extract_prefs atoi query max_bytes max_words has_cookie cookie)
        (words-Fit max_words (extract_prefs atoi query max_bytes max_words has_cookie cookie)
          (λ prefs e.
            let range =
              extract_prefs_range atoi query max_bytes max_words has_cookie cookie h k e in
            range.1.1))
