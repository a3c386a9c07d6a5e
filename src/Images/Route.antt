-- ===== src/Images/Route.antt =====
-- `entropyHeatmapHandler`, `randomImageHandler` and `qrHandler`, behind the HTTP budget's `wrap` as
-- `main` registers them. Both images are 1024 pixels wide and high there; the size is an argument.
-- Encoding a PNG, a QR code or hexadecimal is a package's, and its headers are left out.
use entropy_service.Prelude.{ℕ, ◌*◌, Bool, Option, none, some, String, List}
use entropy_service.Prelude.Int.{pos}
use entropy_service.Prelude.Outcome.{Outcome, ok, err}
use entropy_service.Budget.Defs.{Budget, Refusal}
use entropy_service.Budget.Http.{wrap}
use entropy_service.Drbg.Algorithm.{Error}
use entropy_service.Drbg.Cipher.{Cipher}
use entropy_service.Drbg.Generator.{Process, Drbg, read}
use entropy_service.Handler.Http.{Server}
use entropy_service.Images.Pixels.{heat_pixels, opaque_pixels}

pub data ImageReply : Type 0 where
  image_failed : Error → ImageReply
  pixels : List ℕ → ImageReply
  qr_failed : ImageReply
  qr : List ℕ → ImageReply

abbrev pub image_memory : ℕ
image_memory = 16777216

abbrev pub qr_memory : ℕ
qr_memory = 4194304

module _ {Block Stream : Type 0} (c : Cipher Block Stream) where
  abbrev pub Drawn : Type 0
  Drawn = Process × Drbg Stream × ImageReply

  -- The bytes are drawn, or the error is sent.
  abbrev pub draw : (List ℕ → ImageReply) → Process × Drbg Stream × Outcome Error (List ℕ) → Drawn
  draw next (p, d, err e) = (p, d, image_failed e)
  draw next (p, d, ok bytes) = (p, d, next bytes)

  abbrev pub heatmap_of : ℕ → ℕ → List ℕ → ImageReply
  heatmap_of width height buf = pixels (heat_pixels width height buf)

  unfoldable pub entropy_heatmap_handler : ℕ → ℕ → Process → Drbg Stream → Drawn
  entropy_heatmap_handler width height p d =
      draw (heatmap_of width height) (read c p (width * height) d)

  abbrev pub image_of : ℕ → ℕ → List ℕ → ImageReply
  image_of width height pix = pixels (opaque_pixels width height pix)

  unfoldable pub random_image_handler : ℕ → ℕ → Process → Drbg Stream → Drawn
  random_image_handler width height p d =
      draw (image_of width height) (read c p (4 * (width * height)) d)

  abbrev pub encoded : Option (List ℕ) → ImageReply
  encoded none = qr_failed
  encoded (some png) = qr png

  unfoldable pub qr_handler :
      (List ℕ → String) → (String → Option (List ℕ)) → Process → Drbg Stream → Drawn
  qr_handler hex encode p d = draw (λ buf. encoded (encode (hex buf))) (read c p 64 d)

  abbrev pub wrapped :
      Server Stream → Budget × Outcome Refusal Drawn → Server Stream × Outcome Refusal ImageReply
  wrapped s (b, err refusal) = (record s { http = b }, err refusal)
  wrapped s (b, ok (p, d, reply)) = (record s { process = p; root = d; http = b }, ok reply)

  -- `httpBudget.wrap(handler, memory)`.
  unfoldable pub image_route :
      (Process → Drbg Stream → Drawn)
      → ℕ
      → Bool
      → Server Stream
      → Server Stream × Outcome Refusal ImageReply
  image_route handler memory canceled s =
      wrapped s (wrap (λ b. (b, handler s.process s.root)) (pos memory) canceled s.http)

  -- `/v1/image/random`, `/v1/image/heatmap` and `/v1/qr/random`.
  unfoldable pub random_image_route :
      ℕ → ℕ → Bool → Server Stream → Server Stream × Outcome Refusal ImageReply
  unfolding image_route random_image_handler
  random_image_route width height canceled s =
      image_route (random_image_handler width height) image_memory canceled s

  unfoldable pub heatmap_route :
      ℕ → ℕ → Bool → Server Stream → Server Stream × Outcome Refusal ImageReply
  unfolding image_route entropy_heatmap_handler
  heatmap_route width height canceled s =
      image_route (entropy_heatmap_handler width height) image_memory canceled s

  unfoldable pub qr_route :
      (List ℕ → String)
      → (String → Option (List ℕ))
      → Bool
      → Server Stream
      → Server Stream × Outcome Refusal ImageReply
  unfolding image_route qr_handler
  qr_route hex encode canceled s = image_route (qr_handler hex encode) qr_memory canceled s
