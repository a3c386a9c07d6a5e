-- ===== src/Images/Answers.antt =====
-- What the image routes leave behind, and what they send.
use entropy_service.Prelude.{ℕ, ◌≡◌, refl, Bool, Option, String, List}
use entropy_service.Prelude.Int.{pos}
use entropy_service.Prelude.Outcome.{Outcome, ok, err}
use entropy_service.Budget.Defs.{Budget, Refusal, Ticket}
use entropy_service.Budget.Http.{http_admit, wrap, wrap_verdict}
use entropy_service.Budget.Settles.{SameUse, Settles, http_admit-Settles}
use entropy_service.Drbg.Cipher.{Cipher}
use entropy_service.Drbg.Generator.{Process, Drbg}
use entropy_service.Handler.Http.{Server}
use entropy_service.Images.Route.{
  ImageReply, Drawn, wrapped, image_route, entropy_heatmap_handler, random_image_handler,
  qr_handler, random_image_route, heatmap_route, qr_route, image_memory, qr_memory,
}

module _ {Block Stream : Type 0} (c : Cipher Block Stream) where
  -- A route gives its admission back, leaves the other budget alone, and when it is refused it has
  -- read nothing.
  abbrev pub Returns : Server Stream → Server Stream × Outcome Refusal ImageReply → Type 0
  Returns s (s', err r) =
      SameUse s.http s'.http × (s'.ws ≡ s.ws) × (s'.process ≡ s.process) × (s'.root ≡ s.root)
  Returns s (s', ok reply) = SameUse s.http s'.http × (s'.ws ≡ s.ws)

  wrapped-Returns :
      (s : Server Stream) (r : Budget × Outcome Refusal (Drawn c))
      → SameUse s.http r.0
      → Returns s (wrapped c s r)
  wrapped-Returns s (b, err r) h = (h, refl, refl, refl)
  wrapped-Returns s (b, ok (p, d, reply)) h = (h, refl)

  wrap_verdict-SameUse :
      {A : Type 0} (a : A) (b b' : Budget) (v : Outcome Refusal Ticket)
      → Settles b (b', v)
      → SameUse b (wrap_verdict (λ x. (x, a)) b' v).0
  wrap_verdict-SameUse a b b' (err r) h = h
  wrap_verdict-SameUse a b b' (ok t) h = h

  image_route-Returns :
      (handler : Process → Drbg Stream → Drawn c) (memory : ℕ) (canceled : Bool) (s : Server Stream)
      → Returns s (image_route c handler memory canceled s)
  unfolding image_route wrap
  image_route-Returns handler memory canceled s =
      wrapped-Returns s (wrap (λ b. (b, handler s.process s.root)) (pos memory) canceled s.http) (
        wrap_verdict-SameUse (handler s.process s.root) s.http
          (http_admit canceled s.http (pos memory)).0 (http_admit canceled s.http (pos memory)).1
          (http_admit-Settles canceled s.http (pos memory)))

  -- The routes of the heat map, the random image and the QR code give back their admission on every
  -- path, errors of the generator and of the encoder included, and leave the WebSocket budget
  -- alone; a request that is refused leaves the counters and the generator as they were.
  pub image_routes-Returns :
      (width height : ℕ) (hex : List ℕ → String) (encode : String → Option (List ℕ))
      (canceled : Bool) (s : Server Stream)
      → Returns s (heatmap_route c width height canceled s)
        × Returns s (random_image_route c width height canceled s)
        × Returns s (qr_route c hex encode canceled s)
  unfolding heatmap_route random_image_route qr_route
  image_routes-Returns width height hex encode canceled s = (
    image_route-Returns (entropy_heatmap_handler c width height) image_memory canceled s,
    image_route-Returns (random_image_handler c width height) image_memory canceled s,
    image_route-Returns (qr_handler c hex encode) qr_memory canceled s,
  )
