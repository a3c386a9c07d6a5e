-- ===== src/Tests/Images.antt =====
-- The images, at two by two pixels and less.
use entropy_service.Prelude.{ℕ, ◌/◌, ◌%◌, ◌≡◌, false, some, List, [], ◌∷◌, arith, get_elem?, get_or}
use entropy_service.Upload.Analyze.{ones_count8}
use entropy_service.Images.Pixels.{heat_color, heat_pixels}
use entropy_service.Images.Laws.{channel, heat_pixels-maps}
use entropy_service.Images.Route.{heatmap_route, random_image_route, qr_route}
use entropy_service.Images.Answers.{Returns, image_routes-Returns}
use entropy_service.Tests.Samples.{plain_cipher, server}

abbrev four_bytes : List ℕ
four_bytes = 255 ∷ 0 ∷ 170 ∷ 7 ∷ []

heat_pixels-maps_example :
    get_elem? (heat_pixels 2 2 four_bytes) 8
    ≡ some (channel (heat_color (ones_count8 (get_or four_bytes (8 / 4) 0))) (8 % 4))
heat_pixels-maps_example =
    heat_pixels-maps 2 2 four_bytes 8 (omega arith, (omega arith, (omega arith, (omega arith, tt))))
      (omega arith)

image_routes-Returns_example :
    Returns plain_cipher server (heatmap_route plain_cipher 2 2 false server)
    × Returns plain_cipher server (random_image_route plain_cipher 2 2 false server)
    × Returns plain_cipher server
        (qr_route plain_cipher (λ bytes. "00") (λ hex. some []) false server)
image_routes-Returns_example =
    image_routes-Returns plain_cipher 2 2 (λ bytes. "00") (λ hex. some []) false server
