-- ===== src/Sound/Route.antt =====
-- `randomSoundHandler`. The channel of two slots counts how many are taken. An
-- argument says whether the context is canceled before the work, and during its two loops.
use text.Mathlib.Text.{◌==◌}
use entropy_service.Prelude.{
  ℕ, ◌+◌, ◌-◌, ◌*◌, Bool, ◌&&◌, not, Option, none, some, String, List, if◌then◌else◌, leb,
}
use entropy_service.Prelude.Int.{ℤ}
use entropy_service.Prelude.Outcome.{Outcome, ok, err}
use entropy_service.Drbg.Algorithm.{Error}
use entropy_service.Drbg.Cipher.{Cipher}
use entropy_service.Drbg.Generator.{Process, Drbg, read}
use entropy_service.Sound.Options.{SoundOptions, SoundError, parse_sound_options}
use entropy_service.Sound.Synthesis.{Arithmetic, sample_count, synthesize_sound}

abbrev pub sound_slots : ℕ
sound_slots = 2

-- What a request gets: an error, nothing, or the promised length with the body, which HEAD lacks.
pub data SoundReply : Type 0 where
  method_not_allowed busy source_failed canceled : SoundReply
  bad_options : SoundError → SoundReply
  sound : ℕ → Option (List ℕ) → SoundReply

pub record SoundState (Stream : Type 0) : Type 0 where
  pub process : Process
  pub source : Drbg Stream
  pub taken : ℕ

module _ {Block Stream Float Voice : Type 0} (c : Cipher Block Stream) (a : Arithmetic Float Voice)
    (rendering_gone writing_gone : ℕ → Bool) where
  abbrev pub reply_with : ℕ → Option (List ℕ) → SoundReply
  reply_with promised none = canceled
  reply_with promised (some wav) = sound promised (some wav)

  abbrev pub content_length : SoundOptions → ℕ
  content_length opts = 44 + sample_count opts * 2

  -- The entropy is read and rendered, and the deferred receive frees the slot.
  abbrev pub after_entropy :
      SoundState Stream
      → SoundOptions
      → Process × Drbg Stream × Outcome Error (List ℕ)
      → SoundState Stream × SoundReply
  after_entropy s opts (p, d, err e) =
      (record s { process = p; source = d; taken = s.taken - 1 }, source_failed)
  after_entropy s opts (p, d, ok entropy) = (
    record s { process = p; source = d; taken = s.taken - 1 },
    reply_with (content_length opts) (synthesize_sound a rendering_gone writing_gone entropy opts),
  )

  -- GET: a slot is taken if one is free, and the request is refused otherwise.
  abbrev pub get_sound : SoundState Stream → SoundOptions → SoundState Stream × SoundReply
  get_sound s opts =
      if leb sound_slots s.taken
      then (s, busy)
      else after_entropy (record s { taken = s.taken + 1 }) opts (read c s.process 64 s.source)

  abbrev pub with_options :
      Bool
      → Bool
      → SoundState Stream
      → Outcome SoundError SoundOptions
      → SoundState Stream × SoundReply
  with_options is_get gone s (err e) = (s, bad_options e)
  with_options is_get gone s (ok opts) =
      if gone
      then (s, canceled)
      else if is_get
      then get_sound s opts
      else (s, sound (content_length opts) none)

  unfoldable pub random_sound_handler :
      (String → Option ℤ)
      → String
      → Option (List (String × List String))
      → Bool
      → SoundState Stream
      → SoundState Stream × SoundReply
  random_sound_handler atoi method query gone s =
      if not (method == "GET") && not (method == "HEAD")
      then (s, method_not_allowed)
      else with_options (method == "GET") gone s (parse_sound_options atoi query)
