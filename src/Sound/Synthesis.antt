-- ===== src/Sound/Synthesis.antt =====
-- The loops of `synthesizeSound`. Floating-point numbers are a parameter: how the partials are
-- tuned, their next value, and the conversion of a sample to 16 bits.
use entropy_service.Prelude.{
  ℕ, zero, suc, ◌+◌, ◌-◌, ◌*◌, ◌/◌, ◌%◌, Bool, ◌&&◌, Option, none, some, List, [], ◌∷◌,
  if◌then◌else◌, ltb, ◌==◌, min, replicate, length,
}
use entropy_service.Prelude.Int.{pos_part}
use entropy_service.Sound.Options.{SoundOptions}
use entropy_service.Sound.Wav.{sound_sample_rate, wav_file}

-- What is used of floating point. `Voice` is the state of the five partials.
pub record Arithmetic (Float Voice : Type 0) : Type 0 where
  pub tuned : List ℕ → SoundOptions → Voice
  pub next_value : Voice → Float × Voice
  pub fade : ℕ → Float → Float
  pub silence : Float
  pub peak_of : Float → Float → Float
  pub is_positive : Float → Bool
  pub pcm : Float → Float → ℕ

-- `soundSampleRate*opts.durationMs/1000`, of a duration that is never negative.
abbrev pub sample_count : SoundOptions → ℕ
sample_count opts = sound_sample_rate * pos_part opts.duration_ms / 1000

module _ {Float Voice : Type 0} (a : Arithmetic Float Voice) where
  -- The first and last 40 ms are smoothed.
  abbrev pub edged : ℕ → ℕ → Float → Float
  edged total i value =
      let edge = min i (total - 1 - i) in
      if ltb edge (sound_sample_rate * 40 / 1000) then a.fade edge value else value

  abbrev pub with_sample : Float → Option (List Float × Float) → Option (List Float × Float)
  with_sample value none = none
  with_sample value (some (samples, peak)) = some (value ∷ samples, peak)

  -- The first loop, with `left` samples to go: the samples and their peak, or none when the
  -- context is found canceled, which is looked at every 1024 samples.
  unfoldable pub render : (ℕ → Bool) → ℕ → ℕ → Voice → Float → Option (List Float × Float)
  render gone total zero voice peak = some ([], peak)
  render gone total (suc left) voice peak =
      let i = total - suc left in
      let (raw, voice') = a.next_value voice in
      let value = edged total i raw in
      let rest = render gone total left voice' (a.peak_of peak value) in
      if (i % 1024 == 0) && gone i then none else with_sample value rest

  abbrev pub with_word : ℕ → Option (List ℕ) → Option (List ℕ)
  with_word n none = none
  with_word n (some words) = some (n ∷ words)

  -- The last loop: each sample as a 16-bit word.
  unfoldable pub normalize : (ℕ → Bool) → ℕ → Float → List Float → Option (List ℕ)
  normalize gone i peak [] = some []
  normalize gone i peak (sample ∷ samples) =
      let rest = normalize gone (i + 1) peak samples in
      if (i % 1024 == 0) && gone i then none else with_word (a.pcm sample peak) rest

  abbrev pub written : Option (List ℕ) → Option (List ℕ)
  written none = none
  written (some words) = some (wav_file words)

  -- The file starts as zeros, and stays so when no sample is heard.
  abbrev pub finished : (ℕ → Bool) → Option (List Float × Float) → Option (List ℕ)
  finished gone none = none
  finished gone (some (samples, peak)) = written (
      if a.is_positive peak
      then normalize gone 0 peak samples
      else some (replicate (length samples) 0))

  -- `gone` says, for each of the two loops, at which samples the context is canceled.
  unfoldable pub synthesize_sound :
      (ℕ → Bool) → (ℕ → Bool) → List ℕ → SoundOptions → Option (List ℕ)
  unfolding render normalize
  synthesize_sound gone gone' entropy opts =
      finished gone'
        (render gone (sample_count opts) (sample_count opts) (a.tuned entropy opts) a.silence)
