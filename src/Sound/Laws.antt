-- ===== src/Sound/Laws.antt =====
-- What the sound route promises.
use text.Mathlib.Text.{◌==◌}
use text.Mathlib.TextEquality.{eq_iff}
use entropy_service.Prelude.{
  ℕ, suc, Bool-cases, ◌+◌, ◌-◌, ◌*◌, ◌≤◌, ◌≡◌, refl, ap, ◌⊎◌, inl, inr, Bool, true, false, Option,
  none, some, String, List, [], ◌∷◌, arith, length, replicate, length-replicate, zero,
  if◌then◌else◌,
}
use entropy_service.Prelude.Int.{ℤ, pos, negsuc, ◌≤ℤ◌, pos_part}
use entropy_service.Prelude.Outcome.{Outcome, ok, err}
use entropy_service.Drbg.Algorithm.{Error}
use entropy_service.Drbg.Cipher.{Cipher}
use entropy_service.Drbg.Generator.{Process, Drbg, read}
use entropy_service.Sound.Options.{
  SoundOptions, SoundError, parse_sound_options, parse_parameters, with_values, next_parameter,
  with_duration, with_style, with_value, default_options, sound_bloom, sound_chime,
}
use entropy_service.Sound.RoundTrip.{length-wav_file}
use entropy_service.Sound.Synthesis.{
  Arithmetic, sample_count, synthesize_sound, render, with_sample, normalize, with_word, written,
  finished, edged,
}
use entropy_service.Sound.Route.{
  SoundState, SoundReply, sound, method_not_allowed, busy, source_failed, canceled, bad_options,
  content_length, reply_with, after_entropy, get_sound, with_options, random_sound_handler,
  sound_slots,
}

pos_part_le : (z : ℤ) (n : ℕ) → z ≤ℤ pos n → pos_part z ≤ n
pos_part_le (pos m) n h = omega (arith, h)
pos_part_le (negsuc m) n h = omega arith

-- The accepted options.
abbrev pub Allowed : SoundOptions → Type 0
Allowed opts =
    (pos 250 ≤ℤ opts.duration_ms)
    × (opts.duration_ms ≤ℤ pos 5000)
    × ((opts.style ≡ sound_bloom) ⊎ (opts.style ≡ sound_chime))

abbrev AllowedIfOk : Outcome SoundError SoundOptions → Type 0
AllowedIfOk (err e) = Unit {0}
AllowedIfOk (ok opts) = Allowed opts

module _ (atoi : String → Option ℤ) where
  with_duration-Allowed :
      (n : Option ℤ) (opts : SoundOptions) → Allowed opts → AllowedIfOk (with_duration atoi n opts)
  with_duration-Allowed none opts h = tt
  with_duration-Allowed (some n) opts h = ground (arith, h)

  with_style-Allowed :
      (style : String) (opts : SoundOptions)
      → Allowed opts
      → AllowedIfOk (with_style atoi style opts)
  with_style-Allowed style opts (lo, hi, known) = elim (Bool-cases (style == sound_bloom)) [
    | inl e ↦ rw e (lo, hi, inl ((eq_iff style sound_bloom).0 e))
    | inr e ↦ elim (Bool-cases (style == sound_chime)) [
      | inl e' ↦ rw e (rw e' (lo, hi, inr ((eq_iff style sound_chime).0 e')))
      | inr e' ↦ rw e (rw e' tt)
    ]
  ]

  with_value-Allowed :
      (name value : String) (opts : SoundOptions)
      → Allowed opts
      → AllowedIfOk (with_value atoi name value opts)
  with_value-Allowed name value opts h =
      ground (arith, with_duration-Allowed (atoi value) opts h, with_style-Allowed value opts h)

  with_values-Allowed :
      (name : String) (values : List String) (opts : SoundOptions)
      → Allowed opts
      → AllowedIfOk (with_values atoi name values opts)
  with_values-Allowed name [] opts h = tt
  with_values-Allowed name (value ∷ []) opts h = with_value-Allowed name value opts h
  with_values-Allowed name (value ∷ w ∷ rest) opts h = tt

  next_parameter-Allowed :
      (again : SoundOptions → Outcome SoundError SoundOptions)
      → ((opts : SoundOptions) → Allowed opts → AllowedIfOk (again opts))
      → (r : Outcome SoundError SoundOptions) → AllowedIfOk r
      → AllowedIfOk (next_parameter atoi again r)
  next_parameter-Allowed again keeps (err e) h = tt
  next_parameter-Allowed again keeps (ok opts) h = keeps opts h

  parse_parameters-Allowed :
      (query : List (String × List String)) (opts : SoundOptions)
      → Allowed opts
      → AllowedIfOk (parse_parameters atoi query opts)
  unfolding parse_parameters
  parse_parameters-Allowed [] opts h = h
  parse_parameters-Allowed ((name, values) ∷ query) opts h =
      next_parameter-Allowed (parse_parameters atoi query) (parse_parameters-Allowed query)
        (with_values atoi name values opts) (with_values-Allowed name values opts h)

  parse_sound_options-Allowed :
      (query : Option (List (String × List String))) → AllowedIfOk (parse_sound_options atoi query)
  unfolding parse_sound_options
  parse_sound_options-Allowed none = tt
  parse_sound_options-Allowed (some query) =
      parse_parameters-Allowed query default_options (ground arith)

module _ {Float Voice : Type 0} (a : Arithmetic Float Voice) where
  abbrev Renders : ℕ → Option (List Float × Float) → Type 0
  Renders n none = Unit {0}
  Renders n (some (samples, peak)) = length samples ≡ n

  with_sample-Renders :
      (n : ℕ) (value : Float) (r : Option (List Float × Float))
      → Renders n r
      → Renders (suc n) (with_sample a value r)
  with_sample-Renders n value none h = tt
  with_sample-Renders n value (some (samples, peak)) h = ap suc h

  render-Renders :
      (gone : ℕ → Bool) (total left : ℕ) (voice : Voice) (peak : Float)
      → Renders left (render a gone total left voice peak)
  unfolding render
  render-Renders gone total zero voice peak = refl
  render-Renders gone total (suc left) voice peak =
      let value = edged a total (total - suc left) (a.next_value voice).0 in
      ground (
        arith,
        with_sample-Renders left value
            (render a gone total left (a.next_value voice).1 (a.peak_of peak value))
            (render-Renders gone total left (a.next_value voice).1 (a.peak_of peak value)),
      )

  abbrev HasLength : ℕ → Option (List ℕ) → Type 0
  HasLength n none = Unit {0}
  HasLength n (some words) = length words ≡ n

  with_word-HasLength :
      (n word : ℕ) (r : Option (List ℕ)) → HasLength n r → HasLength (suc n) (with_word a word r)
  with_word-HasLength n word none h = tt
  with_word-HasLength n word (some words) h = ap suc h

  normalize-HasLength :
      (gone : ℕ → Bool) (i : ℕ) (peak : Float) (samples : List Float)
      → HasLength (length samples) (normalize a gone i peak samples)
  unfolding normalize
  normalize-HasLength gone i peak [] = refl
  normalize-HasLength gone i peak (sample ∷ samples) = ground (
    arith,
    with_word-HasLength (length samples) (a.pcm sample peak) (normalize a gone (i + 1) peak samples)
        (normalize-HasLength gone (i + 1) peak samples),
  )

  written-HasLength :
      (n : ℕ) (words : Option (List ℕ))
      → HasLength n words
      → HasLength (44 + n * 2) (written a words)
  written-HasLength n none h = tt
  written-HasLength n (some words) h = omega (arith, length-wav_file words, h)

  finished-HasLength :
      (gone : ℕ → Bool) (n : ℕ) (r : Option (List Float × Float))
      → Renders n r
      → HasLength (44 + n * 2) (finished a gone r)
  finished-HasLength gone n none h = tt
  finished-HasLength gone n (some (samples, peak)) h =
      written-HasLength n
        (if a.is_positive peak
          then normalize a gone 0 peak samples
          else some (replicate (length samples) 0))
        (ground (
          arith,
          normalize-HasLength gone 0 peak samples,
          length-replicate {A = ℕ} (length samples) 0,
        ))

  synthesize_sound-HasLength :
      (gone gone' : ℕ → Bool) (entropy : List ℕ) (opts : SoundOptions)
      → HasLength (44 + sample_count opts * 2) (synthesize_sound a gone gone' entropy opts)
  unfolding synthesize_sound
  synthesize_sound-HasLength gone gone' entropy opts =
      finished-HasLength gone' (sample_count opts)
        (render a gone (sample_count opts) (sample_count opts) (a.tuned entropy opts) a.silence)
        (render-Renders gone (sample_count opts) (sample_count opts) (a.tuned entropy opts)
          a.silence)

abbrev IsSoundLength : ℕ → Option (List ℕ) → Type 0
IsSoundLength n none = Unit {0}
IsSoundLength n (some body) = length body ≡ n

-- A sound is between a quarter of a second and five seconds long, and its body, if there is one,
-- has the promised length; a busy reply is given only when every slot is taken.
abbrev pub IsHonestSound : ℕ → SoundReply → Type 0
IsHonestSound taken (sound n body) = (24044 ≤ n) × (n ≤ 480044) × IsSoundLength n body
IsHonestSound taken busy = sound_slots ≤ taken
IsHonestSound taken method_not_allowed = Unit {0}
IsHonestSound taken source_failed = Unit {0}
IsHonestSound taken canceled = Unit {0}
IsHonestSound taken (bad_options e) = Unit {0}

module _ {Block Stream Float Voice : Type 0} (c : Cipher Block Stream) (a : Arithmetic Float Voice)
    (rendering_gone writing_gone : ℕ → Bool) where
  -- What a request leaves: the slots as they were, and an untouched state unless it is a GET.
  abbrev pub Plays : Bool → SoundState Stream → SoundState Stream × SoundReply → Type 0
  Plays is_get s r =
      (r.0.taken ≡ s.taken) × ((r.0 ≡ s) ⊎ (is_get ≡ true)) × IsHonestSound s.taken r.1

  reply_with-IsHonest :
      (taken : ℕ) (opts : SoundOptions)
      → Allowed opts
      → (r : Option (List ℕ)) → HasLength a (44 + sample_count opts * 2) r
      → IsHonestSound taken (
          reply_with c a rendering_gone writing_gone
            (content_length c a rendering_gone writing_gone opts)
            r)
  reply_with-IsHonest taken opts allowed none h = tt
  reply_with-IsHonest taken opts (lo, hi, known) (some wav) h =
      (omega (arith, lo), omega (arith, pos_part_le opts.duration_ms 5000 hi), h)

  after_entropy-Plays :
      (s : SoundState Stream) (opts : SoundOptions)
      → Allowed opts
      → (r : Process × Drbg Stream × Outcome Error (List ℕ))
      → Plays true s
          (after_entropy c a rendering_gone writing_gone (record s { taken = s.taken + 1 }) opts r)
  after_entropy-Plays s opts h (p, d, err e) = (omega arith, inr refl, tt)
  after_entropy-Plays s opts h (p, d, ok entropy) = (
    omega arith,
    inr refl,
    reply_with-IsHonest s.taken opts h (synthesize_sound a rendering_gone writing_gone entropy opts)
        (synthesize_sound-HasLength a rendering_gone writing_gone entropy opts),
  )

  get_sound-Plays :
      (s : SoundState Stream) (opts : SoundOptions)
      → Allowed opts
      → Plays true s (get_sound c a rendering_gone writing_gone s opts)
  get_sound-Plays s opts h =
      ground (arith, after_entropy-Plays s opts h (read c s.process 64 s.source))

  head-IsHonest :
      (taken : ℕ) (opts : SoundOptions)
      → Allowed opts
      → IsHonestSound taken (sound (content_length c a rendering_gone writing_gone opts) none)
  head-IsHonest taken opts (lo, hi, known) =
      (omega (arith, lo), omega (arith, pos_part_le opts.duration_ms 5000 hi), tt)

  with_options-Plays :
      (is_get gone : Bool) (s : SoundState Stream) (r : Outcome SoundError SoundOptions)
      → AllowedIfOk r
      → Plays is_get s (with_options c a rendering_gone writing_gone is_get gone s r)
  with_options-Plays is_get gone s (err e) h = (refl, inl refl, tt)
  with_options-Plays is_get true s (ok opts) h = (refl, inl refl, tt)
  with_options-Plays true false s (ok opts) h = get_sound-Plays s opts h
  with_options-Plays false false s (ok opts) h = (refl, inl refl, head-IsHonest s.taken opts h)

  -- Whatever the method, the query and the context are, the sound route leaves as many slots taken
  -- as it found; it leaves the generator alone unless the method is GET; it says it is busy only
  -- when both slots are taken; and the length that it promises is that of a sound of 250 to 5000 ms
  -- and of the body that it sends.
  pub random_sound_handler-Plays :
      (atoi : String → Option ℤ) (method : String) (query : Option (List (String × List String)))
      (gone : Bool) (s : SoundState Stream)
      → Plays
          (method == "GET")
          s
          (random_sound_handler c a rendering_gone writing_gone atoi method query gone s)
  unfolding random_sound_handler
  random_sound_handler-Plays atoi method query gone s = ground (
    arith,
    with_options-Plays (method == "GET") gone s (parse_sound_options atoi query)
        (parse_sound_options-Allowed atoi query),
  )
