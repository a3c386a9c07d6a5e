-- ===== src/Tests/Sounds.antt =====
-- The sound route and its files, at small values.
use entropy_service.Prelude.{ℕ, ◌≡◌, true, false, some, String, List, [], ◌∷◌, arith}
use entropy_service.Prelude.Int.{pos}
use entropy_service.Sound.Wav.{wav_file}
use entropy_service.Sound.Synthesis.{Arithmetic}
use entropy_service.Sound.RoundTrip.{read_wav, read_wav-wav_file}
use entropy_service.Sound.Route.{SoundState, random_sound_handler}
use entropy_service.Sound.Laws.{Plays, random_sound_handler-Plays}
use entropy_service.Tests.Samples.{plain_cipher, process, root}

read_wav-wav_file_example : read_wav (wav_file (513 ∷ 65535 ∷ [])) ≡ some (513 ∷ 65535 ∷ [])
read_wav-wav_file_example =
    read_wav-wav_file (513 ∷ 65535 ∷ []) (omega arith, (omega arith, tt)) (omega arith)

-- A voice that counts its values, in place of floating point.
abbrev counting : Arithmetic ℕ ℕ
counting = record {
  tuned = λ entropy opts. 0;
  next_value = λ n. (n, n);
  fade = λ edge n. n;
  silence = 0;
  peak_of = λ peak n. n;
  is_positive = λ peak. true;
  pcm = λ n peak. 1;
}

abbrev playing : SoundState ℕ
playing = record { process = process; source = root; taken = 1 }

abbrev chime_query : List (String × List String)
chime_query = ("style", "chime" ∷ []) ∷ ("duration_ms", "300" ∷ []) ∷ []

random_sound_handler-Plays_example :
    Plays plain_cipher counting
      (λ i. false)
      (λ i. false)
      true
      playing
      (random_sound_handler plain_cipher counting
        (λ i. false)
        (λ i. false)
        (λ s. some (pos 300))
        "GET"
        (some chime_query)
        false
        playing)
random_sound_handler-Plays_example =
    random_sound_handler-Plays plain_cipher counting (λ i. false) (λ i. false) (λ s. some (pos 300))
      "GET" (some chime_query) false playing
