-- ===== src/Sound/Wav.antt =====
-- The file that `synthesizeSound` lays out around its samples. The synthesis is floating point; its
-- samples are an argument, as the 16-bit words that the last loop writes. Bytes are numbers.
use entropy_service.Prelude.{ℕ, ◌+◌, ◌-◌, ◌*◌, ◌/◌, ◌%◌, List, [], ◌∷◌, ◌++◌, length}

abbrev pub sound_sample_rate : ℕ
sound_sample_rate = 48000

-- `binary.LittleEndian.PutUint16` and `PutUint32`, of a number that is converted to the width.
abbrev pub put_u16 : ℕ → List ℕ
put_u16 n = n % 256 ∷ n / 256 % 256 ∷ []

abbrev pub put_u32 : ℕ → List ℕ
put_u32 n = n % 256 ∷ n / 256 % 256 ∷ n / 65536 % 256 ∷ n / 16777216 % 256 ∷ []

unfoldable pub put_samples : List ℕ → List ℕ
put_samples [] = []
put_samples (pcm ∷ samples) = put_u16 pcm ++ put_samples samples

-- The 44 bytes, written at the offsets 0, 4, 8, 16, 20, 22, 24, 28, 32, 34, 36 and 40.
unfoldable pub wav_header : ℕ → List ℕ
wav_header size =
    (b'R' ∷ b'I' ∷ b'F' ∷ b'F' ∷ [])
    ++ (put_u32 (size - 8)
        ++ ((b'W' ∷ b'A' ∷ b'V' ∷ b'E' ∷ b'f' ∷ b'm' ∷ b't' ∷ b' ' ∷ [])
            ++ (put_u32 16
                ++ (put_u16 1
                    ++ (put_u16 1
                        ++ (put_u32 sound_sample_rate
                            ++ (put_u32 (sound_sample_rate * 2)
                                ++ (put_u16 2
                                    ++ (put_u16 16
                                        ++ ((b'd' ∷ b'a' ∷ b't' ∷ b'a' ∷ [])
                                            ++ put_u32 (size - 44)))))))))))

unfoldable pub wav_file : List ℕ → List ℕ
unfolding wav_header put_samples
wav_file samples = wav_header (44 + length samples * 2) ++ put_samples samples
