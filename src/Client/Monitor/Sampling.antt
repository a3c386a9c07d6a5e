-- ===== src/Client/Monitor/Sampling.antt =====
-- What the monitor counts, and which frames it analyses.
use entropy_service.Prelude.{
  ℕ, ◌+◌, ◌%◌, ◌≤◌, ◌≡◌, Bool, ◌&&◌, Option, some, List, [], ◌∷◌, length, ltb, if◌then◌else◌,
}
use entropy_service.Prelude.Word.{u64_mod}
use entropy_service.Client.Diag.Run.{Statistics}
use entropy_service.Client.Monitor.Observe.{MonitorConfig, MonitorState, Received, prefix, before}

-- The bytes of some frames.
abbrev pub bytes_of : List Received → ℕ
bytes_of [] = 0
bytes_of (frame ∷ frames) = length frame.payload + bytes_of frames

-- Neighbours are at least so long apart.
abbrev pub Spaced : ℕ → List Received → Type 0
Spaced interval [] = Unit {0}
Spaced interval (a ∷ []) = Unit {0}
Spaced interval (a ∷ b ∷ frames) = (a.now + interval ≤ b.now) × Spaced interval (b ∷ frames)

module _ {F : Type 0} (st : Statistics F) (cfg : MonitorConfig) where
  -- The frames that are analysed: the first, and each that is not before the time that the one
  -- before it sets.
  unfoldable pub selected : Option ℕ → List Received → List Received
  selected next [] = []
  selected next (frame ∷ frames) =
      let skipped = selected next frames in
      let taken = selected (some (frame.now + cfg.analysis_interval)) frames in
      if ltb 0 cfg.analysis_interval && before st cfg frame.now next then skipped else frame ∷ taken

  abbrev pub prefix_bytes : List Received → ℕ
  prefix_bytes [] = 0
  prefix_bytes (frame ∷ frames) = length (prefix st cfg frame.payload) + prefix_bytes frames

  -- The counts of a state: so many frames, bytes, samples and analysed bytes.
  pub record Tallies (m : MonitorState F) (frames bytes samples analysed_bytes : ℕ) : Type 0 where
    pub frame_count : m.frames ≡ frames % u64_mod
    pub byte_count : m.total_bytes ≡ bytes
    pub fetched : m.bytes_fetched ≡ bytes % u64_mod
    pub sample_count : m.samples ≡ samples % u64_mod
    pub analysed_count : m.analysed_bytes ≡ analysed_bytes % u64_mod

  -- Whether a frame is passed over.
  abbrev passed_over : Received → Option ℕ → Bool
  passed_over frame next = ltb 0 cfg.analysis_interval && before st cfg frame.now next
