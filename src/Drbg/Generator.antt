-- ===== src/Drbg/Generator.antt =====
-- cmd/entropy-server/internal/drbg/drbg.go: the generator's state and its methods. The mutex makes
-- each method one step. The process-wide counters (two atomics and the metrics) are passed along,
-- and the clock is an argument, in nanoseconds.
use entropy_service.Prelude.{
  ℕ, ◌+◌, ◌-◌, ◌%◌, Bool, true, false, ◌||◌, Option, none, some, String, List, ◌++◌, if◌then◌else◌,
  ltb, length, take, drop, replicate,
}
use entropy_service.Prelude.Int.{ℤ, pos, ◌+ℤ◌, ◌-ℤ◌, sub_ℕ, pos_part, leb_ℤ, ltb_ℤ}
use entropy_service.Prelude.Word.{u64_mod, add64}
use entropy_service.Prelude.Outcome.{Outcome, ok, err}
use entropy_service.Metrics.{Metrics, add_bytes_generated}
use entropy_service.Drbg.Algorithm.{
  Algorithm, Error, short_seed, short_reseed, closed_pipe, output_limit, derive_size,
  nil_dereference, parse_algorithm, show, chacha20,
}
use entropy_service.Drbg.Cipher.{Cipher, new_cipher_stream}

-- `maxBytesPerKey` and `maxDeriveBytes`.
abbrev pub max_bytes_per_key : ℕ
max_bytes_per_key = 274877906944

abbrev pub max_derive_bytes : ℕ
max_derive_bytes = 1048576

-- `activeDRBG`, `peakDRBG` and the counters of the metrics package.
pub record Process : Type 0 where
  pub active_drbg : ℤ
  pub peak_drbg : ℤ
  pub metrics : Metrics

-- `DRBG`. A nil cipher is `none`.
pub record Drbg (Stream : Type 0) : Type 0 where
  pub key : List ℕ
  pub nonce : List ℕ
  pub cipher : Option Stream
  pub algorithm : Algorithm
  pub closed : Bool
  pub counted : Bool
  pub generated : ℕ
  pub reseeded : ℕ
  pub reseeds : ℕ
  pub reseed_failures : ℕ
  pub last_reseed_error : String
  pub reseed_epoch : ℕ
  pub version : String
  pub source : String
  pub algo : String
  pub reseed_interval : ℤ
  pub reseed_size_bits : ℤ

-- The arrays that the constructor and `Reseed` copy out of a digest.
abbrev pub key_of : List ℕ → List ℕ
key_of h = take 32 h

abbrev pub nonce_of : List ℕ → List ℕ
nonce_of h = take 16 (drop 32 h)

-- The constructor's counting: `activeDRBG.Add(1)`, and the loop that raises the peak, whose
-- compare-and-swap succeeds at once where nothing runs between.
unfoldable pub count_instance : Process → Process
unfolding ◌+ℤ◌
count_instance p =
    let active = p.active_drbg +ℤ pos 1 in
    if leb_ℤ active p.peak_drbg
    then record p { active_drbg = active }
    else record p { active_drbg = active; peak_drbg = active }

module _ {Block Stream : Type 0} (c : Cipher Block Stream) where
  abbrev pub fresh : Algorithm → List ℕ → ℕ → Stream → Drbg Stream
  fresh algorithm h now stream = record {
    key = key_of h;
    nonce = nonce_of h;
    cipher = some stream;
    algorithm = algorithm;
    closed = false;
    counted = true;
    generated = 0;
    reseeded = now;
    reseeds = 0;
    reseed_failures = 0;
    last_reseed_error = "";
    reseed_epoch = 0;
    version = "";
    source = "";
    algo = show algorithm;
    reseed_interval = pos 0;
    reseed_size_bits = pos 0;
  }

  -- What the constructor does once the seed and the algorithm are accepted.
  unfoldable pub install : Process → ℕ → List ℕ → Algorithm → Process × Outcome Error (Drbg Stream)
  unfolding count_instance
  install p now h algorithm = elim (new_cipher_stream c algorithm (key_of h) (nonce_of h)) [
    | ok stream ↦ (count_instance p, ok (fresh algorithm h now stream))
    | err e ↦ (p, err e)
  ]

  -- `NewDRBGWithAlgorithm`.
  unfoldable pub new_drbg_with_algorithm :
      Process → ℕ → List ℕ → Algorithm → Process × Outcome Error (Drbg Stream)
  unfolding install parse_algorithm
  new_drbg_with_algorithm p now seed algorithm = elim (parse_algorithm algorithm) [
    | err e ↦ (p, err e)
    | ok _ ↦
        if ltb (length seed) 32
        then (p, err short_seed)
        else install p now (c.sha512 seed) algorithm
  ]

  -- `NewDRBG`.
  unfoldable pub new_drbg : Process → ℕ → List ℕ → Process × Outcome Error (Drbg Stream)
  unfolding new_drbg_with_algorithm
  new_drbg p now seed = new_drbg_with_algorithm p now seed chacha20

  abbrev pub installed : Drbg Stream → List ℕ → ℕ → Stream → Drbg Stream
  installed d h now stream = record d {
    key = key_of h;
    nonce = nonce_of h;
    cipher = some stream;
    generated = 0;
    reseeded = now;
    reseeds = add64 d.reseeds 1;
    last_reseed_error = "";
    reseed_epoch = add64 d.reseed_epoch 1;
  }

  -- `Reseed`: the streamed digest is that of the old key followed by the seed.
  unfoldable pub reseed : ℕ → List ℕ → Drbg Stream → Drbg Stream × Outcome Error (Unit {0})
  reseed now seed d =
      if d.closed
      then (d, err closed_pipe)
      else if ltb (length seed) 32
      then (d, err short_reseed)
      else let h = c.sha512 (d.key ++ seed) in
        elim (new_cipher_stream c d.algorithm (key_of h) (nonce_of h)) [
          | ok stream ↦ (installed d h now stream, ok tt)
          | err e ↦ (d, err e)
        ]

  -- `readLocked` on a buffer of n bytes, which is cleared before the stream runs over it. The
  -- result holds the bytes of the buffer.
  unfoldable pub read_locked :
      Process → ℕ → Drbg Stream → Process × Drbg Stream × Outcome Error (List ℕ)
  read_locked p n d =
      if d.closed
      then (p, d, err closed_pipe)
      else if ltb ((u64_mod + max_bytes_per_key - d.generated) % u64_mod) n
      then (p, d, err output_limit)
      else elim d.cipher [
        | none ↦ (p, d, err nil_dereference)
        | some stream ↦
            let (out, stream') = c.xor_key_stream stream (replicate n 0) in
            (
              record p { metrics = add_bytes_generated (pos n) p.metrics },
              record d { cipher = some stream'; generated = add64 d.generated n },
              ok out,
            )
      ]

  -- `Read`.
  unfoldable pub read : Process → ℕ → Drbg Stream → Process × Drbg Stream × Outcome Error (List ℕ)
  unfolding read_locked
  read p n d = read_locked p n d

  -- `Derive`.
  unfoldable pub derive : Process → ℤ → Drbg Stream → Process × Drbg Stream × Outcome Error (List ℕ)
  unfolding read
  derive p seed_size d =
      if ltb_ℤ seed_size (pos 1) || ltb_ℤ (pos max_derive_bytes) seed_size
      then (p, d, err derive_size)
      else read p (pos_part seed_size) d

  abbrev pub construct_child :
      ℕ
      → Process × Drbg Stream × Outcome Error (List ℕ)
      → Process × Drbg Stream × Outcome Error (Drbg Stream)
  construct_child now (p, d, err e) = (p, d, err e)
  construct_child now (p, d, ok seed) =
      let (p', child) = new_drbg_with_algorithm p now seed d.algorithm in (p', d, child)

  -- `NewConnectionDRBG`, of a parent that is not nil.
  unfoldable pub new_connection_drbg :
      Process → ℕ → Drbg Stream → Process × Drbg Stream × Outcome Error (Drbg Stream)
  unfolding read new_drbg_with_algorithm
  new_connection_drbg p now d = construct_child now (read p 64 d)

module _ {Stream : Type 0} where
  -- `Close`. Clearing an array leaves it full of zeros.
  unfoldable pub close : Process → Drbg Stream → Process × Drbg Stream
  unfolding ◌-ℤ◌
  close p d = if d.closed then (p, d) else (
    (if d.counted then record p { active_drbg = p.active_drbg -ℤ pos 1 } else p),
    record d {
      key = replicate 32 0;
      nonce = replicate 16 0;
      cipher = none;
      closed = true;
      counted = false;
    },
  )

  -- `RecordReseedFailure`; a nil error is `none`.
  unfoldable pub record_reseed_failure : Option String → Drbg Stream → Drbg Stream
  record_reseed_failure none d = d
  record_reseed_failure (some message) d = record d {
    reseed_failures = add64 d.reseed_failures 1;
    last_reseed_error = message;
  }

  -- `ReseedAge`.
  abbrev pub reseed_age : ℕ → Drbg Stream → ℤ
  reseed_age now d = sub_ℕ now d.reseeded

  -- `SetMetadata`; its third argument is ignored.
  unfoldable pub set_metadata : String → String → String → ℤ → ℤ → Drbg Stream → Drbg Stream
  set_metadata version source _ interval size_bits d = record d {
    version = version;
    source = source;
    algo = show d.algorithm;
    reseed_interval = interval;
    reseed_size_bits = size_bits;
  }
