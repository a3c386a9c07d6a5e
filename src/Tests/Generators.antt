-- ===== src/Tests/Generators.antt =====
-- Runs of the generators.
use entropy_service.Prelude.{
  ℕ, ◌+◌, ◌≡◌, ◌⊎◌, refl, true, false, some, List, [], ◌∷◌, ◌++◌, arith, length, replicate, take,
  drop,
}
use entropy_service.Prelude.Int.{pos}
use entropy_service.Prelude.Word.{add64}
use entropy_service.Drbg.Cipher.{new_cipher_stream}
use entropy_service.Prelude.Outcome.{ok}
use entropy_service.Metrics.{add_bytes_generated}
use entropy_service.Drbg.Generator.{Process, Drbg, read, read_locked, reseed}
use entropy_service.Drbg.Invariant.{
  IsValid, Call, reads, reseeds, derives, closes, fails, calls, calls-IsValid,
}
use entropy_service.Drbg.Reads.{read-ok, read-split, reseed-ok}
use entropy_service.Drbg.Instances.{World, Event, construct, shut, IsExact, run, run-IsExact}
use entropy_service.Drbg.Connection.{Reader, new_reader, must_refresh, read_connection}
use entropy_service.Drbg.Private.{FreshlyServed, StillServed, read_connection-Served}
use entropy_service.Tests.Samples.{
  plain_cipher, plain_cipher-Documented, process, root, root-IsValid, seed32,
}

abbrev use_it : List Call
use_it = reads 16 ∷ reseeds 9 seed32 ∷ derives (pos 40) ∷ fails (some "EOF") ∷ closes ∷ reads 1 ∷ []

calls-IsValid_example :
    IsValid (calls plain_cipher plain_cipher-Documented (process, root) use_it).1
calls-IsValid_example =
    calls-IsValid plain_cipher plain_cipher-Documented use_it (process, root) root-IsValid

read-ok_example :
    (out : List ℕ) × (s : ℕ) × (read plain_cipher process 16 root ≡ (
      record process { metrics = add_bytes_generated (pos 16) process.metrics },
      record root { cipher = some s; generated = 100 + 16 },
      ok out,
    ))
    × (length out ≡ 16)
read-ok_example =
    read-ok plain_cipher plain_cipher-Documented process 16 root root-IsValid refl (omega arith)

abbrev after : ℕ → Process × Drbg ℕ
after n = (
  record process { metrics = add_bytes_generated (pos n) process.metrics },
  record root { cipher = some (100 + n); generated = 100 + n },
)

read-split_example :
    read plain_cipher process (2 + 3) root
    ≡ ((after 5).0, (after 5).1, ok (replicate 2 0 ++ replicate 3 0))
unfolding read read_locked
read-split_example =
    read-split plain_cipher plain_cipher-Documented process (after 2).0 (after 5).0 2 3 root
      (after 2).1 (after 5).1 (replicate 2 0) (replicate 3 0) root-IsValid (omega arith) refl refl

reseed-ok_example :
    let h = plain_cipher.sha512 (root.key ++ seed32) in
    (s : ℕ) × (reseed plain_cipher 9 seed32 root ≡ (
      record root {
        key = take 32 h;
        nonce = take 16 (drop 32 h);
        cipher = some s;
        generated = 0;
        reseeded = 9;
        reseeds = add64 root.reseeds 1;
        last_reseed_error = "";
        reseed_epoch = add64 root.reseed_epoch 1;
      },
      ok tt,
    ))
    × (new_cipher_stream plain_cipher root.algorithm (take 32 h) (take 16 (drop 32 h)) ≡ ok s)
reseed-ok_example =
    reseed-ok plain_cipher plain_cipher-Documented 9 seed32 root root-IsValid refl (omega arith)

-- Two constructions, one of them refused, and a generator that is closed twice.
abbrev births : List Event
births = construct 1 seed32 "chacha20" ∷ construct 2 [] "chacha20" ∷ shut 0 ∷ shut 0 ∷ []

abbrev nobody : World ℕ
nobody = record { process = record process { active_drbg = pos 0 }; generators = [] }

nobody-IsExact : IsExact nobody
nobody-IsExact = ground arith

run-IsExact_example : IsExact (run plain_cipher nobody births)
run-IsExact_example = run-IsExact plain_cipher births nobody nobody-IsExact

abbrev reader : Reader ℕ
reader = new_reader

read_connection-Served_example :
    ((must_refresh 16 root reader ≡ true)
      × FreshlyServed plain_cipher plain_cipher-Documented 16 process root reader
          (read_connection plain_cipher 8 16 process root reader))
    ⊎ ((must_refresh 16 root reader ≡ false)
        × StillServed plain_cipher plain_cipher-Documented 16 process root reader
            (read_connection plain_cipher 8 16 process root reader))
read_connection-Served_example =
    read_connection-Served plain_cipher plain_cipher-Documented 8 16 process root reader
      root-IsValid refl (omega arith) tt refl (omega arith) (omega arith)
