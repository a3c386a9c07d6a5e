-- ===== src/Client/Diag/Rate.antt =====
-- rate.go: `RateMeter`. A time is a number of nanoseconds, and a rate is floating point, a parameter
-- that makes one of a number of bytes and a number of nanoseconds.
use entropy_service.Prelude.{ℕ, ◌+◌, ◌-◌, ltb, if◌then◌else◌}
use entropy_service.Prelude.Word.{add64}

pub record RateMeter (F : Type 0) : Type 0 where
  pub rate : F
  pub last : ℕ
  pub bytes : ℕ
  pub total : ℕ

module _ {F : Type 0} (zero_rate : F) (bits_per_second : ℕ → ℕ → F) where
  -- `NewRateMeter` and `Reset`, at a time.
  abbrev pub reset_meter : ℕ → RateMeter F
  reset_meter now = record { rate = zero_rate; last = now; bytes = 0; total = 0 }

  -- `Update`: a window that is shorter than a second goes on.
  unfoldable pub update_meter : ℕ → ℕ → RateMeter F → RateMeter F
  update_meter now n r =
      let total = add64 r.total n in
      if ltb (now - r.last) 1000000000
      then record r { bytes = r.bytes + n; total = total }
      else record {
        rate = bits_per_second (r.bytes + n) (now - r.last);
        last = now;
        bytes = 0;
        total = total;
      }
