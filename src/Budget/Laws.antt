-- ===== src/Budget/Laws.antt =====
-- What an admission of either budget may do, and that both admission functions do it.
use native.Mathlib.Nat.{mul-le-mul_right, div-mul-le_self}
use entropy_service.Prelude.{
  ℕ, ◌+◌, ◌-◌, ◌*◌, ◌/◌, ◌≤◌, ◌<◌, ◌≡◌, ◌↔◌, Bool, false, suc, arith, ◌⊎◌, inl, inr,
}
use entropy_service.Prelude.Int.{ℤ, pos, ◌-ℤ◌, ◌≤ℤ◌, pos_part}
use entropy_service.Prelude.Word.{max_int64, add64}
use entropy_service.Prelude.Outcome.{Outcome, ok, err}
use entropy_service.Budget.Defs.{Budget, Refusal, Ticket, grant, status_too_large}
use entropy_service.Budget.WebSocket.{ws_reservation, ws_admit}
use entropy_service.Budget.Http.{http_reservation, http_admit}

-- A refusal may count itself, and changes nothing else.
pub record KeepsUse (b b' : Budget) : Type 0 where
  pub active : b'.active ≡ b.active
  pub reserved : b'.reserved ≡ b.reserved
  pub peak_active : b'.peak_active ≡ b.peak_active
  pub peak_reserved : b'.peak_reserved ≡ b.peak_reserved
  pub max_active : b'.max_active ≡ b.max_active
  pub max_memory : b'.max_memory ≡ b.max_memory

abbrev pub Admits : Budget → ℤ → Budget → Outcome Refusal Ticket → Type 0
Admits b needed b' (err r) = KeepsUse b b'
Admits b needed b' (ok t) =
    (needed ≡ pos t.needed)
    × (0 < t.needed)
    × (t.released ≡ false)
    × (b.active < b.max_active)
    × (b.reserved + t.needed ≤ b.max_memory)
    × (b' ≡ grant b t.needed)

pub ws_admit-Admits :
    (c : Bool) (b : Budget) (needed : ℤ)
    → Admits b needed (ws_admit c b needed).0 (ws_admit c b needed).1
unfolding ws_admit ◌-ℤ◌
ws_admit-Admits c b needed = ground arith

pub http_admit-Admits :
    (c : Bool) (b : Budget) (needed : ℤ)
    → Admits b needed (http_admit c b needed).0 (http_admit c b needed).1
unfolding http_admit ◌-ℤ◌
http_admit-Admits c b needed = ground arith

abbrev ticket : ℕ → Ticket
ticket k = record { needed = k; released = false }

-- A WebSocket is admitted, and what it needs granted, exactly when its context is live, it needs a
-- positive amount, whichever integer that is, a connection is free and the reservation fits what is
-- left of the memory budget.
pub ws_admit-grants_iff :
    (c : Bool) (b : Budget) (needed : ℤ)
    → let k = pos_part needed in
      (ws_admit c b needed ≡ (grant b k, ok (ticket k))) ↔ (
        (c ≡ false)
        × (pos 1 ≤ℤ needed)
        × (b.active < b.max_active)
        × (b.reserved + k ≤ b.max_memory))
unfolding ws_admit ◌-ℤ◌
ws_admit-grants_iff c b needed = ((λ h. ground arith), (λ h. ground arith))

-- What a client sees of a verdict: the status and the header of a refusal, or the reservation.
abbrev pub seen : Outcome Refusal Ticket → (ℕ × Bool) ⊎ ℕ
seen (err r) = inl (r.code, r.retry_after)
seen (ok t) = inr t.needed

-- The two admission functions leave the same budget, and answer with the same status, the same
-- Retry-After header or the same reservation.
pub http_admit-eq-ws_admit :
    (c : Bool) (b : Budget) (needed : ℤ)
    → ((http_admit c b needed).0 ≡ (ws_admit c b needed).0)
      × (seen (http_admit c b needed).1 ≡ seen (ws_admit c b needed).1)
unfolding http_admit ws_admit
http_admit-eq-ws_admit c b needed = ground arith

-- The product that a reservation adds stays within the quotient's dividend.
mul-le_of_le-div : (q m p : ℕ) → q ≤ m / p → q * p ≤ m
mul-le_of_le-div q m p h = omega (arith, mul-le-mul_right p h, div-mul-le_self m p)

pub ws_reservation-le : (quantity : ℤ) (per_item : ℕ) → ws_reservation quantity per_item ≤ max_int64
unfolding ws_reservation
ws_reservation-le quantity per_item =
    ground (arith, mul-le_of_le-div (pos_part quantity) (max_int64 - 65536) per_item)

-- A larger quantity never reserves less, from 1 on.
pub ws_reservation_mono :
    (q r : ℤ) (per_item : ℕ)
    → pos 1 ≤ℤ q
    → q ≤ℤ r
    → ws_reservation q per_item ≤ ws_reservation r per_item
unfolding ws_reservation
ws_reservation_mono q r per_item h k = ground (
  arith,
  mul-le_of_le-div (pos_part q) (max_int64 - 65536) per_item,
  mul-le_of_le-div (pos_part r) (max_int64 - 65536) per_item,
  mul-le-mul_right {m = pos_part q} {n = pos_part r} per_item,
)

pub http_reservation-eq-ws_reservation :
    (quantity : ℤ) (per_item : ℕ)
    → 0 < per_item
    → http_reservation quantity (pos per_item) ≡ ws_reservation quantity per_item
unfolding http_reservation ws_reservation
http_reservation-eq-ws_reservation quantity per_item h = ground arith

-- A quantity below 1, or one whose reservation does not fit an int64, is too large for any budget
-- of fewer than max_int64 bytes: it is refused with 413 and counted, and nothing is reserved.
pub ws_admit-saturated :
    (b : Budget) (quantity : ℤ) (per_item : ℕ)
    → b.max_memory < max_int64
    → (quantity ≤ℤ pos 0) ⊎ (pos (suc ((max_int64 - 65536) / per_item)) ≤ℤ quantity)
    → let (b', verdict) = ws_admit false b (pos (ws_reservation quantity per_item)) in
      (seen verdict ≡ inl (status_too_large, false))
      × (b' ≡ record b { rejected_size = add64 b.rejected_size 1 })
unfolding ws_admit ws_reservation
ws_admit-saturated b quantity per_item small bad = ground arith
