-- ===== src/Budget/Settles.antt =====
-- An admission that is given back: whatever the verdict, the use of the budget is as it was.
use entropy_service.Prelude.{◌≡◌, Bool, arith}
use entropy_service.Prelude.Int.{ℤ}
use entropy_service.Prelude.Outcome.{Outcome, ok, err}
use entropy_service.Budget.Defs.{Budget, Refusal, Ticket, release}
use entropy_service.Budget.Http.{http_admit}
use entropy_service.Budget.WebSocket.{ws_admit}
use entropy_service.Budget.Laws.{Admits, http_admit-Admits, ws_admit-Admits}

-- The same use of a budget: only the peaks and the counts of refusals may differ.
pub record SameUse (b b' : Budget) : Type 0 where
  pub active : b'.active ≡ b.active
  pub reserved : b'.reserved ≡ b.reserved
  pub max_active : b'.max_active ≡ b.max_active
  pub max_memory : b'.max_memory ≡ b.max_memory

-- A verdict whose reservation, if there is one, gives the budget back when it is released.
abbrev pub Settles : Budget → Budget × Outcome Refusal Ticket → Type 0
Settles b (b', err r) = SameUse b b'
Settles b (b', ok t) = SameUse b (release b' t).0

Admits-Settles :
    (b : Budget) (needed : ℤ) (r : Budget × Outcome Refusal Ticket)
    → Admits b needed r.0 r.1
    → Settles b r
unfolding release
Admits-Settles b needed (b', err r) h = ground arith
Admits-Settles b needed (b', ok t) h = ground arith

pub http_admit-Settles : (c : Bool) (b : Budget) (needed : ℤ) → Settles b (http_admit c b needed)
http_admit-Settles c b needed =
    Admits-Settles b needed (http_admit c b needed) (http_admit-Admits c b needed)

pub ws_admit-Settles : (c : Bool) (b : Budget) (needed : ℤ) → Settles b (ws_admit c b needed)
ws_admit-Settles c b needed =
    Admits-Settles b needed (ws_admit c b needed) (ws_admit-Admits c b needed)
