-- ===== src/Budget/Defs.antt =====
-- The budget record, the refusals and the release closure of ws_budget.go and http_budget.go.
-- The mutex makes each call one step, so a call is a function from budget to budget.
use entropy_service.Prelude.{
  ℕ, ◌+◌, ◌-◌, Bool, true, String, List, [], ◌∷◌, if◌then◌else◌, ◌==◌, max,
}

-- `webSocketBudget`; `httpRequestBudget` has `maxRequests` for `max_active` and
-- `rejectedRequests` for `rejected_active`. `active` and `reserved` never fall below 0, because
-- an admission is released once at most, so they are plain numbers.
pub record Budget : Type 0 where
  pub max_active : ℕ
  pub max_memory : ℕ
  pub word_memory : ℕ
  pub active : ℕ
  pub peak_active : ℕ
  pub reserved : ℕ
  pub peak_reserved : ℕ
  pub rejected_active : ℕ
  pub rejected_memory : ℕ
  pub rejected_size : ℕ

-- An error response: `http.Error(w, message, code)`, and whether `Retry-After: 1` is set.
pub record Refusal : Type 0 where
  pub code : ℕ
  pub retry_after : Bool
  pub message : String

-- The closure that an admission returns: what it reserved, and its `sync.Once`.
pub record Ticket : Type 0 where
  pub needed : ℕ
  pub released : Bool

abbrev pub status_too_large : ℕ
status_too_large = 413

abbrev pub status_unavailable : ℕ
status_unavailable = 503

-- `if code == http.StatusServiceUnavailable { Retry-After: 1 }; http.Error(w, message, code)`.
abbrev pub refuse : ℕ → String → Refusal
refuse code message = record {
  code = code;
  retry_after = code == status_unavailable;
  message = message;
}

-- The `default` case of the switch: take the reservation and move the peaks.
abbrev pub grant : Budget → ℕ → Budget
grant b n = record b {
  active = b.active + 1;
  reserved = b.reserved + n;
  peak_active = max b.peak_active (b.active + 1);
  peak_reserved = max b.peak_reserved (b.reserved + n);
}

-- The returned closure: `once.Do` makes a second call do nothing.
unfoldable pub release : Budget → Ticket → Budget × Ticket
release b t = if t.released then (b, t) else (
  record b { active = b.active - 1; reserved = b.reserved - t.needed },
  record t { released = true },
)

-- `webSocketUsage`, and with its names changed `httpBudgetUsage`.
pub record Usage : Type 0 where
  pub active : ℕ
  pub max_active : ℕ
  pub peak_active : ℕ
  pub reserved : ℕ
  pub max_memory : ℕ
  pub peak_reserved : ℕ
  pub rejected_active : ℕ
  pub rejected_memory : ℕ
  pub rejected_size : ℕ

unfoldable pub usage : Budget → Usage
usage b = record {
  active = b.active;
  max_active = b.max_active;
  peak_active = b.peak_active;
  reserved = b.reserved;
  max_memory = b.max_memory;
  peak_reserved = b.peak_reserved;
  rejected_active = b.rejected_active;
  rejected_memory = b.rejected_memory;
  rejected_size = b.rejected_size;
}

-- The longest of the dictionary's words, by their lengths: the loop of the two constructors.
unfoldable pub longest_word : ℕ → List ℕ → ℕ
longest_word longest [] = longest
longest_word longest (n ∷ lengths) = longest_word (max longest n) lengths

-- A budget with nothing in use.
abbrev pub idle_budget : ℕ → ℕ → ℕ → Budget
idle_budget max_active max_memory word_memory = record {
  max_active = max_active;
  max_memory = max_memory;
  word_memory = word_memory;
  active = 0;
  peak_active = 0;
  reserved = 0;
  peak_reserved = 0;
  rejected_active = 0;
  rejected_memory = 0;
  rejected_size = 0;
}
