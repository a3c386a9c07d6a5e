-- ===== src/Lifecycle/Managed.antt =====
-- `managedServer`: admission of handlers, and the phases of `Shutdown`. The steps of different
-- goroutines interleave, so each critical section is a step of its own. The shutdown of the
-- embedded http.Server is a package's; it changes none of this state.
use entropy_service.Prelude.{ℕ, suc, ◌+◌, ◌≡◌, Bool, true, false, if◌then◌else◌}

-- The mutex guards `stopping`; `handlers` is the WaitGroup's count, `waiting` says that the
-- `waitOnce` has run, and `done` that the channel is closed.
pub record Managed : Type 0 where
  pub stopping : Bool
  pub canceled : Bool
  pub handlers : ℕ
  pub waiting : Bool
  pub done : Bool

-- `newManagedServer`.
abbrev pub new_managed_server : Managed
new_managed_server = record {
  stopping = false;
  canceled = false;
  handlers = 0;
  waiting = false;
  done = false;
}

-- The outcome of the handler's critical section.
pub data Entry : Type 0 where
  rejected entered : Entry

-- The installed handler up to the call of the wrapped one: 503 while stopping, else one more.
unfoldable pub enter : Managed → Managed × Entry
enter s = if s.stopping then (s, rejected) else (record s { handlers = s.handlers + 1 }, entered)

-- `Shutdown` closes the admission, then cancels the base context.
abbrev pub close_admission : Managed → Managed
close_admission s = record s { stopping = true }

abbrev pub cancel : Managed → Managed
cancel s = record s { canceled = true }

-- `waitOnce.Do`: the goroutine that waits is started once.
abbrev pub start_wait : Managed → Managed
start_wait s = record s { waiting = true }

-- One step of any goroutine. A handler leaves (`handlers.Done`) only after it entered, a shutdown
-- cancels after it closed the admission and waits after it canceled, and the goroutine that waits
-- closes the channel when the count is 0.
pub data Step : Managed → Managed → Type 0 where
  arrives : {s : Managed} → Step s (enter s).0
  leaves : {s : Managed} (n : ℕ) → s.handlers ≡ suc n → Step s (record s { handlers = n })
  stops : {s : Managed} → Step s (close_admission s)
  cancels : {s : Managed} → s.stopping ≡ true → Step s (cancel s)
  waits : {s : Managed} → s.canceled ≡ true → Step s (start_wait s)
  joins : {s : Managed} → s.waiting ≡ true → s.handlers ≡ 0 → Step s (record s { done = true })

pub data Steps (s : Managed) : Managed → Type 0 where
  here : Steps s s
  next : {t u : Managed} → Steps s t → Step t u → Steps s u
