-- ===== src/Lifecycle/Laws.antt =====
-- What a shutdown can rely on, however handlers and shutdowns interleave.
use entropy_service.Prelude.{◌≤◌, ◌≡◌, ◌⊎◌, true, false, arith}
use entropy_service.Lifecycle.Managed.{
  Managed, new_managed_server, enter, rejected, Step, arrives, leaves, stops, cancels, waits, joins,
  Steps, here, next,
}

-- The phases of a shutdown come in their order, and the channel is closed only when it is over.
pub record IsOrdered (s : Managed) : Type 0 where
  pub cancel_after_stop : (s.canceled ≡ false) ⊎ (s.stopping ≡ true)
  pub wait_after_cancel : (s.waiting ≡ false) ⊎ (s.canceled ≡ true)
  pub done_after_handlers : (s.done ≡ false) ⊎ ((s.waiting ≡ true) × (s.handlers ≡ 0))

Step-IsOrdered : {s t : Managed} → Step s t → IsOrdered s → IsOrdered t
unfolding enter
Step-IsOrdered arrives v = ground arith
Step-IsOrdered (leaves n e) v = ground arith
Step-IsOrdered stops v = ground arith
Step-IsOrdered (cancels e) v = ground arith
Step-IsOrdered (waits e) v = ground arith
Step-IsOrdered (joins e f) v = ground arith

Steps-IsOrdered : {s t : Managed} → Steps s t → IsOrdered s → IsOrdered t
Steps-IsOrdered here v = v
Steps-IsOrdered (next p q) v = Step-IsOrdered q (Steps-IsOrdered p v)

-- In every state that a new server can reach, a shutdown that sees the channel closed has no
-- handler left, and none can enter any more: the next request is rejected.
pub new_managed_server-joins :
    {s : Managed}
    → Steps new_managed_server s
    → s.done ≡ true
    → (s.handlers ≡ 0) × (enter s ≡ (s, rejected))
unfolding enter
new_managed_server-joins p e = ground (arith, Steps-IsOrdered p (ground arith))

Step-drains :
    {s t : Managed} → Step s t → s.stopping ≡ true → (t.stopping ≡ true) × (t.handlers ≤ s.handlers)
unfolding enter
Step-drains arrives h = ground arith
Step-drains (leaves n e) h = ground arith
Step-drains stops h = ground arith
Step-drains (cancels e) h = ground arith
Step-drains (waits e) h = ground arith
Step-drains (joins e f) h = ground arith

-- Once the admission is closed it stays closed, and the number of running handlers never grows.
pub Steps-drains :
    {s t : Managed}
    → Steps s t
    → s.stopping ≡ true
    → (t.stopping ≡ true) × (t.handlers ≤ s.handlers)
Steps-drains here h = (h, omega arith)
Steps-drains (next p q) h =
    let (stop, less) = Steps-drains p h in
    let (stop', less') = Step-drains q stop in (stop', omega arith)
