-- ===== src/Event.antt =====
-- src/gu_pid_ctx_event.c: the table of listeners for process context events. A callback is a
-- value of any type, NULL is `none`; what the code calls is the list of calls that it makes. The
-- mutex makes each operation one step.
pub mod Queue
use libgunwinder.Base.{
  ℕ, zero, suc, ◌-◌, Bool, true, false, Option, none, some, List, [], ◌∷◌, if◌then◌else◌, replicate,
  take, ltb, length, ◌++◌, ◌==◌,
}

abbrev pub listener_max : ℕ
listener_max = 16

abbrev pub task_comm_len : ℕ
task_comm_len = 16

pub record PidCtxEvent : Type 0 where
  pub pid : ℕ
  pub type : ℕ
  pub start_time : ℕ
  pub comm : List ℕ

-- `strncpy(dst, src, size)` into a zeroed array, whose last byte is then set to 0.
unfoldable pub copy_comm : List ℕ → List ℕ
copy_comm s =
    let kept = take (task_comm_len - 1) s in kept ++ replicate (task_comm_len - length kept) 0

-- A listener is a callback with the context that it was registered with.
module _ {ℓ} {Listener : Type ℓ} where
  -- The loop to the first free slot; `none` when it finds none.
  unfoldable pub fill_slot : List (Option Listener) → Listener → Option (List (Option Listener))
  fill_slot [] l = none
  fill_slot (none ∷ r) l = some (some l ∷ r)
  fill_slot (some k ∷ r) l = elim (fill_slot r l) [ none ↦ none | some t ↦ some (some k ∷ t) ]

  abbrev pub outcome :
      List (Option Listener) → Option (List (Option Listener)) → List (Option Listener) × Bool
  outcome table none = (table, false)
  outcome table (some t) = (t, true)

  -- The table after the call, and whether the call returned 0. A NULL callback is `none`.
  unfoldable pub register_listener :
      List (Option Listener) → Option Listener → List (Option Listener) × Bool
  register_listener table none = (table, false)
  register_listener table (some l) = outcome table (fill_slot table l)

  -- The calls that `pid_ctx_event_notify` makes, in order.
  unfoldable pub notify : List (Option Listener) → PidCtxEvent → List (Listener × PidCtxEvent)
  notify [] event = []
  notify (none ∷ r) event = notify r event
  notify (some l ∷ r) event = (l, event) ∷ notify r event

  -- A missing or empty name leaves the zeroed array.
  unfoldable pub notify_pid_ctx :
      List (Option Listener) → ℕ → ℕ → Option (List ℕ) → ℕ → List (Listener × PidCtxEvent)
  notify_pid_ctx table pid start_time comm type = notify table (record {
    pid = pid;
    type = type;
    start_time = start_time;
    comm = elim comm [ none ↦ replicate task_comm_len 0 | some name ↦ copy_comm name ];
  })
