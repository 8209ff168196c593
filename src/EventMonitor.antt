-- ===== src/EventMonitor.antt =====
-- The table of watched files of tools/virtio/event_monitor.c: `add_event`, `remove_event` and
-- `destroy_event_monitor`. What `epoll_ctl` answers is an argument, and so is the address that `calloc`
-- gives. The thread that waits for events is not modelled.
pub mod Slots
use hvisor_tool.Base.{
  ℕ, zero, suc, ◌+◌, Bool, true, false, ◌||◌, List, [], ◌∷◌, ◌++◌, Option, none, some, length, leb,
  ◌==◌, if◌then◌else◌,
}

-- MAX_EVENTS
abbrev pub max_events : ℕ
max_events = 16

-- `struct hvisor_event`, at its address.
pub record HvisorEvent : Type 0 where
  pub address : ℕ
  pub fd : ℕ
  pub epoll_type : ℕ
  pub handler : ℕ
  pub param : ℕ

-- A call of `epoll_ctl`: EPOLL_CTL_ADD or EPOLL_CTL_DEL.
pub data EpollCtl : Type 0 where
  ctl_add : ℕ → EpollCtl
  ctl_del : ℕ → EpollCtl

-- The first `events_num` entries of `events`, and the calls of `epoll_ctl` made, the latest first.
pub record Monitor : Type 0 where
  pub events : List (Option HvisorEvent)
  pub calls : List EpollCtl

-- The event that `add_event` returns, or NULL. A negative `fd` is `none`, and so is a handler that is
-- NULL.
unfoldable pub add_event :
    ℕ → Bool → Option ℕ → ℕ → Option ℕ → ℕ → Monitor → Option HvisorEvent × Monitor
add_event address epoll_ok none epoll_type handler param m = (none, m)
add_event address epoll_ok (some fd) epoll_type none param m = (none, m)
add_event address epoll_ok (some fd) epoll_type (some handler) param m =
    let event : HvisorEvent = record {
      address = address;
      fd = fd;
      epoll_type = epoll_type;
      handler = handler;
      param = param;
    } in
    if leb max_events (length m.events)
    then (none, m)
    else if epoll_ok
    then (
      some event,
      record { events = m.events ++ (some event ∷ []); calls = ctl_add fd ∷ m.calls },
    )
    else (none, record m { calls = ctl_add fd ∷ m.calls })

-- The loop of `remove_event`, with the entry that was found.
unfoldable pub clear_slot :
    ℕ → List (Option HvisorEvent) → Option HvisorEvent × List (Option HvisorEvent)
clear_slot address [] = (none, [])
clear_slot address (none ∷ es) = let (found, rest) = clear_slot address es in (found, none ∷ rest)
clear_slot address (some e ∷ es) =
    let (found, rest) = clear_slot address es in
    if e.address == address then (some e, none ∷ es) else (found, some e ∷ rest)

unfoldable pub remove_event : ℕ → Monitor → Monitor
remove_event address m =
    if address == 0
    then m
    else let (found, events) = clear_slot address m.events in
      elim found [ none ↦ m | some e ↦ record { events = events; calls = ctl_del e.fd ∷ m.calls } ]

-- The loop of `destroy_event_monitor`.
unfoldable pub clear_slots : Monitor → List (Option HvisorEvent) → List EpollCtl → Monitor
clear_slots m [] calls = record m { calls = calls }
clear_slots m (none ∷ es) calls =
    let rest = clear_slots m es calls in record rest { events = none ∷ rest.events }
clear_slots m (some e ∷ es) calls =
    let rest = clear_slots m es (ctl_del e.fd ∷ calls) in
    record rest { events = none ∷ rest.events }

unfoldable pub destroy_event_monitor : Monitor → Monitor
destroy_event_monitor m = clear_slots (record { events = []; calls = [] }) m.events m.calls
