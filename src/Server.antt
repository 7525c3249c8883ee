-- ===== src/Server.antt =====
-- The main thread of src/server/main.c: the signal's flag, `print_events`, and the rounds of
-- `extract_requests`. The thread that runs `insert_request` is joined at once, so it is a call here.
-- Its `none` is a wait on a full buffer.
pub mod Extract
pub mod Paths
pub mod Connect
pub mod Setup
pub mod Handshake
pub mod Events
pub mod Dropped
pub mod Start
use event_management_server.Base.{
  ℕ, zero, suc, ◌+◌, ◌-◌, Bool, true, false, Option, none, some, List, [], ◌∷◌, ◌++◌, take, drop,
  length, ◌==◌, if◌then◌else◌, uint_mod,
}
use event_management_server.Memory.{
  Ptr, null, fault, out_of_fuel, Cmd, pure, ◌>>=◌, ◌>>◌, load_list, load_node, load_event, gets,
}
use event_management_server.Io.{Received, my_read}
use event_management_server.Io.Descriptor.{Bytes, Source, Sink}
use event_management_server.Wire.{failed, overlay}
use event_management_server.Number.{print_str, print_uint}
use event_management_server.Operations.{Calls}
use event_management_server.Operations.Stdout.{ems_show_stdout}
use event_management_server.Requests.{Request, Buffer, insert_request}
use event_management_server.Api.ListEvents.{event_label}

-- SIGUSR1
abbrev pub sigusr1 : ℕ
sigusr1 = 10

-- The handler: `print_flag` afterwards.
unfoldable pub sigusr1_handler : (signum print_flag : ℕ) → ℕ
sigusr1_handler signum print_flag = if signum == sigusr1 then 1 else print_flag

-- The signals that arrive before the flag is tested.
unfoldable pub after_signals : List ℕ → ℕ → ℕ
unfolding sigusr1_handler
after_signals [] print_flag = print_flag
after_signals (signum ∷ signums) print_flag =
    after_signals signums (sigusr1_handler signum print_flag)

-- The call of `print_uint`; a write outside its buffer is a fault.
print_id : ℕ → (Sink → Cmd (ℕ × Sink)) → Sink → Cmd (ℕ × Sink)
print_id id next sink = elim (print_uint id sink) [ none ↦ λ _. fault | some out ↦ next out.1 ]

-- The rest of a round, for the event with this id: code 1 where it cannot be shown.
unfoldable pub print_event : Calls → ℕ → ℕ → (Sink → Cmd (ℕ × Sink)) → Sink → Cmd (ℕ × Sink)
unfolding print_id
print_event calls fuel id next sink =
    print_id id
      (λ sink'. do
        out ← ems_show_stdout calls fuel id (print_str (b'\n' ∷ []) sink').1
        if out.0 == 1 then pure (1, out.1) else next out.1)
      (print_str event_label sink).1

-- The loop, which ends at the tail of the list, before printing it.
unfoldable pub print_from :
    (ℕ → Calls) → (size fuel : ℕ) → (current to : Ptr) → Sink → Cmd (ℕ × Sink)
unfolding print_event
print_from calls size zero current to sink = λ _. out_of_fuel
print_from calls size (suc fuel) current to sink = if current == to then pure (0, sink) else do
  n ← load_node current
  e ← load_event n.event
  print_event (calls fuel) size e.id (print_from calls size fuel n.next to) sink

-- `size` is the fuel of each search for an event.
unfoldable pub print_events : (ℕ → Calls) → (size fuel : ℕ) → Sink → Cmd (ℕ × Sink)
unfolding print_from
print_events calls size fuel sink = do
  list ← gets (λ s. s.event_list)
  events ← load_list list
  if events.head == null
      then pure (1, sink)
      else print_from calls size fuel events.head events.tail sink
