-- ===== src/Operations.antt =====
-- src/server/operations.c over the explicit memory. What the calls of libc and of pthread return in one
-- run of an operation is an argument; the messages on stderr are not modelled. The operations that
-- answer a client are in `Operations.Answer`.
pub mod View
pub mod CreateSpec
pub mod Create
pub mod Lifecycle
pub mod Reserve
pub mod Types
pub mod Frame
pub mod Answer
pub mod Sending
pub mod Show
pub mod ListEvents
pub mod Stdout
pub mod StdoutGrid
pub mod StdoutShow
pub mod AnswerFrame
pub mod Lengths
pub mod Ends
use event_management_server.Base.{
  ℕ, zero, suc, Bool, true, false, ◌||◌, ◌&&◌, not, Option, none, some, List, [], ◌∷◌, ◌==◌,
  if◌then◌else◌,
}
use event_management_server.Seats.{
  Event, Seat, Reservation, refused, granted, corrupted, in_bounds, reserve_event, new_event,
}
use event_management_server.Memory.{
  Ptr, null, EventList, State, fault, Cmd, done, pure, ◌>>=◌, ◌>>◌, load_list, load_event,
  store_event, gets,
}
use event_management_server.EventList.{create_list, append_to_list, free_list, get_event}

-- Locks return 0 on success, `malloc` the address of the block or NULL; `calloc` stands for
-- whether it returned an array.
pub record Calls : Type 0 where
  pub malloc_list : Ptr
  pub rwlock_init : ℕ
  pub rwlock_lock : ℕ
  pub rwlock_unlock : ℕ
  pub malloc_event : Ptr
  pub mutex_init : ℕ
  pub calloc : Bool
  pub malloc_node : Ptr
  pub mutex_lock : ℕ

-- a call of pthread on the lock of the list, which reads the struct
abbrev pub on_list : Ptr → ℕ → Cmd ℕ
on_list list result = load_list list >> pure result

unfoldable pub get_event_with_delay : ℕ → ℕ → (from to : Ptr) → Cmd Ptr
get_event_with_delay fuel event_id from to = do
  list ← gets (λ s. s.event_list)
  get_event fuel list event_id from to

set_state : Ptr → ℕ → Cmd Unit
set_state list delay_us s =
    done tt (record s { event_list = list; state_access_delay_us = delay_us })

unfoldable pub ems_init : Calls → ℕ → Cmd ℕ
unfolding set_state
ems_init calls delay_us = do
  list ← gets (λ s. s.event_list)
  if list == null
      then (do
        fresh ← create_list calls.malloc_list calls.rwlock_init
        set_state fresh delay_us
        pure (if fresh == null then 1 else 0))
      else pure 1

unfoldable pub ems_terminate : Calls → ℕ → Cmd ℕ
ems_terminate calls fuel = do
  list ← gets (λ s. s.event_list)
  if list == null then pure 1 else do
    locked ← on_list list calls.rwlock_lock
    if locked == 0
        then (do
          free_list fuel list
          unlocked ← on_list list calls.rwlock_unlock
          pure (if unlocked == 0 then 0 else 1))
        else pure 1

-- The new event is filled in and its mutex is initialised.
append_new : Calls → Ptr → Cmd ℕ
append_new calls list = do
  appended ← append_to_list calls.malloc_node list calls.malloc_event
  on_list list calls.rwlock_unlock
  if appended == 0 then pure 0 else do store_event calls.malloc_event none; pure 1

-- `ems_create` from `malloc` on, with the id not in the list. `on_list` stands where the list is
-- unlocked; the result of that is not used.
create_event : Calls → Ptr → (event_id num_rows num_cols : ℕ) → Cmd ℕ
create_event calls list event_id num_rows num_cols =
    let event = calls.malloc_event in
    let filled = new_event event_id num_rows num_cols in
    if event == null then (do on_list list calls.rwlock_unlock; pure 1) else do
      store_event event (some (record filled { seats = [] }))
      if calls.mutex_init == 0
          then (if calls.calloc
              then (do store_event event (some filled); append_new calls list)
              else (do on_list list calls.rwlock_unlock; store_event event none; pure 1))
          else (do on_list list calls.rwlock_unlock; store_event event none; pure 1)

unfoldable pub ems_create : Calls → ℕ → (event_id num_rows num_cols : ℕ) → Cmd ℕ
unfolding create_event append_new get_event_with_delay
ems_create calls fuel event_id num_rows num_cols = do
  list ← gets (λ s. s.event_list)
  if list == null then pure 1 else do
    locked ← on_list list calls.rwlock_lock
    if locked == 0
        then (do
          l ← load_list list
          found ← get_event_with_delay fuel event_id l.head l.tail
          if found == null
              then create_event calls list event_id num_rows num_cols
              else (do on_list list calls.rwlock_unlock; pure 1))
        else pure 1

store_reservation : Ptr → Reservation → Cmd ℕ
store_reservation event refused = pure 1
store_reservation event (granted e) = do store_event event (some e); pure 0
store_reservation event corrupted = λ _. fault

-- `ems_reserve` from the test of the event on, with what its critical section makes of the event; the
-- mutex is unlocked at the end of each branch.
reserve_found : Calls → Ptr → (Event → Reservation) → Cmd ℕ
unfolding store_reservation
reserve_found calls event section = if event == null then pure 1 else do
  e ← load_event event
  if calls.mutex_lock == 0 then store_reservation event (section e) else pure 1

unfoldable pub reserve_by : Calls → ℕ → ℕ → (Event → Reservation) → Cmd ℕ
unfolding reserve_found get_event_with_delay
reserve_by calls fuel event_id section = do
  list ← gets (λ s. s.event_list)
  if list == null then pure 1 else do
    locked ← on_list list calls.rwlock_lock
    if locked == 0
        then (do
          l ← load_list list
          event ← get_event_with_delay fuel event_id l.head l.tail
          unlocked ← on_list list calls.rwlock_unlock
          if unlocked == 0 then reserve_found calls event section else pure 1)
        else pure 1

unfoldable pub ems_reserve : Calls → ℕ → ℕ → List Seat → Cmd ℕ
unfolding reserve_by
ems_reserve calls fuel event_id seats = reserve_by calls fuel event_id (λ e. reserve_event e seats)

-- With a number of seats beyond the arrays, which have `seats`: the bounds loop comes to a seat that is
-- outside the event, or reads behind the arrays.
overrun_section : List Seat → Event → Reservation
overrun_section seats e = if in_bounds e seats then corrupted else refused

unfoldable pub ems_reserve_overrun : Calls → ℕ → ℕ → List Seat → Cmd ℕ
unfolding reserve_by overrun_section
ems_reserve_overrun calls fuel event_id seats =
    reserve_by calls fuel event_id (overrun_section seats)
