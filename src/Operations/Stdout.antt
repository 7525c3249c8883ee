-- ===== src/Operations/Stdout.antt =====
-- `ems_show_stdout` of src/server/operations.c. `sprintf` with "%u" gives the decimal digits; its buffer has
-- 16 bytes.
use event_management_server.Base.{
  ℕ, zero, suc, ◌+◌, Option, none, some, [], ◌∷◌, get_elem?, length, ltb, ◌==◌, if◌then◌else◌,
}
use event_management_server.Seats.{Event, seat_index}
use event_management_server.Memory.{
  Ptr, null, fault, Cmd, pure, ◌>>=◌, ◌>>◌, load_list, load_event, gets,
}
use event_management_server.Io.Descriptor.{Bytes, Sink}
use event_management_server.Number.{print_str}
use event_management_server.Number.Print.{decimal_text}
use event_management_server.Operations.{Calls, on_list, get_event_with_delay}

-- The text of a number in a buffer of 16 bytes, which has room for the zero byte too.
unfoldable pub sprintf_uint : ℕ → Option Bytes
unfolding decimal_text
sprintf_uint value =
    let text = decimal_text value in if ltb (length text) 16 then some text else none

-- `print_str` and its test: code 1 at once where it does not return 0.
unfoldable pub show_text : Bytes → (Sink → Cmd (ℕ × Sink)) → Sink → Cmd (ℕ × Sink)
show_text text next sink =
    let (r, sink') = print_str text sink in if r == 0 then next sink' else pure (1, sink')

unfoldable pub show_number : ℕ → (Sink → Cmd (ℕ × Sink)) → Sink → Cmd (ℕ × Sink)
unfolding sprintf_uint show_text
show_number value next sink = elim (sprintf_uint value) [
  | none ↦ λ _. fault
  | some text ↦ show_text text next sink
]

-- The loop over the columns of row `i`, from `j` on, with `n` rounds left.
unfoldable pub show_row : Event → (i n j : ℕ) → (Sink → Cmd (ℕ × Sink)) → Sink → Cmd (ℕ × Sink)
unfolding show_number
show_row event i zero j next sink = next sink
show_row event i (suc n) j next sink =
    let rest = show_row event i n (j + 1) next in
    elim (get_elem? event.seats (seat_index event i j)) [
      | none ↦ λ _. fault
      | some seat ↦
          show_number seat (if ltb j event.cols then show_text (b' ' ∷ []) rest else rest) sink
    ]

-- The loop over the rows, from `i` on, with `n` rounds left. It ends for each number of rows but
-- 2^64 - 1.
unfoldable pub show_rows : Event → (n i : ℕ) → Sink → Cmd (ℕ × Sink)
unfolding show_row
show_rows event zero i sink = pure (0, sink)
show_rows event (suc n) i sink =
    show_row event i event.cols 1 (show_text (b'\n' ∷ []) (show_rows event n (i + 1))) sink

unfoldable pub show_located : Calls → Ptr → Sink → Cmd (ℕ × Sink)
unfolding show_rows
show_located calls event sink = if event == null then pure (1, sink) else do
  e ← load_event event
  if calls.mutex_lock == 0 then show_rows e e.rows 1 sink else pure (1, sink)

unfoldable pub ems_show_stdout : Calls → ℕ → ℕ → Sink → Cmd (ℕ × Sink)
unfolding show_located
ems_show_stdout calls fuel event_id sink = do
  list ← gets (λ s. s.event_list)
  if list == null then pure (1, sink) else do
    locked ← on_list list calls.rwlock_lock
    if locked == 0
        then (do
          l ← load_list list
          event ← get_event_with_delay fuel event_id l.head l.tail
          on_list list calls.rwlock_unlock
          show_located calls event sink)
        else pure (1, sink)
