-- ===== src/Api/ListEvents.antt =====
-- `ems_list_events` of src/client/api.c.
use event_management_server.Base.{
  ℕ, zero, suc, ◌+◌, ◌-◌, ◌%◌, [], ◌∷◌, ltb, ◌==◌, if◌then◌else◌, size_mod,
}
use event_management_server.Io.Descriptor.{Bytes, Source, Sink}
use event_management_server.Wire.{int_size, size_size}
use event_management_server.Number.{print_str}
use event_management_server.Api.{Pipes, Outcome, start, await_result, closed}
use event_management_server.Api.Output.{
  stopped, fetch, minus_one_returned, print_text, print_number, print_newline,
}

-- "Event: "
abbrev pub event_label : Bytes
event_label = b'E' ∷ b'v' ∷ b'e' ∷ b'n' ∷ b't' ∷ b':' ∷ b' ' ∷ []

-- "No events\n"
abbrev pub no_events : Bytes
no_events = b'N' ∷ b'o' ∷ b' ' ∷ b'e' ∷ b'v' ∷ b'e' ∷ b'n' ∷ b't' ∷ b's' ∷ b'\n' ∷ []

module _ (stale : ℕ → Source → Bytes) where
  -- The loop over the ids, from `i` on, with `n` rounds left.
  unfoldable pub print_ids : (num_events n i : ℕ) → (Outcome → Outcome) → Outcome → Outcome
  unfolding fetch print_text print_number print_newline
  print_ids num_events zero i next = next
  print_ids num_events (suc n) i next =
      let rest = print_ids num_events n (i + 1) next in
      fetch stale int_size λ event_id. print_text minus_one_returned event_label (
        print_number minus_one_returned event_id
          (if ltb i ((num_events + size_mod - 1) % size_mod) then print_newline rest else rest))

  -- What follows a result that is not 1; `finish` closes the pipes.
  unfoldable pub list_answer : (finish : ℕ → Outcome → Outcome) → ℕ → Outcome → Outcome
  unfolding stopped fetch print_ids print_newline
  list_answer finish result o =
      if result == 2
      then stopped (record o { output = (print_str no_events o.output).1 })
      else fetch stale size_size
          (λ num_events. print_ids num_events num_events 0 (print_newline (finish result))) o

module _ (pipes : Pipes) (stale : ℕ → Source → Bytes) (answers : Sink → Source) where
  unfoldable pub ems_list_events : (session_id : ℕ) → Sink → Sink → Outcome
  unfolding start await_result closed list_answer
  ems_list_events session_id output =
      start pipes stale answers 6 session_id
        (await_result pipes stale answers (list_answer stale (closed pipes stale answers)) output)
        output
