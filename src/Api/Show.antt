-- ===== src/Api/Show.antt =====
-- `ems_show` of src/client/api.c.
use event_management_server.Base.{ℕ, zero, suc, ◌+◌, [], ◌∷◌, ltb, if◌then◌else◌}
use event_management_server.Io.Descriptor.{Bytes, Source, Sink}
use event_management_server.Wire.{int_size, size_size, encode}
use event_management_server.Api.{Pipes, Outcome, start, send, await_result, closed}
use event_management_server.Api.Output.{fetch, nonzero, print_text, print_number, print_newline}

module _ (stale : ℕ → Source → Bytes) where
  -- The loop over the columns, from `j` on, with `n` rounds left.
  unfoldable pub print_row : (num_cols n j : ℕ) → (Outcome → Outcome) → Outcome → Outcome
  unfolding fetch print_text print_number
  print_row num_cols zero j next = next
  print_row num_cols (suc n) j next =
      let rest = print_row num_cols n (j + 1) next in
      fetch stale int_size λ seat.
        print_number nonzero seat
          (if ltb j num_cols then print_text nonzero (b' ' ∷ []) rest else rest)

  -- The loop over the rows, with `n` left.
  unfoldable pub print_rows : (num_cols n : ℕ) → (Outcome → Outcome) → Outcome → Outcome
  unfolding print_row print_newline
  print_rows num_cols zero next = next
  print_rows num_cols (suc n) next =
      print_row num_cols num_cols 0 (print_newline (print_rows num_cols n next))

  -- What follows a result that is not 1; `finish` closes the pipes.
  unfoldable pub show_answer : (finish : ℕ → Outcome → Outcome) → ℕ → Outcome → Outcome
  unfolding fetch print_rows
  show_answer finish result =
      fetch stale size_size
        λ num_rows. fetch stale size_size λ num_cols. print_rows num_cols num_rows (finish result)

module _ (pipes : Pipes) (stale : ℕ → Source → Bytes) (answers : Sink → Source) where
  unfoldable pub ems_show : (session_id event_id : ℕ) → Sink → Sink → Outcome
  unfolding start send await_result closed show_answer
  ems_show session_id event_id output =
      start pipes stale answers 5 session_id
        (send pipes stale answers (encode int_size event_id)
          (await_result pipes stale answers (show_answer stale (closed pipes stale answers)) output)
          output)
        output
