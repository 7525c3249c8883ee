-- ===== src/Api/Keeps.antt =====
-- The steps of the client's calls that follow its request, and the request pipe.
use event_management_server.Base.{
  ℕ, zero, suc, ◌+◌, ◌-◌, ◌%◌, ◌≡◌, refl, Bool, true, false, Option-cases, [], ◌∷◌, inl, inr, ltb,
  ◌==◌, Bool-cases, if◌then◌else◌, size_mod,
}
use event_management_server.Io.{my_write}
use event_management_server.Io.Descriptor.{Bytes, Source, Sink}
use event_management_server.Wire.{int_size, size_size, failed, read_value}
use event_management_server.Number.{print_str, print_uint}
use event_management_server.Api.{Pipes, Outcome, await_result, result_read, closed}
use event_management_server.Api.Output.{
  stopped, fetch, printed, print_text, print_number, print_newline, nonzero, minus_one_returned,
}
use event_management_server.Api.Show.{print_row, print_rows, show_answer}
use event_management_server.Api.ListEvents.{event_label, print_ids, list_answer}

abbrev pub Keeps : (Outcome → Outcome) → Type 0
Keeps step = (o : Outcome) → (step o).requests ≡ o.requests

if-Keeps : (b : Bool) (f g : Outcome → Outcome) → Keeps f → Keeps g → Keeps (if b then f else g)
if-Keeps true f g kept kept' = kept
if-Keeps false f g kept kept' = kept'

fetch-Keeps :
    (stale : ℕ → Source → Bytes) (size : ℕ) (next : ℕ → Outcome → Outcome)
    → ((v : ℕ) → Keeps (next v))
    → Keeps (fetch stale size next)
unfolding fetch stopped
fetch-Keeps stale size next kept o =
    let got = read_value size (stale size o.responses) o.responses in
    elim (Bool-cases got.0) [
      | inl bad ↦ rw bad
      | inr fine ↦ rw fine (kept got.1 (record o { responses = got.2 }))
    ]

printed-Keeps :
    (bad : ℕ → Bool) (next : Outcome → Outcome) (out : ℕ × Sink)
    → Keeps next
    → Keeps (λ o. printed bad next o out)
unfolding printed stopped
printed-Keeps bad next (r, sink) kept o = elim (Bool-cases (bad r)) [
  | inl stops ↦ rw stops
  | inr goes_on ↦ rw goes_on (kept (record o { output = sink }))
]

print_text-Keeps :
    (bad : ℕ → Bool) (text : Bytes) (next : Outcome → Outcome)
    → Keeps next
    → Keeps (print_text bad text next)
unfolding print_text
print_text-Keeps bad text next kept o = printed-Keeps bad next (print_str text o.output) kept o

print_number-Keeps :
    (bad : ℕ → Bool) (value : ℕ) (next : Outcome → Outcome)
    → Keeps next
    → Keeps (print_number bad value next)
unfolding print_number
print_number-Keeps bad value next kept o = elim (Option-cases (print_uint value o.output)) [
  | inl overrun ↦ rw (overrun, print_number)
  | inr (out, e) ↦ rw (e, print_number) (printed-Keeps bad next out kept o)
]

print_newline-Keeps : (next : Outcome → Outcome) → Keeps next → Keeps (print_newline next)
unfolding print_newline stopped
print_newline-Keeps next kept o = elim (Bool-cases (failed (my_write (b'\n' ∷ []) o.output).0)) [
  | inl bad ↦ rw bad
  | inr fine ↦ rw fine (kept (record o { output = (my_write (b'\n' ∷ []) o.output).1 }))
]

module _ (stale : ℕ → Source → Bytes) where
  print_row-Keeps :
      (num_cols n j : ℕ) (next : Outcome → Outcome)
      → Keeps next
      → Keeps (print_row stale num_cols n j next)
  unfolding print_row
  print_row-Keeps num_cols zero j next kept = kept
  print_row-Keeps num_cols (suc n) j next kept =
      let rest = print_row stale num_cols n (j + 1) next in
      let kept' : Keeps rest = print_row-Keeps num_cols n (j + 1) next kept in
      let spaced = if ltb j num_cols then print_text nonzero (b' ' ∷ []) rest else rest in
      fetch-Keeps stale int_size (λ seat. print_number nonzero seat spaced)
        λ seat. print_number-Keeps nonzero seat spaced (
          if-Keeps (ltb j num_cols) (print_text nonzero (b' ' ∷ []) rest) rest
            (print_text-Keeps nonzero (b' ' ∷ []) rest kept') kept')

  print_rows-Keeps :
      (num_cols n : ℕ) (next : Outcome → Outcome)
      → Keeps next
      → Keeps (print_rows stale num_cols n next)
  unfolding print_rows
  print_rows-Keeps num_cols zero next kept = kept
  print_rows-Keeps num_cols (suc n) next kept =
      let rest = print_rows stale num_cols n next in
      print_row-Keeps num_cols num_cols 0 (print_newline rest)
        (print_newline-Keeps rest (print_rows-Keeps num_cols n next kept))

  pub show_answer-Keeps :
      (finish : ℕ → Outcome → Outcome) (result : ℕ)
      → Keeps (finish result)
      → Keeps (show_answer stale finish result)
  unfolding show_answer
  show_answer-Keeps finish result kept =
      let grid = λ (rows cols : ℕ). print_rows stale cols rows (finish result) in
      fetch-Keeps stale size_size (λ rows. fetch stale size_size (grid rows))
        λ rows.
          fetch-Keeps stale size_size (grid rows)
            λ cols. print_rows-Keeps cols rows (finish result) kept

  print_ids-Keeps :
      (num_events n i : ℕ) (next : Outcome → Outcome)
      → Keeps next
      → Keeps (print_ids stale num_events n i next)
  unfolding print_ids
  print_ids-Keeps num_events zero i next kept = kept
  print_ids-Keeps num_events (suc n) i next kept =
      let rest = print_ids stale num_events n (i + 1) next in
      let kept' : Keeps rest = print_ids-Keeps num_events n (i + 1) next kept in
      let inner = ltb i ((num_events + size_mod - 1) % size_mod) in
      let lines = if inner then print_newline rest else rest in
      let number = λ (id : ℕ). print_number minus_one_returned id lines in
      fetch-Keeps stale int_size (λ id. print_text minus_one_returned event_label (number id))
        λ id. print_text-Keeps minus_one_returned event_label (number id) (
          print_number-Keeps minus_one_returned id lines
            (if-Keeps inner (print_newline rest) rest (print_newline-Keeps rest kept') kept'))

  pub list_answer-Keeps :
      (finish : ℕ → Outcome → Outcome) (result : ℕ)
      → Keeps (finish result)
      → Keeps (list_answer stale finish result)
  unfolding list_answer stopped
  list_answer-Keeps finish result kept o = elim (Bool-cases (result == 2)) [
    | inl none_there ↦ rw none_there
    | inr some_there ↦ rw some_there (
        fetch-Keeps stale size_size (λ n. print_ids stale n n 0 (print_newline (finish result)))
          (λ n.
            print_ids-Keeps n n 0 (print_newline (finish result))
              (print_newline-Keeps (finish result) kept))
          o)
  ]

module _ (pipes : Pipes) (stale : ℕ → Source → Bytes) (answers : Sink → Source) where
  pub closed-Keeps : (result : ℕ) → Keeps (closed pipes stale answers result)
  unfolding closed
  closed-Keeps result o = refl

  result_read-requests :
      (next : ℕ → Outcome → Outcome) (output requests : Sink) (out : Bool × ℕ × Source)
      → ((r : ℕ) → Keeps (next r))
      → (result_read pipes stale answers next output requests out).requests ≡ requests
  unfolding result_read
  result_read-requests next output requests (true, result, src) kept = refl
  result_read-requests next output requests (false, result, src) kept =
      elim (Bool-cases (result == 1)) [
        | inl one ↦ rw one refl
        | inr other ↦ rw other (kept result _)
      ]

  pub await_result-requests :
      (next : ℕ → Outcome → Outcome) (output requests : Sink)
      → ((r : ℕ) → Keeps (next r))
      → (await_result pipes stale answers next output requests).requests ≡ requests
  unfolding await_result
  await_result-requests next output requests kept = elim (Bool-cases pipes.open_response) [
    | inl opens ↦ rw opens (
        result_read-requests next output requests
          (read_value int_size (stale int_size (answers requests)) (answers requests)) kept)
    | inr fails ↦ rw fails refl
  ]
