-- ===== src/Api/EventLines.antt =====
-- What `ems_list_events` of the client prints.
use event_management_server.Base.{
  ℕ, suc, ◌+◌, ◌-◌, ◌%◌, ◌<◌, ◌≡◌, refl, subst, true, false, some, List, [], ◌∷◌, ◌++◌, arith,
  length, ltb, append_assoc, if◌then◌else◌, size_mod, uint_mod,
}
use event_management_server.Seats.{Event}
use event_management_server.Seats.Types.{AllTypes}
use event_management_server.Io.Descriptor.{Bytes, Source}
use event_management_server.Io.Deliver.{sink, my_write_open}
use event_management_server.Wire.{int_size, size_size, encode}
use event_management_server.Number.Print.{decimal_text, print_str-my_write}
use event_management_server.Operations.ListEvents.{ids_bytes}
use event_management_server.Api.{Outcome}
use event_management_server.Api.Output.{
  stopped, minus_one_returned, print_text, print_number, print_newline,
}
use event_management_server.Api.ListEvents.{event_label, no_events, print_ids, list_answer}
use event_management_server.Api.Printing.{
  Reads, fetch_lem, print_text_lem, print_number_lem, print_newline_lem,
}

-- A line for each event.
unfoldable pub lines_text : List Event → Bytes
lines_text [] = []
lines_text (e ∷ es) = event_label ++ (decimal_text e.id ++ b'\n' ∷ lines_text es)

last_index : (n : ℕ) → 0 < n → n < size_mod → (n + size_mod - 1) % size_mod ≡ n - 1
last_index n pos small = omega arith

module _ (P : Outcome → Type 0) (stale : ℕ → Source → Bytes)
    (sized : (n : ℕ) (src : Source) → length (stale n src) ≡ n) where
  last_round :
      (num_events i : ℕ) (finish : Outcome → Outcome)
      → print_ids stale num_events 0 (i + 1) (print_newline finish) ≡ print_newline finish
  unfolding print_ids
  last_round num_events i finish = refl

  -- One round, up to the test for the last event.
  print_id_lem :
      (num_events n i id : ℕ) (rest text : Bytes) (next lines : Outcome → Outcome) (o : Outcome)
      → (if ltb i ((num_events + size_mod - 1) % size_mod)
          then print_newline (print_ids stale num_events n (i + 1) next)
          else print_ids stale num_events n (i + 1) next)
        ≡ print_newline lines
      → id < uint_mod
      → Reads (encode int_size id ++ rest) text o
      → ((o' : Outcome)
          → Reads rest (((text ++ event_label) ++ decimal_text id) ++ b'\n' ∷ []) o'
          → P (lines o'))
      → P (print_ids stale num_events (suc n) i next o)
  unfolding print_ids
  print_id_lem num_events n i id rest text next lines o same small r more =
      let number = λ (v : ℕ). print_number minus_one_returned v (print_newline lines) in
      rw same (
        fetch_lem P stale int_size id rest text
          (λ v. print_text minus_one_returned event_label (number v)) o sized small r
          λ o1 r1.
            print_text_lem P minus_one_returned event_label rest text (number id) o1 refl r1
              λ o2 r2.
                print_number_lem P minus_one_returned id rest (text ++ event_label)
                  (print_newline lines) o2 refl small r2
                  λ o3 r3.
                    print_newline_lem P rest ((text ++ event_label) ++ decimal_text id) lines o3 r3
                      more)

  print_ids_lem :
      (num_events i : ℕ) (e : Event) (es : List Event) (text : Bytes) (finish : Outcome → Outcome)
      (o : Outcome)
      → i + suc (length es) ≡ num_events
      → num_events < size_mod
      → AllTypes (e ∷ es)
      → Reads (ids_bytes (e ∷ es)) text o
      → ((o' : Outcome) → Reads [] (text ++ lines_text (e ∷ es)) o' → P (finish o'))
      → P (print_ids stale num_events (suc (length es)) i (print_newline finish) o)
  unfolding ids_bytes lines_text
  print_ids_lem num_events i e [] text finish o index small fits r more =
      let last : ltb i ((num_events + size_mod - 1) % size_mod) ≡ false =
        ground (arith, last_index num_events (omega arith) small) in
      let same : ((text ++ event_label) ++ decimal_text e.id) ++ b'\n' ∷ []
          ≡ text ++ (event_label ++ (decimal_text e.id ++ b'\n' ∷ [])) =
        simp (append_assoc) in
      print_id_lem num_events 0 i e.id [] text (print_newline finish) finish o
        (rw last (last_round num_events i finish)) fits.0.id-lt r
        λ o1 r1. more o1 (subst (λ t. Reads [] t o1) same r1)
  print_ids_lem num_events i e (e' ∷ es) text finish o index small fits r more =
      let inner : ltb i ((num_events + size_mod - 1) % size_mod) ≡ true =
        ground (arith, last_index num_events (omega arith) small) in
      let onward = print_ids stale num_events (suc (length es)) (i + 1) (print_newline finish) in
      let text' = ((text ++ event_label) ++ decimal_text e.id) ++ b'\n' ∷ [] in
      let same : text' ++ lines_text (e' ∷ es)
          ≡ text ++ (event_label ++ (decimal_text e.id ++ b'\n' ∷ lines_text (e' ∷ es))) =
        simp (append_assoc) in
      print_id_lem num_events (suc (length es)) i e.id (ids_bytes (e' ∷ es)) text
        (print_newline finish) onward o (rw inner refl) fits.0.id-lt r
        λ o1 r1.
          print_ids_lem num_events (i + 1) e' es text' finish o1 (omega arith) small fits.1 r1
            λ o2 r2. more o2 (subst (λ t. Reads [] t o2) same r2)

  -- The answer of the server behind the result: a line for each event is printed.
  pub list_answer_lem :
      (e : Event) (es : List Event) (text : Bytes) (finish : ℕ → Outcome → Outcome) (o : Outcome)
      → length (e ∷ es) < size_mod
      → AllTypes (e ∷ es)
      → Reads (encode size_size (length (e ∷ es)) ++ ids_bytes (e ∷ es)) text o
      → ((o' : Outcome) → Reads [] (text ++ lines_text (e ∷ es)) o' → P (finish 0 o'))
      → P (list_answer stale finish 0 o)
  unfolding list_answer
  list_answer_lem e es text finish o small fits r more =
      fetch_lem P stale size_size (length (e ∷ es)) (ids_bytes (e ∷ es)) text
        (λ n. print_ids stale n n 0 (print_newline (finish 0))) o sized small r
        λ o1 r1.
          print_ids_lem (length (e ∷ es)) 0 e es text (finish 0) o1 (omega arith) small fits r1 more

  -- The result 2: the message is printed and the client returns 1.
  pub list_answer-none :
      (rest text : Bytes) (finish : ℕ → Outcome → Outcome) (o : Outcome)
      → Reads rest text o
      → ((o' : Outcome) → o'.code ≡ some 1 → o'.output ≡ sink [] (text ++ no_events) → P o')
      → P (list_answer stale finish 2 o)
  unfolding list_answer stopped
  list_answer-none rest text finish o r last =
      rw (r.output, print_str-my_write no_events (sink [] text), my_write_open no_events text)
        (last _ refl refl)
