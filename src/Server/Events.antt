-- ===== src/Server/Events.antt =====
-- `print_events` against the list of events.
use event_management_server.Base.{
  ℕ, zero, suc, ◌<◌, ◌≤◌, ◌≡◌, ◌≢◌, refl, ap, sym, ◌∙◌, subst, List, [], ◌∷◌, ◌++◌, arith, length,
  ◌==◌, if◌then◌else◌, ==_ne, ==_iff, ==_refl, Bool-cases, inl, inr, append_assoc, append-nil,
  uint_mod,
}
use event_management_server.Seats.{Event}
use event_management_server.Seats.Types.{AllTypes}
use event_management_server.Memory.{Ptr, null, State, Cmd, pure}
use event_management_server.Memory.Returns
use event_management_server.Memory.Returns.{Returns, returns}
use event_management_server.Io.Descriptor.{Bytes, Sink}
use event_management_server.Io.Deliver.{sink, my_write_open}
use event_management_server.Wire.Answers.{Sent-open}
use event_management_server.Number.{print_str}
use event_management_server.Number.Print.{decimal_text, print_str-my_write, print_uint-decimal_text}
use event_management_server.EventList.Chain.{
  Cells, events_of, Chain, last, cons, Content, nil, chain, load_node-done, load_event-done,
  has_node-tail, Chain-ne_null,
}
use event_management_server.Operations.{Calls}
use event_management_server.Operations.View.{Lists, length-events_of, load_list-done}
use event_management_server.Operations.Reserve.{AllValid}
use event_management_server.Operations.StdoutShow.{stdout_spec, ems_show_stdout_lem}
use event_management_server.Api.ListEvents.{event_label}
use event_management_server.Server.{print_id, print_event, print_from, print_events}

-- The lines for an event: its id, and its seats where they can be shown.
unfoldable pub event_text : Calls → List Event → ℕ → Bytes
unfolding stdout_spec
event_text calls es id = event_label ++ (decimal_text id ++ b'\n' ∷ (stdout_spec calls id es).1)

-- All events but the last, up to the first that cannot be shown. The calls of each round have the
-- number of rounds that are left.
unfoldable pub events_text : (ℕ → Calls) → List Event → ℕ → List Event → ℕ × Bytes
unfolding event_text stdout_spec
events_text calls es zero left = (0, [])
events_text calls es (suc fuel) [] = (0, [])
events_text calls es (suc fuel) (e ∷ []) = (0, [])
events_text calls es (suc fuel) (e ∷ e' ∷ left) =
    let later = events_text calls es fuel (e' ∷ left) in
    let now = event_text (calls fuel) es e.id in
    if (stdout_spec (calls fuel) e.id es).0 == 1 then (1, now) else (later.0, now ++ later.1)

-- With no event the code is 1.
unfoldable pub printed : (ℕ → Calls) → List Event → ℕ → ℕ × Bytes
unfolding events_text
printed calls [] fuel = (1, [])
printed calls (e ∷ es) fuel = events_text calls (e ∷ es) fuel (e ∷ es)

more_text :
    {s : State} {tail q : Ptr} {cells : Cells} (calls : ℕ → Calls) (es : List Event) (fuel : ℕ)
    (e : Event)
    → Chain s tail q cells
    → let later = events_text calls es fuel (events_of cells) in
      let now = event_text (calls fuel) es e.id in
      events_text calls es (suc fuel) (e ∷ events_of cells)
      ≡ (if (stdout_spec (calls fuel) e.id es).0 == 1 then (1, now) else (later.0, now ++ later.1))
unfolding events_text
more_text calls es fuel e (last h) = refl
more_text calls es fuel e (cons h out out' c) = refl

print_from_nodes :
    {s : State} {tail p : Ptr} {cells : Cells} (calls : ℕ → Calls) (fuel : ℕ)
    → Chain s tail p cells
    → printed calls (events_of cells) fuel
      ≡ events_text calls (events_of cells) fuel (events_of cells)
unfolding printed
print_from_nodes calls fuel (last h) = refl
print_from_nodes calls fuel (cons h out out' c) = refl

print_str_open :
    (text written : Bytes) → print_str text (sink [] written) ≡ (0, sink [] (written ++ text))
print_str_open text written =
    rw (print_str-my_write text (sink [] written), my_write_open text written)

module _ (size : ℕ) {s : State} {es : List Event} (l : Lists s es) (valid : AllValid es)
    (types : AllTypes es) (enough : length es ≤ size) where
  print_event_lem :
      {P : ℕ × Sink → State → Type 0} (calls : Calls) (id : ℕ) (written : Bytes)
      (next : Sink → Cmd (ℕ × Sink))
      → id < uint_mod
      → ((stdout_spec calls id es).0 ≡ 1 → P (1, sink [] (written ++ event_text calls es id)) s)
      → ((stdout_spec calls id es).0 ≢ 1
          → Returns P (next (sink [] (written ++ event_text calls es id)) s))
      → Returns P (print_event calls size id next (sink [] written) s)
  unfolding print_event print_id event_text
  print_event_lem {P} calls id written next small stops goes_on =
      let front = ((written ++ event_label) ++ decimal_text id) ++ b'\n' ∷ [] in
      let text = (stdout_spec calls id es).1 in
      let same : front ++ text ≡ written ++ (event_label ++ (decimal_text id ++ b'\n' ∷ text)) =
        simp (append_assoc) in
      rw
        (
          print_str_open event_label written,
          print_uint-decimal_text id (written ++ event_label) small,
          print_id,
          print_str_open (b'\n' ∷ []) ((written ++ event_label) ++ decimal_text id),
        )
        (Returns.bind (ems_show_stdout_lem calls size id (sink [] front) l valid types enough)
          λ out s' p.
            let (code, all_there) = Sent-open refl p.1 in
            rw (p.0, code, all_there, same)
              (elim (Bool-cases ((stdout_spec calls id es).0 == 1)) [
                | inl one ↦ rw one (returns (stops ((==_iff (stdout_spec calls id es).0 1).0 one)))
                | inr more ↦ rw more (goes_on (ground (arith, more)))
              ]))

  print_from_lem :
      {tail p : Ptr} {cells : Cells} (calls : ℕ → Calls) (fuel : ℕ) (written : Bytes)
      → Chain s tail p cells
      → AllTypes (events_of cells)
      → length cells ≤ fuel
      → Returns
          (λ out s'.
            (s' ≡ s)
            × (out ≡ (
              (events_text calls es fuel (events_of cells)).0,
              sink [] (written ++ (events_text calls es fuel (events_of cells)).1),
            )))
          (print_from calls size fuel p tail (sink [] written) s)
  unfolding print_from events_text
  print_from_lem calls zero written (last h) fits few = absurd (omega arith)
  print_from_lem calls zero written (cons h out out' c) fits few = absurd (omega arith)
  print_from_lem {tail} calls (suc fuel) written (last h) fits few =
      rw (==_refl tail, append-nil written) (returns (refl, refl))
  print_from_lem {tail} calls (suc fuel) written (cons {p} {q} {v} {cells} h out out' c) fits few =
      let apart : p ≢ tail = ground (arith, has_node-tail c) in
      let spec = stdout_spec (calls fuel) v.id es in
      let now = event_text (calls fuel) es v.id in
      let later = events_text calls es fuel (events_of cells) in
      rw (==_ne p tail apart, load_node-done h, load_event-done h, more_text calls es fuel v c)
        (print_event_lem (calls fuel) v.id written (print_from calls size fuel q tail) fits.0.id-lt
          (λ one. rw one (refl, refl))
          λ other.
            rw (==_ne spec.0 1 other, ← append_assoc written now later.1)
              (print_from_lem calls fuel (written ++ now) c fits.1 (omega arith)))

  -- What follows the test for an empty list.
  print_events_locked :
      {h t : Ptr} {cells : Cells} (calls : ℕ → Calls) (fuel : ℕ) (written : Bytes)
      → Content s h t cells
      → events_of cells ≡ es
      → length es ≤ fuel
      → Returns
          (λ out s'.
            (s' ≡ s)
            × (out ≡ ((printed calls es fuel).0, sink [] (written ++ (printed calls es fuel).1))))
          ((if h == null
              then pure (1, sink [] written)
              else print_from calls size fuel h t (sink [] written))
            s)
  unfolding printed
  print_events_locked calls fuel written nil view few =
      rw (← view, append-nil written) (returns (refl, refl))
  print_events_locked {h} {cells} calls fuel written (chain c) view few =
      let whole : printed calls es fuel ≡ events_text calls es fuel (events_of cells) =
        ap (λ xs. printed calls xs fuel) (sym view)
        ∙ print_from_nodes calls fuel c
        ∙ ap (λ xs. events_text calls xs fuel (events_of cells)) view in
      rw (==_ne h null (Chain-ne_null c).0, whole)
        (print_from_lem calls fuel written c (subst (λ xs. AllTypes xs) (sym view) types)
          (omega (arith, length-events_of cells, ap length view)))

-- `print_events` leaves the memory as it is. Behind what is on the standard output it prints all events
-- but the last, each with its id and its seats, and returns 0; it returns 1 at the first that cannot
-- be shown, and with no text where there is no event. The standard output takes everything.
pub print_events_lem :
    {s : State} {es : List Event} (calls : ℕ → Calls) (size fuel : ℕ) (written : Bytes)
    → Lists s es
    → AllValid es
    → AllTypes es
    → length es ≤ size
    → length es ≤ fuel
    → Returns
        (λ out s'.
          (s' ≡ s)
          × (out ≡ ((printed calls es fuel).0, sink [] (written ++ (printed calls es fuel).1))))
        (print_events calls size fuel (sink [] written) s)
unfolding print_events
print_events_lem {s} {es} calls size fuel written l valid types enough few =
    rw (load_list-done l.rep)
      (print_events_locked size l valid types enough calls fuel written l.rep.content l.view few)
