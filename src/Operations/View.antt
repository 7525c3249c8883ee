-- ===== src/Operations/View.antt =====
-- The list of events that the server's memory stands for, without addresses.
use event_management_server.Base.{
  ℕ, ◌≡◌, refl, ap, ◌≤◌, suc, true, false, Option, none, List, [], ◌∷◌, ◌++◌, ◌==◌, length, ==_ne,
}
use event_management_server.Seats.{Event}
use event_management_server.Memory.{Ptr, null, State, done, load_list}
use event_management_server.EventList.Chain.{
  Cells, has_event, events_of, Content, nil, chain, Represents, frame, deref-done, fresh_event,
}
use event_management_server.EventList.Lookup.{address_of, get_event_lem}
use event_management_server.Operations.{on_list, get_event_with_delay}

pub record Lists (s : State) (es : List Event) : Type 0 where
  pub cells : Cells
  pub rep : Represents s cells
  pub view : events_of cells ≡ es

pub events_of-append :
    (cells : Cells) (p e : Ptr) (v : Event)
    → events_of (cells ++ (p, e, v) ∷ []) ≡ events_of cells ++ v ∷ []
events_of-append [] p e v = refl
events_of-append ((q, e', w) ∷ cells) p e v = ap (λ es. w ∷ es) (events_of-append cells p e v)

pub length-events_of : (cells : Cells) → length (events_of cells) ≡ length cells
length-events_of [] = refl
length-events_of (c ∷ cells) = ap suc (length-events_of cells)

Content-events :
    {s : State} {h t : Ptr} {cells : Cells} (events : Ptr → Option Event)
    → Content s h t cells
    → ((a : Ptr) → has_event a cells ≡ true → events a ≡ s.events a)
    → Content (record s { events = events }) h t cells
Content-events events nil same = nil
Content-events events (chain c) same = chain (frame c (λ a i. refl) same)

-- Writes to events that are not the list's leave the list as it is.
pub Represents-events :
    {s : State} {cells : Cells} (events : Ptr → Option Event)
    → Represents s cells
    → ((a : Ptr) → has_event a cells ≡ true → events a ≡ s.events a)
    → Represents (record s { events = events }) cells
Represents-events events rep same = record {
  list_ne_null = rep.list_ne_null;
  list = rep.list;
  held = rep.held;
  content = Content-events events rep.content same;
}

pub Content-fresh :
    {s : State} {h t : Ptr} {cells : Cells} (a : Ptr)
    → Content s h t cells
    → s.events a ≡ none
    → has_event a cells ≡ false
Content-fresh a nil unused = refl
Content-fresh a (chain c) unused = fresh_event a c unused

module _ {s : State} {cells : Cells} (rep : Represents s cells) where
  pub list_not_null : (s.event_list == null) ≡ false
  list_not_null = ==_ne s.event_list null rep.list_ne_null

  pub load_list-done : load_list s.event_list s ≡ done rep.list s
  load_list-done = deref-done (λ t. t.lists) s.event_list s rep.list rep.list_ne_null rep.held

  pub on_list-done : (r : ℕ) → on_list s.event_list r s ≡ done r s
  on_list-done r = rw load_list-done

  pub get_event-done :
      (fuel id : ℕ)
      → length cells ≤ fuel
      → get_event_with_delay fuel id rep.list.head rep.list.tail s ≡ done (address_of id cells) s
  unfolding get_event_with_delay
  get_event-done fuel id enough = get_event_lem fuel id rep.list rep.list_ne_null rep.content enough
