-- ===== src/Tests/Memory.antt =====
-- A server with one event, its list at address 10, the node at 20 and the event at 30.
use event_management_server.Base.{
  ◌≡◌, refl, true, Option, none, some, [], ◌∷◌, arith, ◌==◌, if◌then◌else◌,
}
use event_management_server.Memory.{Ptr, State, done, fault, deref}
use event_management_server.Memory.Returns.{Returns}
use event_management_server.EventList.{free_list, get_event, search_nodes}
use event_management_server.EventList.Chain.{
  Cells, has_node, has_event, Holds, last, chain, Represents, Content,
}
use event_management_server.EventList.Free.{free_list_lem}
use event_management_server.Operations.{Calls, ems_create, ems_reserve, ems_terminate}
use event_management_server.Operations.View.{Lists}
use event_management_server.Operations.Create.{ems_create_lem}
use event_management_server.Operations.CreateSpec.{Fresh, create_spec}
use event_management_server.Operations.Reserve.{AllValid, reserve_spec, ems_reserve_lem}
use event_management_server.Operations.Lifecycle.{ems_terminate_fault}
use event_management_server.Tests.Seats.{concert, request, concert-IsValid}

abbrev pub at : {V : Type 0} → Ptr → V → Ptr → Option V
at p v q = if q == p then some v else none

abbrev pub nowhere : {V : Type 0} → Ptr → Option V
nowhere q = none

abbrev pub running : State
running = record {
  event_list = 10;
  state_access_delay_us = 5;
  lists = at 10 (record { head = 20; tail = 20 });
  nodes = at 20 (record { event = 30; next = 0 });
  events = at 30 concert;
}

abbrev cells : Cells
cells = (20, 30, concert) ∷ []

running-Holds : Holds running 20 30 0 concert
running-Holds = record {
  node_ne_null = omega arith;
  node = refl;
  event_ne_null = omega arith;
  event = refl;
}

running-Content : Content running 20 20 cells
running-Content = chain (last running-Holds)

running-Represents : Represents running cells
running-Represents = record {
  list_ne_null = omega arith;
  list = record { head = 20; tail = 20 };
  held = refl;
  content = running-Content;
}

pub running-Lists : Lists running (concert ∷ [])
running-Lists = record { cells = cells; rep = running-Represents; view = refl }

abbrev pub calls : Calls
calls = record {
  malloc_list = 10;
  rwlock_init = 0;
  rwlock_lock = 0;
  rwlock_unlock = 0;
  malloc_event = 31;
  mutex_init = 0;
  calloc = true;
  malloc_node = 21;
  mutex_lock = 0;
}

found : get_event 1 10 7 20 20 running ≡ done 30 running
unfolding get_event search_nodes deref
found = refl

free_list_lem_example :
    Returns
      (λ _ s'.
        ((a : Ptr) → s'.nodes a ≡ (if has_node a cells then none else running.nodes a))
        × ((a : Ptr) → s'.events a ≡ (if has_event a cells then none else running.events a))
        × (s'.event_list ≡ 10)
        × (s'.lists s'.event_list ≡ none))
      (free_list 2 10 running)
free_list_lem_example = free_list_lem 2 running-Represents (omega arith)

pub running-Fresh : Fresh calls running
running-Fresh = record { event = refl; node = refl }

ems_create_lem_example :
    Returns
      (λ r s'.
        (r ≡ (create_spec calls 8 4 5 (concert ∷ [])).0)
        × Lists s' (create_spec calls 8 4 5 (concert ∷ [])).1)
      (ems_create calls 1 8 4 5 running)
ems_create_lem_example = ems_create_lem calls 1 8 4 5 running-Lists running-Fresh (omega arith)

ems_reserve_lem_example :
    Returns
      (λ r s'.
        (r ≡ (reserve_spec calls 7 request (concert ∷ [])).0)
        × Lists s' (reserve_spec calls 7 request (concert ∷ [])).1
        × AllValid (reserve_spec calls 7 request (concert ∷ [])).1)
      (ems_reserve calls 1 7 request running)
ems_reserve_lem_example =
    ems_reserve_lem calls 1 7 request running-Lists (concert-IsValid, tt) (omega arith)

ems_terminate_fault_example : ems_terminate calls 2 running ≡ fault
ems_terminate_fault_example = ems_terminate_fault calls 2 running-Lists refl (omega arith)
