-- ===== src/Operations/Lifecycle.antt =====
-- `ems_init` and `ems_terminate`.
use event_management_server.Base.{
  ℕ, ◌<◌, ◌≡◌, refl, ap, ◌≢◌, Bool, true, false, not, ◌&&◌, Option, none, List, [], arith, ◌==◌,
  length, ==_ne, Bool-cases, inl, inr,
}
use event_management_server.Seats.{Event}
use event_management_server.Memory.{Ptr, null, State, done, fault, update, deref}
use event_management_server.Memory.Returns.{Returns, returns, Returns-done}
use event_management_server.EventList.{create_list}
use event_management_server.EventList.Chain.{nil}
use event_management_server.EventList.Free.{free_list_lem}
use event_management_server.Operations.{Calls, ems_init, ems_terminate}
use event_management_server.Operations.View.{Lists, length-events_of, list_not_null, on_list-done}

abbrev pub creates : Calls → Bool
creates calls = not (calls.malloc_list == null) && calls.rwlock_init == 0

-- The first call of `ems_init`: the list is there and empty, or there is still no list.
abbrev pub Initialised : Bool → ℕ → ℕ → State → Type 0
Initialised true delay_us r s = (r ≡ 0) × Lists s [] × (s.state_access_delay_us ≡ delay_us)
Initialised false delay_us r s = (r ≡ 1) × (s.event_list ≡ null)

-- `ems_init` with no list yet: with memory and a lock the list is there, empty, and the code is 0;
-- else the code is 1 and there is still no list.
pub ems_init_lem :
    (calls : Calls) (s : State) (delay_us : ℕ)
    → s.event_list ≡ null
    → Returns (Initialised (creates calls) delay_us) (ems_init calls delay_us s)
unfolding ems_init create_list update
ems_init_lem calls s delay_us none_yet =
    rw none_yet (elim (Bool-cases (calls.malloc_list == null)) [
      | inl gone ↦ rw gone (returns (refl, refl))
      | inr there ↦ rw there (elim (Bool-cases (calls.rwlock_init == 0)) [
        | inl good ↦
            rw (good, there)
              (returns (
                refl,
                record {
                  cells = [];
                  rep = record {
                    list_ne_null = ground arith;
                    list = record { head = null; tail = null };
                    held = ground arith;
                    content = nil;
                  };
                  view = refl;
                },
                refl,
              ))
        | inr bad ↦ rw bad (returns (refl, refl))
      ])
    ])

-- A further call answers 1 and changes nothing.
pub ems_init_again :
    (calls : Calls) (s : State) (delay_us : ℕ)
    → s.event_list ≢ null
    → ems_init calls delay_us s ≡ done 1 s
unfolding ems_init
ems_init_again calls s delay_us already = rw (==_ne s.event_list null already)

deref-fault :
    {V : Type 0} (part : State → Ptr → Option V) (p : Ptr) (s : State)
    → part s p ≡ none
    → deref part p s ≡ fault
unfolding deref
deref-fault part p s gone = ground arith

-- The list is freed before its lock is given back: once the lock is taken, `ems_terminate` always
-- reads freed memory, whatever the list holds.
pub ems_terminate_fault :
    (calls : Calls) {s : State} {es : List Event} (fuel : ℕ)
    → Lists s es
    → calls.rwlock_lock ≡ 0
    → length es < fuel
    → ems_terminate calls fuel s ≡ fault
unfolding ems_terminate
ems_terminate_fault calls {s} fuel l locked enough =
    let (_, s', eq, p) =
      Returns-done
        (free_list_lem fuel l.rep (omega (arith, length-events_of l.cells, ap length l.view))) in
    rw (list_not_null l.rep, on_list-done l.rep calls.rwlock_lock, locked, eq)
      (rw (deref-fault (λ t. t.lists) s.event_list s' (ground (arith, p.2, p.3))))
