-- ===== src/Sessions/Ends.antt =====
-- The end of a session, for whatever a client sends.
use event_management_server.Base.{
  ℕ, zero, suc, ◌+◌, ◌*◌, ◌<◌, ◌≤◌, ◌≡◌, ap, subst, List, [], ◌∷◌, arith, length, length-append,
  ltb, Bool-cases, inl, inr, ◌==◌, Option-cases, ◌≢◌, some, if◌then◌else◌, size_mod,
}
use event_management_server.Seats.{Event}
use event_management_server.Memory.{State, Cmd, Run, done, fault, out_of_fuel, pure}
use event_management_server.Memory.Keeps.{After}
use event_management_server.Memory.Ended.{ends, faults, Ended, Ended-bind, Ended-if, Ended-with}
use event_management_server.Io.{Code, count, minus_one, minus_two, my_read, my_write}
use event_management_server.Io
use event_management_server.Io.Descriptor.{Bytes, Source, Sink}
use event_management_server.Io.Transfer.{contents, my_read-Conserves}
use event_management_server.Wire.{int_size, encode, size_size, failed, overlay, read_value}
use event_management_server.Operations.{Calls}
use event_management_server.Operations.View.{Lists}
use event_management_server.Operations.CreateSpec.{Fresh}
use event_management_server.Operations.Ends.{
  Listed, ems_create-Ended, ems_reserve-Ended, ems_reserve_overrun-Ended, ems_show-Ended,
  ems_list_events-Ended,
}
use event_management_server.Sessions.{
  Link, reply, answered, field, array_read, array_field, array_size, elements, max_reservation_size,
  zip, run_create, create_request, run_reserve, reserve_request, run_show, show_request, run_list,
  list_request, serve_request, op_code_of, session_round, session_loop,
}
use event_management_server.Sessions.Start.{Opens, greet, handle_client}
use event_management_server.Sessions.Left.{AtMost, serve_request-AtMost}
use event_management_server.Sessions.Frame.{serve_request-Keeps}
use event_management_server.Sessions.Many.{Supply}

module _ (stale : ℕ → Source → Bytes) (calls : Calls) (fuel n : ℕ) (s : State)
    (l : Listed n s) where
  -- One event more than before at most.
  abbrev Kept : State → Type 0
  Kept s' = Listed (n + 1) s'

  same : Kept s
  same = record { events = l.events; lists = l.lists; few = omega (arith, l.few) }

  reply-Ended :
      (s' : State) (result : ℕ) (link : Link)
      → Kept s'
      → Ended (λ _ t. Kept t) (reply result link s')
  unfolding reply
  reply-Ended s' result link k = ends k

  field-Ended :
      (size : ℕ) (next : ℕ → Link → Cmd Link) (link : Link)
      → ((v : ℕ) (link' : Link) → Ended (λ _ t. Kept t) (next v link' s))
      → Ended (λ _ t. Kept t) (field stale calls fuel size next link s)
  unfolding field
  field-Ended size next link more =
      let got = read_value size (stale size link.request) link.request in
      let link' : Link = record link { request = got.2 } in
      Ended-if got.0 (reply 1 link') (next got.1 link') s (reply-Ended s 1 link' same)
        (more got.1 link')

  array_field-Ended :
      (m : ℕ) (next : List ℕ → Link → Cmd Link) (link : Link)
      → ((vs : List ℕ) (link' : Link) → Ended (λ _ t. Kept t) (next vs link' s))
      → Ended (λ _ t. Kept t) (array_field stale calls fuel m next link s)
  unfolding array_field array_read
  array_field-Ended m next link more =
      let out = my_read (array_size m) link.request in
      let link' : Link = record { request = out.1; response = link.response } in
      let values =
        elements (if ltb max_reservation_size m then max_reservation_size else m)
          (overlay out.0.bytes (stale (max_reservation_size * size_size) link.request)) in
      Ended-if (ltb (max_reservation_size * size_size) (length out.0.bytes)) (λ _. fault)
        (if failed out.0.code then reply 1 link' else next values link') s faults
        (Ended-if (failed out.0.code) (reply 1 link') (next values link') s
          (reply-Ended s 1 link' same) (more values link'))

  module _ (fresh : Fresh calls s) (enough : n ≤ fuel) (bound : n < size_mod) where
    run_create-Ended :
        (id rows cols : ℕ) (link : Link)
        → Ended (λ _ t. Kept t) (run_create stale calls fuel id rows cols link s)
    unfolding run_create
    run_create-Ended id rows cols link =
        Ended-bind (ems_create-Ended calls fuel id rows cols n l fresh enough)
          λ r s' k. reply-Ended s' r link k

    more_room : (s' : State) → Listed n s' → Kept s'
    more_room s' k = record { events = k.events; lists = k.lists; few = omega (arith, k.few) }

    run_reserve-Ended :
        (id m : ℕ) (xs ys : List ℕ) (link : Link)
        → Ended (λ _ t. Kept t) (run_reserve stale calls fuel id m xs ys link s)
    unfolding run_reserve
    run_reserve-Ended id m xs ys link =
        Ended-bind
          (Ended-if (ltb max_reservation_size m) _ _ s
            (ems_reserve_overrun-Ended calls fuel id n (zip xs ys) l enough)
            (ems_reserve-Ended calls fuel id n (zip xs ys) l enough))
          λ r s' k. reply-Ended s' r link (more_room s' k)

    answered-Ended :
        (s' : State) (link : Link) (out : ℕ × Sink)
        → s' ≡ s
        → Ended (λ _ t. Kept t) (answered link out s')
    unfolding answered
    answered-Ended s' link out kept = rw kept (ends same)

    run_show-Ended :
        (id : ℕ) (link : Link) → Ended (λ _ t. Kept t) (run_show stale calls fuel id link s)
    unfolding run_show
    run_show-Ended id link =
        Ended-bind (ems_show-Ended calls fuel id n link.response l enough)
          λ out s' kept. answered-Ended s' link out kept

    run_list-Ended : (link : Link) → Ended (λ _ t. Kept t) (run_list stale calls fuel link s)
    unfolding run_list
    run_list-Ended link =
        Ended-bind (ems_list_events-Ended calls fuel n link.response l enough bound)
          λ out s' kept. answered-Ended s' link out kept

    ruleset request_rules = (
      field-Ended, array_field-Ended, run_create-Ended, run_reserve-Ended, run_show-Ended,
      run_list-Ended,
    )

    create_request-Ended :
        (link : Link) → Ended (λ _ t. Kept t) (create_request stale calls fuel link s)
    unfolding create_request
    create_request-Ended link = search request_rules depth 10

    reserve_request-Ended :
        (link : Link) → Ended (λ _ t. Kept t) (reserve_request stale calls fuel link s)
    unfolding reserve_request
    reserve_request-Ended link = search request_rules depth 10

    show_request-Ended :
        (link : Link) → Ended (λ _ t. Kept t) (show_request stale calls fuel link s)
    unfolding show_request
    show_request-Ended link = search request_rules depth 10

    list_request-Ended :
        (link : Link) → Ended (λ _ t. Kept t) (list_request stale calls fuel link s)
    unfolding list_request
    list_request-Ended link = search request_rules depth 10

    serve_request-Ended :
        (op_code : ℕ) (link : Link)
        → Ended (λ _ t. Kept t) (serve_request stale calls fuel op_code link s)
    unfolding serve_request
    serve_request-Ended op_code link =
        Ended-if (op_code == 3) (create_request stale calls fuel link) _ s
          (create_request-Ended link)
          (Ended-if (op_code == 4) (reserve_request stale calls fuel link) _ s
            (reserve_request-Ended link)
            (Ended-if (op_code == 5) (show_request stale calls fuel link) _ s
              (show_request-Ended link)
              (Ended-if (op_code == 6) (list_request stale calls fuel link) (pure link) s
                (list_request-Ended link) (ends same))))

-- An operation code was read only where a byte came.
op_code_of-some :
    (code : Code) (bytes : Bytes) (op_code : ℕ)
    → op_code_of code bytes ≡ some op_code
    → 0 < length bytes
unfolding op_code_of
op_code_of-some (count n) [] op_code e = cc
op_code_of-some (count n) (b ∷ bs) op_code e = omega arith
op_code_of-some minus_one bytes op_code e = cc
op_code_of-some minus_two bytes op_code e = cc
op_code_of-some Io.out_of_fuel bytes op_code e = cc

-- A run that takes no address of the later rounds leaves their supply.
After-Supply :
    {A : Type 0} (calls : ℕ → Calls) (n : ℕ) (s : State) (r : Run A)
    → Supply calls (suc n) s
    → ((k : ℕ) → k ≤ n → After (Fresh (calls k)) r)
    → After (Supply calls n) r
After-Supply calls n s (done a s') supply kept = record {
  fresh = λ k h. kept k h;
  distinct = λ j k h h'. supply.distinct j k h (omega arith);
}
After-Supply calls n s fault supply kept = tt
After-Supply calls n s out_of_fuel supply kept = tt

stops :
    (m n : ℕ) (link : Link) (s : State)
    → Listed m s
    → m ≤ n
    → Ended (λ _ s'. Listed n s') (pure link s)
stops m n link s l more =
    ends (record { events = l.events; lists = l.lists; few = omega (arith, l.few) })

module _ (stale : ℕ → Source → Bytes) (calls : ℕ → Calls) (fuel : ℕ) where
  -- After a round: bytes for `r` rounds, addresses for them, and a list of at most `n` events.
  record Rest (r n : ℕ) (link : Link) (s : State) : Type 0 where
    left : AtMost r link
    supply : Supply calls r s
    listed : Listed n s

  round-Rest :
      (r n op_code : ℕ) (link : Link) (s : State)
      → length (contents link.request) ≤ r
      → Listed n s
      → Supply calls (suc r) s
      → n ≤ fuel
      → n < size_mod
      → Ended (Rest r (n + 1)) (serve_request stale (calls (suc r)) fuel op_code link s)
  round-Rest r n op_code link s few l supply enough bound =
      Ended-with
        ((serve_request-AtMost stale (calls (suc r)) fuel r op_code link
            (record { left = few })).holds
          s)
        (After-Supply calls r s (serve_request stale (calls (suc r)) fuel op_code link s) supply
          λ k h.
            (serve_request-Keeps (calls k) stale (calls (suc r)) fuel
                (supply.distinct k (suc r) (omega arith) (omega arith)) op_code link).holds
              s (supply.fresh k (omega arith)))
        (serve_request-Ended stale (calls (suc r)) fuel n s l (supply.fresh (suc r) (omega arith))
          enough bound op_code link)
        λ link' s' left kept listed. record { left = left; supply = kept; listed = listed }

  -- Without a byte there is no operation code.
  no_code :
      (link : Link) (op_code : ℕ)
      → length (contents link.request) ≤ 0
      → op_code_of (my_read 1 link.request).0.code (my_read 1 link.request).0.bytes ≢ some op_code
  no_code link op_code none_left e =
      let kept = my_read-Conserves 1 link.request in
      omega (
        arith,
        ap length kept.conserved,
        none_left,
        length-append (my_read 1 link.request).0.bytes (contents (my_read 1 link.request).1),
        op_code_of-some (my_read 1 link.request).0.code (my_read 1 link.request).0.bytes op_code e,
      )

  session_loop-Ended :
      (rounds n : ℕ) (link : Link) (s : State)
      → length (contents link.request) ≤ rounds
      → Listed n s
      → Supply calls rounds s
      → n + rounds ≤ fuel
      → n + rounds < size_mod
      → Ended (λ _ s'. Listed (n + rounds) s') (session_loop stale calls fuel (suc rounds) link s)
  unfolding session_loop session_round
  session_loop-Ended zero n link s few l supply enough bound =
      let out = my_read 1 link.request in
      elim (Option-cases (op_code_of out.0.code out.0.bytes)) [
        | inl none_read ↦
            rw (none_read, session_loop, session_round)
              (stops n (n + 0) (record link { request = out.1 }) s l (omega arith))
        | inr (v, coded) ↦ absurd (no_code link v few coded)
      ]
  session_loop-Ended (suc r) n link s few l supply enough bound =
      let out = my_read 1 link.request in
      let link' : Link = record link { request = out.1 } in
      elim (Option-cases (op_code_of out.0.code out.0.bytes)) [
        | inl none_read ↦
            rw (none_read, session_loop, session_round)
              (stops n (n + suc r) link' s l (omega arith))
        | inr (v, coded) ↦
            let kept = my_read-Conserves 1 link.request in
            let fewer : length (contents out.1) ≤ r = omega (
              arith,
              ap length kept.conserved,
              few,
              length-append out.0.bytes (contents out.1),
              op_code_of-some out.0.code out.0.bytes v coded,
            ) in
            rw (coded, session_loop, session_round)
              (elim (Bool-cases (v == 2)) [
                | inl quit ↦ rw quit (stops n (n + suc r) link' s l (omega arith))
                | inr other ↦ rw other (
                    Ended-bind (round-Rest r n v link' s fewer l supply (omega arith) (omega arith))
                      λ link'' s' rest.
                        subst
                          (λ m.
                            Ended (λ _ t. Listed m t)
                              (session_loop stale calls fuel (suc r) link'' s'))
                          (omega arith)
                          (session_loop-Ended r (n + 1) link'' s' rest.left.left rest.listed
                            rest.supply (omega arith) (omega arith)))
              ])
      ]

  -- A client that sends whatever it likes, through pipes that answer whatever they like, to a server
  -- whose memory stands for a list of events: `handle_client` ends within one round of its loop for
  -- each byte that is to come and one more. It comes to a fault, or returns, and then the memory
  -- stands for a list of events again, with one more for each of the bytes at most. `malloc` returns
  -- addresses that are unused, and none twice.
  pub handle_client-Ended :
      (opens : Opens) (session_id rounds : ℕ) (link : Link) {s : State} {es : List Event}
      → length (contents link.request) ≤ rounds
      → Lists s es
      → Supply calls rounds s
      → length es + rounds ≤ fuel
      → length es + rounds < size_mod
      → Ended
          (λ _ s'. Listed (length es + rounds) s')
          (handle_client opens stale calls fuel (suc rounds) session_id link s)
  unfolding handle_client greet
  handle_client-Ended opens session_id rounds link {s} {es} few l supply enough bound =
      let (code, response) = my_write (encode int_size session_id) link.response in
      let listed : Listed (length es) s = record { events = es; lists = l; few = omega arith } in
      Ended-if opens.server_pipe _ (λ _. fault) s
        (Ended-if opens.request_pipe _ (λ _. fault) s
          (Ended-if opens.response_pipe _ (λ _. fault) s
            (Ended-if (failed code) (λ _. fault) _ s faults
              (session_loop-Ended rounds (length es) (record link { response = response }) s few
                listed supply enough bound))
            faults)
          faults)
        faults
