-- ===== src/Sessions/Frame.antt =====
-- The requests of `handle_client`, and the addresses that are unused.
use event_management_server.Base.{ℕ, ◌*◌, List}
use event_management_server.Memory.{State, Cmd}
use event_management_server.Memory.Keeps.{Keeps, Keeps-if, keeps_rules}
use event_management_server.Io.{Received, my_read}
use event_management_server.Io.Descriptor.{Bytes, Source, Sink}
use event_management_server.Wire.{size_size, read_value}
use event_management_server.Operations.{Calls}
use event_management_server.Operations.CreateSpec.{Fresh}
use event_management_server.Operations.Frame.{
  Distinct, ems_create-Keeps, ems_reserve-Keeps, ems_reserve_overrun-Keeps,
}
use event_management_server.Operations.AnswerFrame.{ems_show-Keeps, ems_list_events-Keeps}
use event_management_server.Sessions.{
  Link, reply, field, array_read, array_field, array_size, max_reservation_size, run_create,
  create_request, run_reserve, reserve_request, run_show, show_request, run_list, list_request,
  serve_request,
}

module _ (later : Calls) (stale : ℕ → Source → Bytes) (calls : Calls) (fuel : ℕ) where
  abbrev Unused : State → Type 0
  Unused s = Fresh later s

  reply-Keeps : (result : ℕ) (link : Link) → Keeps Unused (reply result link)
  unfolding reply
  reply-Keeps result link = search keeps_rules

  field-Keeps :
      (size : ℕ) (next : ℕ → Link → Cmd Link) (link : Link)
      → ((v : ℕ) (link' : Link) → Keeps Unused (next v link'))
      → Keeps Unused (field stale calls fuel size next link)
  unfolding field
  field-Keeps size next link kept =
      let got = read_value size (stale size link.request) link.request in
      let link' : Link = record link { request = got.2 } in
      Keeps-if got.0 (reply 1 link') (next got.1 link') (reply-Keeps 1 link') (kept got.1 link')

  array_read-Keeps :
      (n : ℕ) (old : Bytes) (next : List ℕ → Link → Cmd Link) (response : Sink)
      (out : Received × Source)
      → ((vs : List ℕ) (link' : Link) → Keeps Unused (next vs link'))
      → Keeps Unused (array_read stale calls fuel n old next response out)
  unfolding array_read
  array_read-Keeps n old next response (r, src) kept = search (keeps_rules, kept)

  array_field-Keeps :
      (n : ℕ) (next : List ℕ → Link → Cmd Link) (link : Link)
      → ((vs : List ℕ) (link' : Link) → Keeps Unused (next vs link'))
      → Keeps Unused (array_field stale calls fuel n next link)
  unfolding array_field
  array_field-Keeps n next link kept =
      array_read-Keeps n (stale (max_reservation_size * size_size) link.request) next link.response
        (my_read (array_size n) link.request) kept

  module _ (d : Distinct calls later) where
    run_create-Keeps :
        (id rows cols : ℕ) (link : Link)
        → Keeps Unused (run_create stale calls fuel id rows cols link)
    unfolding run_create
    run_create-Keeps id rows cols link = search (keeps_rules, ems_create-Keeps, d)

    create_request-Keeps : (link : Link) → Keeps Unused (create_request stale calls fuel link)
    unfolding create_request
    create_request-Keeps link = search (field-Keeps, run_create-Keeps) depth 8

    run_reserve-Keeps :
        (id n : ℕ) (xs ys : List ℕ) (link : Link)
        → Keeps Unused (run_reserve stale calls fuel id n xs ys link)
    unfolding run_reserve
    run_reserve-Keeps id n xs ys link =
        search (keeps_rules, ems_reserve-Keeps, ems_reserve_overrun-Keeps)

    reserve_request-Keeps : (link : Link) → Keeps Unused (reserve_request stale calls fuel link)
    unfolding reserve_request
    reserve_request-Keeps link = search (field-Keeps, array_field-Keeps, run_reserve-Keeps) depth 8

    show_request-Keeps : (link : Link) → Keeps Unused (show_request stale calls fuel link)
    unfolding show_request run_show
    show_request-Keeps link = search (field-Keeps, keeps_rules, ems_show-Keeps) depth 8

    list_request-Keeps : (link : Link) → Keeps Unused (list_request stale calls fuel link)
    unfolding list_request run_list
    list_request-Keeps link = search (field-Keeps, keeps_rules, ems_list_events-Keeps) depth 8

    -- Whatever a client sends, an address that is unused and that `malloc` does not return while
    -- the request is served is unused afterwards.
    pub serve_request-Keeps :
        (op_code : ℕ) (link : Link) → Keeps Unused (serve_request stale calls fuel op_code link)
    unfolding serve_request
    serve_request-Keeps op_code link =
        search
          (
            keeps_rules, create_request-Keeps, reserve_request-Keeps, show_request-Keeps,
            list_request-Keeps,
          )
          depth 10
