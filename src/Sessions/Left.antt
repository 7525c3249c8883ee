-- ===== src/Sessions/Left.antt =====
-- What the requests of `handle_client` leave to read, for whatever a client sends.
use event_management_server.Base.{
  ℕ, if◌then◌else◌, ◌*◌, ◌≤◌, ap, List, arith, length, length-append, ltb,
}
use event_management_server.Memory.{Cmd, fault}
use event_management_server.Memory.Ensures.{
  Ensures, Ensures-if, Ensures-fault, Ensures-pure, ensures_rules,
}
use event_management_server.Io.{my_read}
use event_management_server.Io.Descriptor.{Bytes, Source, Sink}
use event_management_server.Io.Transfer.{contents, my_read-Conserves}
use event_management_server.Wire.{size_size, failed, overlay, read_value}
use event_management_server.Operations.{Calls}
use event_management_server.Sessions.{
  Link, reply, answered, field, array_read, array_field, array_size, elements, max_reservation_size,
  run_create, create_request, run_reserve, reserve_request, run_show, show_request, run_list,
  list_request, serve_request,
}

-- At most `n` bytes are left to read.
pub record AtMost (n : ℕ) (link : Link) : Type 0 where
  pub left : length (contents link.request) ≤ n

my_read-left :
    (size : ℕ) (src : Source) → length (contents (my_read size src).1) ≤ length (contents src)
my_read-left size src =
    let c = my_read-Conserves size src in
    omega (
      arith,
      ap length c.conserved,
      length-append (my_read size src).0.bytes (contents (my_read size src).1),
    )

module _ (stale : ℕ → Source → Bytes) (calls : Calls) (fuel n : ℕ) where
  after_read :
      (size : ℕ) (link : Link) (response : Sink)
      → AtMost n link
      → AtMost n (record { request = (my_read size link.request).1; response = response })
  after_read size link response h = record {
    left = omega (arith, my_read-left size link.request, h.left);
  }

  reply-AtMost : (result : ℕ) (link : Link) → AtMost n link → Ensures (AtMost n) (reply result link)
  unfolding reply
  reply-AtMost result link h = Ensures-pure _ (record { left = h.left })

  answered-AtMost :
      (link : Link) (out : ℕ × Sink) → AtMost n link → Ensures (AtMost n) (answered link out)
  unfolding answered
  answered-AtMost link (r, sink) h = Ensures-pure _ (record { left = h.left })

  field-AtMost :
      (size : ℕ) (next : ℕ → Link → Cmd Link) (link : Link)
      → AtMost n link
      → ((v : ℕ) (link' : Link) → AtMost n link' → Ensures (AtMost n) (next v link'))
      → Ensures (AtMost n) (field stale calls fuel size next link)
  unfolding field read_value
  field-AtMost size next link h more =
      let got = read_value size (stale size link.request) link.request in
      let link' : Link = record link { request = got.2 } in
      let h' : AtMost n link' = after_read size link link.response h in
      Ensures-if got.0 (reply 1 link') (next got.1 link') (reply-AtMost 1 link' h')
        (more got.1 link' h')

  array_read-AtMost :
      (size m : ℕ) (old : Bytes) (next : List ℕ → Link → Cmd Link) (link : Link)
      → AtMost n link
      → ((vs : List ℕ) (link' : Link) → AtMost n link' → Ensures (AtMost n) (next vs link'))
      → Ensures
          (AtMost n)
          (array_read stale calls fuel m old next link.response (my_read size link.request))
  unfolding array_read
  array_read-AtMost size m old next link h more =
      let out = my_read size link.request in
      let link' : Link = record { request = out.1; response = link.response } in
      let values =
        elements (if ltb max_reservation_size m then max_reservation_size else m)
          (overlay out.0.bytes old) in
      let h' : AtMost n link' = after_read size link link.response h in
      Ensures-if (ltb (max_reservation_size * size_size) (length out.0.bytes)) (λ _. fault)
        (if failed out.0.code then reply 1 link' else next values link') Ensures-fault
        (Ensures-if (failed out.0.code) (reply 1 link') (next values link')
          (reply-AtMost 1 link' h') (more values link' h'))

  array_field-AtMost :
      (m : ℕ) (next : List ℕ → Link → Cmd Link) (link : Link)
      → AtMost n link
      → ((vs : List ℕ) (link' : Link) → AtMost n link' → Ensures (AtMost n) (next vs link'))
      → Ensures (AtMost n) (array_field stale calls fuel m next link)
  unfolding array_field
  array_field-AtMost m next link h more =
      array_read-AtMost (array_size m) m (stale (max_reservation_size * size_size) link.request)
        next link h more

  ruleset field_rules =
      (field-AtMost, array_field-AtMost, reply-AtMost, answered-AtMost, ensures_rules)

  create_request-AtMost :
      (link : Link) → AtMost n link → Ensures (AtMost n) (create_request stale calls fuel link)
  unfolding create_request run_create
  create_request-AtMost link h = search field_rules depth 14

  reserve_request-AtMost :
      (link : Link) → AtMost n link → Ensures (AtMost n) (reserve_request stale calls fuel link)
  unfolding reserve_request run_reserve
  reserve_request-AtMost link h = search field_rules depth 14

  show_request-AtMost :
      (link : Link) → AtMost n link → Ensures (AtMost n) (show_request stale calls fuel link)
  unfolding show_request run_show
  show_request-AtMost link h = search field_rules depth 14

  list_request-AtMost :
      (link : Link) → AtMost n link → Ensures (AtMost n) (list_request stale calls fuel link)
  unfolding list_request run_list
  list_request-AtMost link h = search field_rules depth 14

  pub serve_request-AtMost :
      (op_code : ℕ) (link : Link)
      → AtMost n link
      → Ensures (AtMost n) (serve_request stale calls fuel op_code link)
  unfolding serve_request
  serve_request-AtMost op_code link h =
      search
        (
          ensures_rules, create_request-AtMost, reserve_request-AtMost, show_request-AtMost,
          list_request-AtMost,
        )
        depth 10
