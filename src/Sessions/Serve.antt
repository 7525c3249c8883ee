-- ===== src/Sessions/Serve.antt =====
-- What `handle_client` does with each request of a client.
use event_management_server.Base.{
  ltb, false, ℕ, ◌<◌, ◌≤◌, ◌≡◌, ap, sym, ◌∙◌, subst, List, [], ◌++◌, length, arith, size_mod,
  uint_mod,
}
use event_management_server.Seats.{Event, Seat}
use event_management_server.Memory.{State}
use event_management_server.Memory.Returns
use event_management_server.Memory.Returns.{Returns, returns}
use event_management_server.Io.{my_write}
use event_management_server.Io.Descriptor.{Bytes, Source, Sink}
use event_management_server.Io.Deliver.{sink, my_write_open}
use event_management_server.Wire.{int_size, size_size, encode}
use event_management_server.Wire.Answers.{Sent, Sent-open}
use event_management_server.Operations.{Calls}
use event_management_server.Operations.View.{Lists}
use event_management_server.Operations.Create.{ems_create_lem}
use event_management_server.Operations.CreateSpec.{Fresh}
use event_management_server.Operations.Reserve.{AllValid, ems_reserve_lem}
use event_management_server.Operations.Show.{ems_show_lem}
use event_management_server.Operations.ListEvents.{ems_list_events_lem}
use event_management_server.Sessions.{
  Link, reply, answered, field, run_create, run_reserve, run_show, run_list, array_field,
  max_reservation_size, serve_request, create_request, reserve_request, show_request, list_request,
}
use event_management_server.Sessions.Messages.{
  Request, create, reserve, show, list_events, op_code, rows_of, cols_of, arguments, Fits,
  serve_spec, zip-lem, length-rows_of, length-cols_of,
}
use event_management_server.Sessions.Requests.{Waits, field_lem, array_field_lem}

module _ (stale : ℕ → Source → Bytes) (sized : (n : ℕ) (src : Source) → length (stale n src) ≡ n)
    (calls : Calls) (fuel : ℕ) {s : State} {es : List Event} (l : Lists s es)
    (written : Bytes) where
  -- The request is read, the answer is behind the earlier ones, and the memory stands for the list.
  abbrev Served : Bytes → Bytes × List Event → Link → State → Type 0
  Served rest out link s' = Waits rest (sink [] (written ++ out.0)) link × Lists s' out.1

  reply_lem :
      {es' : List Event} {s' : State} (rest : Bytes) (link : Link) (r : ℕ)
      → Lists s' es'
      → Waits rest (sink [] written) link
      → Returns (Served rest (encode int_size r, es')) (reply r link s')
  unfolding reply
  reply_lem rest link r l' w =
      let sent : (my_write (encode int_size r) link.response).1
          ≡ sink [] (written ++ encode int_size r) =
        ap (λ out. (my_write (encode int_size r) out).1) w.kept
        ∙ ap (λ out. out.1) (my_write_open (encode int_size r) written) in
      returns (record { flowing = w.flowing; coming = w.coming; kept = sent }, l')

  run_create_lem :
      (id rows cols : ℕ) (rest : Bytes) (link : Link)
      → Fresh calls s
      → length es ≤ fuel
      → Waits rest (sink [] written) link
      → Returns
          (Served rest (serve_spec calls (create id rows cols) es))
          (run_create stale calls fuel id rows cols link s)
  unfolding run_create serve_spec
  run_create_lem id rows cols rest link fresh enough w =
      Returns.bind (ems_create_lem calls fuel id rows cols l fresh enough)
        λ r s' p. rw p.0 (reply_lem rest link _ p.1 w)

  create_lem :
      (session_id id rows cols : ℕ) (rest : Bytes) (link : Link)
      → session_id < uint_mod
      → Fits (create id rows cols)
      → Fresh calls s
      → length es ≤ fuel
      → Waits
          (encode int_size session_id ++ arguments (create id rows cols) rest)
          (sink [] written)
          link
      → Returns
          (Served rest (serve_spec calls (create id rows cols) es))
          (create_request stale calls fuel link s)
  unfolding create_request arguments Fits serve_spec
  create_lem session_id id rows cols rest link small fits fresh enough w =
      let c3 =
        λ (i : ℕ) (r : ℕ). field stale calls fuel size_size (run_create stale calls fuel i r) in
      let c2 = λ (i : ℕ). field stale calls fuel size_size (c3 i) in
      let c1 = λ (_ : ℕ). field stale calls fuel int_size c2 in
      field_lem stale sized calls fuel int_size session_id _ (sink [] written) c1 link small w
        λ l1 w1.
          field_lem stale sized calls fuel int_size id _ (sink [] written) c2 l1 fits.0 w1 λ l2 w2.
            field_lem stale sized calls fuel size_size rows _ (sink [] written) (c3 id) l2 fits.1 w2
              λ l3 w3.
                field_lem stale sized calls fuel size_size cols rest (sink [] written)
                  (run_create stale calls fuel id rows) l3 fits.2 w3
                  λ l4 w4. run_create_lem id rows cols rest l4 fresh enough w4

  run_reserve_lem :
      (id : ℕ) (seats : List Seat) (rest : Bytes) (link : Link)
      → length seats ≤ 256
      → AllValid es
      → length es ≤ fuel
      → Waits rest (sink [] written) link
      → Returns
          (Served rest (serve_spec calls (reserve id seats) es))
          (run_reserve stale calls fuel id (length seats) (rows_of seats) (cols_of seats) link s)
  unfolding run_reserve serve_spec
  run_reserve_lem id seats rest link short valid enough w =
      let within : ltb max_reservation_size (length seats) ≡ false = ground arith in
      rw (within, zip-lem seats)
        (Returns.bind (ems_reserve_lem calls fuel id seats l valid enough)
          λ r s' p. rw p.0 (reply_lem rest link _ p.1 w))

  reserve_lem :
      (session_id id : ℕ) (seats : List Seat) (rest : Bytes) (link : Link)
      → session_id < uint_mod
      → Fits (reserve id seats)
      → AllValid es
      → length es ≤ fuel
      → Waits
          (encode int_size session_id ++ arguments (reserve id seats) rest)
          (sink [] written)
          link
      → Returns
          (Served rest (serve_spec calls (reserve id seats) es))
          (reserve_request stale calls fuel link s)
  unfolding reserve_request arguments Fits
  reserve_lem session_id id seats rest link small fits valid enough w =
      let xs = rows_of seats in
      let ys = cols_of seats in
      let run = λ (i n : ℕ) (us vs : List ℕ). run_reserve stale calls fuel i n us vs in
      let c4 = λ (i n : ℕ) (us : List ℕ). array_field stale calls fuel n (run i n us) in
      let c3 = λ (i n : ℕ). array_field stale calls fuel n (c4 i n) in
      let c2 = λ (i : ℕ). field stale calls fuel size_size (c3 i) in
      let c1 = λ (_ : ℕ). field stale calls fuel int_size c2 in
      let row_count : length xs ≡ length seats = length-rows_of seats in
      let col_count : length ys ≡ length seats = length-cols_of seats in
      field_lem stale sized calls fuel int_size session_id _ (sink [] written) c1 link small w
        λ l1 w1.
          field_lem stale sized calls fuel int_size id _ (sink [] written) c2 l1 fits.0 w1 λ l2 w2.
            field_lem stale sized calls fuel size_size (length seats) _ (sink [] written) (c3 id) l2
              (omega arith) w2
              λ l3 w3.
                array_field_lem stale sized calls fuel (length seats) xs _ (sink [] written)
                  (c4 id (length seats)) l3 row_count fits.2 fits.1 w3
                  λ l4 w4.
                    array_field_lem stale sized calls fuel (length seats) ys rest (sink [] written)
                      (run id (length seats) xs) l4 col_count fits.3 fits.1 w4
                      λ l5 w5. run_reserve_lem id seats rest l5 fits.1 valid enough w5

  sent_lem :
      {r : ℕ} {text : Bytes} {s' : State} (rest : Bytes) (link : Link) (out : ℕ × Sink)
      → s' ≡ s
      → Sent link.response r text out
      → Waits rest (sink [] written) link
      → Returns (Served rest (text, es)) (answered link out s')
  unfolding answered
  sent_lem {text} rest link out same sent w =
      let whole = (Sent-open (ap (λ t. t.plan) w.kept) sent).1 in
      returns (
        record {
          flowing = w.flowing;
          coming = w.coming;
          kept = whole ∙ ap (λ t. sink [] (t.written ++ text)) w.kept;
        },
        subst (λ t. Lists t es) (sym same) l,
      )

  show_lem :
      (session_id id : ℕ) (rest : Bytes) (link : Link)
      → session_id < uint_mod
      → Fits (show id)
      → AllValid es
      → length es ≤ fuel
      → Waits (encode int_size session_id ++ arguments (show id) rest) (sink [] written) link
      → Returns (Served rest (serve_spec calls (show id) es)) (show_request stale calls fuel link s)
  unfolding show_request arguments Fits run_show serve_spec
  show_lem session_id id rest link small fits valid enough w =
      let c1 = λ (_ : ℕ). field stale calls fuel int_size (run_show stale calls fuel) in
      field_lem stale sized calls fuel int_size session_id _ (sink [] written) c1 link small w
        λ l1 w1.
          field_lem stale sized calls fuel int_size id rest (sink [] written)
            (run_show stale calls fuel) l1 fits w1
            λ l2 w2.
              Returns.bind (ems_show_lem calls fuel id l2.response l valid enough)
                λ out s' p. sent_lem rest l2 out p.0 p.1 w2

  list_lem :
      (session_id : ℕ) (rest : Bytes) (link : Link)
      → session_id < uint_mod
      → length es ≤ fuel
      → length es < size_mod
      → Waits (encode int_size session_id ++ arguments list_events rest) (sink [] written) link
      → Returns
          (Served rest (serve_spec calls list_events es))
          (list_request stale calls fuel link s)
  unfolding list_request arguments run_list serve_spec
  list_lem session_id rest link small enough bound w =
      field_lem stale sized calls fuel int_size session_id rest (sink [] written)
        (λ _. run_list stale calls fuel) link small w
        λ l1 w1.
          Returns.bind (ems_list_events_lem calls fuel l1.response l enough bound)
            λ out s' p. sent_lem rest l1 out p.0 p.1 w1

  -- A request of the client that is the next to come in the pipe, in whatever chunks, is served as
  -- the list of events says: the answer is behind the earlier ones, the memory stands for the list
  -- afterwards, and what follows the request is left to read. No run faults or waits for more.
  pub serve_request_lem :
      (session_id : ℕ) (request : Request) (rest : Bytes) (link : Link)
      → session_id < uint_mod
      → Fits request
      → Fresh calls s
      → AllValid es
      → length es ≤ fuel
      → length es < size_mod
      → Waits (encode int_size session_id ++ arguments request rest) (sink [] written) link
      → Returns
          (λ link' s'.
            Waits rest (sink [] (written ++ (serve_spec calls request es).0)) link'
            × Lists s' (serve_spec calls request es).1)
          (serve_request stale calls fuel (op_code request) link s)
  unfolding serve_request op_code
  serve_request_lem session_id (create id rows cols) rest link small fits fresh valid enough bound
        w =
      create_lem session_id id rows cols rest link small fits fresh enough w
  serve_request_lem session_id (reserve id seats) rest link small fits fresh valid enough bound w =
      reserve_lem session_id id seats rest link small fits valid enough w
  serve_request_lem session_id (show id) rest link small fits fresh valid enough bound w =
      show_lem session_id id rest link small fits valid enough w
  serve_request_lem session_id list_events rest link small fits fresh valid enough bound w =
      list_lem session_id rest link small enough bound w
