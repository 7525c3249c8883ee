-- ===== src/Sessions/Client.antt =====
-- `handle_client` on the requests of a client.
use event_management_server.Base.{
  ℕ, suc, ◌+◌, ◌<◌, ◌≤◌, ◌≡◌, refl, List, [], ◌∷◌, ◌++◌, length, true, size_mod, uint_mod,
}
use event_management_server.Seats.{Event}
use event_management_server.Memory.{State}
use event_management_server.Memory.Returns.{Returns}
use event_management_server.Io.Descriptor.{Bytes, Source}
use event_management_server.Io.Deliver.{sink, my_write_open}
use event_management_server.Wire.{int_size, encode}
use event_management_server.Operations.{Calls}
use event_management_server.Operations.View.{Lists}
use event_management_server.Operations.Reserve.{AllValid}
use event_management_server.Sessions.{Link}
use event_management_server.Sessions.Messages.{Request}
use event_management_server.Sessions.Requests.{Waits}
use event_management_server.Sessions.Start.{Opens, greet, handle_client}
use event_management_server.Sessions.Many.{requests_bytes, serve_all, AllFit, Supply}
use event_management_server.Sessions.Whole.{session_loop-Serves}

abbrev pub all_open : Opens
all_open = record { server_pipe = true; request_pipe = true; response_pipe = true }

-- `handle_client` with pipes that open: what the client reads is its session's id and then the answers
-- to its requests, in order, each the one that the list of events gives after the requests before
-- it; the memory stands for the list that all of them leave. It ends, after as many rounds of its
-- loop as there are requests and one more.
pub handle_client-Serves :
    (stale : ℕ → Source → Bytes) (calls : ℕ → Calls) (fuel session_id : ℕ) (requests : List Request)
    {s : State} {es : List Event} (tail : Bytes) (link : Link)
    → ((n : ℕ) (src : Source) → length (stale n src) ≡ n)
    → session_id < uint_mod
    → Lists s es
    → AllValid es
    → Supply calls (length requests) s
    → AllFit requests
    → length es + length requests ≤ fuel
    → length es + length requests < size_mod
    → Waits (requests_bytes session_id requests (2 ∷ tail)) (sink [] []) link
    → Returns
        (λ link' s'.
          Waits tail (sink [] (encode int_size session_id ++ (serve_all calls requests es).0)) link'
          × Lists s' (serve_all calls requests es).1)
        (handle_client all_open stale calls fuel (suc (length requests)) session_id link s)
unfolding handle_client greet
handle_client-Serves stale calls fuel session_id requests tail link sized small l valid supply fits
      enough bound w =
    rw (w.kept, my_write_open (encode int_size session_id) [])
      (session_loop-Serves stale sized calls fuel session_id small requests tail
        (encode int_size session_id) _ l valid supply fits enough bound
        (record { flowing = w.flowing; coming = w.coming; kept = refl }))
