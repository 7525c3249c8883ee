-- ===== src/Api/Farewell.antt =====
-- `ems_quit` on every branch.
use event_management_server.Base.{
  ℕ, ◌≡◌, refl, ap, sym, ◌∙◌, inl, inr, [], ◌∷◌, ◌++◌, append_assoc, append-nil, Bool-cases,
}
use event_management_server.Io.{my_write}
use event_management_server.Io.Descriptor.{Bytes, Sink}
use event_management_server.Wire.{int_size, encode}
use event_management_server.Wire.Answers.{write_cases}
use event_management_server.Api.Connection.{
  Session, QuitCalls, Farewell, staying, leave, close_and_unlink, farewell, ems_quit,
}

-- The message that ends a session.
abbrev pub quit_bytes : ℕ → Bytes
quit_bytes session_id = 2 ∷ encode int_size session_id

-- Either the message is behind what was in the pipe and both pipes are unlinked, with code 0, or a
-- front of it is there and no pipe is unlinked, with code 1.
pub data Leaves (session : Session) (before : Bytes) (out : Farewell) : Type 0 where
  left :
      out.code ≡ 0
      → out.requests.written ≡ before ++ quit_bytes session.session_id
      → out.unlinked ≡ session.req_pipe_path ∷ session.resp_pipe_path ∷ []
      → Leaves session before out
  stays :
      (ps qs : Bytes)
      → out.code ≡ 1
      → quit_bytes session.session_id ≡ ps ++ qs
      → out.requests.written ≡ before ++ ps
      → out.unlinked ≡ []
      → Leaves session before out

module _ (calls : QuitCalls) (session : Session) where
  close_cases :
      (before : Bytes) (requests : Sink)
      → requests.written ≡ before ++ quit_bytes session.session_id
      → Leaves session before (close_and_unlink calls session requests)
  unfolding close_and_unlink staying leave
  close_cases before requests whole =
      let failed =
        stays (quit_bytes session.session_id) [] refl
          (sym (append-nil (quit_bytes session.session_id))) whole refl in
      elim (Bool-cases calls.close_request) [
        | inr bad ↦ rw bad failed
        | inl closes ↦ rw closes (elim (Bool-cases calls.open_response) [
          | inr missing ↦ rw missing (left refl whole refl)
          | inl opens ↦ rw opens (elim (Bool-cases calls.close_response) [
            | inl fine ↦ rw fine (left refl whole refl)
            | inr bad ↦ rw bad failed
          ])
        ])
      ]

  farewell_cases :
      (before ps bs rest : Bytes) (next : Sink → Farewell) (requests : Sink)
      → quit_bytes session.session_id ≡ ps ++ (bs ++ rest)
      → requests.written ≡ before ++ ps
      → ((requests' : Sink)
          → requests'.written ≡ before ++ (ps ++ bs)
          → Leaves session before (next requests'))
      → Leaves session before (farewell calls bs next requests)
  unfolding farewell staying
  farewell_cases before ps bs rest next requests split sent more = elim (write_cases bs requests) [
    | inl taken ↦ rw taken.succeeded (
        more (my_write bs requests).1
          (taken.text ∙ ap (λ t. t ++ bs) sent ∙ append_assoc before ps bs))
    | inr broken ↦ rw broken.broke (
        stays (ps ++ broken.head) (broken.rest ++ rest) refl
          (split
            ∙ ap (λ t. ps ++ (t ++ rest)) broken.split
            ∙ ap (λ t. ps ++ t) (append_assoc broken.head broken.rest rest)
            ∙ sym (append_assoc ps broken.head (broken.rest ++ rest)))
          (broken.text ∙ ap (λ t. t ++ broken.head) sent ∙ append_assoc before ps broken.head) refl)
  ]

  -- `ems_quit` for every outcome of its calls: the whole message is in the request pipe, both pipes are
  -- unlinked and the return value is 0, or a front of the message is there, no pipe is unlinked and
  -- the return value is 1.
  pub ems_quit-Leaves :
      (requests : Sink) → Leaves session requests.written (ems_quit calls session requests)
  unfolding ems_quit staying
  ems_quit-Leaves requests = elim (Bool-cases calls.open_request) [
    | inr missing ↦ rw missing (
        stays [] (quit_bytes session.session_id) refl refl (sym (append-nil requests.written)) refl)
    | inl opens ↦
        let id = encode int_size session.session_id in
        rw opens (
          farewell_cases requests.written [] (2 ∷ []) id
            (farewell calls id (close_and_unlink calls session)) requests refl
            (sym (append-nil requests.written))
            λ requests1 sent1.
              farewell_cases requests.written (2 ∷ []) id [] (close_and_unlink calls session)
                requests1 (ap (λ t. 2 ∷ t) (sym (append-nil id))) sent1
                λ requests2 sent2. close_cases requests.written requests2 sent2)
  ]
