-- ===== src/Sessions/Requests.antt =====
-- Requests as bytes, and the server's reading of their parts.
use event_management_server.Base.{
  ℕ, ◌*◌, ◌/◌, ◌%◌, true, ◌^◌, ◌<◌, ◌≤◌, ◌≡◌, refl, ap, sym, ◌∙◌, subst, false, List, [], ◌∷◌, ◌++◌,
  length, take, drop, arith, length-append, ltb, take-length, drop-length, append_assoc, size_mod,
}
use event_management_server.Memory.{State, Cmd}
use event_management_server.Memory.Returns.{Returns}
use event_management_server.Operations.{Calls}
use event_management_server.Io.{my_read}
use event_management_server.Io.Descriptor.{Bytes, Source, Sink}
use event_management_server.Io.Transfer.{contents, IsFlowing, Full, my_read-Full}
use event_management_server.Wire.{array_bytes, size_size, encode, decode, overlay}
use event_management_server.Wire.Values.{read_value-encode, length-encode, decode-encode}
use event_management_server.Sessions.{
  Link, field, array_field, array_read, array_size, elements, max_reservation_size,
}

-- The request pipe has `bytes` to come, and the answers so far are in `response`.
pub record Waits (bytes : Bytes) (response : Sink) (link : Link) : Type 0 where
  pub flowing : IsFlowing link.request
  pub coming : contents link.request ≡ bytes
  pub kept : link.response ≡ response

pub length-array_bytes : (xs : List ℕ) → length (array_bytes xs) ≡ length xs * size_size
unfolding array_bytes
length-array_bytes [] = refl
length-array_bytes (x ∷ xs) = omega (
  arith,
  length-append (encode size_size x) (array_bytes xs),
  length-encode size_size x,
  length-array_bytes xs,
)

abbrev pub AllSizes : List ℕ → Type 0
AllSizes [] = Unit {0}
AllSizes (x ∷ xs) = (x < size_mod) × AllSizes xs

elements_lem :
    (xs : List ℕ) (old : Bytes) → AllSizes xs → elements (length xs) (array_bytes xs ++ old) ≡ xs
unfolding elements array_bytes
elements_lem [] old small = refl
elements_lem (x ∷ xs) old small =
    let whole = encode size_size x in
    let tail = array_bytes xs ++ old in
    let assoc : (whole ++ array_bytes xs) ++ old ≡ whole ++ tail =
      append_assoc whole (array_bytes xs) old in
    let first : take size_size (whole ++ tail) ≡ whole =
      ap (λ n. take n (whole ++ tail)) (sym (length-encode size_size x)) ∙ take-length whole tail in
    let others : drop size_size (whole ++ tail) ≡ tail =
      ap (λ n. drop n (whole ++ tail)) (sym (length-encode size_size x)) ∙ drop-length whole tail in
    ap (λ bs. decode (take size_size bs) ∷ elements (length xs) (drop size_size bs)) assoc
    ∙ ap (λ bs. decode bs ∷ elements (length xs) (drop size_size (whole ++ tail))) first
    ∙ ap (λ v. v ∷ elements (length xs) (drop size_size (whole ++ tail)))
        (decode-encode size_size x small.0)
    ∙ ap (λ bs. x ∷ elements (length xs) bs) others
    ∙ ap (λ vs. x ∷ vs) (elements_lem xs old small.1)

module _ (stale : ℕ → Source → Bytes) (sized : (n : ℕ) (src : Source) → length (stale n src) ≡ n)
    (calls : Calls) (fuel : ℕ) {s : State} {P : Link → State → Type 0} where
  pub field_lem :
      (size value : ℕ) (rest : Bytes) (response : Sink) (next : ℕ → Link → Cmd Link) (link : Link)
      → value < 256 ^ size
      → Waits (encode size value ++ rest) response link
      → ((link' : Link) → Waits rest response link' → Returns P (next value link' s))
      → Returns P (field stale calls fuel size next link s)
  unfolding field
  field_lem size value rest response next link small w more =
      let r =
        read_value-encode size value (stale size link.request) rest link.request small
          (sized size link.request) w.flowing w.coming in
      rw (r.succeeded, r.value_read)
        (more _ (record { flowing = r.flowing; coming = r.left; kept = w.kept }))

  array_whole :
      (xs : List ℕ) (rest : Bytes) (response : Sink) (next : List ℕ → Link → Cmd Link) (link : Link)
      → AllSizes xs
      → length xs ≤ max_reservation_size
      → Waits (array_bytes xs ++ rest) response link
      → ((link' : Link) → Waits rest response link' → Returns P (next xs link' s))
      → Returns P (array_field stale calls fuel (length xs) next link s)
  unfolding array_field array_read array_size overlay
  array_whole xs rest response next link small short w more =
      let within : ltb max_reservation_size (length xs) ≡ false = ground arith in
      let asked : length xs * size_size % size_mod ≡ length xs * size_size = omega arith in
      let positive : ltb (length xs * size_size) (size_mod / 2) ≡ true = ground arith in
      let no_overrun : ltb (max_reservation_size * size_size) (length (array_bytes xs)) ≡ false =
        ground (arith, length-array_bytes xs) in
      let full : Full (length xs * size_size) (array_bytes xs) rest
          (my_read (length xs * size_size) link.request) =
        subst (λ n. Full n (array_bytes xs) rest (my_read n link.request)) (length-array_bytes xs)
          (my_read-Full (array_bytes xs) rest link.request w.flowing w.coming) in
      let old : Bytes = stale (max_reservation_size * size_size) link.request in
      let values : elements (length xs) (overlay (array_bytes xs) old) ≡ xs =
        elements_lem xs (drop (length (array_bytes xs)) old) small in
      rw (asked, positive, full.result, no_overrun, within, values)
        (more _ (record { flowing = full.flowing; coming = full.left; kept = w.kept }))

  pub array_field_lem :
      (n : ℕ) (xs : List ℕ) (rest : Bytes) (response : Sink) (next : List ℕ → Link → Cmd Link)
      (link : Link)
      → length xs ≡ n
      → AllSizes xs
      → n ≤ max_reservation_size
      → Waits (array_bytes xs ++ rest) response link
      → ((link' : Link) → Waits rest response link' → Returns P (next xs link' s))
      → Returns P (array_field stale calls fuel n next link s)
  array_field_lem n xs rest response next link same small short w more =
      subst (λ k. Returns P (array_field stale calls fuel k next link s)) same
        (array_whole xs rest response next link small (omega arith) w more)
