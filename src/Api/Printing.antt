-- ===== src/Api/Printing.antt =====
-- Reading and printing where the answer arrives and the output file takes everything.
use event_management_server.Base.{
  ℕ, ◌^◌, ◌<◌, ◌≡◌, refl, Bool, false, [], ◌∷◌, ◌++◌, length, uint_mod, ==_ne, ◌≢◌, some,
}
use event_management_server.Io.Descriptor.{Bytes, Source, Sink}
use event_management_server.Io.Deliver.{sink, my_write_open}
use event_management_server.Io.Transfer.{contents, IsFlowing}
use event_management_server.Wire.{int_size, encode}
use event_management_server.Wire.Values.{read_value-encode}
use event_management_server.Number.Print.{decimal_text, print_uint-decimal_text, print_str-my_write}
use event_management_server.Api.{Outcome, await_result, result_read}
use event_management_server.Api.Output.{fetch, printed, print_text, print_number, print_newline}
use event_management_server.Api.Requests.{working}

-- `rest` is still to come, and `text` is in the output file.
pub record Reads (rest text : Bytes) (o : Outcome) : Type 0 where
  pub flowing : IsFlowing o.responses
  pub coming : contents o.responses ≡ rest
  pub output : o.output ≡ sink [] text

module _ (P : Outcome → Type 0) where
  pub fetch_lem :
      (stale : ℕ → Source → Bytes) (size value : ℕ) (rest text : Bytes)
      (next : ℕ → Outcome → Outcome) (o : Outcome)
      → ((n : ℕ) (src : Source) → length (stale n src) ≡ n)
      → value < 256 ^ size
      → Reads (encode size value ++ rest) text o
      → ((o' : Outcome) → Reads rest text o' → P (next value o'))
      → P (fetch stale size next o)
  unfolding fetch
  fetch_lem stale size value rest text next o sized small r more =
      let got =
        read_value-encode size value (stale size o.responses) rest o.responses small
          (sized size o.responses) r.flowing r.coming in
      rw (got.succeeded, got.value_read)
        (more _ (record { flowing = got.flowing; coming = got.left; output = r.output }))

  pub print_text_lem :
      (bad : ℕ → Bool) (more_text rest text : Bytes) (next : Outcome → Outcome) (o : Outcome)
      → bad 0 ≡ false
      → Reads rest text o
      → ((o' : Outcome) → Reads rest (text ++ more_text) o' → P (next o'))
      → P (print_text bad more_text next o)
  unfolding print_text printed
  print_text_lem bad more_text rest text next o fine r more =
      rw (r.output, print_str-my_write more_text (sink [] text), my_write_open more_text text, fine)
        (more _ (record { flowing = r.flowing; coming = r.coming; output = refl }))

  pub print_number_lem :
      (bad : ℕ → Bool) (value : ℕ) (rest text : Bytes) (next : Outcome → Outcome) (o : Outcome)
      → bad 0 ≡ false
      → value < uint_mod
      → Reads rest text o
      → ((o' : Outcome) → Reads rest (text ++ decimal_text value) o' → P (next o'))
      → P (print_number bad value next o)
  unfolding print_number printed
  print_number_lem bad value rest text next o fine small r more =
      rw (r.output, print_uint-decimal_text value text small, print_number, fine)
        (more _ (record { flowing = r.flowing; coming = r.coming; output = refl }))

  pub print_newline_lem :
      (rest text : Bytes) (next : Outcome → Outcome) (o : Outcome)
      → Reads rest text o
      → ((o' : Outcome) → Reads rest (text ++ b'\n' ∷ []) o' → P (next o'))
      → P (print_newline next o)
  unfolding print_newline
  print_newline_lem rest text next o r more =
      rw (r.output, my_write_open (b'\n' ∷ []) text)
        (more _ (record { flowing = r.flowing; coming = r.coming; output = refl }))

  module _ (stale : ℕ → Source → Bytes) (sized : (n : ℕ) (src : Source) → length (stale n src) ≡ n)
      (answers : Sink → Source) (next : ℕ → Outcome → Outcome) (result : ℕ) (rest text : Bytes)
      (requests : Sink) (small : result < uint_mod) (flow : IsFlowing (answers requests))
      (coming : contents (answers requests) ≡ encode int_size result ++ rest) where
    -- With a result that is not 1 the client goes on.
    pub await_result_lem :
        result ≢ 1
        → ((o : Outcome) → Reads rest text o → P (next result o))
        → P (await_result working stale answers next (sink [] text) requests)
    unfolding await_result result_read
    await_result_lem other more =
        let got =
          read_value-encode int_size result (stale int_size (answers requests)) rest
            (answers requests) small (sized int_size (answers requests)) flow coming in
        rw (got.succeeded, got.value_read, ==_ne result 1 other)
          (more _ (record { flowing = got.flowing; coming = got.left; output = refl }))

    -- With the result 1 it returns 1 and prints nothing.
    pub await_result-refused :
        result ≡ 1
        → ((o : Outcome) → o.code ≡ some 1 → o.output ≡ sink [] text → P o)
        → P (await_result working stale answers next (sink [] text) requests)
    unfolding await_result result_read
    await_result-refused one last =
        let got =
          read_value-encode int_size result (stale int_size (answers requests)) rest
            (answers requests) small (sized int_size (answers requests)) flow coming in
        rw (got.succeeded, got.value_read, one) (last _ refl refl)
