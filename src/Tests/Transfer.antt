-- ===== src/Tests/Transfer.antt =====
-- Transfers through a pipe.
use event_management_server.Base.{◌≡◌, refl, [], ◌∷◌}
use event_management_server.Io.{
  minus_one, minus_two, my_read, my_read_loop, my_read_round, my_write, my_write_loop,
  my_write_round,
}
use event_management_server.Io.Descriptor.{chunk, signal, Source, read, accept, refuse, Sink, write}
use event_management_server.Io.Transfer.{Conserves, my_read-Conserves, Full, my_read-Full}
use event_management_server.Io.Deliver.{Delivers, sink, my_write_lem}

abbrev interrupted : Source
interrupted = chunk (1 ∷ 2 ∷ []) ∷ signal ∷ chunk (3 ∷ 4 ∷ []) ∷ []

abbrev in_pieces : Source
in_pieces = chunk (1 ∷ 2 ∷ []) ∷ chunk (3 ∷ 4 ∷ 5 ∷ []) ∷ []

-- A signal ends the call: it is not taken up again.
signal_returns :
    my_read 4 interrupted
    ≡ (record { code = minus_two; bytes = 1 ∷ 2 ∷ [] }, chunk (3 ∷ 4 ∷ []) ∷ [])
unfolding my_read my_read_loop my_read_round read
signal_returns = refl

my_read-Conserves_example : Conserves 4 (1 ∷ 2 ∷ 3 ∷ 4 ∷ []) (my_read 4 interrupted)
my_read-Conserves_example = my_read-Conserves 4 interrupted

my_read-Full_example : Full 3 (1 ∷ 2 ∷ 3 ∷ []) (4 ∷ 5 ∷ []) (my_read 3 in_pieces)
my_read-Full_example = my_read-Full (1 ∷ 2 ∷ 3 ∷ []) (4 ∷ 5 ∷ []) in_pieces tt refl

abbrev slow : Sink
slow = sink (accept 1 ∷ refuse ∷ []) (9 ∷ [])

write_fails : my_write (1 ∷ 2 ∷ []) slow ≡ (minus_one, sink [] (9 ∷ 1 ∷ []))
unfolding my_write my_write_loop my_write_round write
write_fails = refl

my_write_lem_example : Delivers (1 ∷ 2 ∷ []) (9 ∷ []) 0 (my_write (1 ∷ 2 ∷ []) slow)
my_write_lem_example = my_write_lem (1 ∷ 2 ∷ []) slow
