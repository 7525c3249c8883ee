-- ===== src/Number/Left.antt =====
-- What `parse_uint` leaves to read, for every source.
use event_management_server.Base.{ℕ, zero, suc, ◌+◌, ◌≤◌, [], ◌∷◌}
use event_management_server.Io.Descriptor.{Bytes, Source, ReadResult, got, eintr, error, read}
use event_management_server.Io.Left.{left, Within, Within-if, Within-pair, read-Within}
use event_management_server.Number.{Parsed, parse_round, parse_full, parse_loop, parse_uint}

module _ (n : ℕ) where
  parse_round-Within :
      (again : Bytes → Source → Parsed × Source) (i : ℕ) (buf : Bytes) (out : ReadResult × Source)
      → left out.1 ≤ n
      → ((buf' : Bytes) (src : Source) → left src ≤ n → Within n (again buf' src))
      → Within n (parse_round again i buf out)
  unfolding parse_round
  parse_round-Within again i buf (eintr, src) h next = record { bound = h }
  parse_round-Within again i buf (error, src) h next = record { bound = h }
  parse_round-Within again i buf (got [], src) h next = record { bound = h }
  parse_round-Within again i buf (got (c ∷ _), src) h next = search (Within-if, Within-pair, next)

  parse_full-Within :
      (buf : Bytes) (out : ReadResult × Source) → left out.1 ≤ n → Within n (parse_full buf out)
  unfolding parse_full
  parse_full-Within buf (eintr, src) h = record { bound = h }
  parse_full-Within buf (error, src) h = record { bound = h }
  parse_full-Within buf (got [], src) h = record { bound = h }
  parse_full-Within buf (got (c ∷ _), src) h = record { bound = h }

  parse_loop-Within :
      (room i : ℕ) (buf : Bytes) (src : Source)
      → left src ≤ n
      → Within n (parse_loop room i buf src)
  unfolding parse_loop
  parse_loop-Within zero i buf src h = parse_full-Within buf (read 1 src) (read-Within n 1 src h)
  parse_loop-Within (suc room) i buf src h =
      parse_round-Within (parse_loop room (i + 1)) i buf (read 1 src) (read-Within n 1 src h)
        λ buf' src' h'. parse_loop-Within room (i + 1) buf' src' h'

  pub parse_uint-Within :
      (stack : Bytes) (src : Source) → left src ≤ n → Within n (parse_uint stack src)
  unfolding parse_uint
  parse_uint-Within stack src h = parse_loop-Within 16 0 stack src h
