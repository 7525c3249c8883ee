-- ===== src/Api/Output.antt =====
-- The steps with which `ems_show` and `ems_list_events` of src/client/api.c read the parts of an answer
-- and print them. `bad` is the source's test of what a printing function returns.
use event_management_server.Base.{ℕ, ◌-◌, Bool, none, some, [], ◌∷◌, ◌==◌, if◌then◌else◌, uint_mod}
use event_management_server.Io.{my_write}
use event_management_server.Io.Descriptor.{Bytes, Source, Sink}
use event_management_server.Wire.{failed, read_value}
use event_management_server.Number.{print_str, print_uint}
use event_management_server.Api.{Outcome}

-- return 1
unfoldable pub stopped : Outcome → Outcome
stopped o = record o { code = some 1 }

-- `my_read` of one variable from the response pipe.
unfoldable pub fetch :
    (stale : ℕ → Source → Bytes) → ℕ → (ℕ → Outcome → Outcome) → Outcome → Outcome
unfolding stopped
fetch stale size next o =
    let (bad, value, src) = read_value size (stale size o.responses) o.responses in
    if bad
    then stopped (record o { responses = src })
    else next value (record o { responses = src })

abbrev pub nonzero : ℕ → Bool
nonzero r = if r == 0 then Bool.false else Bool.true

-- the test for -1, as an int
abbrev pub minus_one_returned : ℕ → Bool
minus_one_returned r = r == uint_mod - 1

unfoldable pub printed : (bad : ℕ → Bool) → (Outcome → Outcome) → Outcome → ℕ × Sink → Outcome
unfolding stopped
printed bad next o (r, sink) =
    if bad r then stopped (record o { output = sink }) else next (record o { output = sink })

unfoldable pub print_text : (bad : ℕ → Bool) → Bytes → (Outcome → Outcome) → Outcome → Outcome
unfolding printed
print_text bad text next o = printed bad next o (print_str text o.output)

-- `none`: a write outside the buffer of `print_uint`.
unfoldable pub print_number : (bad : ℕ → Bool) → ℕ → (Outcome → Outcome) → Outcome → Outcome
unfolding printed
print_number bad value next o = elim (print_uint value o.output) [
  | none ↦ record o { code = none }
  | some out ↦ printed bad next o out
]

unfoldable pub print_newline : (Outcome → Outcome) → Outcome → Outcome
unfolding stopped
print_newline next o =
    let (code, sink) = my_write (b'\n' ∷ []) o.output in
    if failed code then stopped (record o { output = sink }) else next (record o { output = sink })
