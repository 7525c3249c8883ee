-- ===== src/Parser/Words.antt =====
-- `get_next` on the words of the documented commands.
use event_management_server.Base.{ℕ, ◌≡◌, refl, Bool, true, false, [], ◌∷◌, ◌++◌}
use event_management_server.Io.Descriptor.{Bytes, file, read}
use event_management_server.Number.Parse.{read-file}
use event_management_server.Parser.{
  Command, cmd_create, cmd_reserve, cmd_show, cmd_list_events, cmd_wait, cmd_help, cmd_empty,
  cmd_invalid, eoc, get_next, first_byte, get_command, keyword, command_or_invalid, alone, matches,
  bytes_eq, ends_badly,
}
use event_management_server.Parser.Text.{after_line, cleanup-file}

-- What a command begins with; the commands with no arguments end their line.
unfoldable pub word : Command → Bytes
word cmd_create = b'C' ∷ b'R' ∷ b'E' ∷ b'A' ∷ b'T' ∷ b'E' ∷ b' ' ∷ []
word cmd_reserve = b'R' ∷ b'E' ∷ b'S' ∷ b'E' ∷ b'R' ∷ b'V' ∷ b'E' ∷ b' ' ∷ []
word cmd_show = b'S' ∷ b'H' ∷ b'O' ∷ b'W' ∷ b' ' ∷ []
word cmd_list_events = b'L' ∷ b'I' ∷ b'S' ∷ b'T' ∷ b'\n' ∷ []
word cmd_wait = b'W' ∷ b'A' ∷ b'I' ∷ b'T' ∷ b' ' ∷ []
word cmd_help = b'H' ∷ b'E' ∷ b'L' ∷ b'P' ∷ b'\n' ∷ []
word cmd_empty = b'\n' ∷ []
word cmd_invalid = []
word eoc = []

-- A command of the language, neither the end of the file nor an invalid one.
abbrev pub is_command : Command → Bool
is_command cmd_create = true
is_command cmd_reserve = true
is_command cmd_show = true
is_command cmd_list_events = true
is_command cmd_wait = true
is_command cmd_help = true
is_command cmd_empty = true
is_command cmd_invalid = false
is_command eoc = false

-- A file that begins with the word of a command gives that command, and what follows the word is
-- left to read.
pub get_next_lem :
    (stale : ℕ) (c : Command) (rest : Bytes)
    → is_command c ≡ true
    → get_next stale (file (word c ++ rest)) ≡ (c, file rest)
unfolding word get_next first_byte get_command keyword command_or_invalid alone matches bytes_eq
    ends_badly read
get_next_lem stale cmd_create [] h = refl
get_next_lem stale cmd_create (b ∷ bs) h = refl
get_next_lem stale cmd_reserve [] h = refl
get_next_lem stale cmd_reserve (b ∷ bs) h = refl
get_next_lem stale cmd_show [] h = refl
get_next_lem stale cmd_show (b ∷ bs) h = refl
get_next_lem stale cmd_list_events [] h = refl
get_next_lem stale cmd_list_events (b ∷ bs) h = refl
get_next_lem stale cmd_wait [] h = refl
get_next_lem stale cmd_wait (b ∷ bs) h = refl
get_next_lem stale cmd_help [] h = refl
get_next_lem stale cmd_help (b ∷ bs) h = refl
get_next_lem stale cmd_empty [] h = refl
get_next_lem stale cmd_empty (b ∷ bs) h = refl
get_next_lem stale cmd_invalid rest h = cc
get_next_lem stale eoc rest h = cc

-- A comment is skipped with the end of its line.
pub get_next-comment :
    (stale : ℕ) (text : Bytes)
    → get_next stale (file (b'#' ∷ text)) ≡ (cmd_empty, file (after_line text))
unfolding get_next first_byte get_command
get_next-comment stale text = rw (read-file b'#' text, cleanup-file text) refl

pub get_next-end : (stale : ℕ) → get_next stale (file []) ≡ (eoc, [])
unfolding get_next first_byte read
get_next-end stale = refl
