-- ===== src/Operations/Sending.antt =====
-- Answers part by part.
use event_management_server.Base.{
  ℕ, ◌≡◌, refl, ap, sym, ◌∙◌, [], ◌++◌, inl, inr, append_assoc, append-nil,
}
use event_management_server.Memory.{State, Run, Cmd, done}
use event_management_server.Memory.Returns
use event_management_server.Memory.Returns.{Returns, returns}
use event_management_server.Io.{my_write}
use event_management_server.Io.Descriptor.{Bytes, Sink}
use event_management_server.Wire.{int_size, encode}
use event_management_server.Wire.Answers.{Sent, whole, part, write_cases, Sent-append}
use event_management_server.Operations.Answer.{answer_int, put}

-- The run ends in the state `s` with the code and the text, or with code 1 and a front of the text.
abbrev pub Answers : State → Sink → ℕ → Bytes → Run (ℕ × Sink) → Type 0
Answers s sink r text run = Returns (λ out s'. (s' ≡ s) × Sent sink r text out) run

pub put-Answers :
    {s : State} {r : ℕ} (bs text : Bytes) (next : Sink → Cmd (ℕ × Sink)) (sink : Sink)
    → ((sink' : Sink) → Answers s sink' r text (next sink' s))
    → Answers s sink r (bs ++ text) (put bs next sink s)
unfolding put
put-Answers {s} {r} bs text next sink more = elim (write_cases bs sink) [
  | inl taken ↦ rw taken.succeeded (
      Returns.mono (more (my_write bs sink).1)
        (λ out s' p. (p.0, Sent-append bs text taken.text taken.open_kept p.1)))
  | inr broken ↦ rw broken.broke (
      returns (
        refl,
        part broken.head (broken.rest ++ text) refl
            (ap (λ t. t ++ text) broken.split ∙ append_assoc broken.head broken.rest text)
            broken.text broken.not_open,
      ))
]

pub answer_int-Answers :
    (s : State) (result : ℕ) (sink : Sink)
    → Answers s sink 1 (encode int_size result) (answer_int result sink s)
unfolding answer_int
answer_int-Answers s result sink = elim (write_cases (encode int_size result) sink) [
  | inl taken ↦ returns (refl, whole refl taken.text taken.open_kept)
  | inr broken ↦
      returns (refl, part broken.head broken.rest refl broken.split broken.text broken.not_open)
]

-- An answer that is all there.
pub end-Answers : (s : State) (sink : Sink) → Answers s sink 0 [] (done (0, sink) s)
end-Answers s sink = returns (refl, whole refl (sym (append-nil sink.written)) (λ e. e))
