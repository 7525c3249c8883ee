-- ===== src/Wire/Answers.antt =====
-- What an operation that answers on a descriptor delivers: all of its answer, or a front of it.
use event_management_server.Base.{
  ℕ, ◌≡◌, ap, sym, ◌∙◌, ◌≢◌, ◌⊎◌, inl, inr, true, false, [], ◌++◌, length, append_assoc,
}
use event_management_server.Io.{Code, count, my_write}
use event_management_server.Io.Descriptor.{Bytes, Sink}
use event_management_server.Io.Deliver.{all, front, sink, my_write_lem, my_write_open}
use event_management_server.Wire.{failed}

-- From the sink `s` on: the code and all of the text, or code 1 and a front of it. A descriptor
-- that takes everything gets all.
pub data Sent (s : Sink) (r : ℕ) (text : Bytes) (out : ℕ × Sink) : Type 0 where
  whole :
      out.0 ≡ r
      → out.1.written ≡ s.written ++ text
      → (s.plan ≡ [] → out.1.plan ≡ [])
      → Sent s r text out
  part :
      (ps qs : Bytes)
      → out.0 ≡ 1
      → text ≡ ps ++ qs
      → out.1.written ≡ s.written ++ ps
      → s.plan ≢ []
      → Sent s r text out

-- One call of `my_write`.
pub record Taken (bs : Bytes) (s : Sink) (out : Code × Sink) : Type 0 where
  pub succeeded : failed out.0 ≡ false
  pub text : out.1.written ≡ s.written ++ bs
  pub open_kept : s.plan ≡ [] → out.1.plan ≡ []

pub record Broken (bs : Bytes) (s : Sink) (out : Code × Sink) : Type 0 where
  pub broke : failed out.0 ≡ true
  pub head : Bytes
  pub rest : Bytes
  pub split : bs ≡ head ++ rest
  pub text : out.1.written ≡ s.written ++ head
  pub not_open : s.plan ≢ []

pub my_write-open :
    (bs : Bytes) (s : Sink)
    → s.plan ≡ []
    → my_write bs s ≡ (count (length bs), sink [] (s.written ++ bs))
my_write-open bs s none_planned =
    ap (λ plan. my_write bs (sink plan s.written)) none_planned ∙ my_write_open bs s.written

pub write_cases : (bs : Bytes) (s : Sink) → Taken bs s (my_write bs s) ⊎ Broken bs s (my_write bs s)
write_cases bs s = elim (my_write_lem bs s) [
  | all code text ↦ inl (record {
    succeeded = ap (λ c. failed c) code;
    text = text;
    open_kept = λ e. ap (λ out. out.1.plan) (my_write-open bs s e);
  })
  | front ps qs code split text ↦ inr (record {
    broke = ap (λ c. failed c) code;
    head = ps;
    rest = qs;
    split = split;
    text = text;
    not_open = λ e.
        let clash : true ≡ false =
          sym (ap (λ c. failed c) code) ∙ ap (λ out. failed out.0) (my_write-open bs s e) in
        cc;
  })
]

-- A text behind one that was taken.
pub Sent-append :
    {s s' : Sink} {r : ℕ} {out : ℕ × Sink} (bs text : Bytes)
    → s'.written ≡ s.written ++ bs
    → (s.plan ≡ [] → s'.plan ≡ [])
    → Sent s' r text out
    → Sent s r (bs ++ text) out
Sent-append {s} bs text before kept (whole code all_text kept') =
    whole code (all_text ∙ ap (λ t. t ++ text) before ∙ append_assoc s.written bs text)
      (λ e. kept' (kept e))
Sent-append {s} bs text before kept (part ps qs code split some_text not_open) =
    part (bs ++ ps) qs code (ap (λ t. bs ++ t) split ∙ sym (append_assoc bs ps qs))
      (some_text ∙ ap (λ t. t ++ ps) before ∙ append_assoc s.written bs ps) (λ e. not_open (kept e))

-- With a descriptor that takes everything the whole text is there.
pub Sent-open :
    {s : Sink} {r : ℕ} {text : Bytes} {out : ℕ × Sink}
    → s.plan ≡ []
    → Sent s r text out
    → (out.0 ≡ r) × (out.1 ≡ sink [] (s.written ++ text))
Sent-open {out} e (whole code text' kept) =
    (code, ap (λ plan. sink plan out.1.written) (kept e) ∙ ap (λ w. sink [] w) text')
Sent-open e (part ps qs code split text not_open) = absurd (not_open e)
