-- ===== src/Requests/Progress.antt =====
-- Interleavings of the workers and the producer of src/server/main.c.
use event_management_server.Base.{
  Bool, ◌+◌, ◌%◌, ◌<◌, ◌≡◌, refl, sym, ◌∙◌, subst, some-injective, some, arith, length, length-set,
  get_elem?, Option-cases, Bool-cases, inl, inr, ◌==◌,
}
use event_management_server.Requests.{
  Request, Buffer, max_session_count, insert_request, retrieve_request, decrement,
}
use event_management_server.Requests.Race.{
  System, Step, insert, leave, retrieve, finish, Reach, here, next,
}

-- The buffer has its size, and both indices lie in it.
pub record InBounds (b : Buffer) : Type 0 where
  pub size : length b.buffer ≡ max_session_count
  pub in_bound : b.in_index < max_session_count
  pub out_bound : b.out_index < max_session_count

insert-InBounds :
    (r : Request) (b b' : Buffer) → InBounds b → insert_request r b ≡ some b' → InBounds b'
unfolding insert_request
insert-InBounds r b b' i e = elim (Bool-cases (b.count == max_session_count)) [
  | inl full ↦ absurd (ground (arith, full, e))
  | inr room ↦
      let stored : Request = record r { session_id = b.session_counter } in
      subst (λ c. InBounds c) (some-injective (simp room at e))
        (record {
          size = length-set b.buffer b.in_index stored ∙ i.size;
          in_bound = omega arith;
          out_bound = i.out_bound;
        })
]

retrieve-InBounds :
    (r : Request) (b b' : Buffer) → InBounds b → retrieve_request b ≡ some (r, b') → InBounds b'
unfolding retrieve_request
retrieve-InBounds r b b' i e = elim (Option-cases (get_elem? b.buffer b.out_index)) [
  | inl outside ↦ absurd (ground (arith, outside, e))
  | inr (stored, held) ↦
      let after : Buffer = record b {
        out_index = (b.out_index + 1) % max_session_count;
        count = decrement b.count;
      } in
      let opened : retrieve_request b ≡ some (stored, after) = rw (held, retrieve_request) refl in
      subst (λ out. InBounds out.1) (some-injective (sym opened ∙ e))
        (record { size = i.size; in_bound = i.in_bound; out_bound = omega arith })
]

Step-InBounds :
    (returns : Request → Bool) (s t : System)
    → Step returns s t
    → InBounds s.queue
    → InBounds t.queue
Step-InBounds returns s t (insert r b taken same) i = rw same (insert-InBounds r s.queue b i taken)
Step-InBounds returns s t (leave w idle more same) i = rw same i
Step-InBounds returns s t (retrieve w r b ready taken same) i =
    rw same (retrieve-InBounds r s.queue b i taken)
Step-InBounds returns s t (finish w r busy back same) i = rw same i

-- In whatever order the producer and the workers move, and also where two workers have taken one
-- request, both indices stay in the buffer, so that no insertion and no retrieval is outside it.
pub Reach-InBounds :
    (returns : Request → Bool) (s t : System)
    → Reach returns s t
    → InBounds s.queue
    → InBounds t.queue
Reach-InBounds returns s t here i = i
Reach-InBounds returns s t (next {t = u} r step) i =
    Step-InBounds returns u t step (Reach-InBounds returns s u r i)
