-- ===== src/Grpc/Forwarding.antt =====
-- pkg/agent/protocol/grpc/handler.go: what a forwarded call delivers, in every interleaving of its relays.
use xk6_disruptor.Prelude.{
  ◌≡◌, refl, sym, ap, ◌∙◌, ◌⊎◌, inl, inr, true, false, none, some, List, [], ◌∷◌, ◌++◌, append-nil,
  append_assoc, codes,
}
use xk6_disruptor.Grpc.Handler.{
  StreamError, eof, broken, requests_end, answers_end, success, status, internal, Forwarded,
  end_answer, select_loop,
}
use xk6_disruptor.Grpc.Relay.{
  Pump, PumpStep, sends, ends, fails, Relay, relay, result_of, RelayStep, requests_step,
  answers_step, take_requests, take_answers, RelayReach, at_start, step,
}

module _ {M : Type 0} where
  -- Nothing is lost, doubled or put in another order, and a stop with io.EOF leaves nothing behind.
  record IsFaithful (ms : List M) (p : Pump M) : Type 0 where
    whole : p.sent ++ p.left ≡ ms
    complete : p.stopped ≡ some eof → p.left ≡ []

  step_whole :
      {ms : List M} {p q : Pump M} → PumpStep p q → p.sent ++ p.left ≡ ms → q.sent ++ q.left ≡ ms
  step_whole (sends p m rest l n) h =
      append_assoc p.sent (m ∷ []) rest ∙ ap (λ x. p.sent ++ x) (sym l) ∙ h
  step_whole (ends p l n) h = h
  step_whole (fails p m rest e l n) h = h

  step_running : {p q : Pump M} → PumpStep p q → p.stopped ≡ none
  step_running (sends p m rest l n) = n
  step_running (ends p l n) = n
  step_running (fails p m rest e l n) = n

  -- The events that the loop took, with what they say of the answers' relay.
  data IsTaken (r : Relay M) : Type 0 where
    nothing : r.events ≡ [] → r.requests_taken ≡ false → r.answers_taken ≡ false → IsTaken r
    requests_first :
        (e : StreamError)
        → r.events ≡ requests_end e ∷ []
        → r.requests_taken ≡ true
        → r.answers_taken ≡ false
        → IsTaken r
    answers_first :
        (e : StreamError) → r.events ≡ answers_end e ∷ [] → r.answers.stopped ≡ some e → IsTaken r
    both :
        (e : StreamError)
        → r.events ≡ requests_end eof ∷ answers_end e ∷ []
        → r.answers.stopped ≡ some e
        → IsTaken r

  record IsSound (ms ns : List M) (r : Relay M) : Type 0 where
    requests_whole : r.requests.sent ++ r.requests.left ≡ ms
    answers_faithful : IsFaithful ns r.answers
    taken : IsTaken r

  answers_step-IsTaken :
      (r : Relay M) (p : Pump M)
      → r.answers.stopped ≡ none
      → IsTaken r
      → IsTaken (record r { answers = p })
  answers_step-IsTaken r p n (nothing e a b) = nothing e a b
  answers_step-IsTaken r p n (requests_first e h a b) = requests_first e h a b
  answers_step-IsTaken r p n (answers_first e h s) =
      absurd (let f : none ≡ some e = sym n ∙ s in cc)
  answers_step-IsTaken r p n (both e h s) = absurd (let f : none ≡ some e = sym n ∙ s in cc)

  requests_step-IsTaken :
      (r : Relay M) (p : Pump M) → IsTaken r → IsTaken (record r { requests = p })
  requests_step-IsTaken r p (nothing e a b) = nothing e a b
  requests_step-IsTaken r p (requests_first e h a b) = requests_first e h a b
  requests_step-IsTaken r p (answers_first e h s) = answers_first e h s
  requests_step-IsTaken r p (both e h s) = both e h s

  take_requests_taken :
      (r : Relay M) (e : StreamError)
      → r.requests_taken ≡ false
      → result_of r ≡ none
      → IsTaken r
      → IsTaken (record r { requests_taken = true; events = r.events ++ requests_end e ∷ [] })
  unfolding select_loop
  take_requests_taken r e free n (nothing h a b) =
      requests_first e (ap (λ x. x ++ requests_end e ∷ []) h) refl b
  take_requests_taken r e free n (requests_first f h a b) =
      absurd (let g : false ≡ true = sym free ∙ a in cc)
  take_requests_taken r e free n (answers_first f h s) = absurd (let g = rw h at n in cc)
  take_requests_taken r e free n (both f h s) = absurd (let g = rw h at n in cc)

  take_answers_taken :
      (r : Relay M) (e : StreamError)
      → r.answers.stopped ≡ some e
      → result_of r ≡ none
      → IsTaken r
      → IsTaken (record r { answers_taken = true; events = r.events ++ answers_end e ∷ [] })
  unfolding select_loop
  take_answers_taken r e s n (nothing h a b) =
      answers_first e (ap (λ x. x ++ answers_end e ∷ []) h) s
  take_answers_taken r e s n (requests_first eof h a b) =
      both e (ap (λ x. x ++ answers_end e ∷ []) h) s
  take_answers_taken r e s n (requests_first (broken x) h a b) = absurd (let g = rw h at n in cc)
  take_answers_taken r e s n (answers_first f h t) = absurd (let g = rw h at n in cc)
  take_answers_taken r e s n (both f h t) = absurd (let g = rw h at n in cc)

  Step-IsSound :
      {ms ns : List M} {r s : Relay M} → RelayStep r s → IsSound ms ns r → IsSound ms ns s
  Step-IsSound (requests_step r p st) h = record {
    requests_whole = step_whole st h.requests_whole;
    answers_faithful = h.answers_faithful;
    taken = requests_step-IsTaken r p h.taken;
  }
  Step-IsSound (answers_step r p st orderly) h = record {
    requests_whole = h.requests_whole;
    answers_faithful = record {
      whole = step_whole st h.answers_faithful.whole;
      complete = orderly;
    };
    taken = answers_step-IsTaken r p (step_running st) h.taken;
  }
  Step-IsSound (take_requests r e s free n) h = record {
    requests_whole = h.requests_whole;
    answers_faithful = h.answers_faithful;
    taken = take_requests_taken r e free n h.taken;
  }
  Step-IsSound (take_answers r e s free n) h = record {
    requests_whole = h.requests_whole;
    answers_faithful = h.answers_faithful;
    taken = take_answers_taken r e s n h.taken;
  }

  Reach-IsSound :
      {ms ns : List M} {r s : Relay M} → RelayReach r s → IsSound ms ns r → IsSound ms ns s
  Reach-IsSound at_start h = h
  Reach-IsSound (step reach st) h = Step-IsSound st (Reach-IsSound reach h)

  start-IsSound : (ms ns : List M) (e f : StreamError) → IsSound ms ns (relay ms e ns f)
  start-IsSound ms ns e f = record {
    requests_whole = refl;
    answers_faithful = record { whole = refl; complete = λ x. absurd (cc) };
    taken = nothing refl refl refl;
  }

  -- In every state of a forwarded gRPC call, the messages that were sent on in each direction,
  -- followed by those that were not, are the messages of the sender, in their order: nothing is
  -- lost, doubled or moved on the way.
  pub relay_in_order :
      {ms ns : List M} {e f : StreamError} {r : Relay M}
      → RelayReach (relay ms e ns f) r
      → (r.requests.sent ++ r.requests.left ≡ ms) × (r.answers.sent ++ r.answers.left ≡ ns)
  relay_in_order {ms} {ns} {e} {f} reach =
      let h = Reach-IsSound reach (start-IsSound ms ns e f) in
      (h.requests_whole, h.answers_faithful.whole)

  success_means :
      (r : Relay M) (x : Forwarded)
      → IsTaken r
      → result_of r ≡ some x
      → x.answer ≡ success
      → r.answers.stopped ≡ some eof
  unfolding select_loop end_answer
  success_means r x (nothing h a b) e ok_answer = absurd (let g : none ≡ some x = rw h at e in cc)
  success_means r x (requests_first eof h a b) e ok_answer =
      absurd (let g : none ≡ some x = rw h at e in cc)
  success_means r x (requests_first (broken y) h a b) e ok_answer = absurd (let g = rw h at e in cc)
  success_means r x (answers_first eof h s) e ok_answer = s
  success_means r x (answers_first (broken y) h s) e ok_answer = absurd (let g = rw h at e in cc)
  success_means r x (both eof h s) e ok_answer = s
  success_means r x (both (broken y) h s) e ok_answer = absurd (let g = rw h at e in cc)

  -- Whatever the order in which the two relays of a forwarded gRPC call and the loop that waits for
  -- them proceed, when the call is answered with success the client has got every message that the
  -- server sent, in order: where SendMsg of a server's stream never fails with io.EOF.
  pub relay_success :
      {ms ns : List M} {e f : StreamError} {r : Relay M} (x : Forwarded)
      → RelayReach (relay ms e ns f) r
      → result_of r ≡ some x
      → x.answer ≡ success
      → r.answers.sent ≡ ns
  relay_success {ms} {ns} {e} {f} {r} x reach result ok_answer =
      let h = Reach-IsSound reach (start-IsSound ms ns e f) in
      let none_left = h.answers_faithful.complete (success_means r x h.taken result ok_answer) in
      sym (append-nil r.answers.sent)
      ∙ ap (λ y. r.answers.sent ++ y) (sym none_left)
      ∙ h.answers_faithful.whole

  -- When the call is answered, either the server's answers ended and the trailer is set, or the status is that
  -- of a failed relay of the requests: the last status of the source is never reached.
  pub relay_settles :
      {ms ns : List M} {e f : StreamError} {r : Relay M} (x : Forwarded)
      → RelayReach (relay ms e ns f) r
      → result_of r ≡ some x
      → (x.trailer_set ≡ true)
        ⊎ (x.answer ≡ status internal (codes "failed forwarding response to client: %v"))
  unfolding select_loop end_answer
  relay_settles {ms} {ns} {e} {f} {r} x reach result =
      elim (Reach-IsSound reach (start-IsSound ms ns e f)).taken [
        | nothing h a b ↦ absurd (let g : none ≡ some x = rw h at result in cc)
        | requests_first eof h a b ↦ absurd (let g : none ≡ some x = rw h at result in cc)
        | requests_first (broken y) h a b ↦ let g = rw h at result in inr (cc)
        | answers_first y h s ↦ let g = rw h at result in inl (cc)
        | both y h s ↦ let g = rw h at result in inl (cc)
      ]
