-- ===== src/Services/Ordered.antt =====
-- listener/syncer.go and aggregator/aggregator.go: what holds of every run of the services' loops.
use reddit_commander.Prelude.{
  ◌≡◌, ◌≢◌, refl, ap, sym, ◌∙◌, subst, ℕ, true, false, Option, none, some, List, [], ◌∷◌, ◌++◌,
  append_assoc, Outcome, ok, err, panic,
}
use reddit_commander.Merkle.{Crypto}
use reddit_commander.Database.{Tables, Db}
use reddit_commander.Listener.{Chain, Log, Event}
use reddit_commander.Listener.Syncer.{header_logs}
use reddit_commander.Services.Loops.{
  Poller, Running, on_start, on_stop, PollMove, Spawned, after_look, looked, finished, HeaderMove,
  AggregateMove, Move, Moves, InOrder, in_hand, in_turn, on_the_way,
}

abbrev IsWaiting : Poller → Type 0
IsWaiting Poller.waiting = Unit
IsWaiting (Poller.sending number) = ⊥
IsWaiting Poller.returned = ⊥

sending≢waiting : (number : ℕ) → Poller.sending number ≢ Poller.waiting
sending≢waiting number e = subst IsWaiting (sym e) tt

module _ (K : Crypto) (G : Tables) where
  -- A fetched header is the last one on the way.
  on_the_way-tick :
      (w : Option Spawned) (r : Option ℕ) (number : ℕ)
      → on_the_way K G w r Poller.waiting ++ number ∷ []
        ≡ on_the_way K G w r (Poller.sending number)
  on_the_way-tick none none number = refl
  on_the_way-tick none (some n) number = refl
  on_the_way-tick (some work) none number = refl
  on_the_way-tick (some work) (some n) number = refl

  on_the_way-receive :
      (w : Option Spawned) (number : ℕ)
      → on_the_way K G w none (Poller.sending number)
        ≡ on_the_way K G w (some number) Poller.waiting
  on_the_way-receive none number = refl
  on_the_way-receive (some work) number = refl

  -- The first header on the way becomes a handled one.
  handle_first :
      (handled : List ℕ) (n : ℕ) (rest : List ℕ) → handled ++ n ∷ rest ≡ (handled ++ n ∷ []) ++ rest
  handle_first handled n rest = sym (append_assoc handled (n ∷ []) rest)

  PollMove-InOrder : (s t : Running K G) → PollMove K G s t → InOrder K G s → InOrder K G t
  PollMove-InOrder s t (PollMove.tick number e e') h = subst (InOrder K G) (sym e') (
      ap (λ ns. ns ++ number ∷ [])
        (h ∙ ap (λ p. s.handled ++ on_the_way K G s.spawned s.received p) e)
      ∙ append_assoc s.handled (on_the_way K G s.spawned s.received Poller.waiting) (number ∷ [])
      ∙ ap (λ ns. s.handled ++ ns) (on_the_way-tick s.spawned s.received number))
  PollMove-InOrder s t (PollMove.miss e e') h = subst (InOrder K G) (sym e') h
  PollMove-InOrder s t (PollMove.return_poller c e e') h =
      subst (InOrder K G) (sym e')
        (h ∙ ap (λ p. s.handled ++ on_the_way K G s.spawned s.received p) e)

  after_look-InOrder :
      (C : Chain) (abis : List (List Event)) (number : ℕ) (r : Outcome (Option (List Log)))
      (s : Running K G)
      → s.received ≡ none
      → s.spawned ≡ none
      → s.fetched ≡ s.handled ++ on_the_way K G none (some number) s.poller
      → InOrder K G (after_look K G C abis number r s)
  after_look-InOrder C abis number (ok none) s free idle h =
      rw (free, idle) (h ∙ handle_first s.handled number (in_hand K G s.poller))
  after_look-InOrder C abis number (ok (some logs)) s free idle h = rw free h
  after_look-InOrder C abis number (err e) s free idle h =
      rw (free, idle) (h ∙ handle_first s.handled number (in_hand K G s.poller))
  after_look-InOrder C abis number panic s free idle h =
      rw (free, idle) (h ∙ handle_first s.handled number (in_hand K G s.poller))

  HeaderMove-InOrder : (s t : Running K G) → HeaderMove K G s t → InOrder K G s → InOrder K G t
  unfolding looked finished
  HeaderMove-InOrder s t (HeaderMove.receive number e on free e') h = subst (InOrder K G) (sym e') (
      h
      ∙ ap (λ r. s.handled ++ on_the_way K G s.spawned r s.poller) free
      ∙ ap (λ p. s.handled ++ on_the_way K G s.spawned none p) e
      ∙ ap (λ ns. s.handled ++ ns) (on_the_way-receive s.spawned number))
  HeaderMove-InOrder s t (HeaderMove.look C abis number e idle e') h =
      subst (InOrder K G) (sym e') (
        after_look-InOrder C abis number (header_logs K C G number s.db).0
          (record s { db = (header_logs K C G number s.db).1; received = none }) refl idle
          (h
            ∙ ap (λ w. s.handled ++ on_the_way K G w s.received s.poller) idle
            ∙ ap (λ r. s.handled ++ on_the_way K G none r s.poller) e))
  HeaderMove-InOrder s t (HeaderMove.finish work e e') h = subst (InOrder K G) (sym e') (
      h
      ∙ ap (λ w. s.handled ++ on_the_way K G w s.received s.poller) e
      ∙ handle_first s.handled work.number (in_turn K G s.received ++ in_hand K G s.poller))
  HeaderMove-InOrder s t (HeaderMove.return_processor c free e') h = subst (InOrder K G) (sym e') h

  Move-InOrder : (s t : Running K G) → Move K G s t → InOrder K G s → InOrder K G t
  unfolding on_stop
  Move-InOrder s t (Move.poll alive m) h = PollMove-InOrder s t m h
  Move-InOrder s t (Move.head alive m) h = HeaderMove-InOrder s t m h
  Move-InOrder s t (Move.aggregate alive (AggregateMove.round n on e)) h =
      subst (InOrder K G) (sym e) h
  Move-InOrder s t (Move.aggregate alive (AggregateMove.return_aggregator c e)) h =
      subst (InOrder K G) (sym e) h
  Move-InOrder s t (Move.post J rlp_encode uuid now request alive e) h =
      subst (InOrder K G) (sym e) h
  Move-InOrder s t (Move.stop e) h = subst (InOrder K G) (sym e) h

  Moves-InOrder : (s t : Running K G) → Moves K G s t → InOrder K G s → InOrder K G t
  Moves-InOrder s t Moves.here h = h
  Moves-InOrder s t (Moves.next {mid} moves move) h =
      Move-InOrder mid t move (Moves-InOrder s mid moves h)

  -- Whatever the loops do from the start on, until and after a stop: the headers that were fetched are
  -- those that were handled, each once and in the same order, and after them at most three that are on
  -- their way: one whose events are being handled, one that was received and waits for them, and one
  -- that waits for its receiver.
  pub on_start-Moves : (db : Db G) (t : Running K G) → Moves K G (on_start K G db) t → InOrder K G t
  unfolding on_start
  on_start-Moves db t moves = Moves-InOrder (on_start K G db) t moves refl

  -- The poller at a send after the processor has returned.
  pub record Stuck (number : ℕ) (s : Running K G) : Type 0 where
    pub at_send : s.poller ≡ Poller.sending number
    pub gone : s.processing ≡ false

  after_look-Stuck :
      (number : ℕ) (C : Chain) (abis : List (List Event)) (n : ℕ) (r : Outcome (Option (List Log)))
      (s : Running K G)
      → Stuck number s
      → Stuck number (after_look K G C abis n r s)
  after_look-Stuck number C abis n (ok none) s h = record { at_send = h.at_send; gone = h.gone }
  after_look-Stuck number C abis n (ok (some logs)) s h = record {
    at_send = h.at_send;
    gone = h.gone;
  }
  after_look-Stuck number C abis n (err e) s h = record { at_send = h.at_send; gone = h.gone }
  after_look-Stuck number C abis n panic s h = record { at_send = h.at_send; gone = h.gone }

  Move-Stuck : (number : ℕ) (s t : Running K G) → Move K G s t → Stuck number s → Stuck number t
  unfolding on_stop looked finished
  Move-Stuck number s t (Move.poll alive (PollMove.tick n e e')) h =
      absurd (sending≢waiting number (sym h.at_send ∙ e))
  Move-Stuck number s t (Move.poll alive (PollMove.miss e e')) h =
      absurd (sending≢waiting number (sym h.at_send ∙ e))
  Move-Stuck number s t (Move.poll alive (PollMove.return_poller c e e')) h =
      absurd (sending≢waiting number (sym h.at_send ∙ e))
  Move-Stuck number s t (Move.head alive (HeaderMove.receive n e on free e')) h =
      let wrong : true ≡ false = sym on ∙ h.gone in cc
  Move-Stuck number s t (Move.head alive (HeaderMove.look C abis n e free e')) h =
      subst (Stuck number) (sym e') (
        after_look-Stuck number C abis n (header_logs K C G n s.db).0
          (record s { db = (header_logs K C G n s.db).1; received = none })
          (record { at_send = h.at_send; gone = h.gone }))
  Move-Stuck number s t (Move.head alive (HeaderMove.finish work e e')) h =
      subst (Stuck number) (sym e') (record { at_send = h.at_send; gone = h.gone })
  Move-Stuck number s t (Move.head alive (HeaderMove.return_processor c free e)) h =
      subst (Stuck number) (sym e) (record { at_send = h.at_send; gone = refl })
  Move-Stuck number s t (Move.aggregate alive (AggregateMove.round n on e)) h =
      subst (Stuck number) (sym e) (record { at_send = h.at_send; gone = h.gone })
  Move-Stuck number s t (Move.aggregate alive (AggregateMove.return_aggregator c e)) h =
      subst (Stuck number) (sym e) (record { at_send = h.at_send; gone = h.gone })
  Move-Stuck number s t (Move.post J rlp_encode uuid now request alive e) h =
      subst (Stuck number) (sym e) (record { at_send = h.at_send; gone = h.gone })
  Move-Stuck number s t (Move.stop e) h =
      subst (Stuck number) (sym e) (record { at_send = h.at_send; gone = h.gone })

  Moves-Stuck : (number : ℕ) (s t : Running K G) → Moves K G s t → Stuck number s → Stuck number t
  Moves-Stuck number s t Moves.here h = h
  Moves-Stuck number s t (Moves.next {mid} moves move) h =
      Move-Stuck number mid t move (Moves-Stuck number s mid moves h)

  -- After a stop the processor may return from its select while the poller is at the send of a header. From then on
  -- the poller stays at this send, whatever the program does: it never returns.
  pub return_processor-Stuck :
      (number : ℕ) (s t u : Running K G)
      → s.alive ≡ true
      → s.cancelled ≡ true
      → s.received ≡ none
      → s.poller ≡ Poller.sending number
      → t ≡ record s { processing = false }
      → Moves K G t u
      → Move K G s t × Stuck number u
  return_processor-Stuck number s t u alive cancelled free at_send e moves = (
    Move.head alive (HeaderMove.return_processor cancelled free e),
    Moves-Stuck number t u moves
        (subst (Stuck number) (sym e) (record { at_send = at_send; gone = refl })),
  )
