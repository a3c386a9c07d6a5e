-- ===== src/Client/Monitor/Frames.antt =====
-- Every frame of a stream is released once, however the goroutine and the monitor interleave.
use entropy_service.Prelude.{
  ℕ, ◌+◌, ◌%◌, ◌≡◌, refl, sym, ap, ◌∙◌, ◌⊎◌, inl, Bool, true, false, List, [], ◌∷◌, ◌++◌,
  append-nil, append_assoc, arith, length, length-append,
}
use entropy_service.Prelude.Word.{u64_mod}
use entropy_service.Client.Monitor.Stream.{
  Producer, looping, reading, ended, sending, Consumer, waiting, draining, returned, using, Stream,
  new_stream, LocalStep, close_fails, closer_closes, local, StreamStep, begins_read, sees_cancel,
  reads, peer_fails, sends, gives_up, is_canceled, takes, sees_closed, leaves, observes, drains,
  returns, StreamSteps, start, then_step,
}

-- What each side has in its hands.
abbrev in_producer : Producer → List (List ℕ)
in_producer looping = []
in_producer reading = []
in_producer ended = []
in_producer (sending frame) = frame ∷ []

abbrev in_consumer : Consumer → List (List ℕ)
in_consumer waiting = []
in_consumer draining = []
in_consumer returned = []
in_consumer (using frame) = frame ∷ []

abbrev pub bytes_of : List (List ℕ) → ℕ
bytes_of [] = 0
bytes_of (frame ∷ frames) = length frame + bytes_of frames

abbrev is_draining : Consumer → Bool
is_draining draining = true
is_draining returned = true
is_draining waiting = false
is_draining (using frame) = false

abbrev is_ended : Producer → Bool
is_ended ended = true
is_ended looping = false
is_ended reading = false
is_ended (sending frame) = false

abbrev is_returned : Consumer → Bool
is_returned returned = true
is_returned draining = false
is_returned waiting = false
is_returned (using frame) = false

-- Every frame is in one place, in the order in which they came; nothing is drained before the
-- monitor leaves its loop, and the channel is closed just when the goroutine has returned.
pub record IsConserved (s : Stream) : Type 0 where
  pub places :
      s.produced
      ≡ s.observed
        ++ (in_consumer s.consumer
            ++ (s.drained ++ (s.out ++ (s.unsent ++ in_producer s.producer))))
  pub undrained : (s.drained ≡ []) ⊎ (is_draining s.consumer ≡ true)
  pub sent : (s.unsent ≡ []) ⊎ (is_ended s.producer ≡ true)
  pub closes : s.closed ≡ is_ended s.producer
  pub finishes : (is_returned s.consumer ≡ false) ⊎ ((s.closed ≡ true) × (s.out ≡ []))
  pub bytes : s.bytes_received ≡ bytes_of s.produced % u64_mod
  pub messages : s.wss_messages ≡ length s.produced % u64_mod

bytes_of-append :
    (frames : List (List ℕ)) (frame : List ℕ)
    → bytes_of (frames ++ (frame ∷ [])) ≡ bytes_of frames + length frame
bytes_of-append [] frame = omega arith
bytes_of-append (f ∷ frames) frame = omega (arith, bytes_of-append frames frame)

append_five :
    (a b c d e x : List (List ℕ))
    → (a ++ (b ++ (c ++ (d ++ (e ++ []))))) ++ x ≡ a ++ (b ++ (c ++ (d ++ (e ++ x))))
append_five a b c d e x = simp (append_assoc, append-nil)

reads-places :
    (s : Stream) (frame : List ℕ)
    → s.producer ≡ reading
    → IsConserved s
    → s.produced ++ (frame ∷ [])
      ≡ s.observed
        ++ (in_consumer s.consumer ++ (s.drained ++ (s.out ++ (s.unsent ++ (frame ∷ [])))))
reads-places s frame p v =
    ap (λ (l : List (List ℕ)). l ++ (frame ∷ [])) (rw p at v.places)
    ∙ append_five s.observed (in_consumer s.consumer) s.drained s.out s.unsent (frame ∷ [])

none_unsent :
    (s : Stream) (frame : List ℕ) → s.producer ≡ sending frame → IsConserved s → s.unsent ≡ []
none_unsent s frame p v = ground (arith, p, v.sent)

none_drained : (s : Stream) → s.consumer ≡ waiting → IsConserved s → s.drained ≡ []
none_drained s c v = ground (arith, c, v.undrained)

sends-places :
    (s : Stream) (frame : List ℕ)
    → s.producer ≡ sending frame
    → s.out ≡ []
    → IsConserved s
    → s.produced
      ≡ s.observed ++ (in_consumer s.consumer ++ (s.drained ++ ((frame ∷ []) ++ (s.unsent ++ []))))
sends-places s frame p o v =
    rw (none_unsent s frame p v) (rw o at (rw p at (rw (none_unsent s frame p v) at v.places)))

gives_up-places :
    (s : Stream) (frame : List ℕ)
    → s.producer ≡ sending frame
    → IsConserved s
    → s.produced
      ≡ s.observed ++ (in_consumer s.consumer ++ (s.drained ++ (s.out ++ ((frame ∷ []) ++ []))))
gives_up-places s frame p v = rw p at (rw (none_unsent s frame p v) at v.places)

takes-places :
    (s : Stream) (frame : List ℕ) (rest : List (List ℕ))
    → s.consumer ≡ waiting
    → s.out ≡ frame ∷ rest
    → IsConserved s
    → s.produced
      ≡ s.observed
        ++ ((frame ∷ []) ++ (s.drained ++ (rest ++ (s.unsent ++ in_producer s.producer))))
takes-places s frame rest c o v =
    rw (none_drained s c v) (rw o at (rw c at (rw (none_drained s c v) at v.places)))

observes-places :
    (s : Stream) (frame : List ℕ)
    → s.consumer ≡ using frame
    → IsConserved s
    → s.produced
      ≡ (s.observed ++ (frame ∷ []))
        ++ ([] ++ (s.drained ++ (s.out ++ (s.unsent ++ in_producer s.producer))))
observes-places s frame c v =
    (rw c at v.places)
    ∙ sym (
        append_assoc s.observed (frame ∷ [])
          (s.drained ++ (s.out ++ (s.unsent ++ in_producer s.producer))))

drains-places :
    (s : Stream) (frame : List ℕ) (rest : List (List ℕ))
    → s.consumer ≡ draining
    → s.out ≡ frame ∷ rest
    → IsConserved s
    → s.produced
      ≡ s.observed
        ++ (in_consumer s.consumer
            ++ ((s.drained ++ (frame ∷ [])) ++ (rest ++ (s.unsent ++ in_producer s.producer))))
drains-places s frame rest c o v =
    (rw o at v.places)
    ∙ ap (λ l. s.observed ++ (in_consumer s.consumer ++ l))
        (sym (append_assoc s.drained (frame ∷ []) (rest ++ (s.unsent ++ in_producer s.producer))))

pub LocalStep-IsConserved : {s t : Stream} → LocalStep s t → IsConserved s → IsConserved t
LocalStep-IsConserved (begins_read p c) v = ground arith
LocalStep-IsConserved (sees_cancel p c) v = ground arith
LocalStep-IsConserved (close_fails p k) v = ground arith
LocalStep-IsConserved {s = s} (sends frame p o) v = record {
  places = sends-places s frame p o v;
  undrained = ground (arith, v.undrained);
  sent = ground (arith, v.sent);
  closes = ground (arith, v.closes);
  finishes = ground (arith, v.finishes);
  bytes = v.bytes;
  messages = v.messages;
}
LocalStep-IsConserved {s = s} (gives_up frame p c) v = record {
  places = gives_up-places s frame p v;
  undrained = ground (arith, v.undrained);
  sent = ground (arith, v.sent);
  closes = ground (arith, v.closes);
  finishes = ground (arith, v.finishes);
  bytes = v.bytes;
  messages = v.messages;
}
LocalStep-IsConserved (closer_closes k) v = ground arith
LocalStep-IsConserved {s = s} (takes frame rest c o) v = record {
  places = takes-places s frame rest c o v;
  undrained = ground (arith, v.undrained);
  sent = ground (arith, v.sent);
  closes = ground (arith, v.closes);
  finishes = ground (arith, v.finishes);
  bytes = v.bytes;
  messages = v.messages;
}
LocalStep-IsConserved (sees_closed c o e) v = ground arith
LocalStep-IsConserved (leaves c e) v = ground arith
LocalStep-IsConserved {s = s} (observes frame c) v = record {
  places = observes-places s frame c v;
  undrained = ground (arith, v.undrained);
  sent = ground (arith, v.sent);
  closes = ground (arith, v.closes);
  finishes = ground (arith, v.finishes);
  bytes = v.bytes;
  messages = v.messages;
}
LocalStep-IsConserved {s = s} (drains frame rest c o) v = record {
  places = drains-places s frame rest c o v;
  undrained = ground (arith, v.undrained);
  sent = ground (arith, v.sent);
  closes = ground (arith, v.closes);
  finishes = ground (arith, v.finishes);
  bytes = v.bytes;
  messages = v.messages;
}
LocalStep-IsConserved (returns c o e) v = ground arith

pub StreamStep-IsConserved : {s t : Stream} → StreamStep s t → IsConserved s → IsConserved t
StreamStep-IsConserved {s = s} (reads frame p) v = record {
  places = reads-places s frame p v;
  undrained = ground (arith, v.undrained);
  sent = ground (arith, v.sent);
  closes = ground (arith, v.closes);
  finishes = ground (arith, v.finishes);
  bytes = omega (arith, v.bytes, bytes_of-append s.produced frame);
  messages = omega (arith, v.messages, length-append s.produced (frame ∷ []));
}
StreamStep-IsConserved (peer_fails p k) v = ground arith
StreamStep-IsConserved is_canceled v = ground arith
StreamStep-IsConserved (local q) v = LocalStep-IsConserved q v

pub StreamSteps-IsConserved : {s t : Stream} → StreamSteps s t → IsConserved s → IsConserved t
StreamSteps-IsConserved start v = v
StreamSteps-IsConserved (then_step p q) v = StreamStep-IsConserved q (StreamSteps-IsConserved p v)

pub new_stream-IsConserved : IsConserved new_stream
new_stream-IsConserved = record {
  places = refl;
  undrained = inl refl;
  sent = inl refl;
  closes = refl;
  finishes = inl refl;
  bytes = omega arith;
  messages = omega arith;
}

returned-places :
    (s : Stream)
    → s.consumer ≡ returned
    → s.producer ≡ ended
    → s.out ≡ []
    → IsConserved s
    → s.produced ≡ s.observed ++ (s.drained ++ s.unsent)
returned-places s c p o v = (rw o at (rw p at (rw c at v.places))) ∙ simp append-nil

-- In every state that a stream can reach and in which the monitor has returned, the goroutine has
-- returned too; the frames that it read are, in order, those that were observed, those that were
-- drained and the one that could not be sent, so that each was released once; and the client's
-- counts are their bytes and their number, up to 2 ^ 64.
pub new_stream-releases :
    {s : Stream}
    → StreamSteps new_stream s
    → s.consumer ≡ returned
    → (s.producer ≡ ended)
      × (s.produced ≡ s.observed ++ (s.drained ++ s.unsent))
      × (s.bytes_received ≡ bytes_of s.produced % u64_mod)
      × (s.wss_messages ≡ length s.produced % u64_mod)
new_stream-releases {s = s} p c =
    let v = StreamSteps-IsConserved p new_stream-IsConserved in
    let o : s.out ≡ [] = ground (arith, c, v.finishes) in
    let closed : s.closed ≡ true = ground (arith, c, v.finishes) in
    let e : s.producer ≡ ended = ground (arith, closed, v.closes) in
    (e, returned-places s c e o v, v.bytes, v.messages)
