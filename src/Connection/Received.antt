-- ===== src/Connection/Received.antt =====
-- The rounds of `ReceiverLoop` (src/detail/connection_impl.cpp) over the bytes that the socket gives, and
-- the queues of the streams that it fills.
use cassandra_driver.Base.{
  ℕ, ◌<◌, ◌^◌, ◌≡◌, ◌≢◌, ◌∙◌, refl, sym, ap, subst, List, [], ◌∷◌, ◌++◌, map, append-nil,
  append_assoc, Bool, true, false, ◌==◌, if◌then◌else◌, Option, length, All, Occurs, inl, inr,
  arith,
}
use cassandra_driver.Base.Result.{Exception, ok, throws, fault, stuck, ◌>>=◌}
use mathlib.Core.List.Perm
use mathlib.Core.List.{
  Mem, Perm, Nodup, Nodup-cons, Nodup-append, mem-append_left, mem-cons_self, mem-cons_of_mem,
}
use cassandra_driver.Io.{RawBuffer}
use cassandra_driver.Protocol.Frame.{FrameHeader, serialize_header}
use cassandra_driver.Protocol.Frame.Layout.{IsHeader}
use cassandra_driver.Protocol.Lz4.{Compressor}
use cassandra_driver.Protocol.Responses.{
  ResponseMessage, ResponseBody, check_response_header, parse_body,
}
use cassandra_driver.Connection.{read_frame, Arrival, Receiver, receive, receiver_loop}
use cassandra_driver.Connection.Frames.{read_frame-frame}
use cassandra_driver.Connection.Streams.{max_streams, Streams, Reaches}
use cassandra_driver.Connection.Streams.Held.{held-Nodup, held-known, known-All}

-- What so many rounds meet over the bytes that a socket still has, up to the first frame that cannot be
-- read. A round has whether the queue takes its frame in time.
pub arrivals : Option Compressor → List Bool → RawBuffer → List Arrival
arrivals compressor [] bytes = []
arrivals compressor (accepted ∷ rounds) bytes = elim (read_frame compressor bytes) [
  | ok (m, rest) ↦ record { frame = ok m; accepted = accepted } ∷ arrivals compressor rounds rest
  | throws e ↦ record { frame = throws e; accepted = accepted } ∷ []
  | fault ↦ record { frame = fault; accepted = accepted } ∷ []
  | stuck ↦ record { frame = stuck; accepted = accepted } ∷ []
]

-- What was pushed into the queue of a stream.
pub queue_of : ℕ → List (ℕ × ResponseMessage) → List ResponseMessage
queue_of id [] = []
queue_of id ((at, m) ∷ ms) = let rest = queue_of id ms in if at == id then m ∷ rest else rest

-- A frame that the node sends, and what its body says.
pub record Sent : Type 0 where
  pub header : FrameHeader
  pub content : RawBuffer
  pub body : ResponseBody

abbrev pub message_of : Sent → ResponseMessage
message_of a = record { header = a.header; body = a.body }

abbrev pub stream_of : Sent → ℕ
stream_of a = a.header.stream

abbrev pub delivery : Sent → ℕ × ResponseMessage
delivery a = (a.header.stream, message_of a)

-- The bytes of frames that follow each other.
pub frames : List Sent → RawBuffer
frames [] = []
frames (a ∷ sent) = serialize_header a.header [] ++ (a.content ++ frames sent)

pub record IsAnswer (compressor : Option Compressor) (a : Sent) : Type 0 where
  pub valid : IsHeader a.header
  pub told : a.header.length ≡ length a.content
  pub small : length a.content < 2 ^ 31
  pub response : check_response_header a.header ≡ ok tt
  pub parsed : parse_body compressor a.header a.content ≡ ok (message_of a)

read_frame-answer :
    (compressor : Option Compressor) (a : Sent) (behind : RawBuffer)
    → IsAnswer compressor a
    → read_frame compressor (serialize_header a.header [] ++ (a.content ++ behind))
      ≡ ok (message_of a, behind)
read_frame-answer compressor a behind is =
    read_frame-frame compressor a.header a.content behind is.valid is.told is.small is.response
    ∙ ap (λ r. r >>= λ m. ok (m, behind)) is.parsed

receive-answer :
    (a : Sent) (r : Receiver)
    → stream_of a < max_streams
    → receive (record { frame = ok (message_of a); accepted = true }) r
      ≡ record r { delivered = r.delivered ++ delivery a ∷ [] }
unfolding receive
receive-answer a r known = ground (arith, known)

loop-answer :
    (compressor : Option Compressor) (a : Sent) (rounds : List Bool) (behind : RawBuffer)
    (r : Receiver)
    → IsAnswer compressor a
    → stream_of a < max_streams
    → r.running ≡ true
    → receiver_loop
        (arrivals compressor
          (true ∷ rounds)
          (serialize_header a.header [] ++ (a.content ++ behind)))
        r
      ≡ receiver_loop
          (arrivals compressor rounds behind)
          (record r { delivered = r.delivered ++ delivery a ∷ [] })
unfolding receiver_loop arrivals
loop-answer compressor a rounds behind r is known running =
    rw (arrivals, receiver_loop, read_frame-answer compressor a behind is)
      (rw (receiver_loop, receive-answer a r known) (simp (running)))

loop-frames :
    (compressor : Option Compressor) (sent : List Sent) (rounds : List Bool) (behind : RawBuffer)
    (r : Receiver)
    → All (IsAnswer compressor) sent
    → All (λ i. i < max_streams) (map stream_of sent)
    → r.running ≡ true
    → receiver_loop (arrivals compressor (map (λ a. true) sent ++ rounds) (frames sent ++ behind)) r
      ≡ receiver_loop
          (arrivals compressor rounds behind)
          (record r { delivered = r.delivered ++ map delivery sent })
unfolding frames
loop-frames compressor [] rounds behind r is known running = rw (append-nil r.delivered) refl
loop-frames compressor (a ∷ sent) rounds behind r is known running =
    let next : Receiver = record r { delivered = r.delivered ++ delivery a ∷ [] } in
    rw
      (
        append_assoc (serialize_header a.header []) (a.content ++ frames sent) behind,
        append_assoc a.content (frames sent) behind,
      )
      (loop-answer compressor a (map (λ a. true) sent ++ rounds) (frames sent ++ behind) r is.0
          known.0 running
        ∙ (loop-frames compressor sent rounds behind next is.1 known.1 running
            ∙ ap
                (λ ms.
                  receiver_loop (arrivals compressor rounds behind) (record r { delivered = ms }))
                (append_assoc r.delivered (delivery a ∷ []) (map delivery sent))))

loop-cut :
    (compressor : Option Compressor) (rounds : List Bool) (cut : RawBuffer) (e : Exception)
    (r : Receiver)
    → read_frame compressor cut ≡ throws e
    → r.running ≡ true
    → receiver_loop (arrivals compressor (true ∷ rounds) cut) r
      ≡ record r { running = false; broken = true }
unfolding receiver_loop arrivals receive
loop-cut compressor rounds cut e r refused running = rw (arrivals, refused) (simp running)

Occurs-Mem : (a : Sent) (sent : List Sent) → Occurs a sent → Mem (stream_of a) (map stream_of sent)
Occurs-Mem a (b ∷ sent) (inl e) =
    subst (λ i. Mem i (map stream_of (b ∷ sent))) (ap stream_of (sym e)) mem-cons_self
Occurs-Mem a (b ∷ sent) (inr o) = mem-cons_of_mem (stream_of b) (Occurs-Mem a sent o)
Occurs-Mem a [] o = absurd o

queue_of-absent :
    (id : ℕ) (sent : List Sent)
    → ¬ Mem id (map stream_of sent)
    → queue_of id (map delivery sent) ≡ []
unfolding queue_of
queue_of-absent id [] absent = refl
queue_of-absent id (a ∷ sent) absent =
    let other : stream_of a ≢ id =
      λ e. absent (subst (λ i. Mem i (map stream_of (a ∷ sent))) e mem-cons_self) in
    ground (arith, other, queue_of-absent id sent (λ m. absent (mem-cons_of_mem (stream_of a) m)))

-- Of answers on streams of their own, each is all that its stream's queue has.
queue_of-own :
    (sent : List Sent) (a : Sent)
    → Nodup (map stream_of sent)
    → Occurs a sent
    → queue_of (stream_of a) (map delivery sent) ≡ message_of a ∷ []
unfolding queue_of
queue_of-own (b ∷ sent) a distinct (inl e) =
    let alone = queue_of-absent (stream_of b) sent (Nodup-cons.0 distinct).0 in
    subst (λ (c : Sent). queue_of (stream_of c) (map delivery (b ∷ sent)) ≡ message_of c ∷ [])
      (sym e) (ground (arith, alone))
queue_of-own (b ∷ sent) a distinct (inr o) =
    let other : stream_of b ≢ stream_of a = λ e.
      (Nodup-cons.0 distinct).0
        (subst (λ i. Mem i (map stream_of sent)) (sym e) (Occurs-Mem a sent o)) in
    ground (arith, other, queue_of-own sent a (Nodup-cons.0 distinct).1 o)
queue_of-own [] a distinct o = absurd o

-- However stream guards are built and destroyed, if the node answers streams of live guards, each once and
-- in any order, with frames back to back whose headers fit and whose bodies, below 2 GiB, can be parsed, if
-- each is taken in time by its queue, and if `ReadFrame` throws on what comes behind them, as at the end of
-- the socket, then `ReceiverLoop` delivers every answer, in the order of the bytes, the queue of each of
-- these streams has its own answer and no other, and the loop ends and marks the connection broken.
pub receiver_loop-frames :
    {s : Streams} (compressor : Option Compressor) (sent : List Sent) (unanswered : List ℕ)
    (cut : RawBuffer) (e : Exception) (rounds : List Bool)
    → Reaches s
    → Perm (map stream_of sent ++ unanswered) s.held
    → All (IsAnswer compressor) sent
    → read_frame compressor cut ≡ throws e
    → let r : Receiver = record { running = true; broken = false; delivered = [] } in
      let met = arrivals compressor (map (λ a. true) sent ++ true ∷ rounds) (frames sent ++ cut) in
      let after = receiver_loop met r in
      (after ≡ record { running = false; broken = true; delivered = map delivery sent })
      × ((a : Sent) → Occurs a sent → queue_of (stream_of a) after.delivered ≡ message_of a ∷ [])
receiver_loop-frames {s} compressor sent unanswered cut e rounds reached of_guards answers refused =
    let distinct = (Nodup-append.0 (Perm.nodup (Perm.symm of_guards) (held-Nodup reached))).0 in
    let known =
      known-All (map stream_of sent)
        λ i m. held-known reached i ((Perm.mem_iff of_guards).0 (mem-append_left unanswered m)) in
    let r : Receiver = record { running = true; broken = false; delivered = [] } in
    let read : Receiver = record r { delivered = map delivery sent } in
    let ended =
      loop-frames compressor sent (true ∷ rounds) cut r answers known refl
      ∙ loop-cut compressor rounds cut e read refused refl in
    (
      ended,
      λ a o.
          ap (λ (s : Receiver). queue_of (stream_of a) s.delivered) ended
          ∙ queue_of-own sent a distinct o,
    )
