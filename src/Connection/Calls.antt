-- ===== src/Connection/Calls.antt =====
-- What a call leaves behind, and what the receiver loop hands to the calls.
use cassandra_driver.Base.{
  ℕ, ◌≤◌, ◌<◌, ◌^◌, ◌≡◌, ◌||◌, inl, inr, refl, List, [], ◌∷◌, Bool, true, false, Option, none, some,
  length, All, All-append, arith,
}
use cassandra_driver.Base.Result.{Result, ok}
use mathlib.Core.List.{Perm}
use mathlib.Core.List.Perm
use cassandra_driver.Protocol.Lz4.{Compressor}
use cassandra_driver.Protocol.Requests.{RequestMessage, set_stream_id}
use cassandra_driver.Protocol.Responses.{ResponseMessage}
use cassandra_driver.Connection.{
  ConnectionImpl, send_message, execute_message_async, Arrival, Receiver, receive, receiver_loop,
}
use cassandra_driver.Connection.Streams.{StreamPool, acquire_stream, max_streams, release_stream}
use cassandra_driver.Connection.Streams.Balance.{
  acquire_stream-pop, acquire_stream-cases, acquire_stream-IsStocked, IsStocked,
}

send_message-keeps :
    (compressor : Option Compressor) (m : RequestMessage) (c : ConnectionImpl)
    → let d = send_message compressor m c in (d.stream_pool ≡ c.stream_pool) × (d.broken ≡ c.broken)
unfolding send_message
send_message-keeps compressor m c = (ground arith, ground arith)

-- A call that has its stream, and to which no response comes in time.
abbrev pub went_unanswered : Result ℕ → Option ResponseMessage → Bool
went_unanswered (ok id) none = true
went_unanswered (ok id) (some response) = false
went_unanswered _ answer = false

release_stream-fits :
    (id : ℕ) (free : StreamPool) → length free < max_streams → release_stream id free ≡ id ∷ free
unfolding release_stream
release_stream-fits id free h = ground arith

-- With at most 1024 free streams, the free streams are the same before and behind a call, whether it
-- was answered, timed out, met an error response or found no stream; and `_broken` is set behind a call
-- that had a stream and got no response in time, and is unchanged behind every other call.
pub execute_message_async-keeps :
    (compressor : Option Compressor) (choice : Option ℕ) (answer : Option ResponseMessage)
    (m : RequestMessage) (c : ConnectionImpl)
    → length c.stream_pool ≤ max_streams
    → let d = (execute_message_async compressor choice answer m c).1 in
      Perm d.stream_pool c.stream_pool
      × (d.broken ≡ (c.broken || went_unanswered (acquire_stream choice c.stream_pool).0 answer))
unfolding execute_message_async
execute_message_async-keeps compressor choice answer m c fits =
    elim (acquire_stream-cases choice c.stream_pool) [
      | inl (id, left, e) ↦
          let (popped, fewer) = acquire_stream-pop choice c.stream_pool e in
          let kept =
            send_message-keeps compressor (set_stream_id id m) (record c { stream_pool = left }) in
          let given = release_stream-fits id left (omega (arith, fewer, fits)) in
          ground (arith, e, Perm.symm popped, kept, given)
      | inr e ↦ ground (arith, e, Perm.refl c.stream_pool)
    ]

-- A call that is answered in time does not break the connection.
pub execute_message_async_answered :
    (compressor : Option Compressor) (choice : Option ℕ) (answer : ResponseMessage)
    (m : RequestMessage) (c : ConnectionImpl)
    → (execute_message_async compressor choice (some answer) m c).1.broken ≡ c.broken
unfolding execute_message_async
execute_message_async_answered compressor choice answer m c =
    elim (acquire_stream-cases choice c.stream_pool) [
      | inl (id, left, e) ↦
          let kept =
            send_message-keeps compressor (set_stream_id id m) (record c { stream_pool = left }) in
          ground (arith, e, kept)
      | inr e ↦ ground (arith, e)
    ]

-- A call leaves as many free streams as it found, each one that the pool may have.
pub execute_message_async-IsStocked :
    (compressor : Option Compressor) (choice : Option ℕ) (answer : Option ResponseMessage)
    (m : RequestMessage) (c : ConnectionImpl)
    → IsStocked c.stream_pool
    → let d = (execute_message_async compressor choice answer m c).1 in
      IsStocked d.stream_pool × (length d.stream_pool ≡ length c.stream_pool)
unfolding execute_message_async
execute_message_async-IsStocked compressor choice answer m c stocked =
    elim (acquire_stream-cases choice c.stream_pool) [
      | inl (id, left, e) ↦
          let (popped, fewer) = acquire_stream-pop choice c.stream_pool e in
          let (id_lt, left_lt) = acquire_stream-IsStocked choice c.stream_pool e stocked in
          let kept =
            send_message-keeps compressor (set_stream_id id m) (record c { stream_pool = left }) in
          let given = release_stream-fits id left (omega (arith, fewer, stocked.fits)) in
          let behind : IsStocked (id ∷ left) = record {
            fits = omega (arith, fewer, stocked.fits);
            known = (id_lt, left_lt);
          } in
          ground (arith, e, kept, given, behind, fewer)
      | inr e ↦ ground (arith, e, stocked)
    ]

abbrev pub IsRouted : ℕ × ResponseMessage → Type 0
IsRouted (id, m) = (id ≡ m.header.stream) × (id < max_streams)

receive-IsRouted :
    (a : Arrival) (r : Receiver) → All IsRouted r.delivered → All IsRouted (receive a r).delivered
unfolding receive
receive-IsRouted a r h = grind (
  arith,
  (λ (m : ResponseMessage) (lt : m.header.stream < max_streams).
      All-append IsRouted r.delivered ((m.header.stream, m) ∷ []) h ((refl, lt), tt)),
)

-- If this holds of the responses delivered so far, it holds of all that the loop delivers: a response
-- goes to the queue of the stream id in its header, which is below 1024.
receiver_loop-IsRouted :
    (arrivals : List Arrival) (r : Receiver)
    → All IsRouted r.delivered
    → All IsRouted (receiver_loop arrivals r).delivered
unfolding receiver_loop
receiver_loop-IsRouted [] r h = h
receiver_loop-IsRouted (a ∷ arrivals) r h =
    ground (arith, receiver_loop-IsRouted arrivals (receive a r) (receive-IsRouted a r h), h)

receiver_loop_ended :
    (arrivals : List Arrival) (r : Receiver) → r.running ≡ false → receiver_loop arrivals r ≡ r
unfolding receiver_loop
receiver_loop_ended [] r h = refl
receiver_loop_ended (a ∷ arrivals) r h = ground (arith, h)

-- After a response with a stream id from 1024 to 32767 nothing is delivered any more, whatever arrives,
-- and `_broken` stays as it was.
receiver_loop_deaf :
    (m : ResponseMessage) (accepted : Bool) (arrivals : List Arrival) (r : Receiver)
    → max_streams ≤ m.header.stream
    → m.header.stream < 2 ^ 15
    → let after = receiver_loop (record { frame = ok m; accepted = accepted } ∷ arrivals) r in
      (after.broken ≡ r.broken) × (after.delivered ≡ r.delivered)
unfolding receiver_loop receive
receiver_loop_deaf m accepted arrivals r low high =
    ground (arith, receiver_loop_ended arrivals (record r { running = false }) refl, low, high)
