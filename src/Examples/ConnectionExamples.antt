-- ===== src/Examples/ConnectionExamples.antt =====
-- A connection that answers, times out, and hears a stream id that it does not know.
use cassandra_driver.Base.{
  ◌||◌, List, map, Occurs, ℕ, ◌≡◌, ◌≢◌, refl, [], ◌∷◌, ◌++◌, true, false, Option, none, some, All,
  arith,
}
use cassandra_driver.Base.Result.{ok, stuck, runtime_error}
use mathlib.Core.List.Perm
use mathlib.Core.List.{Perm}
use cassandra_driver.Io.{RawBuffer, read_int_be}
use cassandra_driver.Io.Strings.{string_parser, reserve, copy_out}
use cassandra_driver.Protocol.Frame.{Opcode, FrameHeader}
use cassandra_driver.Protocol.Frame.Layout.{IsHeader}
use cassandra_driver.Protocol.Requests.{options, new_request}
use cassandra_driver.Protocol.Responses.{
  ResponseMessage, ready, authenticate, check_response_header, parse_body, do_parse_body,
}
use cassandra_driver.Connection.{
  ConnectionImpl, Receiver, receiver_loop, execute_message_async, read_frame,
}
use cassandra_driver.Connection.Frames.{read_frame-ne-stuck, read_frame_ended}
use cassandra_driver.Connection.Received.{
  Sent, IsAnswer, arrivals, frames, queue_of, message_of, stream_of, delivery, receiver_loop-frames,
}
use cassandra_driver.Connection.Calls.{went_unanswered, execute_message_async-keeps}
use cassandra_driver.Connection.Queues.{Slot}
use cassandra_driver.Connection.Queues
use cassandra_driver.Connection.Queues.Late.{IsOwn, given-IsOwn, late_given}
use cassandra_driver.Connection.Streams.{
  push_from, new_stream_pool, acquire_stream, Streams, Reaches, start, next, guarded,
}
use cassandra_driver.Connection.Streams.Balance.{streams-Perm}
use cassandra_driver.Protocol.Lz4.{lz4_compressor}
use cassandra_driver.Examples.ResponseExamples.{broken_lz4, broken-Answers}

-- An AUTHENTICATE frame: the name of an authenticator.
abbrev challenge : RawBuffer
challenge = 0 ∷ 2 ∷ 104 ∷ 105 ∷ []

abbrev challenge_header : FrameHeader
challenge_header = record {
  version = 0x84;
  flags = 0;
  stream = 0;
  opcode = Opcode.authenticate;
  length = 4;
}

challenge_header-IsHeader : IsHeader challenge_header
challenge_header-IsHeader = record {
  version_lt = omega arith;
  flags_lt = omega arith;
  stream_lt = omega arith;
  opcode_known = tt;
  length_lt = omega arith;
}

challenge_response : check_response_header challenge_header ≡ ok tt
unfolding check_response_header
challenge_response = refl

-- An AUTHENTICATE and a READY on two streams, and then the end of the socket.
abbrev challenge_sent : Sent
challenge_sent = record {
  header = challenge_header;
  content = challenge;
  body = authenticate (104 ∷ 105 ∷ []);
}

abbrev ready_sent : Sent
ready_sent = record {
  header = record { version = 0x84; flags = 0; stream = 2; opcode = Opcode.ready; length = 0 };
  content = [];
  body = ready;
}

challenge_sent-IsAnswer : IsAnswer none challenge_sent
unfolding check_response_header parse_body do_parse_body string_parser read_int_be reserve copy_out
challenge_sent-IsAnswer = record {
  valid = challenge_header-IsHeader;
  told = refl;
  small = omega arith;
  response = refl;
  parsed = refl;
}

ready_sent-IsAnswer : IsAnswer none ready_sent
unfolding check_response_header parse_body do_parse_body
ready_sent-IsAnswer = record {
  valid = record {
    version_lt = omega arith;
    flags_lt = omega arith;
    stream_lt = omega arith;
    opcode_known = tt;
    length_lt = omega arith;
  };
  told = refl;
  small = omega arith;
  response = refl;
  parsed = refl;
}

noise_ends : read_frame (some (lz4_compressor broken_lz4)) (0x84 ∷ 0 ∷ 0 ∷ []) ≢ stuck
noise_ends =
    read_frame-ne-stuck (some (lz4_compressor broken_lz4)) (0x84 ∷ 0 ∷ 0 ∷ []) broken-Answers

abbrev fresh : ConnectionImpl
fresh = record { broken = false; stream_pool = 0 ∷ 1 ∷ 2 ∷ []; sent = [] }

abbrev unanswered : Option ResponseMessage
unanswered = none

timed_out :
    let d = (execute_message_async none (some 1) unanswered (new_request options) fresh).1 in
    Perm d.stream_pool (0 ∷ 1 ∷ 2 ∷ [])
    × (d.broken
        ≡ (false || went_unanswered (acquire_stream (some 1) (0 ∷ 1 ∷ 2 ∷ [])).0 unanswered))
timed_out =
    execute_message_async-keeps none (some 1) unanswered (new_request options) fresh (omega arith)

abbrev ready_on : ℕ → ResponseMessage
ready_on id = record {
  header = record { version = 0x84; flags = 0; stream = id; opcode = Opcode.ready; length = 0 };
  body = ready;
}

abbrev one_guard : Streams
one_guard = record { free = 0 ∷ push_from 2 1022; held = 1 ∷ [] }

second_stream : acquire_stream (some 1) new_stream_pool ≡ (ok 1, 0 ∷ push_from 2 1022)
unfolding acquire_stream new_stream_pool
second_stream = refl

one_guard-Reaches : Reaches one_guard
one_guard-Reaches = next start (guarded (some 1) second_stream)

one_guard_balanced : Perm (one_guard.free ++ one_guard.held) (push_from 0 1024)
one_guard_balanced = streams-Perm one_guard-Reaches

-- Behind the guard of stream 1, those of 0 and 2.
abbrev three_guards : Streams
three_guards = record { free = push_from 3 1021; held = 2 ∷ 0 ∷ 1 ∷ [] }

first_free : acquire_stream (some 0) (0 ∷ push_from 2 1022) ≡ (ok 0, push_from 2 1022)
unfolding acquire_stream
first_free = refl

next_free : acquire_stream (some 0) (push_from 2 1022) ≡ (ok 2, push_from 3 1021)
unfolding acquire_stream push_from
next_free = refl

three_guards-Reaches : Reaches three_guards
three_guards-Reaches =
    next (next one_guard-Reaches (guarded (some 0) first_free)) (guarded (some 0) next_free)

both_delivered :
    let r : Receiver = record { running = true; broken = false; delivered = [] } in
    let sent : List Sent = challenge_sent ∷ ready_sent ∷ [] in
    let met = arrivals none (true ∷ true ∷ true ∷ []) (frames sent ++ []) in
    let after = receiver_loop met r in
    (after ≡ record { running = false; broken = true; delivered = map delivery sent })
    × ((a : Sent) → Occurs a sent → queue_of (stream_of a) after.delivered ≡ message_of a ∷ [])
both_delivered =
    receiver_loop-frames none (challenge_sent ∷ ready_sent ∷ []) (1 ∷ []) [] runtime_error []
      three_guards-Reaches (Perm.swap 2 0 (1 ∷ []))
      (challenge_sent-IsAnswer, (ready_sent-IsAnswer, tt)) (read_frame_ended none)

-- A stream whose first call was answered in time.
abbrev one_call : Slot
one_call = record { caller = none; owed = []; queue = []; given = (7, 7) ∷ [] }

one_call-Reaches : Queues.Reaches 0 one_call
one_call-Reaches =
    Queues.pops 7 7 [] refl refl
      (Queues.receives [] [] 7 refl refl (Queues.sends 7 refl Queues.start))

one_call-IsOwn : All IsOwn ((7, 7) ∷ [])
one_call-IsOwn = given-IsOwn one_call-Reaches

eighth_given_late : (t : Slot) × Queues.Reaches 1 t × (t.given ≡ (9, 8) ∷ (7, 7) ∷ [])
eighth_given_late =
    late_given 8 9 one_call-Reaches
      (record { unused = refl; nothing_owed = refl; nothing_queued = refl })

abbrev second_call : Slot
second_call = record { caller = some 8; owed = 8 ∷ []; queue = []; given = (7, 7) ∷ [] }
