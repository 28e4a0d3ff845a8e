-- ===== src/Connection/Frames.antt =====
-- What `ReadFrame` makes of the bytes of a socket.
use cassandra_driver.Base.{
  ℕ, ◌-◌, ◌<◌, ◌^◌, ◌≡◌, ◌≢◌, refl, [], ◌++◌, append-nil, Bool, true, false, ltb, lt→ltb, le→ltb,
  not, Option, some, length, length-take, take-append, drop-append, arith,
}
use cassandra_driver.Base.Result.{
  ok, throws, stuck, ◌>>=◌, ensure, runtime_error, length_error, Exception, bind-ne-stuck,
}
use cassandra_driver.Io.{RawBuffer, is_negative}
use cassandra_driver.Io.Strings.{reserve}
use cassandra_driver.Io.Strings.RoundTrip.{reserve_small}
use cassandra_driver.Protocol.Frame.{FrameHeader, header_size, serialize_header, parse_header}
use cassandra_driver.Protocol.Frame.Layout.{
  IsHeader, parse_header-serialize_header, length-serialize_header,
}
use cassandra_driver.Protocol.Lz4.{Compressor}
use cassandra_driver.Protocol.Responses.{check_response_header, parse_body}
use cassandra_driver.Protocol.Responses.Total.{Answers, parse_body-ne-stuck}
use cassandra_driver.Io.Ends.{Ends, Ends-ne-stuck, ends_rules}
use cassandra_driver.Connection.{zeros, recv_all, read_frame}

recv_all-append : (xs ys : RawBuffer) → recv_all (length xs) (xs ++ ys) ≡ (length xs, xs, ys)
unfolding recv_all zeros
recv_all-append xs ys =
    simp (take-append xs ys, drop-append xs ys, append-nil, monus_self (length xs))
  where
    monus_self : (n : ℕ) → n - n ≡ 0
    monus_self n = omega arith

recv_header :
    (h : FrameHeader) (rest : RawBuffer)
    → recv_all header_size (serialize_header h [] ++ rest)
      ≡ (header_size, serialize_header h [], rest)
recv_header h rest =
    rw (length-serialize_header h) at (recv_all-append (serialize_header h []) rest)

recv_all_fewer : (size : ℕ) (xs : RawBuffer) → length xs < size → (recv_all size xs).0 < size
unfolding recv_all
recv_all_fewer size xs h = omega (arith, length-take size xs, h)

plain_header : (h : FrameHeader) → IsHeader h → parse_header (serialize_header h []) ≡ ok (h, [])
plain_header h valid =
    rw (append-nil (serialize_header h [])) at (parse_header-serialize_header h valid [])

-- A frame of a response, with a header whose fields fit and a body of the length that it tells, below
-- 2 GiB, is read as that header and that body, which is then parsed; the socket keeps what stands
-- behind the frame.
pub read_frame-frame :
    (compressor : Option Compressor) (h : FrameHeader) (body rest : RawBuffer)
    → IsHeader h
    → h.length ≡ length body
    → length body < 2 ^ 31
    → check_response_header h ≡ ok tt
    → read_frame compressor (serialize_header h [] ++ (body ++ rest))
      ≡ (parse_body compressor h body >>= λ m. ok (m, rest))
unfolding read_frame
read_frame-frame compressor h body rest valid len small response =
    let received = rw (← len) at (recv_all-append body rest) in
    simp (
      recv_header h (body ++ rest),
      plain_header h valid,
      response,
      reserve_small h.length (omega (arith, len, small)),
      received,
      le→ltb h.length h.length (omega arith),
    )

-- A frame of a response is refused if its body ends before the length, below 2 GiB, that the header
-- tells.
read_frame_short :
    (compressor : Option Compressor) (h : FrameHeader) (body : RawBuffer)
    → IsHeader h
    → length body < h.length
    → h.length < 2 ^ 31
    → check_response_header h ≡ ok tt
    → read_frame compressor (serialize_header h [] ++ body) ≡ throws runtime_error
unfolding read_frame
read_frame_short compressor h body valid short small response = simp (
  recv_header h body,
  plain_header h valid,
  response,
  reserve_small h.length small,
  lt→ltb (recv_all h.length body).0 h.length (recv_all_fewer h.length body short),
)

-- A socket that has no byte left is refused.
pub read_frame_ended :
    (compressor : Option Compressor) → read_frame compressor [] ≡ throws runtime_error
unfolding read_frame recv_all
read_frame_ended compressor = refl

ensure-ne-stuck : (b : Bool) (e : Exception) → ensure b e ≢ stuck
ensure-ne-stuck true e = λ h. cc
ensure-ne-stuck false e = λ h. cc

Ends-parse_header : Ends parse_header
unfolding parse_header
Ends-parse_header = search ends_rules depth 16

check_response_header-ne-stuck : (h : FrameHeader) → check_response_header h ≢ stuck
unfolding check_response_header
check_response_header-ne-stuck h = ground arith

reserve-ne-stuck : (size : ℕ) → reserve size ≢ stuck
unfolding reserve
reserve-ne-stuck size = ensure-ne-stuck (not (is_negative size)) length_error

-- Over a compressor whose decompression ends, `ReadFrame` ends whatever the peer sends: with a message,
-- an exception, or a read past a buffer's end.
pub read_frame-ne-stuck :
    (compressor : Option Compressor) (bytes : RawBuffer)
    → ((c : Compressor) → compressor ≡ some c → Answers c)
    → read_frame compressor bytes ≢ stuck
unfolding read_frame
read_frame-ne-stuck compressor bytes answers =
    let (len, header_buffer, behind) = recv_all header_size bytes in
    bind-ne-stuck _ _ (ensure-ne-stuck (ltb 0 len) runtime_error) λ _.
      bind-ne-stuck _ _ (Ends-ne-stuck parse_header header_buffer Ends-parse_header) λ (h, _).
        bind-ne-stuck _ _ (check_response_header-ne-stuck h) λ _.
          bind-ne-stuck _ _ (reserve-ne-stuck h.length) λ _.
            let (body_len, body, rest) = recv_all h.length behind in
            bind-ne-stuck _ _ (ensure-ne-stuck (not (ltb body_len h.length)) runtime_error)
              λ _. bind-ne-stuck _ _ (parse_body-ne-stuck compressor h body answers) λ m e. cc
