-- ===== src/Tests/Proxy.antt =====
-- The theorems on src/proxy.rs at concrete inputs.
use rctpower_protocol.Base.{ℕ, ◌≡◌, refl, ap, ◌∙◌, arith, false, none, some, List, [], ◌∷◌}
use rctpower_protocol.Base.{map, ◌++◌, subst, sym}
use rctpower_protocol.Base.{flatten}
use rctpower_protocol.Types.Command.{Command, is_long, from_byte, is_plant_byte, byte}
use rctpower_protocol.Frame.Receive.{new, consume, consume_loop, step, step_inside, accept}
use rctpower_protocol.Frame.Receive.{command_byte, check_header, parse_header, check_end, finish}
use rctpower_protocol.Frame.Receive.{finish_crc, finish_payload}
use rctpower_protocol.Codec.Crc.{crc16}
use rctpower_protocol.Client.Network.{done, failed}
use rctpower_protocol.Client.Reads.{IsFrame}
use rctpower_protocol.Proxy.{World, Upstream, Session, start, serve_byte, hear}
use rctpower_protocol.Proxy.{serve_bytes, connection}
use rctpower_protocol.Proxy.{serve_client}
use rctpower_protocol.Proxy.Transparent.{Sent}
use rctpower_protocol.Proxy.Serving.{serve_client-frames}
use rctpower_protocol.Proxy.Answered.{Answers, serve_bytes-answer}
use rctpower_protocol.Error.{IoErrorKind}
use rctpower_protocol.Proxy.Surviving.{Survives, serve_client-Survives}
use rctpower_protocol.Proxy.Relayed.{IsWire}
use rctpower_protocol.Proxy.Relayed.Sessions.{Reach-IsWire}
use rctpower_protocol.Error.{ok}
use rctpower_protocol.Types.DataType.{DataType}
use rctpower_protocol.Types.DataValue.{DataValue}
use rctpower_protocol.Codec.Decode.{decode_value}
use rctpower_protocol.Client.Blocking
use rctpower_protocol.Tests.Client.{object}
use rctpower_protocol.Proxy.Serialized.{run, requests_of, answers_of, log_of}
use rctpower_protocol.Proxy.Serialized.Reached.{Reach-serial}
use rctpower_protocol.Proxy.Pieces.{serve_client-pieces}
use rctpower_protocol.Proxy.Conversation.{Call, serve_client-answers}
use rctpower_protocol.Proxy.Through.{through, read-through}
use rctpower_protocol.Proxy.Interleaved.Alone.{Served, Reach-serve_bytes}
use rctpower_protocol.Base.{All}
use rctpower_protocol.Proxy.Interleaved.{accepted, accepts, System, update, Reach}
use rctpower_protocol.Proxy.Interleaved.{begin, later}
use rctpower_protocol.Proxy.Interleaved.{initial}
use rctpower_protocol.Proxy.Interleaved.Streams.{Stream, silent, sent, spoilt, Reach-Stream}
use rctpower_protocol.Proxy.Pieces.{serve_bytes-append}
use rctpower_protocol.Tests.Client.{answer_frame, two_reads, read_frame, read_c0de}
use rctpower_protocol.Tests.Client.{answer_IsFrame}
use rctpower_protocol.Tests.Client.{answer_InPieces}

-- Every call works, and the inverter gives the same answer, in two reads.
abbrev answering : World
answering t = record {
  connect = done 5;
  write_all = λ k wire. some (done 0);
  reads = λ k wire. two_reads;
  reply = λ wire. done 0;
}

abbrev fresh : Upstream
fresh = record { conn = none; turn = 0 }

-- The request, behind a byte that is no start token.
read-IsFrame : IsFrame Command.read [] 0xc0de (0xff ∷ []) read_frame
unfolding is_long
read-IsFrame = record {
  clean = ((λ e. cc), tt);
  sendable = refl;
  fits = omega arith;
  small = omega arith;
  address = 0;
  built = read_c0de;
}

answering-Answers : Answers (answering 0) none 5 read_frame answer_frame
unfolding connection
answering-Answers = record { connected = refl; written = refl; answered = answer_InPieces }

-- A session after one request, and after two.
abbrev after_one : Session
after_one = record {
  rx = new false;
  forwarded = read_frame ∷ [];
  replies = answer_frame ∷ [];
  ending = none;
}

first_answer :
    serve_bytes answering fresh start (0xff ∷ read_frame)
    ≡ (record { conn = some 5; turn = 1 }, after_one)
first_answer =
    serve_bytes-answer answering fresh start 5 Command.read Command.response [] (0 ∷ 7 ∷ []) 0xc0de
      0xc0de (0xff ∷ []) read_frame [] answer_frame [] refl refl read-IsFrame answer_IsFrame
      answering-Answers refl

connected-Answers : Answers (answering 1) (some 5) 5 read_frame answer_frame
unfolding connection
connected-Answers = record { connected = refl; written = refl; answered = answer_InPieces }

second_answer :
    (serve_bytes answering
      (record { conn = some 5; turn = 1 })
      after_one
      (0xff ∷ read_frame)).1.ending
    ≡ none
second_answer =
    ap (λ p. p.1.ending)
      (serve_bytes-answer answering (record { conn = some 5; turn = 1 }) after_one 5 Command.read
        Command.response [] (0 ∷ 7 ∷ []) 0xc0de 0xc0de (0xff ∷ []) read_frame [] answer_frame []
        refl refl read-IsFrame answer_IsFrame connected-Answers refl)

-- The same request twice, each in a read of its own.
abbrev request : Sent
request = record {
  command = Command.read;
  payload = [];
  id = 0xc0de;
  junk = 0xff ∷ [];
  frame = read_frame;
  is_frame = read-IsFrame;
}

abbrev pieces : List (List ℕ)
pieces = (0xff ∷ read_frame) ∷ (0xff ∷ read_frame) ∷ []

goes_on : (serve_client answering fresh start (map done pieces)).1.ending ≡ none
unfolding serve_client
goes_on =
    ap (λ p. (serve_client answering p.0 p.1 (done (0xff ∷ read_frame) ∷ [])).1.ending) first_answer
    ∙ second_answer

serve_client-frames_example :
    (serve_client answering fresh start (map done pieces)).1.forwarded
    ≡ read_frame ∷ read_frame ∷ []
unfolding flatten
serve_client-frames_example =
    serve_client-frames answering fresh start (request ∷ request ∷ []) pieces refl
      ((λ e. cc), ((λ e. cc), tt)) refl goes_on

-- The inverter never accepts a connection; a session goes on after a request.
abbrev unreachable : World
unreachable t = record {
  connect = failed (IoErrorKind.other_kind 0);
  write_all = λ k wire. none;
  reads = λ k wire. [];
  reply = λ wire. done 0;
}

serve_client-Survives_example :
    Survives unreachable fresh start
      (flatten pieces)
      (serve_client unreachable fresh start (map done pieces)).1
serve_client-Survives_example =
    serve_client-Survives unreachable fresh start pieces (λ t resp. refl)
      ((λ e. cc), ((λ e. cc), tt)) refl

-- A client whose request has been forwarded and answered, in a reachable state.
abbrev one_client : Reach answering (record initial { peers = update initial.peers 0 accepted })
one_client = later begin (accepts initial 0 refl refl)

served_request :
    let (up', s') = serve_bytes answering initial.up start (0xff ∷ read_frame) in
    Served answering 0 up' s' ([] ++ (0xff ∷ read_frame))
served_request = Reach-serve_bytes answering (0xff ∷ read_frame) _ 0 accepted one_client refl

-- A request with a wrong checksum.
abbrev bad_head : List ℕ
bad_head = 0x2b ∷ 0x01 ∷ 0x04 ∷ 0x00 ∷ 0x00 ∷ 0xc0 ∷ 0xde ∷ 0xfe ∷ []

abbrev bad : List ℕ
bad = bad_head ++ (0x50 ∷ [])

-- It is taken up to its last byte, leaves no trace, and the request behind it is served.
bad_spoilt : Stream (bad ++ ((0xff ∷ read_frame) ++ [])) (read_frame ∷ [])
unfolding consume consume_loop step step_inside accept command_byte check_header parse_header
    check_end finish finish_crc finish_payload crc16 from_byte is_plant_byte is_long byte
bad_spoilt =
    spoilt bad_head 0x50 (consume (new false) bad_head).0 8 _ ((0xff ∷ read_frame) ++ [])
      (read_frame ∷ []) refl refl refl (sent request [] [] silent)

bad_skipped : serve_bytes answering fresh start bad ≡ (fresh, start)
unfolding serve_bytes serve_byte hear consume consume_loop step step_inside accept command_byte
    check_header parse_header check_end finish finish_crc finish_payload crc16 from_byte
    is_plant_byte is_long byte
bad_skipped = refl

abbrev two_clients : System
two_clients = record initial { peers = update (update initial.peers 0 accepted) 1 accepted }

two_accepted : Reach answering two_clients
two_accepted =
    later one_client
      (accepts (record initial { peers = update initial.peers 0 accepted }) 1 refl refl)

-- The second of two clients sends both.
served_behind :
    let (up', s') = serve_bytes answering initial.up start (bad ++ (0xff ∷ read_frame)) in
    Served answering 1 up' s' ([] ++ (bad ++ (0xff ∷ read_frame)))
served_behind =
    Reach-serve_bytes answering (bad ++ (0xff ∷ read_frame)) two_clients 1 accepted two_accepted
      refl

behind_goes_on : (serve_bytes answering fresh start (bad ++ (0xff ∷ read_frame))).1.ending ≡ none
behind_goes_on =
    ap (λ p. p.1.ending)
      (serve_bytes-append answering bad (0xff ∷ read_frame) fresh start
        ∙ ap (λ p. serve_bytes answering p.0 p.1 (0xff ∷ read_frame)) bad_skipped
        ∙ first_answer)

Reach-Stream_example :
    (served_behind.peer.session.forwarded ≡ read_frame ∷ [])
    × (served_behind.peer.session.rx ≡ new false)
Reach-Stream_example =
    Reach-Stream 1 served_behind.peer (read_frame ∷ []) served_behind.reached served_behind.here (
      subst (λ bytes. Stream bytes (read_frame ∷ [])) (sym (served_behind.took behind_goes_on))
        bad_spoilt)

Reach-IsWire_example :
    All IsWire served_request.peer.session.forwarded
    × All IsWire served_request.peer.session.replies
Reach-IsWire_example = Reach-IsWire 0 served_request.peer served_request.reached served_request.here

Reach-serial_example :
    (served_request.state.up ≡ run answering initial.up (log_of served_request.reached))
    × (served_request.peer.session.forwarded ≡ requests_of 0 (log_of served_request.reached))
    × (served_request.peer.session.replies
        ≡ answers_of answering initial.up 0 (log_of served_request.reached))
Reach-serial_example =
    Reach-serial 0 served_request.peer (λ t resp. refl) served_request.reached served_request.here

-- The request cut in two.
abbrev halves : List (List ℕ)
halves = (0xff ∷ 0x2b ∷ 0x01 ∷ 0x04 ∷ []) ∷ (0x00 ∷ 0x00 ∷ 0xc0 ∷ 0xde ∷ 0xfe ∷ 0x51 ∷ []) ∷ []

serve_client-pieces_example :
    serve_client answering fresh start (map done halves)
    ≡ serve_bytes answering fresh start (flatten halves)
serve_client-pieces_example =
    serve_client-pieces answering halves fresh start ((λ e. cc), ((λ e. cc), tt))

-- The request, and its answer.
abbrev call : Call
call = record {
  asked = request;
  answer = record {
    command = Command.response;
    payload = 0 ∷ 7 ∷ [];
    id = 0xc0de;
    junk = [];
    frame = answer_frame;
    is_frame = answer_IsFrame;
  };
  rest = [];
}

serve_client-answers_example : serve_client answering fresh start (map done pieces) ≡ (
  record { conn = some 5; turn = 2 },
  record {
    rx = new false;
    forwarded = read_frame ∷ read_frame ∷ [];
    replies = answer_frame ∷ answer_frame ∷ [];
    ending = none;
  },
)
unfolding flatten
serve_client-answers_example =
    serve_client-answers answering 5 (call ∷ call ∷ []) pieces fresh start refl refl
      ((λ e. cc), ((λ e. cc), tt)) refl (answering-Answers, refl, (connected-Answers, refl, tt))

decoded_answer : decode_value DataType.uint16 (0 ∷ 7 ∷ []) ≡ ok (DataValue.u16 7)
unfolding decode_value
decoded_answer = refl

-- The blocking client on the proxy.
read-through_example :
    Blocking.read (λ n. through answering fresh) 3 (record { conn = none; turn = 0 }) object
    ≡ (record { conn = some 0; turn = 1 }, ok (DataValue.u16 7))
read-through_example =
    read-through answering fresh 3 object 5 Command.response (0 ∷ 7 ∷ []) 0xc0de read_frame []
      answer_frame [] (DataValue.u16 7) (omega arith) read_c0de answer_IsFrame answering-Answers
      refl (λ e. cc) decoded_answer
