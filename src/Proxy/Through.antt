-- ===== src/Proxy/Through.antt =====
-- The clients of src/client.rs and src/async_client.rs on the proxy of src/proxy.rs.
use rctpower_protocol.Base.{ℕ, ◌<◌, ◌^◌, arith, ◌≡◌, ◌≢◌, refl, ap, ◌∙◌, false, none}
use rctpower_protocol.Base.{some, List, [], ◌∷◌, ◌++◌, map}
use rctpower_protocol.Base.{flatten}
use rctpower_protocol.Error.{ok}
use rctpower_protocol.Types.Command.{Command, standard, is_long}
use rctpower_protocol.Types.DataValue.{DataValue, Floats}
use rctpower_protocol.Codec.Encode.{encode_for}
use rctpower_protocol.Codec.Decode.{decode_value}
use rctpower_protocol.Frame.Send.{make_frame}
use rctpower_protocol.Registry.{ObjectInfo}
use rctpower_protocol.Client.Network.{done, Attempt}
use rctpower_protocol.Client.Reads.{IsFrame, InPieces}
use rctpower_protocol.Error.{ok-injective}
use rctpower_protocol.Client.Blocking
use rctpower_protocol.Client.Blocking.{Client}
use rctpower_protocol.Client.Blocking.Answer.{read-answer, write-answer}
use rctpower_protocol.Client.Blocking.Answer as BlockingAnswer
use rctpower_protocol.Client.Pooled
use rctpower_protocol.Client.Pooled.{AsyncClient}
use rctpower_protocol.Client.Pooled.Answer.{read-answer_async}
use rctpower_protocol.Client.Pooled.Answer as PooledAnswer
use rctpower_protocol.Proxy.{World, Upstream, start, serve_bytes}
use rctpower_protocol.Proxy.Answered
use rctpower_protocol.Proxy.Answered.{serve_bytes-answer}

-- What an exchange of a client with the proxy is: the connection works, and the reads give the
-- replies of a new session that has got the bytes written.
abbrev pub through : World → Upstream → Attempt
through world up = record {
  addresses = done (0 ∷ []);
  connect = λ a. done 0;
  connect_async = some (done 0);
  set_read_timeout = λ k. done 0;
  set_write_timeout = λ k. done 0;
  write_all = λ k frame. done 0;
  write_all_async = λ k frame. some (done 0);
  reads = λ k frame. map done (serve_bytes world up start frame).1.replies;
}

-- A device behind the proxy that answers the request with a frame.
module _ (world : World) (up : Upstream) (k : ℕ) (asking answering : Command)
    (query payload : List ℕ) (wanted id : ℕ) (wire junk frame rest : List ℕ)
    (f : IsFrame asking query wanted [] wire) (g : IsFrame answering payload id junk frame)
    (device : Answered.Answers (world up.turn) up.conn k wire (junk ++ (frame ++ rest)))
    (replied : (world up.turn).reply frame ≡ done 0) where
  replies-answer : (serve_bytes world up start wire).1.replies ≡ frame ∷ []
  replies-answer =
      ap (λ p. p.1.replies)
        (serve_bytes-answer world up start k asking answering query payload wanted id [] wire junk
          frame rest refl refl f g device replied)

  alone : IsFrame answering payload id [] frame
  alone = record {
    clean = tt;
    sendable = g.sendable;
    fits = g.fits;
    small = g.small;
    address = g.address;
    built = g.built;
  }

  frame_some : frame ≢ []
  unfolding make_frame
  frame_some none_there = cc (ok-injective _ frame g.built ∙ none_there)

  through-InPieces : (j : ℕ) → InPieces (frame ++ []) ((through world up).reads j wire)
  unfolding flatten
  through-InPieces j = record {
    chunks = frame ∷ [];
    more = [];
    some_bytes = (frame_some, tt);
    whole = refl;
    events = ap (map done) replies-answer;
  }

  through-Blocking : BlockingAnswer.Answers (through world up) none 0 wire (frame ++ [])
  unfolding Blocking.connection
  through-Blocking = record {
    connected = refl;
    read_timeout_set = refl;
    write_timeout_set = refl;
    written = refl;
    answered = through-InPieces 0;
  }

  through-Pooled : PooledAnswer.Answers (through world up) none 0 wire (frame ++ [])
  unfolding Pooled.connection
  through-Pooled = record { connected = refl; written = refl; answered = through-InPieces 0 }

-- The READ frame of an object.
read-IsFrame :
    (obj : ObjectInfo) (wire : List ℕ)
    → obj.object_id < 2 ^ 32
    → make_frame Command.read obj.object_id [] 0 standard ≡ ok wire
    → IsFrame Command.read [] obj.object_id [] wire
unfolding is_long
read-IsFrame obj wire small asked = record {
  clean = tt;
  sendable = refl;
  fits = omega arith;
  small = small;
  address = 0;
  built = asked;
}

-- A device behind the proxy answers the READ of an object with a frame: the upstream connection is
-- there or can be made, the exchange meets no error, and its reads give, in any pieces, bytes that
-- are no start token, a standard frame that `make_frame` built, and any bytes behind it; its
-- payload fits, is not empty and is decoded for the object to `v`. The object id is a u32, and the
-- proxy's write of the reply succeeds. Then `read` of the blocking client, connected to the proxy
-- instead of the device, gives `v` after one exchange.
pub read-through :
    (world : World) (up : Upstream) (retries : ℕ) (obj : ObjectInfo) (k : ℕ) (answering : Command)
    (payload : List ℕ) (id : ℕ) (wire junk frame rest : List ℕ) (v : DataValue)
    → obj.object_id < 2 ^ 32
    → make_frame Command.read obj.object_id [] 0 standard ≡ ok wire
    → IsFrame answering payload id junk frame
    → Answered.Answers (world up.turn) up.conn k wire (junk ++ (frame ++ rest))
    → (world up.turn).reply frame ≡ done 0
    → payload ≢ []
    → decode_value obj.response_data_type payload ≡ ok v
    → Blocking.read (λ n. through world up) retries (record { conn = none; turn = 0 }) obj
      ≡ (record { conn = some 0; turn = 1 }, ok v)
read-through world up retries obj k answering payload id wire junk frame rest v small asked g device
      replied some_bytes decoded =
    let f = read-IsFrame obj wire small asked in
    read-answer (λ n. through world up) retries (record { conn = none; turn = 0 }) obj 0 wire [] []
      frame answering payload id v asked
      (alone world up k Command.read answering [] payload obj.object_id id wire junk frame rest f g
        device replied)
      (through-Blocking world up k Command.read answering [] payload obj.object_id id wire junk
        frame rest f g device replied)
      some_bytes decoded

-- As for `read` of the blocking client.
pub read-through_async :
    (world : World) (up : Upstream) (retries : ℕ) (obj : ObjectInfo) (k : ℕ) (answering : Command)
    (payload : List ℕ) (id : ℕ) (wire junk frame rest : List ℕ) (v : DataValue)
    → obj.object_id < 2 ^ 32
    → make_frame Command.read obj.object_id [] 0 standard ≡ ok wire
    → IsFrame answering payload id junk frame
    → Answered.Answers (world up.turn) up.conn k wire (junk ++ (frame ++ rest))
    → (world up.turn).reply frame ≡ done 0
    → payload ≢ []
    → decode_value obj.response_data_type payload ≡ ok v
    → Pooled.read
        (λ n. through world up)
        retries
        (record { conn = none; poisoned = false; turn = 0 })
        obj
      ≡ (record { conn = some 0; poisoned = false; turn = 1 }, ok v)
read-through_async world up retries obj k answering payload id wire junk frame rest v small asked g
      device replied some_bytes decoded =
    let f = read-IsFrame obj wire small asked in
    read-answer_async (λ n. through world up) retries
      (record { conn = none; poisoned = false; turn = 0 }) obj 0 wire [] [] frame answering payload
      id v asked
      (alone world up k Command.read answering [] payload obj.object_id id wire junk frame rest f g
        device replied)
      refl
      (through-Pooled world up k Command.read answering [] payload obj.object_id id wire junk frame
        rest f g device replied)
      some_bytes decoded

-- A device behind the proxy answers the WRITE of a value with a frame: the value can be encoded
-- for the object and fits a frame, the object id is a u32, the upstream connection is there or can
-- be made, the exchange meets no error, and its reads give, in any pieces, bytes that are no start
-- token, a standard frame that `make_frame` built, and any bytes behind it; its payload fits, is
-- not empty and is decoded for the object to `v`. The proxy's write of the reply succeeds. Then
-- `write` of the blocking client, connected to the proxy instead of the device, gives `v` after
-- one exchange.
pub write-through :
    (world : World) (up : Upstream) (retries : ℕ) (floats : Floats) (obj : ObjectInfo)
    (value : DataValue) (k : ℕ) (stored : List ℕ) (answering : Command) (payload : List ℕ) (id : ℕ)
    (wire junk frame rest : List ℕ) (v : DataValue)
    → encode_for floats obj.request_data_type value ≡ ok stored
    → make_frame Command.write obj.object_id stored 0 standard ≡ ok wire
    → IsFrame Command.write stored obj.object_id [] wire
    → IsFrame answering payload id junk frame
    → Answered.Answers (world up.turn) up.conn k wire (junk ++ (frame ++ rest))
    → (world up.turn).reply frame ≡ done 0
    → payload ≢ []
    → decode_value obj.response_data_type payload ≡ ok v
    → Blocking.write
        (λ n. through world up)
        retries
        floats
        (record { conn = none; turn = 0 })
        obj
        value
      ≡ (record { conn = some 0; turn = 1 }, ok v)
write-through world up retries floats obj value k stored answering payload id wire junk frame rest v
      encoded asked f g device replied some_bytes decoded =
    write-answer (λ n. through world up) retries floats (record { conn = none; turn = 0 }) obj value
      0 stored wire [] [] frame answering payload id v encoded asked
      (alone world up k Command.write answering stored payload obj.object_id id wire junk frame rest
        f g device replied)
      (through-Blocking world up k Command.write answering stored payload obj.object_id id wire junk
        frame rest f g device replied)
      some_bytes decoded
