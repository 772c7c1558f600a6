-- ===== src/Tests/Client.antt =====
-- The theorems on src/client.rs and src/async_client.rs at concrete inputs.
use rctpower_protocol.Base.{ℕ, zero, suc, ◌<◌, ◌≡◌, ◌⊎◌, refl, arith, true, false, none, some}
use rctpower_protocol.Base.{List, [], ◌∷◌}
use rctpower_protocol.Base.Int.{pos}
use rctpower_protocol.Base.Bytes.{codes}
use rctpower_protocol.Error.{RctError, ok, err}
use rctpower_protocol.Types.Command.{Command, standard, is_long}
use rctpower_protocol.Types.ObjectGroup.{ObjectGroup}
use rctpower_protocol.Types.DataType.{DataType}
use rctpower_protocol.Types.DataValue.{DataValue, Floats, value_eq}
use rctpower_protocol.Codec.Decode.{decode_value}
use rctpower_protocol.Codec.Encode.{encode_for}
use rctpower_protocol.Frame.Send.{make_frame}
use rctpower_protocol.Registry.{ObjectInfo}
use rctpower_protocol.Client.Retry
use rctpower_protocol.Client.Retry.{attempts, write_frame}
use rctpower_protocol.Client.Retry.Turns
use rctpower_protocol.Client.Retry.Turns.{Within, exchange-Within, exchange-recovers}
use rctpower_protocol.Client.Retry.Verify.{write_and_verify-value_eq}
use rctpower_protocol.Client.Network.{Io, done, Attempt, Network}
use rctpower_protocol.Base.{flatten}
use rctpower_protocol.Client.Reads.{IsFrame, InPieces}
use rctpower_protocol.Client.Pooled.Answer.{read-answer_async}
use rctpower_protocol.Client.Pooled.Answer
use rctpower_protocol.Client.Blocking
use rctpower_protocol.Client.Blocking.{Client}
use rctpower_protocol.Client.Blocking.Answer.{Answers, read-answer, write-answer}
use rctpower_protocol.Client.Blocking.Keeping.{IsTooShort, try_exchange-keeps, IsClosed}
use rctpower_protocol.Client.Blocking.Keeping.{exchange-IsClosed}
use rctpower_protocol.Client.Blocking.Keeping
use rctpower_protocol.Client.Pooled
use rctpower_protocol.Client.Pooled.{AsyncClient}
use rctpower_protocol.Client.Pooled.Closing.{Left, exchange-Left}

-- A 16-bit number of the device.
abbrev pub object : ObjectInfo
object = record {
  group = ObjectGroup.battery;
  object_id = 0xc0de;
  index = pos 0;
  name = codes "battery.test";
  request_data_type = DataType.uint16;
  response_data_type = DataType.uint16;
  unit = [];
  description = [];
  enum_map_raw = [];
}

-- The answer to a READ of the object, with the value 7.
abbrev pub answer_frame : List ℕ
answer_frame = 0x2b ∷ 0x05 ∷ 0x06 ∷ 0x00 ∷ 0x00 ∷ 0xc0 ∷ 0xde ∷ 0x00 ∷ 0x07 ∷ 0x65 ∷ 0x73 ∷ []

-- Every call on a socket works, and each read gives the same bytes.
abbrev pub steady : List ℕ → Attempt
steady bytes = record {
  addresses = done (1 ∷ []);
  connect = λ a. done 5;
  connect_async = some (done 5);
  set_read_timeout = λ k. done 0;
  set_write_timeout = λ k. done 0;
  write_all = λ k frame. done 0;
  write_all_async = λ k frame. some (done 0);
  reads = λ k frame. done bytes ∷ [];
}

answer_c0de : make_frame Command.response 0xc0de (0 ∷ 7 ∷ []) 0 standard ≡ ok answer_frame
unfolding make_frame
answer_c0de = refl

-- The answer as a frame of the device.
pub answer_IsFrame : IsFrame Command.response (0 ∷ 7 ∷ []) 0xc0de [] answer_frame
unfolding is_long
answer_IsFrame = record {
  clean = tt;
  sendable = tt;
  fits = omega arith;
  small = omega arith;
  address = 0;
  built = answer_c0de;
}

-- The answer in two reads.
abbrev pub two_reads : List (Io (List ℕ))
two_reads =
    done (0x2b ∷ 0x05 ∷ 0x06 ∷ 0x00 ∷ 0x00 ∷ [])
    ∷ done (0xc0 ∷ 0xde ∷ 0x00 ∷ 0x07 ∷ 0x65 ∷ 0x73 ∷ [])
    ∷ []

pub answer_InPieces : InPieces answer_frame two_reads
unfolding flatten
answer_InPieces = record {
  chunks =
      (0x2b ∷ 0x05 ∷ 0x06 ∷ 0x00 ∷ 0x00 ∷ []) ∷ (0xc0 ∷ 0xde ∷ 0x00 ∷ 0x07 ∷ 0x65 ∷ 0x73 ∷ []) ∷ [];
  more = [];
  some_bytes = ((λ e. cc), ((λ e. cc), tt));
  whole = refl;
  events = refl;
}

abbrev pub read_frame : List ℕ
read_frame = 0x2b ∷ 0x01 ∷ 0x04 ∷ 0x00 ∷ 0x00 ∷ 0xc0 ∷ 0xde ∷ 0xfe ∷ 0x51 ∷ []

pub read_c0de : make_frame Command.read 0xc0de [] 0 standard ≡ ok read_frame
unfolding make_frame
read_c0de = refl

decoded_7 : decode_value DataType.uint16 (0 ∷ 7 ∷ []) ≡ ok (DataValue.u16 7)
unfolding decode_value
decoded_7 = refl

abbrev answering : Network
answering n = record (steady []) { reads = λ k frame. two_reads }

abbrev fresh : Client
fresh = record { conn = none; turn = 0 }

answering-Answers : Answers (answering 0) none 5 read_frame answer_frame
unfolding Blocking.connection
answering-Answers = record {
  connected = refl;
  read_timeout_set = refl;
  write_timeout_set = refl;
  written = refl;
  answered = answer_InPieces;
}

read-answer_example :
    Blocking.read answering 3 fresh object
    ≡ (record { conn = some 5; turn = 1 }, ok (DataValue.u16 7))
read-answer_example =
    read-answer answering 3 fresh object 5 read_frame [] [] answer_frame Command.response
      (0 ∷ 7 ∷ []) 0xc0de (DataValue.u16 7) read_c0de answer_IsFrame answering-Answers (λ e. cc)
      decoded_7

answering-Answers_async : Pooled.Answer.Answers (answering 0) none 5 read_frame answer_frame
unfolding Pooled.connection
answering-Answers_async = record { connected = refl; written = refl; answered = answer_InPieces }

read-answer_async_example :
    Pooled.read answering 3 (record { conn = none; poisoned = false; turn = 0 }) object
    ≡ (record { conn = some 5; poisoned = false; turn = 1 }, ok (DataValue.u16 7))
read-answer_async_example =
    read-answer_async answering 3 (record { conn = none; poisoned = false; turn = 0 }) object 5
      read_frame [] [] answer_frame Command.response (0 ∷ 7 ∷ []) 0xc0de (DataValue.u16 7) read_c0de
      answer_IsFrame refl answering-Answers_async (λ e. cc) decoded_7

abbrev pub no_floats : Floats
no_floats = record { to_i64 = λ f. pos 0; of_i64 = λ i. 0; shown = λ f. codes "0" }

abbrev write_request : List ℕ
write_request = 0x2b ∷ 0x02 ∷ 0x06 ∷ 0x00 ∷ 0x00 ∷ 0xc0 ∷ 0xde ∷ 0x00 ∷ 0x07 ∷ 0xa2 ∷ 0x6b ∷ []

write_c0de : make_frame Command.write 0xc0de (0 ∷ 7 ∷ []) 0 standard ≡ ok write_request
unfolding make_frame
write_c0de = refl

answering-Answers_write : Answers (answering 0) none 5 write_request answer_frame
unfolding Blocking.connection
answering-Answers_write = record {
  connected = refl;
  read_timeout_set = refl;
  write_timeout_set = refl;
  written = refl;
  answered = answer_InPieces;
}

encoded_7 : encode_for no_floats DataType.uint16 (DataValue.u16 7) ≡ ok (0 ∷ 7 ∷ [])
unfolding encode_for
encoded_7 = refl

write-answer_example :
    Blocking.write answering 3 no_floats fresh object (DataValue.u16 7)
    ≡ (record { conn = some 5; turn = 1 }, ok (DataValue.u16 7))
write-answer_example =
    write-answer answering 3 no_floats fresh object (DataValue.u16 7) 5 (0 ∷ 7 ∷ []) write_request
      [] [] answer_frame Command.response (0 ∷ 7 ∷ []) 0xc0de (DataValue.u16 7) encoded_7 write_c0de
      answer_IsFrame answering-Answers_write (λ e. cc) decoded_7

-- The state counts the exchanges; the first one runs out of time, all others give 7.
abbrev scripted : Retry.Try ℕ
scripted zero frame t = (1, err RctError.timeout)
scripted (suc n) frame t = (suc (suc n), ok (DataValue.u16 7))

verified_7 :
    (Retry.write_and_verify scripted 3 no_floats 0 object (DataValue.u16 7)).1
    ≡ ok (DataValue.u16 7)
unfolding Retry.write_and_verify Retry.write_frame Retry.verify_loop Retry.read_back Retry.read
    Retry.exchange Retry.exchange_loop encode_for make_frame value_eq
verified_7 = refl

write_and_verify-value_eq_example :
    ((frame : List ℕ) × (write_frame scripted 3 no_floats object (DataValue.u16 7) ≡ ok frame)
      × ((scripted 0 frame DataType.uint16).1 ≡ ok (DataValue.u16 7)))
    ⊎ (value_eq (DataValue.u16 7) (DataValue.u16 7) ≡ true)
write_and_verify-value_eq_example =
    write_and_verify-value_eq scripted 3 no_floats 0 object (DataValue.u16 7) (DataValue.u16 7)
      verified_7

exchange-recovers_example :
    Retry.exchange scripted 3 0 read_frame DataType.uint16 ≡ (2, ok (DataValue.u16 7))
exchange-recovers_example =
    exchange-recovers scripted 3 read_frame DataType.uint16 1 0 2 (DataValue.u16 7) (omega arith)
      first_fails refl
  where
    first_fails :
        (i : ℕ)
        → i < 1
        → Turns.Fails ℕ scripted read_frame DataType.uint16
            (Turns.after_tries scripted read_frame DataType.uint16 i 0)
    first_fails zero h = (RctError.timeout, refl)
    first_fails (suc i) h = absurd (omega (arith, h))

exchange-Within_example :
    let (s', answer) = Blocking.exchange answering 0 fresh read_frame DataType.uint16 in
    Within
      (Blocking.try_exchange answering)
      0
      (λ s. s.turn)
      (Keeping.try_exchange-Counts answering)
      1
      fresh
      s'
      answer
exchange-Within_example =
    exchange-Within (Blocking.try_exchange answering) 0 (λ s. s.turn)
      (Keeping.try_exchange-Counts answering) fresh read_frame DataType.uint16

exchange-Left_example :
    let (s', answer) =
      Pooled.exchange answering 3
        (record { conn = none; poisoned = false; turn = 0 })
        read_frame
        DataType.uint16 in
    Left s'.conn s'.poisoned answer
exchange-Left_example =
    exchange-Left answering 3 (record { conn = none; poisoned = false; turn = 0 }) read_frame
      DataType.uint16

-- A client on a connection that the peer has closed.
abbrev closing : Network
closing n = steady []

abbrev connected : Client
connected = record { conn = some 5; turn = 0 }

exchange-IsClosed_example :
    let (s', answer) = Blocking.exchange closing 3 connected read_frame DataType.uint16 in
    (s'.conn ≡ some 5) × (answer ≡ err RctError.timeout)
exchange-IsClosed_example =
    exchange-IsClosed closing 3 connected 5 read_frame DataType.uint16 refl
      (λ n frame. (refl, refl, refl, refl))
