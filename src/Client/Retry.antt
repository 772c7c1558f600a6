-- ===== src/Client/Retry.antt =====
-- What `Client` of src/client.rs and `AsyncClient` of src/async_client.rs share word for word: all
-- operations on top of `try_exchange`. `S` is the state of a client and of its network. The
-- sleeps between attempts leave no trace.
pub mod Turns
pub mod First
pub mod Verify
use rctpower_protocol.Base.{ℕ, zero, suc, Bool, true, false, Option, none, some, List, []}
use rctpower_protocol.Base.{if◌then◌else◌}
use rctpower_protocol.Error.{RctError, Result, ok, err, panic, ◌>>=◌}
use rctpower_protocol.Types.Command.{Command, standard}
use rctpower_protocol.Types.DataType.{DataType}
use rctpower_protocol.Types.DataValue.{DataValue, Floats, value_eq}
use rctpower_protocol.Codec.Encode.{encode_for}
use rctpower_protocol.Frame.Send.{make_frame}
use rctpower_protocol.Registry.{ObjectInfo}

-- `self.cfg.retries.max(1)`.
abbrev pub attempts : ℕ → ℕ
attempts zero = 1
attempts (suc n) = suc n

-- `try_exchange` of one of the clients.
abbrev pub Try : Type 0 → Type 0
Try S = S → List ℕ → DataType → S × Result DataValue

module _ {S : Type 0} (try_exchange : Try S) (retries : ℕ) where
  -- The attempts that are left, and the last error.
  unfoldable pub exchange_loop : ℕ → S → List ℕ → DataType → RctError → S × Result DataValue
  exchange_loop zero s frame resp_type last_err = (s, err last_err)
  exchange_loop (suc left) s frame resp_type last_err =
      let (s', answer) = try_exchange s frame resp_type in
      elim answer [
        | ok v ↦ (s', ok v)
        | err e ↦ exchange_loop left s' frame resp_type e
        | panic ↦ (s', panic)
      ]

  unfoldable pub exchange : S → List ℕ → DataType → S × Result DataValue
  exchange s frame resp_type = exchange_loop (attempts retries) s frame resp_type RctError.timeout

  unfoldable pub read : S → ObjectInfo → S × Result DataValue
  read s obj = elim (make_frame Command.read obj.object_id [] 0 standard) [
    | ok frame ↦ exchange s frame obj.response_data_type
    | err e ↦ (s, err e)
    | panic ↦ (s, panic)
  ]

  module _ (floats : Floats) where
    -- The WRITE frame of a value for an object.
    unfoldable pub write_frame : ObjectInfo → DataValue → Result (List ℕ)
    write_frame obj value = do
      payload ← encode_for floats obj.request_data_type value
      make_frame Command.write obj.object_id payload 0 standard

    unfoldable pub write : S → ObjectInfo → DataValue → S × Result DataValue
    write s obj value = elim (write_frame obj value) [
      | ok frame ↦ exchange s frame obj.response_data_type
      | err e ↦ (s, err e)
      | panic ↦ (s, panic)
    ]

  -- A read that decides whether the value is in place; `none` goes on.
  unfoldable pub read_back : S → ObjectInfo → DataValue → S × Option (Result DataValue)
  read_back s obj value =
      let (s', answer) = read s obj in
      elim answer [
        | ok v ↦ (s', (if value_eq value v then some (ok v) else none))
        | err e ↦ (s', none)
        | panic ↦ (s', some panic)
      ]

  -- The attempts that are left; all but the first write again, whatever comes of it.
  unfoldable pub verify_loop : ℕ → Bool → S → List ℕ → ObjectInfo → DataValue → S × Result DataValue
  verify_loop zero again s frame obj value = (s, err RctError.timeout)
  verify_loop (suc left) again s frame obj value =
      let (s1, sent) =
        if again then try_exchange s frame obj.response_data_type else (s, err RctError.timeout) in
      elim sent [
        | panic ↦ (s1, panic)
        | _ ↦
            let (s2, verdict) = read_back s1 obj value in
            elim verdict [
              | some answer ↦ (s2, answer)
              | none ↦ verify_loop left true s2 frame obj value
            ]
      ]

  unfoldable pub write_and_verify : Floats → S → ObjectInfo → DataValue → S × Result DataValue
  write_and_verify floats s obj value = elim (write_frame floats obj value) [
    | panic ↦ (s, panic)
    | err e ↦ (s, err e)
    | ok frame ↦
        let (s', answer) = try_exchange s frame obj.response_data_type in
        elim answer [
          | ok v ↦ (s', ok v)
          | err RctError.timeout ↦ verify_loop (attempts retries) false s' frame obj value
          | err RctError.empty_payload ↦ verify_loop (attempts retries) false s' frame obj value
          | err e ↦ (s', err e)
          | panic ↦ (s', panic)
        ]
  ]
