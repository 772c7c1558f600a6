-- ===== src/Client/Retry/Verify.antt =====
-- What a value of `write_and_verify` says.
use rctpower_protocol.Base.{arith, ℕ, zero, suc, ◌≡◌, Bool, true, false, some}
use rctpower_protocol.Base.{List, ◌⊎◌, inl, inr, if◌then◌else◌}
use rctpower_protocol.Error.{RctError, ok, err, Result-cases}
use rctpower_protocol.Types.DataValue.{DataValue, Floats, value_eq}
use rctpower_protocol.Registry.{ObjectInfo}
use rctpower_protocol.Client.Retry.{Try, attempts, read_back, verify_loop, write_frame}
use rctpower_protocol.Client.Retry.{write_and_verify}

module _ {S : Type 0} (try_exchange : Try S) (retries : ℕ) where
  read_back-value_eq :
      (s : S) (obj : ObjectInfo) (value v : DataValue)
      → (read_back try_exchange retries s obj value).1 ≡ some (ok v)
      → value_eq value v ≡ true
  unfolding read_back
  read_back-value_eq s obj value v h = ground arith

  verify_loop-value_eq :
      (n : ℕ) (again : Bool) (s : S) (frame : List ℕ) (obj : ObjectInfo) (value v : DataValue)
      → (verify_loop try_exchange retries n again s frame obj value).1 ≡ ok v
      → value_eq value v ≡ true
  unfolding verify_loop
  verify_loop-value_eq zero again s frame obj value v h = cc
  verify_loop-value_eq (suc n) again s frame obj value v h =
      let (s1, sent) =
        if again then try_exchange s frame obj.response_data_type else (s, err RctError.timeout) in
      let (s2, verdict) = read_back try_exchange retries s1 obj value in
      ground
        (arith, read_back-value_eq s1 obj value v, verify_loop-value_eq n true s2 frame obj value v)

  -- For any `try_exchange`: a value that `write_and_verify` gives is the answer to its first
  -- WRITE frame, or equal to the value that was to be written.
  pub write_and_verify-value_eq :
      (floats : Floats) (s : S) (obj : ObjectInfo) (value v : DataValue)
      → (write_and_verify try_exchange retries floats s obj value).1 ≡ ok v
      → ((frame : List ℕ) × (write_frame try_exchange retries floats obj value ≡ ok frame)
          × ((try_exchange s frame obj.response_data_type).1 ≡ ok v))
        ⊎ (value_eq value v ≡ true)
  unfolding write_and_verify
  write_and_verify-value_eq floats s obj value v h =
      elim (Result-cases (write_frame try_exchange retries floats obj value)) [
        | inl (frame, e) ↦
            let (s', answer) = try_exchange s frame obj.response_data_type in
            let either : (answer ≡ ok v) ⊎ (value_eq value v ≡ true) =
              ground (arith, verify_loop-value_eq (attempts retries) false s' frame obj value v) in
            elim either [ inl direct ↦ inl (frame, e, direct) | inr same ↦ inr same ]
        | inr (inl (x, e)) ↦ ground arith
        | inr (inr e) ↦ ground arith
      ]
