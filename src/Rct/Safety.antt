-- ===== src/Rct/Safety.antt =====
-- When `set` of examples/rct.rs writes, and what.
use rctpower_protocol.Base.{some-injective, ℕ, ◌≡◌, ◌≢◌, refl, ap, ◌∙◌, Bool, true, false, Option}
use rctpower_protocol.Base.{none, some, Option-cases, inl, inr, if◌then◌else◌, ◌&&◌}
use rctpower_protocol.Base.{List, [], ◌++◌}
use rctpower_protocol.Base.Int.{ℤ}
use rctpower_protocol.Base.Text.{Text}
use rctpower_protocol.Error.{RctError, ok, err, Result-cases}
use rctpower_protocol.Types.Command.{Command, standard}
use rctpower_protocol.Types.DataValue.{DataValue, Floats, to_string}
use rctpower_protocol.Codec.Encode.{encode_for}
use rctpower_protocol.Codec.Decode.{decode_value}
use rctpower_protocol.Frame.Send.{make_frame}
use rctpower_protocol.Registry.{ObjectInfo}
use rctpower_protocol.Registry.Build.{Registry, get_by_name}
use rctpower_protocol.Writable.{Rule, rule_for, validate, parse_value}
use rctpower_protocol.Writable.Double.{of_int, le_int, IsExact}
use rctpower_protocol.Writable.Range.{as_int, validate-as_int}
use rctpower_protocol.Writable.Parsing.{IsOf, parse_value-to_string}
use rctpower_protocol.Client.Network.{Network}
use rctpower_protocol.Client.Reads.{IsFrame}
use rctpower_protocol.Client.Blocking.{Client, write}
use rctpower_protocol.Client.Blocking.Answer.{Answers, write-answer}
use rctpower_protocol.Rct.{success, new, set, set_value}

-- The confirmation was given, and the value written is the one that the text stands for, which
-- `validate` has accepted for this parameter.
pub record IsGuarded (reg : Registry) (floats : Floats) (parse_f32 : Text → Option ℕ)
    (net : Network) (retries : ℕ) (parameter value : Text) (yes : Bool) (client : Client)
    : Type 0 where
  pub confirmed : yes ≡ true
  pub object : ObjectInfo
  pub known : get_by_name reg parameter ≡ some object
  pub written : DataValue
  pub parsed : parse_value reg floats parse_f32 parameter value ≡ ok written
  pub valid : validate reg floats parameter written ≡ ok tt
  pub left_by : (write net retries floats new object written).0 ≡ client

-- A client has been made, so that something may have been sent, only under the confirmation, for a
-- parameter of the registry, and with the one `write` of the value that `parse_value` gave and
-- `validate` accepted.
pub set-IsGuarded :
    (reg : Registry) (floats : Floats) (parse_f32 : Text → Option ℕ) (net : Network) (retries : ℕ)
    (parameter value : Text) (yes : Bool) (client : Client)
    → (set reg floats parse_f32 net retries parameter value yes).0 ≡ some client
    → IsGuarded reg floats parse_f32 net retries parameter value yes client
unfolding set set_value
set-IsGuarded reg floats parse_f32 net retries parameter value false client e = cc
set-IsGuarded reg floats parse_f32 net retries parameter value true client e =
    elim (Option-cases (get_by_name reg parameter)) [
      | inl k ↦ absurd (cc (rw (k, set) at e))
      | inr (obj, k) ↦ elim (Result-cases (parse_value reg floats parse_f32 parameter value)) [
        | inl (v, p) ↦ elim (Result-cases (validate reg floats parameter v)) [
          | inl (u, ok_v) ↦ record {
            confirmed = refl;
            object = obj;
            known = k;
            written = v;
            parsed = p;
            valid = ok_v;
            left_by = some-injective _ client (rw (k, p, ok_v, set, set_value) at e);
          }
          | inr (inl (x, bad)) ↦ absurd (cc (rw (k, p, bad, set, set_value) at e))
          | inr (inr bad) ↦ absurd (cc (rw (k, p, bad, set, set_value) at e))
        ]
        | inr (inl (x, p)) ↦ absurd (cc (rw (k, p, set) at e))
        | inr (inr p) ↦ absurd (cc (rw (k, p, set) at e))
      ]
    ]

-- The parameter has a rule, whose bounds are integers, and is in the registry; the value is an
-- integer in the range of the parameter's type and between the bounds, all of them between -(2 ^
-- 53) and 2 ^ 53, and is given as it is printed. It can be encoded and packed into a WRITE frame.
-- The device is reached, no call on the connection fails, and the reads after the frame give, in
-- any pieces, bytes that are no start token, a standard frame that `make_frame` built, and any
-- bytes behind it; the frame is of any command but the extension, and its payload fits, is not
-- empty and is decoded for the object. Then `set` with the confirmation makes one exchange and
-- succeeds.
pub set-answer :
    (reg : Registry) (floats : Floats) (parse_f32 : Text → Option ℕ) (net : Network) (retries : ℕ)
    (name : Text) (r : Rule) (obj : ObjectInfo) (v : DataValue) (lo hi z : ℤ) (k : ℕ)
    (stored request junk rest frame : List ℕ) (c : Command) (payload : List ℕ) (id : ℕ)
    (w : DataValue)
    → rule_for name ≡ some r
    → get_by_name reg name ≡ some obj
    → IsOf obj.request_data_type v
    → as_int v ≡ some z
    → r.min ≡ of_int lo
    → r.max ≡ of_int hi
    → IsExact lo
    → IsExact hi
    → IsExact z
    → (le_int lo z && le_int z hi) ≡ true
    → encode_for floats obj.request_data_type v ≡ ok stored
    → make_frame Command.write obj.object_id stored 0 standard ≡ ok request
    → IsFrame c payload id junk frame
    → Answers (net 0) none k request (junk ++ (frame ++ rest))
    → payload ≢ []
    → decode_value obj.response_data_type payload ≡ ok w
    → set reg floats parse_f32 net retries name (to_string floats v) true
      ≡ (some (record { conn = some k; turn = 1 }), success v)
unfolding set set_value
set-answer reg floats parse_f32 net retries name r obj v lo hi z k stored request junk rest frame c
      payload id w ruled known typed int low high hl hh hz between encoded asked f answers
      some_bytes decoded =
    rw
      (
        known,
        parse_value-to_string reg floats parse_f32 name r obj v ruled known typed,
        validate-as_int reg floats name r obj v lo hi z ruled known low high int hl hh hz
            ∙ ap
                (λ b.
                  if b
                  then ok tt
                  else err (RctError.value_out_of_range name (of_int z) r.min r.max))
                between,
        write-answer net retries floats new obj v k stored request junk rest frame c payload id w
            encoded asked f answers some_bytes decoded,
        set,
        set_value,
      )
      refl
