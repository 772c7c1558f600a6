-- ===== src/Error.antt =====
-- `RctError` of src/error.rs, and results. An `std::io::Error` is kept by its kind: the library
-- only asks whether it is `WouldBlock`. An f64 is its bit pattern.
use rctpower_protocol.Base.{ℕ, ◌≡◌, refl, ap, ◌⊎◌, inl, inr}
use rctpower_protocol.Base.Text.{Text}

pub data IoErrorKind : Type 0 where
  would_block : IoErrorKind
  other_kind : ℕ → IoErrorKind

pub data RctError : Type 0 where
  io : IoErrorKind → RctError
  frame_crc_mismatch : (received calculated consumed : ℕ) → RctError
  frame_length_exceeded : (consumed : ℕ) → RctError
  invalid_command : (cmd consumed : ℕ) → RctError
  unknown_data_type : (type_name : Text) → RctError
  payload_too_short : (type_name : Text) (len need : ℕ) → RctError
  value_out_of_range : (name : Text) (value min max : ℕ) → RctError
  invalid_value : (name value : Text) → RctError
  timeout empty_payload : RctError

-- What a Rust function that returns `Result<A, RctError>` does: `panic` is an unwinding panic.
pub data Result {ℓ} (A : Type ℓ) : Type ℓ where
  ok : A → Result A
  err : RctError → Result A
  panic : Result A

-- The operator `?`.
infixl 5 ◌>>=◌
abbrev pub ◌>>=◌ {ℓ κ} : {A : Type ℓ} {B : Type κ} → Result A → (A → Result B) → Result B
ok a >>= f = f a
err e >>= f = err e
panic >>= f = panic

pub Result-cases {ℓ} :
    {A : Type ℓ} (r : Result A)
    → ((a : A) × (r ≡ ok a)) ⊎ (((e : RctError) × (r ≡ err e)) ⊎ (r ≡ panic))
Result-cases (ok a) = inl (a, refl)
Result-cases (err e) = inr (inl (e, refl))
Result-cases panic = inr (inr refl)

pub ok-injective {ℓ} : {A : Type ℓ} (a b : A) → ok a ≡ ok b → a ≡ b
ok-injective a b e = ap (λ r. elim r [ ok x ↦ x | _ ↦ a ]) e
