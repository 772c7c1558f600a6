-- ===== src/Client/Network.antt =====
-- What the sockets of std and tokio do for the two clients. The outcomes of the calls of one
-- exchange are an `Attempt`; a network gives one for each exchange, by number. A connection is
-- known by a number, an address as well.
use rctpower_protocol.Base.{◌≡◌, refl, ℕ, Option, none, some, List}
use rctpower_protocol.Error.{IoErrorKind, RctError, Result, ok, err}

-- `std::io::Result`.
pub data Io {ℓ} (A : Type ℓ) : Type ℓ where
  done : A → Io A
  failed : IoErrorKind → Io A

-- An `Io` under `?`: `From<std::io::Error> for RctError`.
abbrev pub io {ℓ} : {A : Type ℓ} → Io A → Result A
io (done a) = ok a
io (failed kind) = err (RctError.io kind)

-- An `Io` under tokio's `timeout`; `none` is `Elapsed`.
abbrev pub timed {ℓ} : {A : Type ℓ} → Option (Io A) → Result A
timed none = err RctError.timeout
timed (some a) = io a

pub data IoView {ℓ} {A : Type ℓ} (a : Io A) : Type ℓ where
  is_done : (x : A) → a ≡ done x → IoView a
  is_failed : (kind : IoErrorKind) → a ≡ failed kind → IoView a

pub io_view {ℓ} : {A : Type ℓ} (a : Io A) → IoView a
io_view (done x) = is_done x refl
io_view (failed kind) = is_failed kind refl

-- `reads k frame`: what the calls of `read` on the connection `k` answer in their order after
-- `frame` has been written to it. An empty list of bytes is the end of the stream. The list ends
-- where the time does: the blocking client then finds its deadline passed, and the pooled one
-- its `timeout` elapsed.
pub record Attempt : Type 0 where
  -- `to_socket_addrs`.
  pub addresses : Io (List ℕ)
  -- `connect_timeout` to an address.
  pub connect : ℕ → Io ℕ
  -- tokio's `connect` under a timeout.
  pub connect_async : Option (Io ℕ)
  pub set_read_timeout : ℕ → Io ℕ
  pub set_write_timeout : ℕ → Io ℕ
  pub write_all : ℕ → List ℕ → Io ℕ
  pub write_all_async : ℕ → List ℕ → Option (Io ℕ)
  pub reads : ℕ → List ℕ → List (Io (List ℕ))

abbrev pub Network : Type 0
Network = ℕ → Attempt
