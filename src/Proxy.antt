-- ===== src/Proxy.antt =====
-- `exchange`, `exchange_on` and `serve_client` of src/proxy.rs. The log lines leave no trace.
-- tokio's lock is not poisoned by a panic.
pub mod Requests
pub mod Bind
pub mod Relayed
pub mod Replies
pub mod Pieces
pub mod Conversation
pub mod Through
pub mod Serialized
pub mod Transparent
pub mod Serving
pub mod Answered
pub mod Interleaved
pub mod Closing
pub mod Panics
pub mod Surviving
pub mod Describe
use rctpower_protocol.Base.{ℕ, ◌+◌, Bool, true, false, Option, none, some, List, [], ◌∷◌, ◌++◌}
use rctpower_protocol.Base.{if◌then◌else◌}
use rctpower_protocol.Error.{RctError, Result, ok, err, panic, ◌>>=◌}
use rctpower_protocol.Frame.Receive.{ReceiveFrame, new, consume}
use rctpower_protocol.Client.Network.{Io, done, failed, io, timed}
use rctpower_protocol.Client.Pooled

-- What happens in one exchange: the calls on the upstream socket, as for the clients, and the
-- write of the answer to the downstream one.
pub record Turn : Type 0 where
  pub connect : Io ℕ
  pub write_all : ℕ → List ℕ → Option (Io ℕ)
  pub reads : ℕ → List ℕ → List (Io (List ℕ))
  pub reply : List ℕ → Io ℕ

abbrev pub World : Type 0
World = ℕ → Turn

-- `Arc<Mutex<Option<TcpStream>>>`, held for a whole exchange. `turn` counts the exchanges so far,
-- and is not a field of the program's.
pub record Upstream : Type 0 where
  pub conn : Option ℕ
  pub turn : ℕ

-- The loop that reads until the frame is complete, with a deadline: the list of reads ends with
-- the time for all of them.
abbrev pub receive : ReceiveFrame → List (Io (List ℕ)) → Result ReceiveFrame
receive = Pooled.receive

unfoldable pub exchange_on : Turn → ℕ → List ℕ → Result (List ℕ)
exchange_on turn k wire_request = do
  _ ← timed (turn.write_all k wire_request)
  rx ← receive (new false) (turn.reads k wire_request)
  ok rx.raw

-- The socket that is kept, or a new one.
unfoldable pub connection : Turn → Option ℕ → Result ℕ
connection turn (some k) = ok k
connection turn none = io turn.connect

-- An error drops the connection `k`.
abbrev pub kept : ℕ → Result (List ℕ) → Option ℕ
kept k (err e) = none
kept k _ = some k

unfoldable pub exchange : World → Upstream → List ℕ → Upstream × Result (List ℕ)
exchange world up wire_request = elim (connection (world up.turn) up.conn) [
  | ok k ↦
      let answer = exchange_on (world up.turn) k wire_request in
      (record { conn = kept k answer; turn = up.turn + 1 }, answer)
  | err e ↦ (record up { turn = up.turn + 1 }, err e)
  | panic ↦ (record up { turn = up.turn + 1 }, panic)
]

-- How a session ends: with `Ok(())`, with an error, or by a panic.
pub data Ending : Type 0 where
  closed : Ending
  broken : RctError → Ending
  crashed : Ending

-- A downstream client. `forwarded` and `replies` are what has been given to `exchange` and written
-- to the client; they are not variables of the program's.
pub record Session : Type 0 where
  pub rx : ReceiveFrame
  pub forwarded : List (List ℕ)
  pub replies : List (List ℕ)
  pub ending : Option Ending

abbrev pub start : Session
start = record { rx = new false; forwarded = []; replies = []; ending = none }

-- What a byte does to the parser of a session: it may complete a request.
pub data Heard : Type 0 where
  nothing desync died : Heard
  request : (wire : List ℕ) → Heard

unfoldable pub hear : ReceiveFrame → ℕ → ReceiveFrame × Heard
hear rx c =
    let (rx', answer) = consume rx (c ∷ []) in
    elim answer [
      | ok n ↦ if rx'.complete then (new false, request rx'.raw) else (rx', nothing)
      | err e ↦ (new false, desync)
      | panic ↦ (rx', died)
    ]

-- The answer of `exchange` is parsed for the log, and written to the client.
unfoldable pub deliver : Turn → Session → Result (List ℕ) → Session
deliver turn s (ok resp) = elim (consume (new false) resp).1 [
  | panic ↦ record s { ending = some crashed }
  | _ ↦ elim (turn.reply resp) [
    | done n ↦ record s { replies = s.replies ++ (resp ∷ []) }
    | failed kind ↦ record s { ending = some closed }
  ]
]
deliver turn s (err e) = s
deliver turn s panic = record s { ending = some crashed }

-- The body of the loop over the bytes of a read.
unfoldable pub serve_byte : World → Upstream → Session → ℕ → Upstream × Session
serve_byte world up s c =
    let (rx', heard) = hear s.rx c in
    let s' = record s { rx = rx' } in
    elim heard [
      | nothing ↦ (up, s')
      | desync ↦ (up, s')
      | died ↦ (up, record s' { ending = some crashed })
      | request wire ↦
          let (up', answer) = exchange world up wire in
          let sent = record s' { forwarded = s.forwarded ++ (wire ∷ []) } in
          (up', deliver (world up.turn) sent answer)
    ]

unfoldable pub serve_bytes : World → Upstream → Session → List ℕ → Upstream × Session
serve_bytes world up s [] = (up, s)
serve_bytes world up s (c ∷ cs) = elim s.ending [
  | some e ↦ (up, s)
  | none ↦ let (up', s') = serve_byte world up s c in serve_bytes world up' s' cs
]

-- The list is what the reads from the client answer; at its end the session waits for more.
unfoldable pub serve_client : World → Upstream → Session → List (Io (List ℕ)) → Upstream × Session
serve_client world up s [] = (up, s)
serve_client world up s (event ∷ events) = elim s.ending [
  | some e ↦ (up, s)
  | none ↦ elim event [
    | done [] ↦ (up, record s { ending = some closed })
    | done (b ∷ bytes) ↦
        let (up', s') = serve_bytes world up s (b ∷ bytes) in serve_client world up' s' events
    | failed kind ↦ (up, record s { ending = some (broken (RctError.io kind)) })
  ]
]
