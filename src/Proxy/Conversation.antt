-- ===== src/Proxy/Conversation.antt =====
-- A client of the proxy of src/proxy.rs that asks, is answered, and asks again.
use rctpower_protocol.Base.{false, ℕ, ◌+◌, ◌≡◌, ◌≢◌, refl, sym, ap, ◌∙◌, none, some, List, []}
use rctpower_protocol.Base.{◌∷◌, ◌++◌, All, map}
use rctpower_protocol.Base.{flatten, append_assoc, append-nil}
use rctpower_protocol.Frame.Receive.{new}
use rctpower_protocol.Client.Network.{done}
use rctpower_protocol.Proxy.{World, Upstream, Session, serve_bytes, serve_client}
use rctpower_protocol.Proxy.Transparent.{Sent, bytes_of, frames_of}
use rctpower_protocol.Proxy.Answered.{Answers, serve_bytes-answer}
use rctpower_protocol.Proxy.Pieces.{serve_bytes-append, serve_client-pieces}

-- A request, the answer to it, and what comes from upstream behind the answer.
pub record Call : Type 0 where
  pub asked : Sent
  pub answer : Sent
  pub rest : List ℕ

-- The connection `k` is kept, and an exchange made, for each call.
abbrev pub upstream_after : ℕ → Upstream → List Call → Upstream
upstream_after k up [] = up
upstream_after k up (c ∷ cs) = upstream_after k (record { conn = some k; turn = up.turn + 1 }) cs

-- The exchange of each request, in its turn, meets no error and gives its answer, which the client
-- takes.
abbrev pub AnswersAll : World → ℕ → Upstream → List Call → Type 0
AnswersAll world k up [] = Unit {0}
AnswersAll world k up (c ∷ cs) =
    Answers (world up.turn) up.conn k c.asked.frame (c.answer.junk ++ (c.answer.frame ++ c.rest))
    × ((world up.turn).reply c.answer.frame ≡ done 0)
    × AnswersAll world k (record { conn = some k; turn = up.turn + 1 }) cs

abbrev pub askings : List Call → List Sent
askings cs = map (λ c. c.asked) cs

abbrev pub answers : List Call → List Sent
answers cs = map (λ c. c.answer) cs

serve_bytes-answers :
    (world : World) (k : ℕ) (cs : List Call) (up : Upstream) (s : Session)
    → s.ending ≡ none
    → s.rx ≡ new false
    → AnswersAll world k up cs
    → serve_bytes world up s (bytes_of (askings cs)) ≡ (
      upstream_after k up cs,
      record s {
        rx = new false;
        forwarded = s.forwarded ++ frames_of (askings cs);
        replies = s.replies ++ frames_of (answers cs);
      },
    )
unfolding serve_bytes
serve_bytes-answers world k [] up s alive fresh all = λ i. (
  up,
  record s {
    rx = fresh i;
    forwarded = sym (append-nil s.forwarded) i;
    replies = sym (append-nil s.replies) i;
  },
)
serve_bytes-answers world k (c ∷ cs) up s alive fresh (exchanged, replied, all) =
    let next = record s {
      rx = new false;
      forwarded = s.forwarded ++ (c.asked.frame ∷ []);
      replies = s.replies ++ (c.answer.frame ∷ []);
    } in
    let up1 : Upstream = record { conn = some k; turn = up.turn + 1 } in
    serve_bytes-append world (c.asked.junk ++ c.asked.frame) (bytes_of (askings cs)) up s
    ∙ ap (λ p. serve_bytes world p.0 p.1 (bytes_of (askings cs)))
        (serve_bytes-answer world up s k c.asked.command c.answer.command c.asked.payload
          c.answer.payload c.asked.id c.answer.id c.asked.junk c.asked.frame c.answer.junk
          c.answer.frame c.rest alive fresh c.asked.is_frame c.answer.is_frame exchanged replied)
    ∙ serve_bytes-answers world k cs up1 next alive refl all
    ∙ λ i. (
      upstream_after k up1 cs,
      record s {
        rx = new false;
        forwarded = append_assoc s.forwarded (c.asked.frame ∷ []) (frames_of (askings cs)) i;
        replies = append_assoc s.replies (c.answer.frame ∷ []) (frames_of (answers cs)) i;
      },
    )

-- A session with a new parser that goes on reads, in any pieces that are not empty, requests, each
-- behind bytes that are no start token. For each of them, in its turn, the exchange on the
-- connection `k` meets no error and gives, in any pieces, another frame, behind bytes that are no
-- start token and before any others, and the client takes this reply; all frames are standard ones
-- that `make_frame` built. Then the session has forwarded exactly the requests and replied exactly
-- the answers, in their order and byte by byte; one exchange has been made for each, and the
-- session goes on with a new parser.
pub serve_client-answers :
    (world : World) (k : ℕ) (cs : List Call) (chunks : List (List ℕ)) (up : Upstream) (s : Session)
    → s.ending ≡ none
    → s.rx ≡ new false
    → All (λ c. c ≢ []) chunks
    → flatten chunks ≡ bytes_of (askings cs)
    → AnswersAll world k up cs
    → serve_client world up s (map done chunks) ≡ (
      upstream_after k up cs,
      record s {
        rx = new false;
        forwarded = s.forwarded ++ frames_of (askings cs);
        replies = s.replies ++ frames_of (answers cs);
      },
    )
serve_client-answers world k cs chunks up s alive fresh some_bytes whole all =
    serve_client-pieces world chunks up s some_bytes
    ∙ ap (serve_bytes world up s) whole
    ∙ serve_bytes-answers world k cs up s alive fresh all
