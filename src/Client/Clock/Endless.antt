-- ===== src/Client/Clock/Endless.antt =====
-- The loop of src/async_client.rs, which has a timeout for each read and no deadline.
use rctpower_protocol.Base.{ℕ, zero, suc, ◌+◌, ◌≤◌, ◌≡◌, ◌≢◌, refl, sym, ap, ◌∙◌, arith}
use rctpower_protocol.Base.{false, none}
use rctpower_protocol.Base.{List, [], ◌∷◌, All, length, append-nil}
use rctpower_protocol.Error.{ok}
use rctpower_protocol.Frame.Send.{start_token}
use rctpower_protocol.Frame.Receive.{ReceiveFrame, new, consume, consume_loop}
use rctpower_protocol.Frame.Receive.Header.{waiting, consume_loop_junk}
use rctpower_protocol.Client.Network.{done}
use rctpower_protocol.Client.Clock.{Read, read_each, take_read}

-- A read that comes before its timeout with some bytes, none of which starts a frame.
pub record IsChatter (timeout : ℕ) (r : Read) : Type 0 where
  pub first : ℕ
  pub others : List ℕ
  pub heard : r.outcome ≡ done (first ∷ others)
  pub clean : All (λ b. b ≢ start_token) (first ∷ others)
  pub prompt : r.elapsed ≤ timeout

consume_chatter :
    (n : ℕ) (bytes : List ℕ)
    → All (λ c. c ≢ start_token) bytes
    → consume (waiting false n) bytes ≡ (waiting false (n + length bytes), ok (0 + length bytes))
unfolding consume consume_loop
consume_chatter n bytes clean =
    ap (consume (waiting false n)) (sym (append-nil bytes))
    ∙ consume_loop_junk bytes false n 0 [] clean

take_read-ok :
    (rx r : ReceiveFrame) (b m : ℕ) (bytes : List ℕ)
    → consume rx (b ∷ bytes) ≡ (r, ok m)
    → take_read rx (done (b ∷ bytes)) ≡ (r, none)
unfolding take_read
take_read-ok rx r b m bytes e =
    let parser : (consume rx (b ∷ bytes)).0 ≡ r = ap (λ p. p.0) e in
    let counted : (consume rx (b ∷ bytes)).1 ≡ ok m = ap (λ p. p.1) e in ground arith

-- A parser that waits for a frame still waits for it after such a read.
take_chatter :
    (timeout n : ℕ) (r : Read)
    → (c : IsChatter timeout r)
    → take_read (waiting false n) r.outcome
      ≡ (waiting false (n + length (c.first ∷ c.others)), none)
take_chatter timeout n r c =
    ap (take_read (waiting false n)) c.heard
    ∙ take_read-ok (waiting false n) _ c.first _ c.others
        (consume_chatter n (c.first ∷ c.others) c.clean)

read_each-on :
    (reads : ℕ → Read) (timeout fuel now k : ℕ) (rx r : ReceiveFrame)
    → rx.complete ≡ false
    → (reads k).elapsed ≤ timeout
    → take_read rx (reads k).outcome ≡ (r, none)
    → read_each reads timeout (suc fuel) now k rx
      ≡ read_each reads timeout fuel (now + (reads k).elapsed) (k + 1) r
unfolding read_each
read_each-on reads timeout fuel now k rx r h short e =
    let parser : (take_read rx (reads k).outcome).0 ≡ r = ap (λ p. p.0) e in
    let over : (take_read rx (reads k).outcome).1 ≡ none = ap (λ p. p.1) e in ground arith

read_each-chatter :
    (reads : ℕ → Read) (timeout : ℕ)
    → ((k : ℕ) → IsChatter timeout (reads k))
    → (fuel now k n : ℕ) → read_each reads timeout fuel now k (waiting false n) ≡ none
unfolding read_each
read_each-chatter reads timeout chatter zero now k n = refl
read_each-chatter reads timeout chatter (suc fuel) now k n =
    let c = chatter k in
    read_each-on reads timeout fuel now k (waiting false n) _ refl c.prompt
      (take_chatter timeout n (reads k) c)
    ∙ read_each-chatter reads timeout chatter fuel (now + (reads k).elapsed) (k + 1)
        (n + length (c.first ∷ c.others))

-- Where each read comes before its timeout, with some bytes that do not start a frame, the loop
-- of the pooled client does not end, whatever its timeout is: no fuel is enough.
pub read_each_endless :
    (reads : ℕ → Read) (timeout fuel begin : ℕ)
    → ((k : ℕ) → IsChatter timeout (reads k))
    → read_each reads timeout fuel begin 0 (new false) ≡ none
read_each_endless reads timeout fuel begin chatter =
    read_each-chatter reads timeout chatter fuel begin 0 0
