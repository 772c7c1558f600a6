-- ===== src/Rct/Main/Listed.antt =====
-- Which parameters `main` of examples/rct.rs can write.
use rctpower_protocol.Base.{ℕ, suc, ◌≡◌, sym, ap, ◌∙◌, true, Option}
use rctpower_protocol.Base.{some, List, [], ◌∷◌, map}
use rctpower_protocol.Base.{get_elem?, Bool-cases, Option-cases, inl, inr, some-injective, subst}
use rctpower_protocol.Base.Text.{Text, text_eq, text_eq-eq}
use rctpower_protocol.Error.{ok}
use rctpower_protocol.Types.DataValue.{DataValue, Floats}
use rctpower_protocol.Registry.Build.{Registry}
use rctpower_protocol.Writable.{Rule, writable, rule_for, find_rule, validate}
use rctpower_protocol.Client.Network.{Network}
use rctpower_protocol.Client.Config.{default}
use rctpower_protocol.Client.Blocking.{Client}
use rctpower_protocol.Rct.{Outcome}
use rctpower_protocol.Rct.Safety.{set-IsGuarded}
use rctpower_protocol.Rct.Main.{Cmd, Run, ran, main, listing, line}

-- The parameter has a rule, whose line is in the listing, behind its heading.
pub record IsListed (shown : ℕ → Text) (parameter : Text) : Type 0 where
  pub number : ℕ
  pub rule : Rule
  pub named : rule.name ≡ parameter
  pub printed : get_elem? (listing shown) (suc number) ≡ some (line shown rule)

-- Where `find_rule` finds a rule, and its line.
find_rule-line :
    (shown : ℕ → Text) (name : Text) (rs : List Rule) (r : Rule)
    → find_rule name rs ≡ some r
    → (n : ℕ) × (get_elem? (map (line shown) rs) n ≡ some (line shown r)) × (r.name ≡ name)
unfolding find_rule
find_rule-line shown name [] r e = absurd (cc e)
find_rule-line shown name (q ∷ rs) r e = elim (Bool-cases (text_eq q.name name)) [
  | inl hit ↦
      let same : q ≡ r = some-injective q r (rw (hit, find_rule) at e) in
      (
        0,
        ap (λ x. some (line shown x)) same,
        sym (ap (λ x. x.name) same) ∙ text_eq-eq q.name name hit,
      )
  | inr miss ↦
      let (n, printed, named) = find_rule-line shown name rs r (rw (miss, find_rule) at e) in
      (suc n, printed, named)
]

-- `validate` accepts values for parameters with a rule only.
validate-ruled :
    (reg : Registry) (floats : Floats) (name : Text) (v : DataValue)
    → validate reg floats name v ≡ ok tt
    → (r : Rule) × (rule_for name ≡ some r)
unfolding validate
validate-ruled reg floats name v e = elim (Option-cases (rule_for name)) [
  | inl none_there ↦ absurd (cc (rw (none_there, validate) at e))
  | inr (r, there) ↦ (r, there)
]

rule_for-IsListed :
    (shown : ℕ → Text) (name : Text) (r : Rule) → rule_for name ≡ some r → IsListed shown name
unfolding rule_for listing
rule_for-IsListed shown name r e =
    let (n, printed, named) = find_rule-line shown name writable r e in
    record { number = n; rule = r; named = named; printed = printed }

-- What a run of `main` may have sent: it has made a client for `get`, or for a `set` that was
-- confirmed, for a parameter in the listing of `params`.
pub data IsAllowed (shown : ℕ → Text) : Cmd → Type 0 where
  reads : (parameter host : Text) → IsAllowed shown (Cmd.get parameter host)
  writes :
      (parameter value host : Text)
      → IsListed shown parameter
      → IsAllowed shown (Cmd.set parameter value host true)

ran-client : (c d : Option Client) (x y : Outcome) → ran c x ≡ ran d y → c ≡ d
ran-client c d x y e = ap (λ r. elim r [ Run.listed ls ↦ c | ran b o ↦ b ]) e

-- A run that has made a client, so that something may have been sent, is a `get`, or it is a `set`
-- with the confirmation whose parameter stands in a line of the listing that `params` prints.
pub main-IsAllowed :
    (reg : Registry) (floats : Floats) (parse_f32 : Text → Option ℕ) (shown : ℕ → Text)
    (network : Text → Network) (cmd : Cmd) (client : Client) (outcome : Outcome)
    → main reg floats parse_f32 shown network cmd ≡ ran (some client) outcome
    → IsAllowed shown cmd
unfolding main
main-IsAllowed reg floats parse_f32 shown network Cmd.params client outcome e = absurd (cc e)
main-IsAllowed reg floats parse_f32 shown network (Cmd.get parameter host) client outcome e =
    reads parameter host
main-IsAllowed reg floats parse_f32 shown network (Cmd.set parameter value host confirmed) client
      outcome e =
    let made = ran-client _ (some client) _ outcome e in
    let g =
      set-IsGuarded reg floats parse_f32 (network host) default.retries parameter value confirmed
        client made in
    let (r, ruled) = validate-ruled reg floats parameter g.written g.valid in
    subst (λ y. IsAllowed shown (Cmd.set parameter value host y)) (sym g.confirmed)
      (writes parameter value host (rule_for-IsListed shown parameter r ruled))
