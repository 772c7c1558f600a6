-- ===== src/Writable/Real.antt =====
-- Which floats `validate` of src/writable.rs accepts.
use rctpower_protocol.Base.{ℕ, ◌/◌, ◌%◌, ◌^◌, ◌<◌, ◌≡◌, refl, subst, arith}
use rctpower_protocol.Base.{Bool, true, false, ◌&&◌, ◌||◌, not, ltb, some, some-injective, List}
use rctpower_protocol.Base.{[], ◌∷◌, All}
use rctpower_protocol.Base.{if◌then◌else◌, Bool-cases, inl, inr}
use rctpower_protocol.Base.Text.{Text, text_eq}
use rctpower_protocol.Error.{RctError, ok, err}
use rctpower_protocol.Types.DataValue.{DataValue, Floats, to_string}
use rctpower_protocol.Registry.{ObjectInfo}
use rctpower_protocol.Registry.Build.{Registry, get_by_name}
use rctpower_protocol.Writable.{Rule, writable, rule_for, find_rule, as_f64, too_precise}
use rctpower_protocol.Writable.{check_number, check, validate}
use rctpower_protocol.Writable.Double.{is_nan, of_f32, le_int}
use rctpower_protocol.Writable.Value.{f64_units, f32_units, le-f64_units}
use rctpower_protocol.Writable.Cast.{f64_units-of_f32, is_nan-of_f32, of_f32-lt}

-- The bounds are patterns of f64, and the upper one is a number if the lower one is.
abbrev bounded : Rule → Bool
bounded r = ltb r.min (2 ^ 64) && ltb r.max (2 ^ 64) && (is_nan r.min || not (is_nan r.max))

find_rule-All :
    (P : Rule → Type 0) (name : Text) (rs : List Rule) (r : Rule)
    → All P rs
    → find_rule name rs ≡ some r
    → P r
unfolding find_rule
find_rule-All P name [] r all found = absurd (cc found)
find_rule-All P name (rule ∷ rs) r (first, rest) found =
    elim (Bool-cases (text_eq rule.name name)) [
      | inl same ↦ subst P (some-injective rule r (rw (same, find_rule) at found)) first
      | inr other ↦ find_rule-All P name rs r rest (rw (other, find_rule) at found)
    ]

writable-bounded : All (λ r. bounded r ≡ true) writable
unfolding is_nan
writable-bounded =
    (refl, (refl, (refl, (refl, (refl, (refl, (refl, (refl, (refl, (refl, tt))))))))))

bounded-parts :
    (lo hi : ℕ) (a b : Bool)
    → (ltb lo (2 ^ 64) && ltb hi (2 ^ 64) && (a || not b)) ≡ true
    → a ≡ false
    → (lo < 2 ^ 64) × (hi < 2 ^ 64) × (b ≡ false)
bounded-parts lo hi a b h number = (ground arith, ground arith, ground arith)

rule_for-bounded : (name : Text) (r : Rule) → rule_for name ≡ some r → bounded r ≡ true
unfolding rule_for
rule_for-bounded name r ruled =
    find_rule-All (λ q. bounded q ≡ true) name writable r writable-bounded ruled

-- The parameter has a rule with numbers for bounds and is in the registry; the value is a finite
-- f32. Then `validate` answers out of range, with the value as f64 and the bounds, unless its
-- number lies between those of the bounds, themselves included, by the order of the integers that
-- count units of 2 ^ -1074; a value in range is refused when its text has more than the rule's
-- decimals, and accepted otherwise.
pub validate-f32 :
    (reg : Registry) (floats : Floats) (name : Text) (r : Rule) (obj : ObjectInfo) (f : ℕ)
    → rule_for name ≡ some r
    → get_by_name reg name ≡ some obj
    → is_nan r.min ≡ false
    → f / 2 ^ 23 % 2 ^ 8 < 255
    → validate reg floats name (DataValue.f32 f) ≡ (
        if le_int (f64_units r.min) (f32_units f) && le_int (f32_units f) (f64_units r.max)
        then (if too_precise r.decimals (to_string floats (DataValue.f32 f))
            then err (RctError.invalid_value name (to_string floats (DataValue.f32 f)))
            else ok tt)
        else err (RctError.value_out_of_range name (of_f32 f) r.min r.max))
unfolding validate check check_number as_f64
validate-f32 reg floats name r obj f ruled known number finite =
    let (low, high, number') =
      bounded-parts r.min r.max (is_nan r.min) (is_nan r.max) (rule_for-bounded name r ruled)
        number in
    let same = f64_units-of_f32 f finite in
    let it = is_nan-of_f32 f finite in
    let small = of_f32-lt f finite in
    rw
      (
        ruled,
        known,
        le-f64_units r.min (of_f32 f) low small number it,
        le-f64_units (of_f32 f) r.max small high it number',
        number,
        same,
        validate,
      )
      refl
