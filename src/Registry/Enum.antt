-- ===== src/Registry/Enum.antt =====
-- `enum_str` of src/registry.rs on the enum maps that tools/generate_registry.py writes.
use rctpower_protocol.Base.{true, some-injective, and_true, Option-cases, not, ℕ, ◌+◌, ◌≡◌, ◌≢◌}
use rctpower_protocol.Base.{refl, sym, ap, ◌∙◌, arith, false}
use rctpower_protocol.Base.Strings.{split}
use rctpower_protocol.Base.{◌&&◌}
use rctpower_protocol.Base.{Option, none, some, List, [], ◌∷◌, ◌++◌, map, All, All-append}
use rctpower_protocol.Base.{append_assoc, ◌==◌, ==_iff, Bool-cases, inl, inr, is_empty}
use rctpower_protocol.Base.{if◌then◌else◌}
use rctpower_protocol.Base.Text.{Text, decimal, text_eq, text_eq-eq, text_eq_refl}
use rctpower_protocol.Base.Strings.{starts_with, behind, digits}
use rctpower_protocol.Base.Strings.Split.{Without, join, split-join, differs, is_empty_behind}
use rctpower_protocol.Base.Strings.Digits.{decimal-IsFigure, digits-decimal, IsFigure}
use rctpower_protocol.Error.{Result, ok, panic}
use rctpower_protocol.Types.DataType.{DataType}
use rctpower_protocol.Registry.{ObjectInfo}
use rctpower_protocol.Registry.Build.{is_enum, enum_str, find_prefix}

-- A number and its label, as the table has them.
abbrev pair : ℕ × Text → Text
pair (v, label) = decimal v ++ (b'=' ∷ label)

abbrev pub enum_map : List (ℕ × Text) → Text
enum_map ps = join b'|' (map pair ps)

-- The label of the first pair with the number.
abbrev pub label_of : ℕ → List (ℕ × Text) → Option Text
label_of x [] = none
label_of x ((v, label) ∷ ps) = if x == v then some label else label_of x ps

figures-Without_equals : (s : Text) → All IsFigure s → Without b'=' s
figures-Without_equals [] h = tt
figures-Without_equals (c ∷ s) ((_, _, _, no_equals, _), hs) =
    (no_equals, figures-Without_equals s hs)

figures-Without_bar : (s : Text) → All IsFigure s → Without b'|' s
figures-Without_bar [] h = tt
figures-Without_bar (c ∷ s) ((_, high, _, _, _), hs) = (ground arith, figures-Without_bar s hs)

decimal-injective : (m n : ℕ) → decimal m ≡ decimal n → m ≡ n
decimal-injective m n e =
    let same : ◌≡◌ {A = Option ℕ} (some m) (some n) =
      sym (digits-decimal (m + n) m (omega arith))
      ∙ ap (digits 10 (m + n) 0) e
      ∙ digits-decimal (m + n) n (omega arith) in
    cc same

text_eq-decimal : (m n : ℕ) → text_eq (decimal m) (decimal n) ≡ (m == n)
text_eq-decimal m n = elim (Bool-cases (m == n)) [
  | inl e ↦
      let same : m ≡ n = (==_iff m n).0 e in
      ap (λ k. text_eq (decimal m) (decimal k)) (sym same) ∙ text_eq_refl (decimal m) ∙ sym e
  | inr e ↦ elim (Bool-cases (text_eq (decimal m) (decimal n))) [
    | inl f ↦
        let same : m ≡ n = decimal-injective m n (text_eq-eq (decimal m) (decimal n) f) in
        absurd (cc (sym e ∙ (==_iff m n).1 same))
    | inr f ↦ f ∙ sym e
  ]
]

starts_with_key :
    (s t label : Text)
    → Without b'=' s
    → Without b'=' t
    → starts_with (s ++ (b'=' ∷ [])) (t ++ (b'=' ∷ label)) ≡ text_eq s t
unfolding starts_with text_eq
starts_with_key [] [] label hs ht = refl
starts_with_key [] (d ∷ t) label hs (h, ht) = ground arith
starts_with_key (c ∷ s) [] label (h, hs) ht = ground arith
starts_with_key (c ∷ s) (d ∷ t) label (h, hs) (g, ht) =
    ap (λ b. (c == d) && b) (starts_with_key s t label hs ht)

behind_key : (s label : Text) → Without b'=' s → behind b'=' (s ++ (b'=' ∷ label)) ≡ some label
unfolding behind
behind_key [] label h = refl
behind_key (c ∷ s) label (h, hs) = rw (differs b'=' c h, behind) (behind_key s label hs)

-- What `find` and `map` make of the pieces.
label_in : ℕ → List Text → Result (Option Text)
label_in x pieces = elim (find_prefix (decimal x ++ (b'=' ∷ [])) pieces) [
  | none ↦ ok none
  | some p ↦ elim (behind b'=' p) [ none ↦ panic | some label ↦ ok (some label) ]
]

label_in-pairs : (x : ℕ) (ps : List (ℕ × Text)) → label_in x (map pair ps) ≡ ok (label_of x ps)
unfolding label_in find_prefix
label_in-pairs x [] = refl
label_in-pairs x ((v, label) ∷ ps) =
    let plain = λ (n : ℕ). figures-Without_equals (decimal n) (decimal-IsFigure n) in
    let found : starts_with (decimal x ++ (b'=' ∷ [])) (pair (v, label)) ≡ (x == v) =
      starts_with_key (decimal x) (decimal v) label (plain x) (plain v) ∙ text_eq-decimal x v in
    elim (Bool-cases (x == v)) [
      | inl e ↦ rw (found, e, behind_key (decimal v) label (plain v), label_in) refl
      | inr e ↦ rw (found, e, label_in) (label_in-pairs x ps)
    ]

pairs-Without_bar :
    (ps : List (ℕ × Text)) → All (λ p. Without b'|' p.1) ps → All (Without b'|') (map pair ps)
pairs-Without_bar [] h = tt
pairs-Without_bar ((v, label) ∷ ps) (h, hs) = (
  All-append (λ d. d ≢ b'|') (decimal v) (b'=' ∷ label)
      (figures-Without_bar (decimal v) (decimal-IsFigure v)) (omega arith, h),
  pairs-Without_bar ps hs,
)

is_empty_map :
    (v : ℕ) (label : Text) (ps : List (ℕ × Text)) → is_empty (enum_map ((v, label) ∷ ps)) ≡ false
is_empty_map v label [] = is_empty_behind (decimal v) label b'='
is_empty_map v label (p ∷ ps) =
    rw (append_assoc (decimal v) (b'=' ∷ label) (b'|' ∷ enum_map (p ∷ ps)))
      (is_empty_behind (decimal v) _ b'=')

-- The object is an enumeration whose map is written as tools/generate_registry.py writes it: a
-- number and a label for each value, the label without a `|`. Then `enum_str` does not panic, and
-- gives the label of the first pair with the number, or none when there is no such pair.
pub enum_str-enum_map :
    (o : ObjectInfo) (ps : List (ℕ × Text)) (x : ℕ)
    → o.request_data_type ≡ DataType.enum
    → All (λ p. Without b'|' p.1) ps
    → o.enum_map_raw ≡ enum_map ps
    → enum_str o x ≡ ok (label_of x ps)
unfolding enum_str label_in
enum_str-enum_map o [] x enum h e = rw (enum, e) refl
enum_str-enum_map o ((v, label) ∷ ps) x enum h e =
    rw (enum, e, is_empty_map v label ps)
      (ap (label_in x) (
          split-join b'|' (map pair ((v, label) ∷ ps)) (λ f. cc)
            (pairs-Without_bar ((v, label) ∷ ps) h))
        ∙ label_in-pairs x ((v, label) ∷ ps))

find_prefix-starts_with :
    (q p : Text) (ss : List Text) → find_prefix q ss ≡ some p → starts_with q p ≡ true
unfolding find_prefix
find_prefix-starts_with q p [] e = absurd (cc e)
find_prefix-starts_with q p (s ∷ ss) e = elim (Bool-cases (starts_with q s)) [
  | inl hit ↦ ap (starts_with q) (sym (some-injective s p (rw (hit, find_prefix) at e))) ∙ hit
  | inr miss ↦ find_prefix-starts_with q p ss (rw (miss, find_prefix) at e)
]

starts_with-behind :
    (s p : Text)
    → starts_with (s ++ (b'=' ∷ [])) p ≡ true
    → (label : Text) × (behind b'=' p ≡ some label)
unfolding starts_with behind
starts_with-behind [] [] h = absurd (cc h)
starts_with-behind [] (d ∷ p) h = (p, ground arith)
starts_with-behind (c ∷ s) [] h = absurd (cc h)
starts_with-behind (c ∷ s) (d ∷ p) h = elim (Bool-cases (d == b'=')) [
  | inl here ↦ (p, rw (here, behind) refl)
  | inr later ↦
      let (label, e) = starts_with-behind s p (and_true (c == d) _ h).1 in
      (label, rw (later, behind) e)
]

-- The `unwrap` finds its `=`, whatever the map is.
pub enum_str-total : (o : ObjectInfo) (x : ℕ) → (label : Option Text) × (enum_str o x ≡ ok label)
unfolding enum_str
enum_str-total o x =
    elim (Bool-cases (is_enum o.request_data_type && not (is_empty o.enum_map_raw))) [
      | inr other ↦ (none, rw (other, enum_str) refl)
      | inl enum ↦
          elim (Option-cases (find_prefix (decimal x ++ (b'=' ∷ [])) (split b'|' o.enum_map_raw))) [
            | inl absent ↦ (none, rw (enum, absent, enum_str) refl)
            | inr (p, found) ↦
                let (label, e) =
                  starts_with-behind (decimal x) p
                    (find_prefix-starts_with (decimal x ++ (b'=' ∷ [])) p _ found) in
                (some label, rw (enum, found, e, enum_str) refl)
          ]
    ]
