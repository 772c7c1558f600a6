-- ===== src/Registry/Lookup.antt =====
-- What the two maps of a registry of src/registry.rs give: the last entry with a name or an id.
use rctpower_protocol.Base.{some-injective, ℕ, ◌≡◌, ◌≢◌, ◌↔◌, ◌⊎◌, refl, sym, ap, ◌∙◌, subst}
use rctpower_protocol.Base.{Bool, true}
use rctpower_protocol.Base.{==_iff, ◌==◌}
use rctpower_protocol.Base.{Option, none, some, List, [], ◌∷◌, ◌++◌, if◌then◌else◌, All, inl, inr}
use rctpower_protocol.Base.{Bool-cases}
use rctpower_protocol.Base.Text.{Text, text_eq, text_eq-eq, text_eq_refl}
use rctpower_protocol.Error.{ok-injective, ok, Result-cases}
use rctpower_protocol.Registry.{ObjectInfo}
use rctpower_protocol.Registry.Build.{Registry, build, build_lines, entries, insert_all, get_key}
use rctpower_protocol.Registry.Build.{get_by_name, get_by_id}
use rctpower_protocol.Base.Strings.{lines, split}

-- `v` is the last in the list with the key `k`.
pub record IsLast {ℓ κ} {K : Type ℓ} {V : Type κ} (key : V → K) (k : K) (vs : List V) (v : V)
    : Type (ℓ ⊔ κ) where
  pub before : List V
  pub after : List V
  pub whole : vs ≡ before ++ (v ∷ after)
  pub has_key : key v ≡ k
  pub no_later : All (λ w. key w ≢ k) after

module _ {ℓ κ} {K : Type ℓ} {V : Type κ} (eq : K → K → Bool)
    (eq_iff : (a b : K) → (eq a b ≡ true) ↔ (a ≡ b)) (key : V → K) (k : K) where
  -- The last with the key, or what `other` gives.
  find_last : List V → Option V → Option V
  find_last [] other = other
  find_last (v ∷ vs) other = find_last vs (if eq (key v) k then some v else other)

  get_key-insert_all :
      (vs : List V) (m : List (K × V))
      → get_key eq k (insert_all key vs m) ≡ find_last vs (get_key eq k m)
  unfolding find_last
  get_key-insert_all [] m = refl
  get_key-insert_all (v ∷ vs) m = get_key-insert_all vs ((key v, v) ∷ m)

  find_last-none :
      (vs : List V) (other : Option V) → All (λ w. key w ≢ k) vs → find_last vs other ≡ other
  unfolding find_last
  find_last-none [] other h = refl
  find_last-none (v ∷ vs) other (h, hs) = elim (Bool-cases (eq (key v) k)) [
    | inl e ↦ absurd (h ((eq_iff (key v) k).0 e))
    | inr e ↦ rw (e, find_last) (find_last-none vs other hs)
  ]

  find_last-behind :
      (before after : List V) (v : V) (other : Option V)
      → key v ≡ k
      → All (λ w. key w ≢ k) after
      → find_last (before ++ (v ∷ after)) other ≡ some v
  unfolding find_last
  find_last-behind [] after v other e h =
      rw ((eq_iff (key v) k).1 e, find_last) (find_last-none after (some v) h)
  find_last-behind (w ∷ before) after v other e h =
      find_last-behind before after v (if eq (key w) k then some w else other) e h

  -- Either the list decides, or no element has the key.
  find_last-cases :
      (vs : List V) (other : Option V)
      → ((v : V) × (find_last vs other ≡ some v) × IsLast key k vs v) ⊎ (All (λ w. key w ≢ k) vs)
  unfolding find_last
  find_last-cases [] other = inr tt
  find_last-cases (v ∷ vs) other =
      elim (find_last-cases vs (if eq (key v) k then some v else other)) [
        | inl (w, e, last) ↦ inl (
          w,
          e,
          record {
            before = v ∷ last.before;
            after = last.after;
            whole = ap (λ us. v ∷ us) last.whole;
            has_key = last.has_key;
            no_later = last.no_later;
          },
        )
        | inr none_later ↦ elim (Bool-cases (eq (key v) k)) [
          | inl e ↦ inl (
            v,
            rw (e, find_last) (find_last-none vs (some v) none_later),
            record {
              before = [];
              after = vs;
              whole = refl;
              has_key = (eq_iff (key v) k).0 e;
              no_later = none_later;
            },
          )
          | inr e ↦ inr ((λ same. cc (sym e ∙ (eq_iff (key v) k).1 same)), none_later)
        ]
      ]

  get_key_iff :
      (vs : List V) (v : V) → (get_key eq k (insert_all key vs []) ≡ some v) ↔ IsLast key k vs v
  get_key_iff vs v = (
    λ e. elim (find_last-cases vs none) [
      | inl (w, f, last) ↦
          subst (IsLast key k vs) (some-injective w v (sym f ∙ sym (get_key-insert_all vs []) ∙ e))
            last
      | inr absent ↦
          absurd (cc (sym (find_last-none vs none absent) ∙ sym (get_key-insert_all vs []) ∙ e))
    ],
    λ last.
        get_key-insert_all vs []
        ∙ ap (λ us. find_last us none) last.whole
        ∙ find_last-behind last.before last.after v none last.has_key last.no_later,
  )

text_eq_iff : (s t : Text) → (text_eq s t ≡ true) ↔ (s ≡ t)
text_eq_iff s t = (text_eq-eq s t, λ e. ap (text_eq s) (sym e) ∙ text_eq_refl s)

-- The maps of a registry have been filled from its entries.
abbrev IsIndexed : Registry → Type 0
IsIndexed reg =
    (reg.by_name ≡ insert_all (λ o. o.name) reg.all [])
    × (reg.by_id ≡ insert_all (λ o. o.object_id) reg.all [])

build_lines-IsIndexed :
    (ls meta : List Text) (reg : Registry) → build_lines ls meta ≡ ok reg → IsIndexed reg
unfolding build_lines
build_lines-IsIndexed [] meta reg e = cc
build_lines-IsIndexed (header ∷ rest) meta reg e =
    elim (Result-cases (entries (split b';' header) rest)) [
      | inl (os, held) ↦ subst IsIndexed (ok-injective _ reg (rw held at e)) (refl, refl)
      | inr (inl (x, held)) ↦ absurd (cc (rw held at e))
      | inr (inr held) ↦ absurd (cc (rw held at e))
    ]

build-IsIndexed : (csv meta : Text) (reg : Registry) → build csv meta ≡ ok reg → IsIndexed reg
unfolding build
build-IsIndexed csv meta reg e = build_lines-IsIndexed (lines csv) (lines meta) reg e

-- A registry has been built from any two texts. A lookup of a name gives an entry exactly when it
-- is the last one with this name.
pub get_by_name-build_iff :
    (csv meta : Text) (reg : Registry) (name : Text) (o : ObjectInfo)
    → build csv meta ≡ ok reg
    → (get_by_name reg name ≡ some o) ↔ IsLast (λ p. p.name) name reg.all o
unfolding get_by_name
get_by_name-build_iff csv meta reg name o built =
    let (filled, _) = build-IsIndexed csv meta reg built in
    rw filled (get_key_iff text_eq text_eq_iff (λ p. p.name) name reg.all o)

-- A registry has been built from any two texts. A lookup of an object id gives an entry exactly
-- when it is the last one with this id.
pub get_by_id-build_iff :
    (csv meta : Text) (reg : Registry) (id : ℕ) (o : ObjectInfo)
    → build csv meta ≡ ok reg
    → (get_by_id reg id ≡ some o) ↔ IsLast (λ p. p.object_id) id reg.all o
unfolding get_by_id
get_by_id-build_iff csv meta reg id o built =
    let (_, filled) = build-IsIndexed csv meta reg built in
    rw filled (get_key_iff (λ a b. a == b) ==_iff (λ p. p.object_id) id reg.all o)
