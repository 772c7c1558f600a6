-- ===== src/Registry/Build.antt =====
-- `build`, the lookups and `enum_str` of src/registry.rs, over the texts of the two data files. A
-- `HashMap` is the list of its insertions, the last one first. The `OnceLock` and the leaked boxes
-- only say when and where the registry is built.
use rctpower_protocol.Base.{ℕ, ◌^◌, Bool, true, false, ◌&&◌, ◌-◌, ◌+◌, not}
use rctpower_protocol.Base.{Option, none, some, List, [], ◌∷◌, ◌++◌, map, is_empty, ◌==◌}
use rctpower_protocol.Base.{if◌then◌else◌, get_elem?}
use rctpower_protocol.Base.Int.{ℤ, negsuc}
use rctpower_protocol.Base.Bytes.{codes}
use rctpower_protocol.Base.Text.{Text, text_eq, decimal}
use rctpower_protocol.Base.Strings.{split, lines, trim_end, trim_0x, trim, contains, starts_with}
use rctpower_protocol.Base.Strings.{behind, parse_unsigned, parse_signed}
use rctpower_protocol.Error.{Result, ok, panic, ◌>>=◌}
use rctpower_protocol.Types.ObjectGroup
use rctpower_protocol.Types.ObjectGroup.{ObjectGroup, number}
use rctpower_protocol.Types.DataType.{DataType, from_str_name}
use rctpower_protocol.Registry.{ObjectInfo}

pub record Registry : Type 0 where
  pub by_name : List (Text × ObjectInfo)
  pub by_id : List (ℕ × ObjectInfo)
  pub all : List ObjectInfo
  pub source_commit : Text
  pub count : ℕ

-- `o.unwrap()`.
abbrev pub unwrap {ℓ} : {A : Type ℓ} → Option A → Result A
unwrap none = panic
unwrap (some a) = ok a

abbrev pub unwrap_or {ℓ} : {A : Type ℓ} → Option A → A → A
unwrap_or none b = b
unwrap_or (some a) b = a

-- `cols.iter().position(|x| *x == c)`.
unfoldable pub position : Text → List Text → Option ℕ
position c [] = none
position c (x ∷ xs) =
    if text_eq x c then some 0 else elim (position c xs) [ none ↦ none | some i ↦ some (i + 1) ]

-- The closures `idx` and `get`.
unfoldable pub get : List Text → List Text → Text → Result Text
unfolding position
get cols f c = do i ← unwrap (position c cols); ok (unwrap_or (get_elem? f i) [])

-- `u32::from_str_radix(s.trim_start_matches("0x"), 16)`.
unfoldable pub read_id : Text → Option ℕ
unfolding parse_unsigned trim_0x
read_id s = parse_unsigned 16 (2 ^ 32 - 1) (trim_0x s)

unfoldable pub read_index : Text → ℤ
unfolding parse_signed
read_index s = unwrap_or (parse_signed (2 ^ 31 - 1) s) (negsuc 0)

unfoldable pub read_group : Text → ObjectGroup
read_group s = unwrap_or (ObjectGroup.from_string s) ObjectGroup.others

unfoldable pub read_type : Text → DataType
read_type s = unwrap_or (from_str_name s) DataType.unknown

-- A line of the table.
unfoldable pub entry : List Text → Text → Result ObjectInfo
unfolding get split trim_end read_id read_index read_group read_type
entry cols line = do
  let f = map (trim_end b'\r') (split b';' line)
  group ← get cols f (codes "group")
  object_id ← get cols f (codes "object_id")
  id ← unwrap (read_id object_id)
  index ← get cols f (codes "index")
  name ← get cols f (codes "name")
  req_type ← get cols f (codes "req_type")
  resp_type ← get cols f (codes "resp_type")
  unit ← get cols f (codes "unit")
  description ← get cols f (codes "description")
  enum_map ← get cols f (codes "enum_map")
  ok (record {
    group = read_group group;
    object_id = id;
    index = read_index index;
    name = name;
    request_data_type = read_type req_type;
    response_data_type = read_type resp_type;
    unit = unit;
    description = description;
    enum_map_raw = enum_map;
  })

-- The loop over the lines behind the header.
unfoldable pub entries : List Text → List Text → Result (List ObjectInfo)
unfolding entry
entries cols [] = ok []
entries cols (line ∷ rest) =
    let later = entries cols rest in
    if is_empty line then later else (do o ← entry cols line; os ← later; ok (o ∷ os))

-- A line of the JSON file that has a number behind its first colon.
unfoldable pub count_of : Text → Option ℕ
unfolding split trim trim_end parse_unsigned
count_of l = elim (get_elem? (split b':' l) 1) [
  | none ↦ none
  | some v ↦ parse_unsigned 10 (2 ^ 64 - 1) (trim_end b',' (trim v))
]

unfoldable pub find_count : List Text → Option ℕ
unfolding count_of
find_count [] = none
find_count (l ∷ ls) = elim (count_of l) [ none ↦ find_count ls | some n ↦ some n ]

unfoldable pub find_commit : List Text → Option Text
unfolding split contains
find_commit [] = none
find_commit (l ∷ ls) =
    if contains (codes "source_commit") l then get_elem? (split b'"' l) 3 else find_commit ls

-- The loop that fills the two maps.
abbrev pub insert_all {ℓ κ} :
    {K : Type ℓ} {V : Type κ} → (V → K) → List V → List (K × V) → List (K × V)
insert_all key [] m = m
insert_all key (v ∷ vs) m = insert_all key vs ((key v, v) ∷ m)

-- `lines.next().unwrap()` is the header.
unfoldable pub build_lines : List Text → List Text → Result Registry
unfolding entries find_count find_commit split
build_lines [] meta = panic
build_lines (header ∷ rest) meta = do
  all ← entries (split b';' header) rest
  ok (record {
    by_name = insert_all (λ o. o.name) all [];
    by_id = insert_all (λ o. o.object_id) all [];
    all = all;
    source_commit = unwrap_or (find_commit meta) (codes "unknown");
    count = unwrap_or (find_count meta) 0;
  })

unfoldable pub build : Text → Text → Result Registry
unfolding build_lines lines
build csv meta = build_lines (lines csv) (lines meta)

-- `HashMap::get`.
abbrev pub get_key {ℓ κ} : {K : Type ℓ} {V : Type κ} → (K → K → Bool) → K → List (K × V) → Option V
get_key eq k [] = none
get_key eq k ((l, v) ∷ m) = if eq l k then some v else get_key eq k m

unfoldable pub get_by_name : Registry → Text → Option ObjectInfo
get_by_name reg name = get_key text_eq name reg.by_name

unfoldable pub get_by_id : Registry → ℕ → Option ObjectInfo
get_by_id reg id = get_key (λ k l. k == l) id reg.by_id

-- `all`, and what the iterator of `group` gives.
unfoldable pub of_group : ObjectGroup → List ObjectInfo → List ObjectInfo
of_group g [] = []
of_group g (o ∷ os) =
    let rest = of_group g os in if number o.group == number g then o ∷ rest else rest

unfoldable pub group : Registry → ObjectGroup → List ObjectInfo
unfolding of_group
group reg g = of_group g reg.all

abbrev pub is_enum : DataType → Bool
is_enum DataType.enum = true
is_enum _ = false

-- `iter.find(|p| p.starts_with(..))`.
unfoldable pub find_prefix : Text → List Text → Option Text
find_prefix p [] = none
find_prefix p (s ∷ ss) = if starts_with p s then some s else find_prefix p ss

-- A panic is the `unwrap` of `p.find('=')`.
unfoldable pub enum_str : ObjectInfo → ℕ → Result (Option Text)
unfolding find_prefix split behind decimal
enum_str o value =
    if is_enum o.request_data_type && not (is_empty o.enum_map_raw)
    then elim (find_prefix (decimal value ++ (b'=' ∷ [])) (split b'|' o.enum_map_raw)) [
      | none ↦ ok none
      | some p ↦ elim (behind b'=' p) [ none ↦ panic | some label ↦ ok (some label) ]
    ]
    else ok none
