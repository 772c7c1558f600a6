-- ===== src/Registry/Table.antt =====
-- The table that tools/generate_registry.py writes, as `build` of src/registry.rs reads it.
use rctpower_protocol.Base.{ℕ, suc, ◌^◌, ◌-◌, ◌≤◌, ◌≡◌, ◌≢◌, refl, ap, ◌∙◌, arith}
use rctpower_protocol.Base.{true, false, Bool, not, ◌&&◌}
use rctpower_protocol.Base.{some, List, [], ◌∷◌, ◌++◌, map, All, ◌==◌}
use rctpower_protocol.Base.{is_empty, All-append}
use rctpower_protocol.Base.{if◌then◌else◌}
use mathlib.Core.Path.{ap₂}
use rctpower_protocol.Base.Int.{ℤ, pos, negsuc}
use rctpower_protocol.Base.Bytes.{codes}
use rctpower_protocol.Base.Text.{Text, decimal, decimal_int, text_eq}
use rctpower_protocol.Base.Strings.{split, lines, trim_end, trim_0x, parse_unsigned}
use rctpower_protocol.Base.Strings.Split.{Without, join, joined_lines, split-join, trim_end_same}
use rctpower_protocol.Base.Strings.Split.{is_empty_behind, lines-joined_lines}
use rctpower_protocol.Base.Strings.Digits.{hex_upper, hex_upper-IsFigure, decimal-IsFigure}
use rctpower_protocol.Base.Strings.Digits.{IsFigure, InRange}
use rctpower_protocol.Base.Strings.Digits.{parse_unsigned-hex_upper, parse_signed-decimal_int}
use rctpower_protocol.Error.{ok, ◌>>=◌}
use rctpower_protocol.Types.ObjectGroup
use rctpower_protocol.Types.ObjectGroup.{ObjectGroup}
use rctpower_protocol.Types.DataType
use rctpower_protocol.Types.DataType.{DataType}
use rctpower_protocol.Types.DataType.Laws.{from_str_name-name_iff}
use rctpower_protocol.Registry.{ObjectInfo}
use rctpower_protocol.Registry.Build.{build, build_lines, entries, entry, unwrap_or}
use rctpower_protocol.Registry.Build.{position, get, read_id, read_index, read_group, read_type}

-- The header of the table.
abbrev header_fields : List Text
header_fields =
    codes "group"
    ∷ codes "object_id"
    ∷ codes "index"
    ∷ codes "name"
    ∷ codes "req_type"
    ∷ codes "resp_type"
    ∷ codes "unit"
    ∷ codes "description"
    ∷ codes "enum_map"
    ∷ []

-- An object as the fields of its line. The id and the index are texts of the vendored registry,
-- where they are in capital hexadecimal figures behind `0x`, and in decimal ones.
abbrev row : ObjectInfo → List Text
row o =
    unwrap_or (ObjectGroup.display o.group) []
    ∷ (codes "0x" ++ hex_upper o.object_id)
    ∷ decimal_int o.index
    ∷ o.name
    ∷ DataType.name o.request_data_type
    ∷ DataType.name o.response_data_type
    ∷ o.unit
    ∷ o.description
    ∷ o.enum_map_raw
    ∷ []

-- No byte of the text is a semicolon, a line feed, a carriage return or a double quote.
abbrev pub clean : Text → Bool
clean [] = true
clean (c ∷ s) =
    not (c == b';') && not (c == b'\n') && not (c == b'\r') && not (c == b'"') && clean s

-- Each double quote twice.
abbrev doubled : Text → Text
doubled [] = []
doubled (c ∷ s) = if c == b'"' then c ∷ c ∷ doubled s else c ∷ doubled s

-- `QUOTE_MINIMAL` of Python's csv: a text with one of these bytes stands between double quotes.
abbrev pub csv_field : Text → Text
csv_field s = if clean s then s else b'"' ∷ (doubled s ++ (b'"' ∷ []))

abbrev csv_line : List Text → Text
csv_line fs = join b';' (map csv_field fs)

-- The whole file.
abbrev pub table : List ObjectInfo → Text
table objects = joined_lines (csv_line header_fields ∷ map (λ o. csv_line (row o)) objects)

-- A text that stands in a field without quotes.
abbrev pub IsCell : Text → Type 0
IsCell s = Without b';' s × Without b'\n' s × Without b'\r' s × Without b'"' s

-- An object whose numbers have the width of their types, and whose texts can stand in a field.
pub record IsEntry (o : ObjectInfo) : Type 0 where
  pub id_small : o.object_id ≤ 2 ^ 32 - 1
  pub index_small : InRange (2 ^ 31 - 1) o.index
  pub name_cell : IsCell o.name
  pub unit_cell : IsCell o.unit
  pub description_cell : IsCell o.description
  pub enum_cell : IsCell o.enum_map_raw

read_group-display : (g : ObjectGroup) → read_group (unwrap_or (ObjectGroup.display g) []) ≡ g
unfolding read_group ObjectGroup.display ObjectGroup.from_string ObjectGroup.from_u8
read_group-display ObjectGroup.rb485 = refl
read_group-display _ = refl

read_type-name : (t : DataType) → read_type (DataType.name t) ≡ t
unfolding read_type
read_type-name t = rw ((from_str_name-name_iff (DataType.name t) t).1 refl, read_type) refl

trim_0x_figures : (s : Text) → All IsFigure s → trim_0x s ≡ s
unfolding trim_0x
trim_0x_figures [] h = refl
trim_0x_figures (c ∷ []) h = refl
trim_0x_figures (c ∷ d ∷ s) (_, ((low, high, _, _, _), _)) = ground arith

read_id-hex_upper : (n : ℕ) → n ≤ 2 ^ 32 - 1 → read_id (codes "0x" ++ hex_upper n) ≡ some n
unfolding read_id trim_0x
read_id-hex_upper n small =
    ap (parse_unsigned 16 (2 ^ 32 - 1)) (trim_0x_figures (hex_upper n) (hex_upper-IsFigure n))
    ∙ parse_unsigned-hex_upper (2 ^ 32 - 1) n small

read_index-decimal_int : (z : ℤ) → InRange (2 ^ 31 - 1) z → read_index (decimal_int z) ≡ z
unfolding read_index
read_index-decimal_int z small = rw (parse_signed-decimal_int (2 ^ 31 - 1) z small, read_index) refl

pub clean-IsCell : (s : Text) → clean s ≡ true → IsCell s
clean-IsCell [] h = (tt, tt, tt, tt)
clean-IsCell (c ∷ s) h =
    let (a, b, d, e) = clean-IsCell s (ground arith) in
    ((ground arith, a), (ground arith, b), (ground arith, d), (ground arith, e))

IsCell-clean : (s : Text) → IsCell s → clean s ≡ true
IsCell-clean [] h = refl
IsCell-clean (c ∷ s) ((x, a), (y, b), (z, d), (w, e)) =
    let rest = IsCell-clean s (a, b, d, e) in ground (arith, x, y, z, w, rest)

clean_figures : (s : Text) → All IsFigure s → clean s ≡ true
clean_figures [] h = refl
clean_figures (c ∷ s) ((low, _, no_semicolon, _, _), hs) = ground (arith, clean_figures s hs)

clean-display : (g : ObjectGroup) → clean (unwrap_or (ObjectGroup.display g) []) ≡ true
unfolding ObjectGroup.display
clean-display ObjectGroup.rb485 = refl
clean-display _ = refl

clean-name : (t : DataType) → clean (DataType.name t) ≡ true
unfolding DataType.name
clean-name DataType.unknown = refl
clean-name _ = refl

clean-decimal_int : (z : ℤ) → clean (decimal_int z) ≡ true
unfolding decimal_int
clean-decimal_int (pos n) = clean_figures (decimal n) (decimal-IsFigure n)
clean-decimal_int (negsuc n) = clean_figures (decimal (suc n)) (decimal-IsFigure (suc n))

row-IsCell : (o : ObjectInfo) → IsEntry o → All IsCell (row o)
row-IsCell o h = (
  clean-IsCell _ (clean-display o.group),
  (
    clean-IsCell (codes "0x" ++ hex_upper o.object_id)
        (clean_figures (hex_upper o.object_id) (hex_upper-IsFigure o.object_id)),
    (
      clean-IsCell _ (clean-decimal_int o.index),
      (
        h.name_cell,
        (
          clean-IsCell _ (clean-name o.request_data_type),
          (
            clean-IsCell _ (clean-name o.response_data_type),
            (h.unit_cell, (h.description_cell, (h.enum_cell, tt))),
          ),
        ),
      ),
    ),
  ),
)

trim_end_cells : (fs : List Text) → All IsCell fs → map (trim_end b'\r') fs ≡ fs
trim_end_cells [] h = refl
trim_end_cells (f ∷ fs) ((_, _, no_return, _), hs) =
    rw (trim_end_same b'\r' f no_return) (ap (λ gs. f ∷ gs) (trim_end_cells fs hs))

cells-Without_semicolon : (fs : List Text) → All IsCell fs → All (Without b';') fs
cells-Without_semicolon [] h = tt
cells-Without_semicolon (f ∷ fs) ((no_semicolon, _, _, _), hs) =
    (no_semicolon, cells-Without_semicolon fs hs)

cells-Without_newline : (fs : List Text) → All IsCell fs → Without b'\n' (join b';' fs)
cells-Without_newline [] h = tt
cells-Without_newline (f ∷ []) ((_, no_newline, _, _), hs) = no_newline
cells-Without_newline (f ∷ g ∷ fs) ((_, no_newline, _, _), hs) =
    All-append (λ d. d ≢ b'\n') f _ no_newline (omega arith, cells-Without_newline (g ∷ fs) hs)

fields_of_row :
    (o : ObjectInfo) → IsEntry o → map (trim_end b'\r') (split b';' (join b';' (row o))) ≡ row o
fields_of_row o h =
    let cells = row-IsCell o h in
    ap (map (trim_end b'\r'))
      (split-join b';' (row o) (λ e. cc) (cells-Without_semicolon (row o) cells))
    ∙ trim_end_cells (row o) cells

entry-row : (o : ObjectInfo) → IsEntry o → entry header_fields (join b';' (row o)) ≡ ok o
unfolding entry get position text_eq read_group read_index read_type
entry-row o h =
    rw (fields_of_row o h, read_id-hex_upper o.object_id h.id_small)
      (λ i. ok (record o {
        group = read_group-display o.group i;
        index = read_index-decimal_int o.index h.index_small i;
        request_data_type = read_type-name o.request_data_type i;
        response_data_type = read_type-name o.response_data_type i;
      }))

-- A line of the table is not empty.
row-line : (o : ObjectInfo) → is_empty (join b';' (row o)) ≡ false
row-line o = is_empty_behind (unwrap_or (ObjectGroup.display o.group) []) _ b';'

entries-rows :
    (objects : List ObjectInfo)
    → All IsEntry objects
    → entries header_fields (map (λ o. join b';' (row o)) objects) ≡ ok objects
unfolding entries
entries-rows [] h = refl
entries-rows (o ∷ os) (h, hs) = rw (row-line o, entry-row o h, entries-rows os hs) refl

-- No field of these is quoted.
csv_line-cells : (fs : List Text) → All IsCell fs → csv_line fs ≡ join b';' fs
csv_line-cells fs h = ap (join b';') (unquoted fs h)
  where
    unquoted : (gs : List Text) → All IsCell gs → map csv_field gs ≡ gs
    unquoted [] k = refl
    unquoted (g ∷ gs) (k, ks) = rw (IsCell-clean g k, unquoted gs ks) refl

csv_lines-cells :
    (objects : List ObjectInfo)
    → All IsEntry objects
    → map (λ o. csv_line (row o)) objects ≡ map (λ o. join b';' (row o)) objects
csv_lines-cells [] h = refl
csv_lines-cells (o ∷ os) (h, hs) =
    ap₂ (λ w ws. w ∷ ws) (csv_line-cells (row o) (row-IsCell o h)) (csv_lines-cells os hs)

header_fields-clean : All (λ f. clean f ≡ true) header_fields
header_fields-clean = assumption refl

clean_cells : (fs : List Text) → All (λ f. clean f ≡ true) fs → All IsCell fs
clean_cells [] h = tt
clean_cells (f ∷ fs) (h, hs) = (clean-IsCell f h, clean_cells fs hs)

rows-Without_newline :
    (objects : List ObjectInfo)
    → All IsEntry objects
    → All (Without b'\n') (map (λ o. join b';' (row o)) objects)
rows-Without_newline [] h = tt
rows-Without_newline (o ∷ os) (h, hs) =
    (cells-Without_newline (row o) (row-IsCell o h), rows-Without_newline os hs)

-- Objects whose ids are u32 and whose indices are i32, and whose texts have no semicolon, no line
-- end and no double quote in them, are written to a table by Python's csv: a header, a line for
-- each with a carriage return and a line feed behind it, the id in hexadecimal behind `0x`, the
-- group and the types by their names. Then `build` gives a registry whose entries are these
-- objects in their order, whatever text the other file is.
pub build-table :
    (objects : List ObjectInfo) (meta : Text)
    → All IsEntry objects
    → (do reg ← build (table objects) meta; ok reg.all) ≡ ok objects
unfolding build build_lines split
build-table objects meta h =
    let cells = clean_cells header_fields header_fields-clean in
    let header = cells-Without_newline header_fields cells in
    let plain : List Text = join b';' header_fields ∷ map (λ o. join b';' (row o)) objects in
    let ls : lines (table objects) ≡ plain =
      ap₂ (λ w ws. lines (joined_lines (w ∷ ws))) (csv_line-cells header_fields cells)
        (csv_lines-cells objects h)
      ∙ lines-joined_lines plain (header, rows-Without_newline objects h) in
    rw (ls, entries-rows objects h) refl
