-- ===== src/Base/Utf8.antt =====
-- Rust's `String::from_utf8_lossy`: each longest prefix of a sequence that cannot go on, and each
-- byte that cannot start one, becomes U+FFFD.
use Prim.Native.Nat.{ℕ, ◌-◌, ◌<◌}
use mathlib.Core.Path.{◌≡◌, refl}
use mathlib.Core.Bool.{Bool, ◌&&◌}
use mathlib.Core.List.{List, [], ◌∷◌, ◌++◌}
use native.Mathlib.Omega.{arith}
use rctpower_protocol.Base.Tests.{ltb, leb, ◌==◌, if◌then◌else◌}
use rctpower_protocol.Base.Lists.{All}
use rctpower_protocol.Base.Text.{Text}

abbrev between : ℕ → ℕ → ℕ → Bool
between lo hi b = leb lo b && leb b hi

abbrev replacement : Text
replacement = 0xef ∷ 0xbf ∷ 0xbd ∷ []

-- How many bytes follow this lead byte.
followers : ℕ → ℕ
followers a =
    if between 0xc2 0xdf a
    then 1
    else if between 0xe0 0xef a
    then 2
    else if between 0xf0 0xf4 a
    then 3
    else 0

-- Whether `b` may follow the bytes `held` of a sequence under way.
accepts : Text → ℕ → Bool
accepts (a ∷ []) b =
    if a == 0xe0
    then between 0xa0 0xbf b
    else if a == 0xed
    then between 0x80 0x9f b
    else if a == 0xf0
    then between 0x90 0xbf b
    else if a == 0xf4
    then between 0x80 0x8f b
    else between 0x80 0xbf b
accepts held b = between 0x80 0xbf b

-- What is written, the bytes of the sequence under way, and how many it still wants.
abbrev Scan : Type 0
Scan = record { written : Text; held : Text; want : ℕ }

begin : Text → ℕ → Scan
unfolding followers
begin out b =
    if ltb b 0x80
    then record { written = out ++ b ∷ []; held = []; want = 0 }
    else if followers b == 0
    then record { written = out ++ replacement; held = []; want = 0 }
    else record { written = out; held = b ∷ []; want = followers b }

scan_byte : Text → ℕ → ℕ → Scan
unfolding begin accepts
scan_byte [] want b = begin [] b
scan_byte (a ∷ held) want b =
    if accepts (a ∷ held) b
    then (if want == 1
        then record { written = a ∷ held ++ b ∷ []; held = []; want = 0 }
        else record { written = []; held = a ∷ held ++ b ∷ []; want = want - 1 })
    else begin replacement b

scan : Text → ℕ → List ℕ → Text
unfolding scan_byte
scan [] want [] = []
scan (a ∷ held) want [] = replacement
scan held want (b ∷ bs) = let s = scan_byte held want b in s.written ++ scan s.held s.want bs

unfoldable pub from_utf8_lossy : List ℕ → Text
unfolding scan
from_utf8_lossy = scan [] 0

-- A text of ASCII bytes is read as it stands.
pub from_utf8_lossy_ascii : (s : Text) → All (λ b. b < 128) s → from_utf8_lossy s ≡ s
unfolding from_utf8_lossy
from_utf8_lossy_ascii [] h = refl
from_utf8_lossy_ascii (b ∷ bs) h = ground (arith, from_utf8_lossy_ascii bs h.1)

-- "ä" and "€" are kept; a cut sequence and a stray byte are replaced.
lossy_runs :
    from_utf8_lossy (0xc3 ∷ 0xa4 ∷ 0xe2 ∷ 0x82 ∷ 0xac ∷ 0xe2 ∷ 0x82 ∷ 0x41 ∷ 0xff ∷ [])
    ≡ 0xc3 ∷ 0xa4 ∷ 0xe2 ∷ 0x82 ∷ 0xac ∷ 0xef ∷ 0xbf ∷ 0xbd ∷ 0x41 ∷ 0xef ∷ 0xbf ∷ 0xbd ∷ []
unfolding from_utf8_lossy
lossy_runs = refl
