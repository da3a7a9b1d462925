-- ===== src/Output.antt =====
-- src/core.rs: the printer that styles what is written. A text is the list of its code points, where the
-- source keeps the bytes of their UTF-8.
use fetch.Common.{Bool, ℕ, List, [], ◌∷◌, ◌++◌, if◌then◌else◌}
use fetch.Common.Text.{codes}

pub data Sequence : Type 0 where
  reset bold dim italic underline black red green yellow blue magenta cyan white default : Sequence

pub code : Sequence → List ℕ
code reset = codes "0"
code bold = codes "1"
code dim = codes "2"
code italic = codes "3"
code underline = codes "4"
code black = codes "30"
code red = codes "31"
code green = codes "32"
code yellow = codes "33"
code blue = codes "34"
code magenta = codes "35"
code cyan = codes "36"
code white = codes "37"
code default = codes "39"

pub record Printer : Type 0 where
  pub buf : List ℕ
  pub use_color : Bool

abbrev pub new : Bool → Printer
new use_color = record { buf = []; use_color = use_color }

unfoldable pub push_str : Printer → List ℕ → Printer
push_str out value = record out { buf = out.buf ++ value }

unfoldable pub set : Printer → Sequence → Printer
unfolding push_str
set out sequence =
    if out.use_color then push_str out (0x1b ∷ b'[' ∷ (code sequence ++ b'm' ∷ [])) else out

unfoldable pub set_all : Printer → List Sequence → Printer
unfolding set
set_all out [] = out
set_all out (style ∷ styles) = set_all (set out style) styles

unfoldable pub write_styled : Printer → List ℕ → List Sequence → Printer
unfolding set_all
write_styled out value styles =
    if out.use_color then set (push_str (set_all out styles) value) reset else push_str out value
