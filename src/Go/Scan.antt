-- ===== src/Go/Scan.antt =====
-- `bufio.Scanner` with `bufio.ScanLines`, on all that a reader gives until its end or its error.
use Prim.Native.String.{[], ◌∷◌}
use go_acp_server.Base.{
  ℕ, ◌+◌, Char, code, String, Bool, false, List, Option, some, if◌then◌else◌, nat_eq, ltb,
}
use go_acp_server.Go.Fault.{Fault, new_fault}

-- What a reader gives, with the error at its end; `none` is io.EOF.
pub record Source : Type 0 where
  pub text : String
  pub fault : Option Fault

-- The number of bytes of a character in UTF-8.
unfoldable pub char_bytes : ℕ → ℕ
char_bytes c = if ltb c 0x80 then 1 else if ltb c 0x800 then 2 else if ltb c 0x10000 then 3 else 4

-- len(s)
unfoldable pub bytes : String → ℕ
unfolding char_bytes
bytes [] = 0
bytes (c ∷ s) = char_bytes (code c) + bytes s

unfoldable pub push_char : Char → List String → List String
push_char c List.[] = List.◌∷◌ (c ∷ []) List.[]
push_char c (List.◌∷◌ l ls) = List.◌∷◌ (c ∷ l) ls

-- The lines with their carriage returns; an empty last one does not count.
unfoldable pub raw_lines : String → List String
unfolding push_char
raw_lines [] = List.[]
raw_lines (c ∷ s) =
    let rest = raw_lines s in if nat_eq (code c) 10 then List.◌∷◌ "" rest else push_char c rest

unfoldable pub is_cr : String → Char → Bool
is_cr [] c = nat_eq (code c) 13
is_cr (d ∷ s) c = false

-- Without one carriage return at the end.
unfoldable pub drop_cr : String → String
unfolding is_cr
drop_cr [] = []
drop_cr (c ∷ s) = if is_cr s c then [] else c ∷ drop_cr s

abbrev pub too_long : Fault
too_long = new_fault "bufio.Scanner: token too long"

pub record Scanned : Type 0 where
  pub tokens : List String
  pub fault : Option Fault

abbrev pub add_token : String → Scanned → Scanned
add_token t r = record { tokens = List.◌∷◌ t r.tokens; fault = r.fault }

-- The buffer holds `max` bytes, with the newline.
unfoldable pub scan_lines : ℕ → Option Fault → List String → Scanned
unfolding drop_cr bytes
scan_lines max fault List.[] = record { tokens = List.[]; fault = fault }
scan_lines max fault (List.◌∷◌ l ls) =
    let rest = scan_lines max fault ls in
    if ltb (bytes l) max
    then add_token (drop_cr l) rest
    else record { tokens = List.[]; fault = some too_long }

-- All tokens, and `scanner.Err()`.
unfoldable pub scan : ℕ → Source → Scanned
unfolding scan_lines raw_lines
scan max src = scan_lines max src.fault (raw_lines src.text)
