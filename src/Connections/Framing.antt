-- ===== src/Connections/Framing.antt =====
-- Lines and the texts that carry them: the scanner of `Serve` and of connections/websocket.go on texts
-- that were written line by line.
use Prim.Native.String.{[], ◌∷◌}
use go_acp_server.Base.{
  ℕ, ◌+◌, ◌≤◌, ◌<◌, Char, code, String, false, List, map, Option, ◌≡◌, refl, ◌∙◌, ap, arith, nat_eq,
  All, Bool-cases, inl, inr,
}
use go_acp_server.Go.Fault.{Fault}
use go_acp_server.Go.Scan.{
  Source, char_bytes, bytes, push_char, raw_lines, drop_cr, scan_lines, scan,
}
use go_acp_server.Go.Text.{◌^^◌}
use text.Mathlib.TextLemmas.{nil-append, cons-append}

-- The text has no newline.
abbrev pub NoNewline : String → Type 0
NoNewline [] = Unit
NoNewline (c ∷ s) = (nat_eq (code c) 10 ≡ false) × NoNewline s

-- A line that the scanner takes.
abbrev pub Fits : ℕ → String → Type 0
Fits max s = NoNewline s × (bytes s < max)

abbrev pub lines_text : List String → String
lines_text List.[] = ""
lines_text (List.◌∷◌ l ls) = (l ^^ "\n") ^^ lines_text ls

abbrev newline : Char
newline = "\n"

newline-append : (s : String) → "\n" ^^ s ≡ newline ∷ s
newline-append s = cons-append newline [] s ∙ ap (◌∷◌ newline) (nil-append s)

raw_lines-line :
    (l s : String) → NoNewline l → raw_lines ((l ^^ "\n") ^^ s) ≡ List.◌∷◌ l (raw_lines s)
unfolding raw_lines push_char
raw_lines-line [] s h = rw (nil-append, newline-append) refl
raw_lines-line (c ∷ l) s (h, hs) =
    rw (cons-append c l "\n", cons-append c (l ^^ "\n") s, h, raw_lines-line l s hs) refl

raw_lines-lines_text : (ls : List String) → All NoNewline ls → raw_lines (lines_text ls) ≡ ls
unfolding raw_lines
raw_lines-lines_text List.[] h = refl
raw_lines-lines_text (List.◌∷◌ l ls) (h, hs) =
    raw_lines-line l (lines_text ls) h ∙ ap (List.◌∷◌ l) (raw_lines-lines_text ls hs)

scan_lines-Fits :
    (max : ℕ) (fault : Option Fault) (ls : List String)
    → All (λ l. bytes l < max) ls
    → scan_lines max fault ls ≡ record { tokens = map drop_cr ls; fault = fault }
unfolding scan_lines
scan_lines-Fits max fault List.[] h = refl
scan_lines-Fits max fault (List.◌∷◌ l ls) (h, hs) =
    rw (scan_lines-Fits max fault ls hs) (ground (arith, h))

bytes-of_Fits : (max : ℕ) (ls : List String) → All (Fits max) ls → All (λ l. bytes l < max) ls
bytes-of_Fits max List.[] h = tt
bytes-of_Fits max (List.◌∷◌ l ls) ((n, b), hs) = (b, bytes-of_Fits max ls hs)

newlines-of_Fits : (max : ℕ) (ls : List String) → All (Fits max) ls → All NoNewline ls
newlines-of_Fits max List.[] h = tt
newlines-of_Fits max (List.◌∷◌ l ls) ((n, b), hs) = (n, newlines-of_Fits max ls hs)

-- Lines that were written one after the other are read back.
pub scan-lines_text :
    (max : ℕ) (fault : Option Fault) (ls : List String)
    → All (Fits max) ls
    → scan max (record { text = lines_text ls; fault = fault })
      ≡ record { tokens = map drop_cr ls; fault = fault }
unfolding scan
scan-lines_text max fault ls h =
    ap (scan_lines max fault) (raw_lines-lines_text ls (newlines-of_Fits max ls h))
    ∙ scan_lines-Fits max fault ls (bytes-of_Fits max ls h)

-- No line is longer than the text.
abbrev Within : ℕ → List String → Type 0
Within n ls = All (λ l. bytes l ≤ n) ls

Within-weaken : (a b : ℕ) (ls : List String) → a ≤ b → Within a ls → Within b ls
Within-weaken a b List.[] e h = tt
Within-weaken a b (List.◌∷◌ l ls) e (h, hs) = (omega (arith, h), Within-weaken a b ls e hs)

push_char-Within :
    (n : ℕ) (c : Char) (ls : List String)
    → Within n ls
    → Within (char_bytes (code c) + n) (push_char c ls)
unfolding push_char bytes
push_char-Within n c List.[] h = (omega arith, tt)
push_char-Within n c (List.◌∷◌ l ls) (h, hs) =
    (omega (arith, h), Within-weaken n (char_bytes (code c) + n) ls (omega arith) hs)

raw_lines-Within : (s : String) → Within (bytes s) (raw_lines s)
unfolding raw_lines bytes
raw_lines-Within [] = tt
raw_lines-Within (c ∷ s) = elim (Bool-cases (nat_eq (code c) 10)) [
  | inl newline ↦
      rw newline
        (omega arith, Within-weaken (bytes s) _ (raw_lines s) (omega arith) (raw_lines-Within s))
  | inr other ↦ rw other (push_char-Within (bytes s) c (raw_lines s) (raw_lines-Within s))
]

Within-below : (n max : ℕ) (ls : List String) → n < max → Within n ls → All (λ l. bytes l < max) ls
Within-below n max List.[] e h = tt
Within-below n max (List.◌∷◌ l ls) e (h, hs) = (omega (arith, h), Within-below n max ls e hs)

-- A text below the limit is scanned to its end.
pub scan-below :
    (max : ℕ) (src : Source)
    → bytes src.text < max
    → scan max src ≡ record { tokens = map drop_cr (raw_lines src.text); fault = src.fault }
unfolding scan
scan-below max src h =
    scan_lines-Fits max src.fault (raw_lines src.text)
      (Within-below (bytes src.text) max (raw_lines src.text) h (raw_lines-Within src.text))
