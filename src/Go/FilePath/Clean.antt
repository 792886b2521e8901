-- ===== src/Go/FilePath/Clean.antt =====
-- What `filepath.Clean` leaves of an absolute path.
use mathlib.Core.List.{reverse_aux}
use text.Mathlib.TextLemmas.{cons-append}
use go_acp_server.Base.{
  Char, code, String, true, false, List, [], ◌∷◌, All, ◌≡◌, ◌≢◌, refl, ap, arith, eq_iff, ◌==◌,
  nat_eq, Bool-cases, inl, inr,
}
use go_acp_server.Go.FilePath.{
  is_abs, cons_part, split_slash, go_up, clean_part, clean_parts, clean_text, clean, join_path,
}
use go_acp_server.Go.Text.{◌^^◌, join}

abbrev pub NoSlash : String → Type 0
NoSlash String.[] = Unit
NoSlash (String.◌∷◌ c s) = (nat_eq (code c) b'/' ≡ false) × NoSlash s

-- The name of a file or a directory: not empty, no `.` and no `..`, without a slash.
abbrev pub IsName : String → Type 0
IsName part = (part ≢ "") × (part ≢ ".") × (part ≢ "..") × NoSlash part

cons_part-NoSlash :
    (c : Char) (ps : List String)
    → nat_eq (code c) b'/' ≡ false
    → All NoSlash ps
    → All NoSlash (cons_part c ps)
unfolding cons_part
cons_part-NoSlash c [] e h = ((e, tt), tt)
cons_part-NoSlash c (p ∷ ps) e (h, hs) = ((e, h), hs)

pub split_slash-NoSlash : (s : String) → All NoSlash (split_slash s)
unfolding split_slash
split_slash-NoSlash String.[] = (tt, tt)
split_slash-NoSlash (String.◌∷◌ c s) = elim (Bool-cases (nat_eq (code c) b'/')) [
  | inl slash ↦ rw slash (tt, split_slash-NoSlash s)
  | inr other ↦ rw other (cons_part-NoSlash c (split_slash s) other (split_slash-NoSlash s))
]

clean_part-IsName :
    (stack : List String) (part : String)
    → All IsName stack
    → NoSlash part
    → All IsName (clean_part true stack part)
unfolding clean_part go_up
clean_part-IsName [] part h k = ground (arith, eq_iff part "", eq_iff part ".", eq_iff part "..")
clean_part-IsName (top ∷ rest) part h k =
    ground (arith, eq_iff part "", eq_iff part ".", eq_iff part "..", eq_iff top "..")

All-reverse_aux :
    (xs ys : List String) → All IsName xs → All IsName ys → All IsName (reverse_aux xs ys)
All-reverse_aux [] ys h k = k
All-reverse_aux (x ∷ xs) ys (p, h) k = All-reverse_aux xs (x ∷ ys) h (p, k)

pub clean_parts-IsName :
    (stack parts : List String)
    → All IsName stack
    → All NoSlash parts
    → All IsName (clean_parts true stack parts)
unfolding clean_parts
clean_parts-IsName stack [] h k = All-reverse_aux stack [] h tt
clean_parts-IsName stack (p ∷ ps) h (k, ks) =
    clean_parts-IsName (clean_part true stack p) ps (clean_part-IsName stack p h k) ks

-- The text of an absolute path with these names.
abbrev pub IsCleanPath : String → Type 0
IsCleanPath path = (names : List String) × (path ≡ "/" ^^ join "/" names) × All IsName names

pub clean-IsCleanPath : (path : String) → is_abs path ≡ true → IsCleanPath (clean path)
unfolding clean clean_text
clean-IsCleanPath path h = (
  clean_parts true [] (split_slash path),
  rw h refl,
  clean_parts-IsName [] (split_slash path) tt (split_slash-NoSlash path),
)

is_abs-slash : (s : String) → is_abs ("/" ^^ s) ≡ true
unfolding is_abs
is_abs-slash s = rw cons-append refl

is_abs-append : (a b : String) → is_abs a ≡ true → is_abs (a ^^ b) ≡ true
unfolding is_abs
is_abs-append String.[] b h = cc
is_abs-append (String.◌∷◌ c s) b h = rw cons-append h

is_abs-clean : (path : String) → is_abs path ≡ true → is_abs (clean path) ≡ true
unfolding clean clean_text
is_abs-clean path h = rw h (is_abs-slash (join "/" (clean_parts true [] (split_slash path))))

is_abs-ne : (a : String) → is_abs a ≡ true → (a == "") ≡ false
unfolding is_abs
is_abs-ne a h = elim (Bool-cases (a == "")) [
  | inl e ↦ cc (ap is_abs ((eq_iff a "").0 e))
  | inr e ↦ e
]

pub is_abs-join_path :
    (a b : String) → is_abs a ≡ true → (b == "") ≡ false → is_abs (join_path a b) ≡ true
unfolding join_path
is_abs-join_path a b h k =
    rw (is_abs-ne a h, k) (is_abs-clean (a ^^ "/" ^^ b) (is_abs-append a ("/" ^^ b) h))
