-- ===== src/FilePath.antt =====
-- The functions of `path/filepath` that the code calls, on a Unix system: the separator is "/", a
-- path is absolute if it begins with it, and `ToSlash` and `FromSlash` change nothing.
pub mod Clean
pub mod Rel
use mathlib.Core.List.{reverse}
use hubabox.Base.{
  ℕ, Bool, true, false, ◌&&◌, ◌||◌, not, List, [], ◌∷◌, ◌++◌, ◌≡◌, refl, ◌==◌, if◌then◌else◌,
  Result, ok, err, bad_path, ◌>>=◌, is_empty,
}
use hubabox.Text.{Text, codes, text_eq, trim_right, contains_rune}
use hubabox.Text.Split.{split, join}

abbrev pub slash : ℕ
slash = b'/'

abbrev pub is_slash : ℕ → Bool
is_slash c = c == slash

-- `filepath.IsAbs`
unfoldable pub is_abs : Text → Bool
is_abs [] = false
is_abs (c ∷ s) = c == slash

-- What stands behind the last separator.
unfoldable pub last_elem : Text → Text
last_elem [] = []
last_elem (c ∷ s) =
    let rest = last_elem s in
    if contains_rune s slash then rest else if c == slash then s else c ∷ s

abbrev pub or_slash : Text → Text
or_slash [] = slash ∷ []
or_slash (c ∷ s) = last_elem (c ∷ s)

-- `filepath.Base`
unfoldable pub base : Text → Text
unfolding last_elem trim_right contains_rune
base [] = b'.' ∷ []
base (c ∷ s) = or_slash (trim_right is_slash (c ∷ s))

abbrev pub ext_from : ℕ → Text → Text → Text
ext_from c s [] = if c == b'.' && not (contains_rune s slash) then c ∷ s else []
ext_from c s (d ∷ r) = d ∷ r

-- `filepath.Ext`
unfoldable pub ext : Text → Text
unfolding contains_rune
ext [] = []
ext (c ∷ s) = ext_from c s (ext s)

-- One element of `filepath.Clean`; the stack has its top at the head.
abbrev drop_top : Bool → List Text → List Text
drop_top rooted [] = if rooted then [] else codes ".." ∷ []
drop_top rooted (t ∷ stack) = if text_eq t (codes "..") then codes ".." ∷ t ∷ stack else stack

unfoldable pub clean_step : Bool → List Text → Text → List Text
unfolding text_eq
clean_step rooted stack part =
    if text_eq part [] || text_eq part (codes ".")
    then stack
    else if text_eq part (codes "..")
    then drop_top rooted stack
    else part ∷ stack

unfoldable pub clean_from : Bool → List Text → List Text → List Text
unfolding clean_step
clean_from rooted stack [] = stack
clean_from rooted stack (part ∷ parts) = clean_from rooted (clean_step rooted stack part) parts

unfoldable pub clean_elems : Bool → Text → List Text
unfolding clean_from split
clean_elems rooted s = reverse (clean_from rooted [] (split s slash))

-- The absolute path with the given elements.
unfoldable pub render : List Text → Text
unfolding join
render es = slash ∷ join es slash

abbrev or_dot : Text → Text
or_dot [] = b'.' ∷ []
or_dot (c ∷ s) = c ∷ s

-- `filepath.Clean`
unfoldable pub clean : Text → Text
unfolding clean_elems render join
clean [] = b'.' ∷ []
clean (c ∷ s) =
    if c == slash
    then render (clean_elems true s)
    else or_dot (join (clean_elems false (c ∷ s)) slash)

-- `filepath.Join` of two names.
unfoldable pub join_path : Text → Text → Text
unfolding clean
join_path [] [] = []
join_path [] (d ∷ t) = clean (d ∷ t)
join_path (c ∷ s) [] = clean (c ∷ s)
join_path (c ∷ s) (d ∷ t) = clean ((c ∷ s) ++ slash ∷ d ∷ t)

-- `filepath.Abs`; the working directory is what `os.Getwd` returns.
unfoldable pub abs : Result Text → Text → Result Text
unfolding is_abs clean join_path
abs cwd path = if is_abs path then ok (clean path) else do dir ← cwd; ok (join_path dir path)

-- The elements of a cleaned path.
unfoldable pub elems : Text → List Text
unfolding split
elems [] = []
elems (c ∷ []) = if c == slash then [] else (c ∷ []) ∷ []
elems (c ∷ d ∷ s) = if c == slash then split (d ∷ s) slash else split (c ∷ d ∷ s) slash

abbrev ups : List Text → List Text → List Text
ups [] ts = ts
ups (b ∷ bs) ts = codes ".." ∷ ups bs ts

-- The loop of `filepath.Rel`, which walks over the elements that both paths begin with.
unfoldable pub rel_elems : List Text → List Text → Result Text
unfolding text_eq join
rel_elems [] ts = ok (join ts slash)
rel_elems (b ∷ bs) [] = ok (join (ups (b ∷ bs) []) slash)
rel_elems (b ∷ bs) (t ∷ ts) =
    let rest = rel_elems bs ts in
    if text_eq b t
    then rest
    else if text_eq b (codes "..")
    then err bad_path
    else ok (join (ups (b ∷ bs) (t ∷ ts)) slash)

abbrev no_dot : Text → Text
no_dot s = if text_eq s (codes ".") then [] else s

abbrev same : Bool → Bool → Bool
same true b = b
same false b = not b

-- `filepath.Rel`
unfoldable pub rel : Text → Text → Result Text
rel base_path targ_path =
    let base = clean base_path in
    let targ = clean targ_path in
    if text_eq targ base
    then ok (codes ".")
    else if not (same (is_abs (no_dot base)) (is_abs targ))
    then err bad_path
    else rel_elems (elems (no_dot base)) (elems targ)

abbrev or_path : Text → Result Text → Text
or_path path (ok full) = full
or_path path (err e) = path

-- Where a path leads: a relative one is that in the working directory, where this is known.
abbrev pub resolved_path : Result Text → Text → Text
resolved_path cwd path = or_path path (abs cwd path)
