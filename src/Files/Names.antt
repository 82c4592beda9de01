-- ===== src/Files/Names.antt =====
-- What `SanitizeName` lets through.
use hubabox.Base.{false, [], ◌∷◌, ◌≡◌, refl, arith, ok}
use hubabox.Text.{Text, codes, text_eq, contains_rune, trim_space}
use hubabox.Text.Trim.{IsTrimmed, EndsClean, trim_space_of_IsTrimmed, trim_right_of_EndsClean}
use hubabox.Text.Split.{Lacks, contains_rune-Lacks, Lacks-contains_rune}
use hubabox.FilePath.{slash, is_slash, base, last_elem}
use hubabox.FilePath.Clean.{IsPlain}
use hubabox.Files.{backslash, sanitize_name, check_name}

pub check_name_lem :
    (b : Text) {out : Text}
    → check_name b ≡ ok out
    → (b ≡ out)
      × (text_eq b [] ≡ false)
      × (text_eq b (codes ".") ≡ false)
      × (text_eq b (codes "..") ≡ false)
      × (contains_rune b slash ≡ false)
      × (contains_rune b backslash ≡ false)
unfolding check_name
check_name_lem b e = ground arith

-- An accepted name is plain, and holds no backslash either.
pub sanitize_name-IsPlain :
    (name : Text) {out : Text} → sanitize_name name ≡ ok out → IsPlain out × Lacks backslash out
unfolding sanitize_name
sanitize_name-IsPlain name {out} e =
    let b = base (trim_space name) in
    let (same, p₀, p₁, p₂, q₁, q₂) = check_name_lem b e in
    rw (← same) (
      record {
        not_empty = p₀;
        not_dot = p₁;
        not_dots = p₂;
        no_slash = contains_rune-Lacks b slash q₁;
      },
      contains_rune-Lacks b backslash q₂,
    )

last_elem_of_Lacks : (s : Text) → Lacks slash s → last_elem s ≡ s
unfolding last_elem
last_elem_of_Lacks [] h = refl
last_elem_of_Lacks (c ∷ s) h = rw (Lacks-contains_rune s slash h.1, h.0)

Lacks-EndsClean : (s : Text) → Lacks slash s → EndsClean is_slash s
Lacks-EndsClean [] h = tt
Lacks-EndsClean (c ∷ []) h = h.0
Lacks-EndsClean (c ∷ d ∷ s) h = Lacks-EndsClean (d ∷ s) h.1

-- A name without a separator is its own base name.
pub base_of_Lacks : (s : Text) → text_eq s [] ≡ false → Lacks slash s → base s ≡ s
unfolding base
base_of_Lacks [] n h = unfold text_eq in cc
base_of_Lacks (c ∷ s) n h =
    rw (trim_right_of_EndsClean is_slash (c ∷ s) (Lacks-EndsClean (c ∷ s) h))
      (last_elem_of_Lacks (c ∷ s) h)

-- A plain, trimmed name with no backslash is accepted as it stands.
pub sanitize_name_of_IsPlain :
    (name : Text)
    → IsPlain name
    → IsTrimmed name
    → Lacks backslash name
    → sanitize_name name ≡ ok name
unfolding sanitize_name check_name
sanitize_name_of_IsPlain name p t b = rw (
  trim_space_of_IsTrimmed name t,
  base_of_Lacks name p.not_empty p.no_slash,
  p.not_empty,
  p.not_dot,
  p.not_dots,
  Lacks-contains_rune name slash p.no_slash,
  Lacks-contains_rune name backslash b,
)
