-- ===== src/LanShare/Samba/Found.antt =====
-- A share that Samba's configuration lists is found by the hub's test of the configuration.
use hubabox.Base.{
  ℕ, true, false, not, ◌&&◌, List, ok, [], ◌∷◌, ◌++◌, ◌≡◌, ◌≢◌, refl, ◌∙◌, ◌==◌, any, map, arith,
  All, Bool-cases, inl, inr,
}
use hubabox.Text.{
  Text, Unicode, codes, text_eq_refl, trim_space, trim_left, is_space, has_prefix,
  has_suffix-append, to_lower, equal_fold,
}
use hubabox.Text.Trim.{
  EndsClean, trim_space_of_IsTrimmed, trim_right_of_EndsClean, EndsClean-append, All-EndsClean,
  trim_right-append,
}
use hubabox.Text.Split.{join, cut, Lacks, split-join}
use hubabox.FilePath.{slash, clean}
use hubabox.Library.Hex.{LowersAscii}
use hubabox.LanShare.{is_share_name, is_share_unit}
use hubabox.LanShare.Scripts.{newline}
use hubabox.LanShare.Samba.{
  is_bracket, trim_brackets, is_section, names_path, scan_config, samba_share_points_at, probe_os,
}

-- What a unit of a share name is not.
abbrev IsNameUnit : ℕ → Type 0
IsNameUnit c = (is_bracket c ≡ false) × (is_space c ≡ false) × ((c == newline) ≡ false)

is_share_unit-IsNameUnit : (c : ℕ) → is_share_unit c ≡ true → IsNameUnit c
unfolding is_space
is_share_unit-IsNameUnit c h = (ground arith, ground arith, ground arith)

units-All : (s : Text) → any (λ d. not (is_share_unit d)) s ≡ false → All IsNameUnit s
units-All [] h = tt
units-All (c ∷ s) h = elim (Bool-cases (is_share_unit c)) [
  | inl y ↦ (is_share_unit-IsNameUnit c y, units-All s (rw y at h))
  | inr n ↦ ground arith
]

is_share_name-All : (s : Text) → is_share_name s ≡ true → All IsNameUnit s
unfolding is_share_name
is_share_name-All [] h = tt
is_share_name-All (c ∷ s) h =
    (is_share_unit-IsNameUnit c (ground arith), units-All s (ground arith))

brackets-All : (s : Text) → All IsNameUnit s → All (λ c. is_bracket c ≡ false) s
brackets-All [] h = tt
brackets-All (c ∷ s) h = (h.0.0, brackets-All s h.1)

name-Lacks : (s : Text) → All IsNameUnit s → Lacks newline s
name-Lacks [] h = tt
name-Lacks (c ∷ s) h = (h.0.2, name-Lacks s h.1)

-- The line of a section, without its brackets.
trim_brackets-section :
    (name : Text)
    → is_share_name name ≡ true
    → trim_brackets (codes "[" ++ name ++ codes "]") ≡ name
unfolding trim_left is_share_name
trim_brackets-section [] h = cc
trim_brackets-section (c ∷ s) h =
    let units = brackets-All (c ∷ s) (is_share_name-All (c ∷ s) h) in
    rw units.0 (
      trim_right-append is_bracket (c ∷ s) b']' refl
      ∙ trim_right_of_EndsClean is_bracket (c ∷ s) (All-EndsClean is_bracket (c ∷ s) units))

section-trimmed :
    (name : Text) → trim_space (codes "[" ++ name ++ codes "]") ≡ codes "[" ++ name ++ codes "]"
section-trimmed name = trim_space_of_IsTrimmed (codes "[" ++ name ++ codes "]") (
  unfold is_space in refl,
  EndsClean-append is_space (codes "[" ++ name) b']' (unfold is_space in refl),
)

is_section-section : (name : Text) → is_section (codes "[" ++ name ++ codes "]") ≡ true
unfolding has_prefix
is_section-section name = has_suffix-append (codes "[" ++ name) (codes "]")

path-trimmed :
    (blank r : Text)
    → All (λ c. is_space c ≡ true) blank
    → EndsClean is_space (slash ∷ r)
    → trim_space (blank ++ codes "path = " ++ slash ∷ r) ≡ codes "path = " ++ slash ∷ r
unfolding trim_space trim_left
path-trimmed [] r b h =
    unfold is_space in trim_right_of_EndsClean is_space (codes "path = " ++ slash ∷ r) h
path-trimmed (c ∷ blank) r (p, b) h = rw p (path-trimmed blank r b h)

append_cons-ne-nil : {A : Type 0} (xs : List A) (x : A) (ys : List A) → xs ++ x ∷ ys ≢ []
append_cons-ne-nil [] x ys h = cc
append_cons-ne-nil (y ∷ xs) x ys h = cc

module _ (u : Unicode) (lowers : LowersAscii u) (name : Text) where
  fold_self : (s : Text) → equal_fold u s s ≡ true
  unfolding equal_fold
  fold_self s = text_eq_refl (map u.fold s)

  names_path_lem :
      (r : Text)
      → EndsClean is_space (slash ∷ r)
      → clean (slash ∷ r) ≡ slash ∷ r
      → names_path u name (slash ∷ r) (codes "path = " ++ slash ∷ r) ≡ true
  unfolding to_lower has_prefix cut trim_space trim_left is_space
  names_path_lem r h c =
      rw
        (
          lowers b'p' (omega arith),
          lowers b'a' (omega arith),
          lowers b't' (omega arith),
          lowers b'h' (omega arith),
          trim_right_of_EndsClean is_space (slash ∷ r) h,
          c,
        )
        (text_eq_refl (slash ∷ r))

  -- A line that does not open the section of the share.
  abbrev pub IsElsewhere : Text → Type 0
  IsElsewhere line =
      (is_section (trim_space line) && equal_fold u (trim_brackets (trim_space line)) name) ≡ false

  scan_config-before :
      (want : Text) (before rest : List Text)
      → All IsElsewhere before
      → scan_config u name want false (before ++ rest) ≡ scan_config u name want false rest
  unfolding scan_config
  scan_config-before want [] rest h = refl
  scan_config-before want (line ∷ before) rest (p, h) =
      elim (Bool-cases (is_section (trim_space line))) [
        | inl s ↦
            let other : equal_fold u (trim_brackets (trim_space line)) name ≡ false = rw s at p in
            rw (s, other) (scan_config-before want before rest h)
        | inr s ↦ rw s (scan_config-before want before rest h)
      ]

  scan_config-inside :
      (want path_line : Text) (inside after : List Text)
      → All (λ line. is_section (trim_space line) ≡ false) inside
      → is_section (trim_space path_line) ≡ false
      → names_path u name want (trim_space path_line) ≡ true
      → scan_config u name want true (inside ++ path_line ∷ after) ≡ true
  unfolding scan_config
  scan_config-inside want path_line [] after h s n = rw (s, n) refl
  scan_config-inside want path_line (line ∷ inside) after (p, h) s n =
      elim (Bool-cases (names_path u name want (trim_space line))) [
        | inl y ↦ rw (p, y) refl
        | inr y ↦ rw (p, y) (scan_config-inside want path_line inside after h s n)
      ]

  scan_config-section :
      (want : Text) (rest : List Text)
      → is_share_name name ≡ true
      → scan_config u name want true rest ≡ true
      → scan_config u name want false ((codes "[" ++ name ++ codes "]") ∷ rest) ≡ true
  unfolding scan_config
  scan_config-section want rest h k =
      rw
        (
          section-trimmed name,
          is_section-section name,
          trim_brackets-section name h,
          fold_self name,
          k,
        )
        refl

  -- Lines of a configuration with the share: that of its section, and that of its path after white
  -- space.
  abbrev pub config_lines : List Text → List Text → List Text → Text → Text → List Text
  config_lines before inside after blank path =
      before
      ++ (codes "[" ++ name ++ codes "]") ∷ (inside ++ (blank ++ codes "path = " ++ path) ∷ after)

  -- The hub finds its share in the configuration that `testparm -s` prints, where its lines have no
  -- line break and are: any that do not open a section with the share's name, whatever the case of
  -- its letters, the line of the share's section, any that open no section, a line that names the
  -- path of the hub's files after white space, and any further ones. The share's name is one that the
  -- hub accepts, the path is absolute and clean and does not end in white space, and the lower case
  -- of an ASCII letter is the usual one.
  pub probe_os-section :
      (before inside after : List Text) (blank r : Text)
      → All (Lacks newline) (config_lines before inside after blank (slash ∷ r))
      → All IsElsewhere before
      → All (λ line. is_section (trim_space line) ≡ false) inside
      → All (λ c. is_space c ≡ true) blank
      → is_share_name name ≡ true
      → EndsClean is_space (slash ∷ r)
      → clean (slash ∷ r) ≡ slash ∷ r
      → (probe_os u name
          (ok (join (config_lines before inside after blank (slash ∷ r)) newline))
          (slash ∷ r)).0
        ≡ true
  unfolding probe_os samba_share_points_at
  probe_os-section before inside after blank r lacks b i w h e c =
      let path_line : Text = blank ++ codes "path = " ++ slash ∷ r in
      let section : Text = codes "[" ++ name ++ codes "]" in
      let trimmed = path-trimmed blank r w e in
      let named : names_path u name (slash ∷ r) (trim_space path_line) ≡ true =
        rw trimmed (names_path_lem r e c) in
      let plain : is_section (trim_space path_line) ≡ false =
        rw trimmed (unfold has_prefix in refl) in
      let points : samba_share_points_at u name
            (join (config_lines before inside after blank (slash ∷ r)) newline) (slash ∷ r)
          ≡ true =
        rw
          (
            split-join newline (config_lines before inside after blank (slash ∷ r))
                (append_cons-ne-nil before section (inside ++ path_line ∷ after)) lacks,
            c,
            scan_config-before (slash ∷ r) before (section ∷ (inside ++ path_line ∷ after)) b,
          )
          (scan_config-section (slash ∷ r) (inside ++ path_line ∷ after) h
            (scan_config-inside (slash ∷ r) path_line inside after i plain named)) in
      rw (c, points) refl
