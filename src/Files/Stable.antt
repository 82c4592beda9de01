-- ===== src/Files/Stable.antt =====
-- `SanitizeRelPath` leaves a safe path alone, so its results can be checked again.
use hubabox.Base.{
  ℕ, Bool, false, List, [], ◌∷◌, ◌++◌, ◌≡◌, refl, sym, ap, ◌∙◌, ◌==◌, ltb, arith, All, All-append,
  ok, length, is_empty, ◌≤◌,
}
use hubabox.Text.{Text, codes, byte_len, text_eq, contains_rune, is_space, has_prefix}
use hubabox.Text.Trim.{
  IsTrimmed, StartsClean, EndsClean, trim_space_of_IsTrimmed, trim_left_of_StartsClean,
  trim_right_of_EndsClean,
}
use hubabox.Text.Split.{Lacks, split, join, Lacks-contains_rune}
use hubabox.FilePath.{slash, is_slash, is_abs}
use hubabox.FilePath.Clean.{IsPlain, split-join_plain}
use hubabox.Files.{
  max_rel_path_parts, max_rel_path_bytes, write_parts, check_rel_path, sanitize_rel_path,
}
use hubabox.Files.Joined.{IsSafeSeg, glue_start, write_parts_complete}
use hubabox.Files.Paths.{IsSafePath}

pub EndsClean-cons :
    (q : ℕ → Bool) (c : ℕ) (s : Text) → text_eq s [] ≡ false → EndsClean q s → EndsClean q (c ∷ s)
EndsClean-cons q c [] n h = unfold text_eq in cc
EndsClean-cons q c (d ∷ s) n h = h

pub EndsClean-append :
    (q : ℕ → Bool) (a : Text) (c : ℕ) (b : Text) → EndsClean q (c ∷ b) → EndsClean q (a ++ c ∷ b)
EndsClean-append q [] c b h = h
EndsClean-append q (x ∷ []) c b h = h
EndsClean-append q (x ∷ y ∷ a) c b h = EndsClean-append q (y ∷ a) c b h

pub join-not_empty :
    (p : Text) (ps : List Text) → text_eq p [] ≡ false → text_eq (join (p ∷ ps) slash) [] ≡ false
unfolding join text_eq
join-not_empty [] ps h = cc
join-not_empty (c ∷ p) [] h = refl
join-not_empty (c ∷ p) (r ∷ ps) h = refl

module _ (q : ℕ → Bool) where
  EndsClean-join :
      (p : Text) (ps : List Text)
      → All (λ s. EndsClean q s × (text_eq s [] ≡ false)) (p ∷ ps)
      → EndsClean q (join (p ∷ ps) slash)
  unfolding join
  EndsClean-join p [] h = h.0.0
  EndsClean-join p (r ∷ ps) h = EndsClean-append q p slash (join (r ∷ ps) slash) (
      EndsClean-cons q slash (join (r ∷ ps) slash) (join-not_empty r ps h.1.0.1)
        (EndsClean-join r ps h.1))

Lacks-join :
    (d : ℕ) (ps : List Text) → (slash == d) ≡ false → All (Lacks d) ps → Lacks d (join ps slash)
unfolding join
Lacks-join d [] n h = tt
Lacks-join d (p ∷ []) n h = h.0
Lacks-join d (p ∷ r ∷ ps) n h =
    All-append (λ c. (c == d) ≡ false) p (slash ∷ join (r ∷ ps) slash) h.0
      (n, Lacks-join d (r ∷ ps) n h.1)

module _ {A : Type 0} (P Q : A → Type 0) (f : (a : A) → P a → Q a) where
  All-map : (xs : List A) → All P xs → All Q xs
  All-map [] h = tt
  All-map (x ∷ xs) h = (f x h.0, All-map xs h.1)

pub Lacks-EndsClean-slash : (s : Text) → Lacks slash s → EndsClean is_slash s
Lacks-EndsClean-slash [] h = tt
Lacks-EndsClean-slash (c ∷ []) h = h.0
Lacks-EndsClean-slash (c ∷ d ∷ s) h = Lacks-EndsClean-slash (d ∷ s) h.1

StartsClean-join :
    (q : ℕ → Bool) (p : Text) (ps : List Text)
    → text_eq p [] ≡ false
    → StartsClean q p
    → StartsClean q (join (p ∷ ps) slash)
unfolding join
StartsClean-join q [] ps n h = unfold text_eq in cc
StartsClean-join q (c ∷ p) [] n h = h
StartsClean-join q (c ∷ p) (r ∷ ps) n h = h

pub Lacks-StartsClean-slash : (s : Text) → Lacks slash s → StartsClean is_slash s
Lacks-StartsClean-slash [] h = tt
Lacks-StartsClean-slash (c ∷ s) h = h.0

join-ne-dot :
    (p : Text) (ps : List Text)
    → text_eq p [] ≡ false
    → text_eq p (codes ".") ≡ false
    → text_eq (join (p ∷ ps) slash) (codes ".") ≡ false
unfolding join text_eq
join-ne-dot p [] n h = h
join-ne-dot [] (r ∷ ps) n h = cc
join-ne-dot (c ∷ []) (r ∷ ps) n h = ground arith
join-ne-dot (c ∷ d ∷ p) (r ∷ ps) n h = ground arith

no_slash_start :
    (s : Text) → StartsClean is_slash s → (is_abs s ≡ false) × (has_prefix s (slash ∷ []) ≡ false)
unfolding is_abs has_prefix
no_slash_start [] h = (refl, refl)
no_slash_start (c ∷ s) h = (h, rw h)

is_empty-text_eq : (s : Text) → text_eq s [] ≡ false → is_empty s ≡ false
unfolding text_eq
is_empty-text_eq [] h = cc
is_empty-text_eq (c ∷ s) h = refl

-- A safe path has no slash at either end.
pub IsSafePath-StartsClean : (out : Text) → IsSafePath out → StartsClean is_slash out
IsSafePath-StartsClean out h = rw (h.spelled) (
    StartsClean-join is_slash h.first h.others h.safe.0.plain.not_empty
      (Lacks-StartsClean-slash h.first h.safe.0.plain.no_slash))

pub IsSafePath-EndsClean : (out : Text) → IsSafePath out → EndsClean is_slash out
IsSafePath-EndsClean out h = rw (h.spelled) (
    EndsClean-join is_slash h.first h.others (
      All-map IsSafeSeg (λ s. EndsClean is_slash s × (text_eq s [] ≡ false))
        (λ s p. (Lacks-EndsClean-slash s p.plain.no_slash, p.plain.not_empty)) (h.first ∷ h.others)
        h.safe))

-- A safe path is accepted as it stands.
pub sanitize_rel_path_of_IsSafePath : (out : Text) → IsSafePath out → sanitize_rel_path out ≡ ok out
unfolding sanitize_rel_path check_rel_path
sanitize_rel_path_of_IsSafePath out h =
    let segs = h.first ∷ h.others in
    let e = h.spelled in
    let not_empty = h.safe.0.plain.not_empty in
    let plain : All IsPlain segs = All-map IsSafeSeg IsPlain (λ s p. p.plain) segs h.safe in
    let starts = IsSafePath-StartsClean out h in
    let ends = IsSafePath-EndsClean out h in
    let trimmed : IsTrimmed out = (
      rw e (StartsClean-join is_space h.first h.others not_empty h.safe.0.trimmed.0),
      rw e (
          EndsClean-join is_space h.first h.others (
            All-map IsSafeSeg (λ s. EndsClean is_space s × (text_eq s [] ≡ false))
              (λ s p. (p.trimmed.1, p.plain.not_empty)) segs h.safe)),
    ) in
    let no_nul : contains_rune out 0 ≡ false =
      Lacks-contains_rune out 0 (
        rw e
          (Lacks-join 0 segs refl (All-map IsSafeSeg (Lacks 0) (λ s p. p.no_nul) segs h.safe))) in
    let empty : text_eq out [] ≡ false = rw e (join-not_empty h.first h.others not_empty) in
    let not_dot : text_eq out (codes ".") ≡ false =
      rw e (join-ne-dot h.first h.others not_empty h.safe.0.plain.not_dot) in
    let parts : split out slash ≡ segs = rw e (split-join_plain h.first h.others plain) in
    let run : write_parts [] false segs ≡ ok out =
      write_parts_complete [] false segs h.safe ∙ ap ok (glue_start h.first h.others ∙ sym e) in
    let few : ltb max_rel_path_parts (length segs) ≡ false = in_bound _ _ h.few in
    let short : ltb max_rel_path_bytes (byte_len out) ≡ false = in_bound _ _ h.short in
    rw (
      trim_space_of_IsTrimmed out trimmed,
      trim_left_of_StartsClean is_slash out starts,
      trim_right_of_EndsClean is_slash out ends,
      is_empty-text_eq out empty,
      (no_slash_start out starts).1,
      (no_slash_start out starts).0,
      not_dot,
      h.no_drive,
      no_nul,
      parts,
      few,
      run,
      short,
    )
  where
    in_bound : (m n : ℕ) → n ≤ m → ltb m n ≡ false
    in_bound m n h = ground arith

pub safe-All-IsPlain : (segs : List Text) → All IsSafeSeg segs → All IsPlain segs
safe-All-IsPlain = All-map IsSafeSeg IsPlain (λ s p. p.plain)
