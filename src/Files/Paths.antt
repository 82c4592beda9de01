-- ===== src/Files/Paths.antt =====
-- `SanitizeRelPath`: what it accepts, what it returns, and that it leaves its own results alone.
use hubabox.Base.{
  ℕ, ◌≤◌, Bool, false, List, [], ◌∷◌, ◌++◌, ◌≡◌, ◌≢◌, refl, ◌∙◌, ◌==◌, arith, All, ok, length, map,
  length-map,
}
use hubabox.Text.{Text, byte_len, text_eq, trim_space, contains_rune, is_space, has_prefix}
use hubabox.Text.Trim.{
  StartsClean, trim_space-IsTrimmed, trim_left_of_StartsClean, trim_space-prefix,
  trim_right-StartsClean,
}
use hubabox.Text.Split.{
  split, join, split-Lacks, split-All, split-ne-nil, join-split, contains_rune-Lacks,
}
use hubabox.FilePath.{slash, is_slash}
use hubabox.Files.{
  max_rel_path_parts, max_rel_path_bytes, has_drive, trim_slashes, write_parts, check_rel_path,
  sanitize_rel_path,
}
use hubabox.Files.Joined.{IsSafeSeg, glue, glue_start, write_parts_sound}

-- A relative path that stays below the folder that it is joined to: safe segments, joined by
-- slashes, within the bounds on their number and on the whole length.
pub record IsSafePath (out : Text) : Type 0 where
  pub first : Text
  pub others : List Text
  pub spelled : out ≡ join (first ∷ others) slash
  pub safe : All IsSafeSeg (first ∷ others)
  pub few : length (first ∷ others) ≤ max_rel_path_parts
  pub short : byte_len out ≤ max_rel_path_bytes
  pub no_drive : has_drive out ≡ false

pub check_rel_path_lem :
    (s t : Text) {out : Text}
    → check_rel_path s t ≡ ok out
    → (has_prefix s (slash ∷ []) ≡ false)
      × (has_drive t ≡ false)
      × (contains_rune t 0 ≡ false)
      × (length (split t slash) ≤ max_rel_path_parts)
      × (write_parts [] false (split t slash) ≡ ok out)
      × (byte_len out ≤ max_rel_path_bytes)
unfolding check_rel_path
check_rel_path_lem s t {out} e = ground arith

-- Trimming the parts of a text gives it no drive letter.
has_drive-trimmed :
    (seg r : Text) (segs parts : List Text)
    → text_eq seg [] ≡ false
    → has_drive (join ((seg ++ r) ∷ parts) slash) ≡ false
    → has_drive (join (seg ∷ segs) slash) ≡ false
unfolding join
has_drive-trimmed [] r segs parts n h = unfold text_eq in cc
has_drive-trimmed (c ∷ []) r [] parts n h = refl
has_drive-trimmed (c ∷ []) r (s ∷ segs) parts n h = ground arith
has_drive-trimmed (c ∷ d ∷ a) r [] [] n h = h
has_drive-trimmed (c ∷ d ∷ a) r [] (p ∷ parts) n h = h
has_drive-trimmed (c ∷ d ∷ a) r (s ∷ segs) [] n h = h
has_drive-trimmed (c ∷ d ∷ a) r (s ∷ segs) (p ∷ parts) n h = h

StartsClean-first :
    (q : ℕ → Bool) (p : Text) (ps : List Text)
    → StartsClean q (join (p ∷ ps) slash)
    → StartsClean q p
unfolding join
StartsClean-first q [] ps h = tt
StartsClean-first q (c ∷ p) [] h = h
StartsClean-first q (c ∷ p) (r ∷ ps) h = h

StartsClean-is_slash : (s : Text) → has_prefix s (slash ∷ []) ≡ false → StartsClean is_slash s
unfolding has_prefix
StartsClean-is_slash [] h = tt
StartsClean-is_slash (c ∷ s) h = ground arith

-- The parts that the loop walks over come out trimmed, the first of them a prefix of the text's.
IsSafePath-of_parts :
    (t out : Text) (parts : List Text)
    → parts ≢ []
    → join parts slash ≡ t
    → StartsClean is_space t
    → has_drive t ≡ false
    → length parts ≤ max_rel_path_parts
    → byte_len out ≤ max_rel_path_bytes
    → out ≡ glue [] false (map trim_space parts)
    → All IsSafeSeg (map trim_space parts)
    → IsSafePath out
IsSafePath-of_parts t out [] n j c d k b o safe = absurd (n refl)
IsSafePath-of_parts t out (p ∷ ps) n j c d k b o safe =
    let starts : StartsClean is_space p = StartsClean-first is_space p ps (rw j c) in
    let (r, pre) = trim_space-prefix p starts in
    let spelled : out ≡ join (trim_space p ∷ map trim_space ps) slash =
      o ∙ glue_start (trim_space p) (map trim_space ps) in
    record {
      first = trim_space p;
      others = map trim_space ps;
      spelled = spelled;
      safe = safe;
      few = omega (arith, length-map trim_space ps);
      short = b;
      no_drive = rw spelled (
          has_drive-trimmed (trim_space p) r (map trim_space ps) ps safe.0.plain.not_empty
            (rw (← pre) (rw j d)));
    }

-- Whatever the text, a path that `SanitizeRelPath` accepts is safe: plain segments joined by single
-- slashes, without a drive letter, within the bounds on the length of a segment, on their number
-- and on the whole length.
pub sanitize_rel_path-IsSafePath :
    (raw : Text) {out : Text} → sanitize_rel_path raw ≡ ok out → IsSafePath out
unfolding sanitize_rel_path
sanitize_rel_path-IsSafePath raw {out} e =
    let s = trim_space raw in
    let t = trim_slashes s in
    let (prefix, drive, nul, few, run, short) = check_rel_path_lem s t e in
    let parts = split t slash in
    let (same, safe) =
      write_parts_sound [] false parts (split-Lacks slash t)
        (split-All slash (λ c. (c == 0) ≡ false) t (contains_rune-Lacks t 0 nul)) run in
    let starts : StartsClean is_space t =
      rw (trim_left_of_StartsClean is_slash s (StartsClean-is_slash s prefix))
        (trim_right-StartsClean is_slash is_space s (trim_space-IsTrimmed raw).0) in
    IsSafePath-of_parts t out parts (split-ne-nil slash t) (join-split slash t) starts drive few
      short same safe
