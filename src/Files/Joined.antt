-- ===== src/Files/Joined.antt =====
-- Texts that are parts joined by slashes, and the loop that writes them.
use hubabox.Base.{
  ℕ, ◌≤◌, Bool, true, false, List, [], ◌∷◌, ◌++◌, append_assoc, ◌≡◌, refl, sym, ◌∙◌, ◌==◌, ltb,
  if◌then◌else◌, arith, All, Bool-cases, inl, inr, ok, invalid_name, >>-eq-ok, Result-cases,
  err-ne-ok, ◌>>◌, refuse_if, map,
}
use hubabox.Text.{Text, byte_len, text_eq, trim_space}
use hubabox.Text.Trim.{IsTrimmed, trim_space-IsTrimmed, trim_space-All}
use hubabox.Text.Split.{Lacks, join, join-append}
use hubabox.FilePath.{slash, base}
use hubabox.FilePath.Clean.{IsPlain}
use hubabox.Files.{backslash, max_path_seg_length, check_name, sanitize_name, write_parts}
use hubabox.Files.Names.{
  sanitize_name-IsPlain, sanitize_name_of_IsPlain, check_name_lem, base_of_Lacks,
}

-- A path segment that the hub stores: plain, trimmed, short, with no backslash and no NUL.
pub record IsSafeSeg (seg : Text) : Type 0 where
  pub plain : IsPlain seg
  pub no_backslash : Lacks backslash seg
  pub trimmed : IsTrimmed seg
  pub short : byte_len seg ≤ max_path_seg_length
  pub no_nul : Lacks 0 seg

-- What the builder holds after the segments.
abbrev pub glue : Text → Bool → List Text → Text
glue out later [] = out
glue out later (seg ∷ segs) = glue ((if later then out ++ slash ∷ [] else out) ++ seg) true segs

join-append_left :
    (a b : Text) (segs : List Text) → join ((a ++ b) ∷ segs) slash ≡ a ++ join (b ∷ segs) slash
unfolding join
join-append_left a b [] = refl
join-append_left a b (s ∷ segs) = append_assoc a b (slash ∷ join (s ∷ segs) slash)

glue-join : (out : Text) (segs : List Text) → glue out true segs ≡ join (out ∷ segs) slash
glue-join out [] = unfold join in refl
glue-join out (seg ∷ segs) =
    glue-join ((out ++ slash ∷ []) ++ seg) segs
    ∙ join-append_left (out ++ slash ∷ []) seg segs
    ∙ append_assoc out (slash ∷ []) (join (seg ∷ segs) slash)
    ∙ sym (join-append slash out (seg ∷ segs) (λ e. cc))

pub glue_start :
    (seg : Text) (segs : List Text) → glue [] false (seg ∷ segs) ≡ join (seg ∷ segs) slash
glue_start seg segs = glue-join seg segs

pub sanitize_name_of_part :
    (p : Text) {seg : Text} → Lacks slash p → sanitize_name p ≡ ok seg → trim_space p ≡ seg
unfolding sanitize_name
sanitize_name_of_part p {seg} h e = elim (Bool-cases (text_eq (trim_space p) [])) [
  | inl q ↦ absurd (no_empty (trim_space p) q e)
  | inr q ↦
      sym (base_of_Lacks (trim_space p) q (trim_space-All (λ c. (c == slash) ≡ false) p h))
      ∙ (check_name_lem (base (trim_space p)) e).0
]
  where
    no_empty : (t : Text) {seg : Text} → text_eq t [] ≡ true → ¬ (check_name (base t) ≡ ok seg)
    no_empty [] q e = unfold base check_name text_eq in cc
    no_empty (c ∷ t) q e = unfold text_eq in cc

pub sanitize_name-IsSafeSeg :
    (p : Text) {seg : Text}
    → Lacks slash p
    → Lacks 0 p
    → sanitize_name p ≡ ok seg
    → ltb max_path_seg_length (byte_len seg) ≡ false
    → IsSafeSeg seg
sanitize_name-IsSafeSeg p {seg} h n e l =
    let (plain, no_backslash) = sanitize_name-IsPlain p e in
    let same = sanitize_name_of_part p h e in
    record {
      plain = plain;
      no_backslash = no_backslash;
      trimmed = rw (← same) (trim_space-IsTrimmed p);
      short = ground arith;
      no_nul = rw (← same) (trim_space-All (λ c. (c == 0) ≡ false) p n);
    }

-- What a successful run of the loop has written.
pub write_parts_sound :
    (out : Text) (later : Bool) (parts : List Text) {r : Text}
    → All (Lacks slash) parts
    → All (Lacks 0) parts
    → write_parts out later parts ≡ ok r
    → (r ≡ glue out later (map trim_space parts)) × All IsSafeSeg (map trim_space parts)
unfolding write_parts
write_parts_sound out later [] h n e = (ground arith, tt)
write_parts_sound out later (p ∷ parts) {r} h n e = elim (Result-cases (sanitize_name p)) [
  | inr (x, q) ↦ absurd (err-ne-ok x r (rw q at e))
  | inl (seg, q) ↦
      let e' : (refuse_if (ltb max_path_seg_length (byte_len seg)) invalid_name
            >> write_parts ((if later then out ++ slash ∷ [] else out) ++ seg) true parts)
          ≡ ok r =
        rw q at e in
      let (short, e₂) = >>-eq-ok _ invalid_name _ e' in
      let (same, safe) = write_parts_sound _ true parts h.1 n.1 e₂ in
      rw (sanitize_name_of_part p h.0 q) (same, (sanitize_name-IsSafeSeg p h.0 n.0 q short, safe))
]

short_test : (n : ℕ) → n ≤ max_path_seg_length → ltb max_path_seg_length n ≡ false
short_test n h = ground arith

-- The loop writes safe segments as they stand.
pub write_parts_complete :
    (out : Text) (later : Bool) (segs : List Text)
    → All IsSafeSeg segs
    → write_parts out later segs ≡ ok (glue out later segs)
unfolding write_parts
write_parts_complete out later [] h = refl
write_parts_complete out later (s ∷ segs) h =
    let short : ltb max_path_seg_length (byte_len s) ≡ false = short_test (byte_len s) h.0.short in
    rw (sanitize_name_of_IsPlain s h.0.plain h.0.trimmed h.0.no_backslash, short)
      (write_parts_complete ((if later then out ++ slash ∷ [] else out) ++ s) true segs h.1)
