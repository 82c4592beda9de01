-- ===== src/Files/Exact.antt =====
-- `JoinUnderHub` below an absolute folder refuses exactly what `SanitizeRelPath` refuses, and else
-- returns the folder's own path followed by the segments.
use mathlib.Core.List.{reverse, reverse-append, reverse-reverse}
use hubabox.Base.{
  true, false, List, [], ◌∷◌, ◌++◌, ◌≡◌, refl, ap, ◌∙◌, arith, All, All-append, Bool-cases, inl,
  inr, Result, ok, invalid_name, ◌>>=◌, ◌>>◌, refuse_if,
}
use hubabox.Text.{Text, text_eq, text_eq_refl, has_prefix}
use hubabox.Text.Split.{split, join, split-append_all}
use hubabox.FilePath.{
  slash, is_abs, clean_from, clean_elems, render, clean, join_path, abs, rel, rel_elems,
}
use hubabox.FilePath.Clean.{
  IsPlain, clean_elems-IsPlain, clean-render, clean_from-append, clean_from_of_IsPlain,
  split-join_plain,
}
use hubabox.FilePath.Rel.{climbs, rel-render, is_abs-render}
use hubabox.Files.{as_invalid_name, sanitize_rel_path, join_resolved_under_hub, join_under_hub}
use hubabox.Files.Paths.{sanitize_rel_path-IsSafePath}
use hubabox.Files.Stable.{safe-All-IsPlain, join-not_empty}

climbs-join_plain : (e : Text) (es : List Text) → IsPlain e → climbs (join (e ∷ es) slash) ≡ false
unfolding climbs join text_eq has_prefix
climbs-join_plain [] es p = let h = p.not_empty in cc
climbs-join_plain (a ∷ []) [] p = ground arith
climbs-join_plain (a ∷ []) (f ∷ es) p = ground arith
climbs-join_plain (a ∷ b ∷ []) [] p = let h = p.not_dots in ground arith
climbs-join_plain (a ∷ b ∷ []) (f ∷ es) p = let h = p.not_dots in ground arith
climbs-join_plain (a ∷ b ∷ c ∷ s) [] p = let h = p.no_slash in ground arith
climbs-join_plain (a ∷ b ∷ c ∷ s) (f ∷ es) p = let h = p.no_slash in ground arith

rel_elems-append : (bs ts : List Text) → rel_elems bs (bs ++ ts) ≡ ok (join ts slash)
unfolding rel_elems
rel_elems-append [] ts = refl
rel_elems-append (b ∷ bs) ts = rw (text_eq_refl b, rel_elems-append bs ts)

clean_elems-append :
    (r out : Text) (segs : List Text)
    → split out slash ≡ segs
    → All IsPlain segs
    → clean_elems true (r ++ slash ∷ out) ≡ clean_elems true r ++ segs
unfolding clean_elems
clean_elems-append r out segs e h =
    let st = clean_from true [] (split r slash) in
    rw (
      split-append_all slash r out,
      e,
      clean_from-append true [] (split r slash) segs,
      clean_from_of_IsPlain true st segs h,
      reverse-append (reverse segs) st,
      reverse-reverse segs,
    )

-- The check after the join lets every safe relative path through.
passes :
    (bs : List Text) (e : Text) (es : List Text)
    → All IsPlain bs
    → All IsPlain (e ∷ es)
    → (do
      r ← as_invalid_name (rel (render bs) (render (bs ++ e ∷ es)))
      refuse_if (climbs r) invalid_name
      ok (render (bs ++ e ∷ es)))
      ≡ ok (render (bs ++ e ∷ es))
passes bs e es h k =
    rw (rel-render bs (bs ++ e ∷ es) h (All-append IsPlain bs (e ∷ es) h k))
      (elim (Bool-cases (text_eq (render (bs ++ e ∷ es)) (render bs))) [
        | inl q ↦ rw q (unfold climbs in refl)
        | inr q ↦ rw (q, rel_elems-append bs (e ∷ es), climbs-join_plain e es k.0)
      ])

abs_rooted : (cwd : Result Text) (r : Text) → abs cwd (slash ∷ r) ≡ ok (render (clean_elems true r))
unfolding abs is_abs clean
abs_rooted cwd r = refl

abs-render :
    (cwd : Result Text) (es : List Text) → All IsPlain es → abs cwd (render es) ≡ ok (render es)
unfolding abs
abs-render cwd es h = rw (is_abs-render es, clean-render es h)

join_path_rooted :
    (r out : Text) (segs : List Text)
    → text_eq out [] ≡ false
    → split out slash ≡ segs
    → All IsPlain segs
    → join_path (slash ∷ r) out ≡ render (clean_elems true r ++ segs)
unfolding join_path clean
join_path_rooted r [] segs n e h = unfold text_eq in cc
join_path_rooted r (c ∷ out) segs n e h = ap render (clean_elems-append r (c ∷ out) segs e h)

-- Below an absolute folder, `JoinUnderHub` succeeds on every name that `SanitizeRelPath` accepts.
-- The result is the folder's cleaned path, followed by the segments of the sanitised name.
pub join_under_hub-exact :
    (cwd : Result Text) (r name : Text) {out : Text}
    → sanitize_rel_path name ≡ ok out
    → join_under_hub cwd (slash ∷ r) name ≡ ok (render (clean_elems true r ++ split out slash))
unfolding join_under_hub join_resolved_under_hub
join_under_hub-exact cwd r name {out} e =
    let s = sanitize_rel_path-IsSafePath name e in
    let plain = safe-All-IsPlain (s.first ∷ s.others) s.safe in
    let parts : split out slash ≡ s.first ∷ s.others =
      ap (λ x. split x slash) s.spelled ∙ split-join_plain s.first s.others plain in
    let root = clean_elems true r in
    let full =
      join_path_rooted r out (s.first ∷ s.others)
        (rw (s.spelled) (join-not_empty s.first s.others s.safe.0.plain.not_empty)) parts plain in
    rw
      (
        e,
        abs_rooted cwd r,
        full,
        parts,
        abs-render cwd (root ++ s.first ∷ s.others)
            (All-append IsPlain root (s.first ∷ s.others) (clean_elems-IsPlain r) plain),
      )
      (passes root s.first s.others (clean_elems-IsPlain r) plain)
