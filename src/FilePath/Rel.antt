-- ===== src/FilePath/Rel.antt =====
-- A relative path that does not climb leads into the directory that it starts from.
use hubabox.Base.{
  Bool, true, false, ◌||◌, List, [], ◌∷◌, ◌++◌, ◌≡◌, refl, sym, ap, ◌∙◌, if◌then◌else◌, All,
  Bool-cases, inl, inr, ok, append-nil,
}
use hubabox.Text.{Text, codes, text_eq, text_eq_sound, has_prefix}
use hubabox.Text.Split.{join}
use hubabox.FilePath.{slash, is_abs, render, elems, rel_elems, ups, rel, no_dot}
use hubabox.FilePath.Clean.{IsPlain, clean-render, split-join_plain}

-- The path is ".." or begins with "../".
unfoldable pub climbs : Text → Bool
unfolding text_eq has_prefix
climbs r = text_eq r (codes "..") || has_prefix r (codes "../")

climbs-join : (xs : List Text) → climbs (join (codes ".." ∷ xs) slash) ≡ true
unfolding climbs join
climbs-join [] = refl
climbs-join (x ∷ xs) = refl

-- The second list begins with the first.
abbrev pub IsUnder : List Text → List Text → Type 0
IsUnder bs ts = (rest : List Text) × (ts ≡ bs ++ rest)

IsUnder-cons : (b : Text) (bs ts : List Text) → IsUnder bs ts → IsUnder (b ∷ bs) (b ∷ ts)
IsUnder-cons b bs ts (rest, e) = (rest, ap (λ l. b ∷ l) e)

rel_elems-inside :
    (bs ts : List Text) (r : Text)
    → All IsPlain bs
    → rel_elems bs ts ≡ ok r
    → climbs r ≡ false
    → IsUnder bs ts
unfolding rel_elems
rel_elems-inside [] ts r h e k = (ts, refl)
rel_elems-inside (b ∷ bs) [] r h e k = cc (climbs-join (ups bs []))
rel_elems-inside (b ∷ bs) (t ∷ ts) r h e k = elim (Bool-cases (text_eq b t)) [
  | inl q ↦
      rw (← text_eq_sound b t q) (IsUnder-cons b bs ts (rel_elems-inside bs ts r h.1 (rw q at e) k))
  | inr q ↦
      let e' : ok (join (ups (b ∷ bs) (t ∷ ts)) slash) ≡ ok r = rw (q, h.0.not_dots) at e in
      cc (climbs-join (ups bs (t ∷ ts)))
]

pub elems-render : (es : List Text) → All IsPlain es → elems (render es) ≡ es
unfolding elems render
elems-render [] h = unfold join in refl
elems-render ([] ∷ es) h = unfold text_eq in cc (h.0.not_empty)
elems-render ((c ∷ s) ∷ []) h = split-join_plain (c ∷ s) [] h
elems-render ((c ∷ s) ∷ f ∷ es) h = split-join_plain (c ∷ s) (f ∷ es) h

pub is_abs-render : (es : List Text) → is_abs (render es) ≡ true
unfolding is_abs render
is_abs-render es = refl

no_dot-render : (es : List Text) → no_dot (render es) ≡ render es
unfolding text_eq render
no_dot-render es = refl

pub rel-render :
    (bs ts : List Text)
    → All IsPlain bs
    → All IsPlain ts
    → rel (render bs) (render ts)
      ≡ (if text_eq (render ts) (render bs) then ok (codes ".") else rel_elems bs ts)
unfolding rel
rel-render bs ts h k = rw (
  clean-render bs h,
  clean-render ts k,
  no_dot-render bs,
  is_abs-render bs,
  is_abs-render ts,
  elems-render bs h,
  elems-render ts k,
)

-- A relative path between plain paths that does not climb stays inside.
pub rel-inside :
    (bs ts : List Text) (r : Text)
    → All IsPlain bs
    → All IsPlain ts
    → rel (render bs) (render ts) ≡ ok r
    → climbs r ≡ false
    → IsUnder bs ts
rel-inside bs ts r h k e n = elim (Bool-cases (text_eq (render ts) (render bs))) [
  | inl q ↦ (
    [],
    (sym (elems-render ts k) ∙ ap elems (text_eq_sound _ _ q) ∙ elems-render bs h)
        ∙ sym (append-nil bs),
  )
  | inr q ↦ rel_elems-inside bs ts r h (rw q at (sym (rel-render bs ts h k) ∙ e)) n
]
