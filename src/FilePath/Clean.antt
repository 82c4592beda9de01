-- ===== src/FilePath/Clean.antt =====
-- Cleaning an absolute path gives plain elements, and cleaning them again changes nothing.
use mathlib.Core.List.{reverse, reverse-cons, reverse-reverse}
use hubabox.Base.{
  Bool, true, false, List, [], ◌∷◌, ◌++◌, append_assoc, append-nil, ◌≡◌, refl, sym, ap, ◌∙◌, All,
  All-append, Bool-cases, inl, inr,
}
use hubabox.Text.{Text, codes, text_eq}
use hubabox.Text.Split.{split, join, Lacks, split-Lacks, split-join}
use hubabox.FilePath.{slash, clean_step, clean_from, clean_elems, render, clean, drop_top}

-- An element that stands for itself: not empty, "." or "..", and without a separator.
pub record IsPlain (part : Text) : Type 0 where
  pub not_empty : text_eq part [] ≡ false
  pub not_dot : text_eq part (codes ".") ≡ false
  pub not_dots : text_eq part (codes "..") ≡ false
  pub no_slash : Lacks slash part

drop_top-IsPlain : (st : List Text) → All IsPlain st → All IsPlain (drop_top true st)
drop_top-IsPlain [] h = tt
drop_top-IsPlain (t ∷ st) h = rw (h.0.not_dots) h.1

clean_step-IsPlain :
    (st : List Text) (part : Text)
    → All IsPlain st
    → Lacks slash part
    → All IsPlain (clean_step true st part)
unfolding clean_step
clean_step-IsPlain st part h k = elim (Bool-cases (text_eq part [])) [
  | inl e ↦ rw e h
  | inr e ↦ elim (Bool-cases (text_eq part (codes "."))) [
    | inl d ↦ rw (e, d) h
    | inr d ↦ elim (Bool-cases (text_eq part (codes ".."))) [
      | inl dd ↦ rw (e, d, dd) (drop_top-IsPlain st h)
      | inr dd ↦
          rw (e, d, dd) (record { not_empty = e; not_dot = d; not_dots = dd; no_slash = k }, h)
    ]
  ]
]

clean_from-IsPlain :
    (st parts : List Text)
    → All IsPlain st
    → All (Lacks slash) parts
    → All IsPlain (clean_from true st parts)
unfolding clean_from
clean_from-IsPlain st [] h k = h
clean_from-IsPlain st (p ∷ parts) h k =
    clean_from-IsPlain (clean_step true st p) parts (clean_step-IsPlain st p h k.0) k.1

pub All-reverse {κ} : (P : Text → Type κ) (xs : List Text) → All P xs → All P (reverse xs)
All-reverse P [] h = tt
All-reverse P (x ∷ xs) h =
    rw (reverse-cons x xs) (All-append P (reverse xs) (x ∷ []) (All-reverse P xs h.1) (h.0, tt))

pub clean_elems-IsPlain : (s : Text) → All IsPlain (clean_elems true s)
unfolding clean_elems
clean_elems-IsPlain s =
    All-reverse IsPlain _ (clean_from-IsPlain [] (split s slash) tt (split-Lacks slash s))

pub clean_from_of_IsPlain :
    (rooted : Bool) (st parts : List Text)
    → All IsPlain parts
    → clean_from rooted st parts ≡ reverse parts ++ st
unfolding clean_from clean_step
clean_from_of_IsPlain rooted st [] h = refl
clean_from_of_IsPlain rooted st (p ∷ parts) h =
    rw (h.0.not_empty, h.0.not_dot, h.0.not_dots)
      (clean_from_of_IsPlain rooted (p ∷ st) parts h.1
        ∙ sym (ap (λ t. t ++ st) (reverse-cons p parts) ∙ append_assoc (reverse parts) (p ∷ []) st))

pub clean_from-append :
    (rooted : Bool) (st xs ys : List Text)
    → clean_from rooted st (xs ++ ys) ≡ clean_from rooted (clean_from rooted st xs) ys
unfolding clean_from
clean_from-append rooted st [] ys = refl
clean_from-append rooted st (x ∷ xs) ys = clean_from-append rooted (clean_step rooted st x) xs ys

All-no_slash : (es : List Text) → All IsPlain es → All (Lacks slash) es
All-no_slash [] h = tt
All-no_slash (e ∷ es) h = (h.0.no_slash, All-no_slash es h.1)

pub split-join_plain :
    (e : Text) (es : List Text) → All IsPlain (e ∷ es) → split (join (e ∷ es) slash) slash ≡ e ∷ es
split-join_plain e es h = split-join slash (e ∷ es) (λ q. cc) (All-no_slash (e ∷ es) h)

-- Plain elements are what cleaning their path finds.
pub clean_elems-join : (es : List Text) → All IsPlain es → clean_elems true (join es slash) ≡ es
unfolding clean_elems
clean_elems-join [] h = unfold join split clean_from clean_step text_eq in refl
clean_elems-join (e ∷ es) h =
    rw (split-join_plain e es h, clean_from_of_IsPlain true [] (e ∷ es) h, append-nil)
      (reverse-reverse (e ∷ es))

pub clean-render : (es : List Text) → All IsPlain es → clean (render es) ≡ render es
unfolding clean render
clean-render es h = ap render (clean_elems-join es h)
