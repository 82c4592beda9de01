-- ===== src/FileMeta/Previews.antt =====
-- No preview is a page that runs scripts.
use hubabox.Base.{
  Bool, true, false, ◌||◌, ◌≡◌, refl, List, [], ◌∷◌, any, arith, Bool-cases, inl, inr, ◌&&◌, not,
  or-eq-false,
}
use hubabox.Text.{Text, Unicode, codes, text_eq, text_eq_sound, has_prefix, equal_fold}
use hubabox.FilePath.{ext}
use hubabox.FileMeta.{
  Kind, image, video, audio, pdf, archive, code_text, doc, sheet, slides, exe, other_kind, kind_of,
  previewable_ext, plain_ext, kind, previewable, preview_content_type, is_text, type_of_kind,
}

-- A content type that a browser may run as a page.
unfoldable pub is_active : Text → Bool
is_active t =
    has_prefix t (codes "text/html")
    || has_prefix t (codes "image/svg")
    || has_prefix t (codes "application/xhtml")

-- The extensions of such types.
abbrev pub active_exts : List Text
active_exts =
    codes "html"
    ∷ codes "htm"
    ∷ codes "shtml"
    ∷ codes "xhtml"
    ∷ codes "xht"
    ∷ codes "svg"
    ∷ codes "svgz"
    ∷ []

-- What the code relies on: the table of `mime` gives such a type to their extensions only.
abbrev pub TypesAreUsual : Unicode → (Text → Text) → Type 0
TypesAreUsual u types =
    (name : Text)
    → is_active (types (ext name)) ≡ true
    → any (text_eq (plain_ext u name)) active_exts ≡ true

type_of_kind-not_active : (k : Kind) → is_active (type_of_kind k) ≡ false
unfolding is_active has_prefix
type_of_kind-not_active image = refl
type_of_kind-not_active video = refl
type_of_kind-not_active audio = refl
type_of_kind-not_active pdf = refl
type_of_kind-not_active archive = refl
type_of_kind-not_active code_text = refl
type_of_kind-not_active doc = refl
type_of_kind-not_active sheet = refl
type_of_kind-not_active slides = refl
type_of_kind-not_active exe = refl
type_of_kind-not_active other_kind = refl

abbrev shown_as_page : Text → Bool
shown_as_page e = previewable_ext e && not (is_text (kind_of e))

none_shown : any shown_as_page active_exts ≡ false
unfolding previewable_ext kind_of text_eq
none_shown = refl

one_of :
    (test : Text → Bool) (e : Text) (xs : List Text)
    → any (text_eq e) xs ≡ true
    → any test xs ≡ false
    → test e ≡ false
one_of test e [] m a = cc
one_of test e (x ∷ xs) m a = elim (Bool-cases (text_eq e x)) [
  | inl q ↦ rw (text_eq_sound e x q) (or-eq-false a).0
  | inr q ↦ one_of test e xs (rw q at m) (or-eq-false a).1
]

fixed-not_active :
    (is_active (codes "text/csv; charset=utf-8") ≡ false)
    × (is_active (codes "text/plain; charset=utf-8") ≡ false)
unfolding is_active has_prefix
fixed-not_active = (refl, refl)

-- What is offered for preview is never sent as HTML, XHTML or SVG, if the table of content types
-- gives those to their own extensions only: such files are not offered, or are sent as plain text.
pub preview_content_type-not_active :
    (u : Unicode) (types : Text → Text) (name : Text)
    → TypesAreUsual u types
    → previewable u name ≡ true
    → is_active (preview_content_type u types name) ≡ false
unfolding previewable kind preview_content_type
preview_content_type-not_active u types name usual shown =
    let e = plain_ext u name in
    elim (Bool-cases (equal_fold u (ext name) (codes ".csv"))) [
      | inl c ↦ rw c fixed-not_active.0
      | inr c ↦ elim (Bool-cases (is_text (kind_of e))) [
        | inl t ↦ rw (c, t) fixed-not_active.1
        | inr t ↦ elim (Bool-cases (text_eq (types (ext name)) [])) [
          | inl n ↦ rw (c, t, n) (type_of_kind-not_active (kind_of e))
          | inr n ↦ elim (Bool-cases (is_active (types (ext name)))) [
            | inr k ↦ rw (c, t, n) k
            | inl k ↦ absurd (
                let no = one_of shown_as_page e active_exts (usual name k) none_shown in
                ground arith)
          ]
        ]
      ]
    ]
