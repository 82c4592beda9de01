-- ===== src/Import/Candidates.antt =====
-- The names that an import tries are trimmed and free of separators, so the hub stores them as they
-- stand.
use hubabox.Base.{
  ℕ, ◌-◌, Bool, true, false, ◌&&◌, not, [], ◌∷◌, ◌++◌, append-nil, append_assoc, ◌≡◌, refl, sym, ap,
  ◌∙◌, ◌⊎◌, ◌==◌, leb, take, length, length-append, All, All-append, All-append_left,
  All-append_right, arith, Bool-cases, inl, inr, ok, err-ne-ok, invalid_name, subst,
}
use hubabox.Text.{Text, codes, text_eq, trim_space, trim_right, trim_left, is_space, contains_rune}
use hubabox.Text.Trim.{
  IsTrimmed, StartsClean, EndsClean, trim_space-IsTrimmed, trim_space_of_IsTrimmed,
  trim_left_of_StartsClean, trim_right_of_EndsClean,
}
use hubabox.Text.Split.{Lacks, split, split_of_Lacks, contains_rune-Lacks}
use hubabox.Text.Decimal.{itoa, itoa-All, itoa-IsTrimmed, itoa-not_empty}
use hubabox.FilePath.{slash, is_slash, base, ext, ext_from, last_elem, or_slash}
use hubabox.Files.{sanitize_name, check_name, sanitize_rel_path, trim_slashes}
use hubabox.Files.Joined.{write_parts_sound, sanitize_name_of_part}
use hubabox.Files.Names.{sanitize_name-IsPlain}
use hubabox.Files.Paths.{check_rel_path_lem}
use hubabox.Files.Stable.{
  EndsClean-cons, EndsClean-append, Lacks-StartsClean-slash, Lacks-EndsClean-slash,
}
use hubabox.Import.{stem_of, candidate}
use hubabox.Import.Fresh.{IsNumbered}

ext_from-suffix :
    (c : ℕ) (s e : Text) → (r : Text) × (s ≡ r ++ e) → (r : Text) × (c ∷ s ≡ r ++ ext_from c s e)
ext_from-suffix c s [] h = elim (Bool-cases (c == b'.' && not (contains_rune s slash))) [
  | inl q ↦ ([], rw q refl)
  | inr q ↦ (c ∷ s, rw q (sym (append-nil (c ∷ s))))
]
ext_from-suffix c s (d ∷ e) (r, same) = (c ∷ r, ap (λ x. c ∷ x) same)

ext-suffix : (s : Text) → (r : Text) × (s ≡ r ++ ext s)
unfolding ext
ext-suffix [] = ([], refl)
ext-suffix (c ∷ s) = ext_from-suffix c s (ext s) (ext-suffix s)

take-append : (r t : Text) → take (length r) (r ++ t) ≡ r
take-append [] t = refl
take-append (c ∷ r) t = ap (λ x. c ∷ x) (take-append r t)

take-append_minus : (r t : Text) → take (length (r ++ t) - length t) (r ++ t) ≡ r
take-append_minus r t =
    let n : length (r ++ t) - length t ≡ length r = omega (arith, length-append r t) in
    ap (λ k. take k (r ++ t)) n ∙ take-append r t

-- A name is its stem and its extension.
stem_of-ext : (s : Text) → s ≡ stem_of s ++ ext s
stem_of-ext s =
    let (r, same) = ext-suffix s in
    let stem : stem_of s ≡ r =
      ap (λ x. take (length x - length (ext s)) x) same ∙ take-append_minus r (ext s) in
    same ∙ ap (λ x. x ++ ext s) (sym stem)

EndsClean-append_right :
    (q : ℕ → Bool) (a : Text) (c : ℕ) (b : Text) → EndsClean q (a ++ c ∷ b) → EndsClean q (c ∷ b)
EndsClean-append_right q [] c b h = h
EndsClean-append_right q (x ∷ []) c b h = h
EndsClean-append_right q (x ∷ y ∷ a) c b h = EndsClean-append_right q (y ∷ a) c b h

numbered-StartsClean :
    (stem e rest : Text)
    → StartsClean is_space (stem ++ e)
    → StartsClean is_space (stem ++ b'_' ∷ rest)
numbered-StartsClean [] e rest h = unfold is_space in refl
numbered-StartsClean (c ∷ stem) e rest h = h

numbered-EndsClean :
    (stem e : Text) (i : ℕ)
    → EndsClean is_space (stem ++ e)
    → EndsClean is_space (stem ++ b'_' ∷ (itoa i ++ e))
numbered-EndsClean stem [] i h = rw (append-nil (itoa i)) (
    EndsClean-append is_space stem b'_' (itoa i)
      (EndsClean-cons is_space b'_' (itoa i) (itoa-not_empty i) (itoa-IsTrimmed i).1))
numbered-EndsClean stem (d ∷ e) i h =
    EndsClean-append is_space stem b'_' (itoa i ++ d ∷ e)
      (EndsClean-append is_space (b'_' ∷ itoa i) d e (EndsClean-append_right is_space stem d e h))

digits-Lacks : (s : Text) → All (λ c. (leb b'0' c && leb c b'9') ≡ true) s → Lacks slash s
digits-Lacks [] h = tt
digits-Lacks (c ∷ s) (d, h) = (ground arith, digits-Lacks s h)

-- A name that the hub stores as it stands, if it accepts it at all.
abbrev pub IsLeaf : Text → Type 0
IsLeaf name = IsTrimmed name × Lacks slash name

candidate_lem :
    (safe : Text) (i : ℕ) → candidate safe i ≡ stem_of safe ++ b'_' ∷ (itoa i ++ ext safe)
candidate_lem safe i =
    append_assoc (stem_of safe ++ codes "_") (itoa i) (ext safe)
    ∙ append_assoc (stem_of safe) (codes "_") (itoa i ++ ext safe)

candidate-IsLeaf : (safe : Text) (i : ℕ) → IsLeaf safe → IsLeaf (candidate safe i)
candidate-IsLeaf safe i ((starts, ends), lacks) =
    let whole = stem_of-ext safe in
    let stem = stem_of safe in
    let e = ext safe in
    let starts' : StartsClean is_space (stem ++ e) = subst (StartsClean is_space) whole starts in
    let ends' : EndsClean is_space (stem ++ e) = subst (EndsClean is_space) whole ends in
    let lacks' : Lacks slash (stem ++ e) = subst (Lacks slash) whole lacks in
    let P = λ (c : ℕ). (c == slash) ≡ false in
    subst IsLeaf (sym (candidate_lem safe i)) (
      (numbered-StartsClean stem e (itoa i ++ e) starts', numbered-EndsClean stem e i ends'),
      All-append P stem (b'_' ∷ (itoa i ++ e)) (All-append_left P stem e lacks') (
        refl,
        All-append P (itoa i) e (digits-Lacks (itoa i) (itoa-All i))
            (All-append_right P stem e lacks'),
      ),
    )

pub IsNumbered-IsLeaf : (safe name : Text) → IsNumbered safe name → IsLeaf safe → IsLeaf name
IsNumbered-IsLeaf safe name (inl e) h = subst IsLeaf (sym e) h
IsNumbered-IsLeaf safe name (inr (i, e, low, high)) h =
    subst IsLeaf (sym e) (candidate-IsLeaf safe i h)

last_elem-Lacks : (s : Text) → Lacks slash (last_elem s)
unfolding last_elem
last_elem-Lacks [] = tt
last_elem-Lacks (c ∷ s) = elim (Bool-cases (contains_rune s slash)) [
  | inl q ↦ rw q (last_elem-Lacks s)
  | inr q ↦ elim (Bool-cases (c == slash)) [
    | inl k ↦ rw (q, k) (contains_rune-Lacks s slash q)
    | inr k ↦ rw (q, k) (k, contains_rune-Lacks s slash q)
  ]
]

or_slash-cases : (s : Text) → Lacks slash (or_slash s) ⊎ (or_slash s ≡ slash ∷ [])
or_slash-cases [] = inr refl
or_slash-cases (c ∷ s) = inl (last_elem-Lacks (c ∷ s))

-- A base name has no separator, unless it is the root.
base-cases : (s : Text) → Lacks slash (base s) ⊎ (base s ≡ slash ∷ [])
unfolding base
base-cases [] = inl (refl, tt)
base-cases (c ∷ s) = or_slash-cases (trim_right is_slash (c ∷ s))

root_refused : (safe : Text) → ¬ (sanitize_name (slash ∷ []) ≡ ok safe)
unfolding sanitize_name check_name base trim_space trim_left trim_right is_space text_eq
    contains_rune
root_refused safe h = err-ne-ok invalid_name safe h

-- What `SanitizeName` makes of a base name.
pub sanitize_name-IsLeaf :
    (path : Text) {safe : Text} → sanitize_name (base path) ≡ ok safe → IsLeaf safe
sanitize_name-IsLeaf path {safe} e = elim (base-cases path) [
  | inr root ↦ absurd (root_refused safe (rw root at e))
  | inl lacks ↦ (
    subst IsTrimmed (sanitize_name_of_part (base path) lacks e) (trim_space-IsTrimmed (base path)),
    (sanitize_name-IsPlain (base path) e).0.no_slash,
  )
]

-- Such a name comes out of `SanitizeRelPath` as it went in.
pub sanitize_rel_path_of_IsLeaf :
    (name : Text) {out : Text} → IsLeaf name → sanitize_rel_path name ≡ ok out → out ≡ name
unfolding sanitize_rel_path
sanitize_rel_path_of_IsLeaf name {out} (trimmed, lacks) e =
    let s = trim_space name in
    let same : s ≡ name = trim_space_of_IsTrimmed name trimmed in
    let inner : trim_slashes name ≡ name =
      rw (trim_left_of_StartsClean is_slash name (Lacks-StartsClean-slash name lacks))
        (trim_right_of_EndsClean is_slash name (Lacks-EndsClean-slash name lacks)) in
    let (prefix, drive, nul, few, run, short) =
      check_rel_path_lem name name (rw (same, inner) at e) in
    let one : split name slash ≡ name ∷ [] = split_of_Lacks slash name lacks in
    let (out_is, safe) =
      write_parts_sound [] false (name ∷ []) (lacks, tt) (contains_rune-Lacks name 0 nul, tt)
        (rw one at run) in
    out_is ∙ same
