-- ===== src/Files/Contained.antt =====
-- `joinResolvedUnderHub` and `JoinUnderHub`: what they return lies below the hub's folder.
use hubabox.Base.{
  true, List, [], ◌∷◌, ◌++◌, ◌≡◌, refl, sym, ap, ◌∙◌, All, All-append_right, subst, Bool-cases, inl,
  inr, Result, ok, err, invalid_name, >>=-eq-ok, >>-eq-ok, ok-injective,
}
use hubabox.Text.{Text}
use hubabox.FilePath.{slash, is_abs, clean_elems, render, clean, join_path, abs, rel}
use hubabox.FilePath.Clean.{IsPlain, clean_elems-IsPlain}
use hubabox.FilePath.Rel.{climbs, rel-inside}
use hubabox.Files.{as_invalid_name, join_resolved_under_hub}

-- A plain absolute path.
abbrev pub IsPlainPath : Text → Type 0
IsPlainPath q = (es : List Text) × All IsPlain es × (q ≡ render es)

clean-IsPlainPath : (s : Text) → is_abs s ≡ true → IsPlainPath (clean s)
unfolding is_abs clean
clean-IsPlainPath [] h = absurd (unfold is_abs in cc)
clean-IsPlainPath (c ∷ s) h = rw h (clean_elems true s, clean_elems-IsPlain s, refl)

join_path-IsPlainPath : (dir s : Text) → is_abs dir ≡ true → IsPlainPath (join_path dir s)
unfolding join_path
join_path-IsPlainPath [] s h = absurd (unfold is_abs in cc)
join_path-IsPlainPath (c ∷ dir) [] h = clean-IsPlainPath (c ∷ dir) h
join_path-IsPlainPath (c ∷ dir) (d ∷ s) h =
    clean-IsPlainPath ((c ∷ dir) ++ slash ∷ d ∷ s) (unfold is_abs in h)

-- `os.Getwd` returns an absolute path, if it returns one.
abbrev pub IsWorkingDir : Result Text → Type 0
IsWorkingDir cwd = (dir : Text) → cwd ≡ ok dir → is_abs dir ≡ true

abs-IsPlainPath :
    (cwd : Result Text) (s : Text) {q : Text} → IsWorkingDir cwd → abs cwd s ≡ ok q → IsPlainPath q
unfolding abs
abs-IsPlainPath cwd s {q} w e = elim (Bool-cases (is_abs s)) [
  | inl h ↦ let same : clean s ≡ q = ok-injective (rw h at e) in rw (← same) (clean-IsPlainPath s h)
  | inr h ↦
      let (dir, found, e') = >>=-eq-ok cwd (λ dir. ok (join_path dir s)) (rw h at e) in
      rw (← ok-injective e') (join_path-IsPlainPath dir s (w dir found))
]

as_invalid_name-eq-ok : {A : Type 0} (r : Result A) {a : A} → as_invalid_name r ≡ ok a → r ≡ ok a
as_invalid_name-eq-ok (ok b) e = e
as_invalid_name-eq-ok (err x) e = cc

-- If the working directory is absolute: whatever path is joined, checked before or not, a result
-- is a clean path in the hub's folder: its elements are those of the folder's absolute path and then
-- others, none of them empty, "." or "..", and none with a slash.
pub join_resolved_under_hub-inside :
    (cwd : Result Text) (hub_root safe : Text) {full : Text}
    → IsWorkingDir cwd
    → join_resolved_under_hub cwd hub_root safe ≡ ok full
    → (root rest : List Text) × (abs cwd hub_root ≡ ok (render root))
      × (full ≡ render (root ++ rest))
      × All IsPlain root
      × All IsPlain rest
unfolding join_resolved_under_hub
join_resolved_under_hub-inside cwd hub_root safe {full} w e =
    let (root_abs, e₀, e₁) = >>=-eq-ok (abs cwd hub_root) _ e in
    let (full_abs, e₂, e₃) = >>=-eq-ok (abs cwd (join_path hub_root safe)) _ e₁ in
    let (r, e₄, e₅) = >>=-eq-ok (as_invalid_name (rel root_abs full_abs)) _ e₃ in
    let (low, e₆) = >>-eq-ok (climbs r) invalid_name (ok full_abs) e₅ in
    let (bs, bs_plain, bs_same) = abs-IsPlainPath cwd hub_root w e₀ in
    let (ts, ts_plain, ts_same) = abs-IsPlainPath cwd (join_path hub_root safe) w e₂ in
    let related : rel (render bs) (render ts) ≡ ok r =
      rw (← bs_same, ← ts_same) (as_invalid_name-eq-ok _ e₄) in
    let (rest, below) = rel-inside bs ts r bs_plain ts_plain related low in
    let rest_plain = All-append_right IsPlain bs rest (subst (All IsPlain) below ts_plain) in
    (
      bs,
      rest,
      e₀ ∙ ap ok bs_same,
      sym (ok-injective e₆) ∙ ts_same ∙ ap render below,
      bs_plain,
      rest_plain,
    )

-- The place of a name is that of the plain join, below the working directory for a relative one.
pub join_resolved_under_hub-abs :
    (cwd : Result Text) (hub_root safe : Text) {full : Text}
    → join_resolved_under_hub cwd hub_root safe ≡ ok full
    → abs cwd (join_path hub_root safe) ≡ ok full
unfolding join_resolved_under_hub
join_resolved_under_hub-abs cwd hub_root safe {full} e =
    let (root_abs, e₀, e₁) = >>=-eq-ok (abs cwd hub_root) _ e in
    let (full_abs, e₂, e₃) = >>=-eq-ok (abs cwd (join_path hub_root safe)) _ e₁ in
    let (r, e₄, e₅) = >>=-eq-ok (as_invalid_name (rel root_abs full_abs)) _ e₃ in
    e₂ ∙ (>>-eq-ok (climbs r) invalid_name (ok full_abs) e₅).1
