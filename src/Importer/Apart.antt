-- ===== src/Importer/Apart.antt =====
-- An import folder that is accepted and the folder of the hub's files lie apart.
use hubabox.Base.{
  Bool, true, false, ◌||◌, List, [], ◌∷◌, ◌++◌, append-nil, ◌≡◌, refl, sym, ap, ◌∙◌, Result, ok,
  >>-eq-ok, nested_directories, same_directory, empty_path, arith, or-eq-false,
}
use hubabox.Text.{Text, text_eq, trim_space, has_prefix}
use hubabox.Text.Split.{join}
use hubabox.FilePath.{slash, abs, clean, render}
use hubabox.FilePath.Rel.{IsUnder}
use hubabox.Importer.{lies_in, validate_paths}

has_prefix-append : (s t : Text) → has_prefix (s ++ t) s ≡ true
unfolding has_prefix
has_prefix-append [] t = refl
has_prefix-append (c ∷ s) t = ground (arith, has_prefix-append s t)

append-slash : (e s u : Text) → (e ++ slash ∷ s) ++ u ≡ e ++ slash ∷ (s ++ u)
append-slash [] s u = refl
append-slash (c ∷ e) s u = ap (λ r. c ∷ r) (append-slash e s u)

-- The path of a folder, with a slash behind it, begins every path below the folder.
join-append_all :
    (e : Text) (es rest : List Text)
    → (t : Text) × (join ((e ∷ es) ++ rest) slash ++ slash ∷ []
        ≡ (join (e ∷ es) slash ++ slash ∷ []) ++ t)
unfolding join
join-append_all e [] [] = ([], sym (append-nil (e ++ slash ∷ [])))
join-append_all e [] (f ∷ fs) =
    let j = join (f ∷ fs) slash in
    (j ++ slash ∷ [], append-slash e j (slash ∷ []) ∙ sym (append-slash e [] (j ++ slash ∷ [])))
join-append_all e (f ∷ fs) rest =
    let (t, same) = join-append_all f fs rest in
    let j = join (f ∷ fs) slash in
    (
      t,
      append-slash e (join ((f ∷ fs) ++ rest) slash) (slash ∷ [])
          ∙ ap (λ r. e ++ slash ∷ r) same
          ∙ sym (append-slash e (j ++ slash ∷ []) t)
          ∙ ap (λ r. r ++ t) (sym (append-slash e j (slash ∷ []))),
    )

IsUnder-lies_in :
    (b : Text) (bs ts : List Text)
    → IsUnder (b ∷ bs) ts
    → lies_in (render ts) (render (b ∷ bs)) ≡ true
unfolding render has_prefix
IsUnder-lies_in b bs ts (rest, e) =
    let (t, same) = join-append_all b bs rest in
    let outer = join (b ∷ bs) slash ++ slash ∷ [] in
    rw (e, same) (has_prefix-append (slash ∷ outer) t)

validate_paths_lem :
    (cwd : Result Text) (import_dir files_dir imp fil : Text)
    → validate_paths cwd import_dir files_dir ≡ ok tt
    → abs cwd import_dir ≡ ok imp
    → abs cwd files_dir ≡ ok fil
    → (lies_in fil imp || lies_in imp fil) ≡ false
unfolding validate_paths
validate_paths_lem cwd import_dir files_dir imp fil v i f =
    let (not_empty, v₁) = >>-eq-ok (text_eq (trim_space import_dir) []) empty_path _ v in
    let (differ, v₂) =
      >>-eq-ok (text_eq (clean imp) (clean fil)) same_directory _ (rw (i, f) at v₁) in
    (>>-eq-ok (lies_in fil imp || lies_in imp fil) nested_directories _ v₂).0

-- If `ValidatePaths` accepts an import folder, and neither it nor the folder of the hub's files is
-- the root, then neither of the two lies in the other, and they are not the same.
pub validate_paths-IsUnder :
    (cwd : Result Text) (import_dir files_dir a b : Text) (is fs : List Text)
    → validate_paths cwd import_dir files_dir ≡ ok tt
    → abs cwd import_dir ≡ ok (render (a ∷ is))
    → abs cwd files_dir ≡ ok (render (b ∷ fs))
    → (¬ IsUnder (a ∷ is) (b ∷ fs)) × (¬ IsUnder (b ∷ fs) (a ∷ is))
validate_paths-IsUnder cwd import_dir files_dir a b is fs v i f =
    let imp = render (a ∷ is) in
    let fil = render (b ∷ fs) in
    let apart = validate_paths_lem cwd import_dir files_dir imp fil v i f in
    let p : lies_in fil imp ≡ false = (or-eq-false apart).0 in
    let q : lies_in imp fil ≡ false = (or-eq-false apart).1 in
    (
      λ h. true_ne_false (IsUnder-lies_in a is (b ∷ fs) h) p,
      λ h. true_ne_false (IsUnder-lies_in b fs (a ∷ is) h) q,
    )
  where
    true_ne_false : {x : Bool} → x ≡ true → ¬ (x ≡ false)
    true_ne_false h k = cc
