-- ===== src/Importer/Entries.antt =====
-- The picker's view of the import folder: `ListImportEntries` and `formatSizeHuman` of
-- hubabox-proj/internal/importer/importer.go.
use mathlib.Core.List.{Perm}
use hubabox.Base.{
  ℕ, ◌≤◌, ◌<◌, Bool, true, false, List, [], ◌∷◌, ◌≡◌, refl, sym, subst, ltb, if◌then◌else◌, take,
  length, map, Result, ok, ◌>>=◌, ◌>>◌, take_all, sort_by, sort_by-Perm, sort_by-IsSortedBy,
  IsSortedBy, Result-cases, inl, inr, arith, err-ne-ok, ok-injective, ap, ◌∙◌, ◌⊎◌,
}
use hubabox.Text.{Text, Unicode, codes, text_eq, trim_space}
use hubabox.Text.Order.{text_less, text_less-IsOrder}
use hubabox.Text.Sizes.{size_text}
use hubabox.Importer.{validate_paths}
use hubabox.Importer.Eligible.{Media, Class, classify_import_file}

abbrev pub max_import_list_entries : ℕ
max_import_list_entries = 500

-- `formatSizeHuman`
abbrev pub format_size_human : ℕ → Text
format_size_human n = size_text (codes " B") (codes " KiB") (codes " MiB") (codes " GiB") n

-- `ImportDirEntry`
pub record ImportDirEntry : Type 0 where
  pub name : Text
  pub size_human : Text
  pub eligible : Bool
  pub skip_reason : Text

abbrev entry_of : Text → Class → ImportDirEntry
entry_of name c = record {
  name = name;
  size_human = format_size_human c.size;
  eligible = c.eligible;
  skip_reason = if c.eligible then [] else c.skip_reason;
}

module _ (u : Unicode) (cwd : Result Text) (media : Media) where
  abbrev pub entry : Text → Text → ImportDirEntry
  entry import_dir name = entry_of name (classify_import_file u media import_dir name)

  abbrev pub entries : Text → List Text → List ImportDirEntry × Bool
  entries import_dir raw = (
    map (entry import_dir) (sort_by text_less (take max_import_list_entries raw)),
    ltb max_import_list_entries (length raw),
  )

  -- `ListImportEntries`; `take` leaves a list that is not longer alone.
  unfoldable pub list_import_entries : Text → Text → Result (List ImportDirEntry × Bool)
  list_import_entries import_dir files_dir =
      if text_eq (trim_space import_dir) [] then ok ([], false) else (do
        validate_paths cwd import_dir files_dir
        raw ← media.read_dir import_dir
        ok (entries import_dir raw))

  abbrev pub names_of : List ImportDirEntry → List Text
  names_of rows = map (λ e. e.name) rows

  map-names :
      (import_dir : Text) (names : List Text) → names_of (map (entry import_dir) names) ≡ names
  map-names import_dir [] = refl
  map-names import_dir (n ∷ ns) = ap (λ l. n ∷ l) (map-names import_dir ns)

  -- Whether the folder has more names than are shown.
  abbrev pub IsCut : List Text → Bool → Type 0
  IsCut raw truncated =
      ((truncated ≡ true) × (max_import_list_entries < length raw))
      ⊎ ((truncated ≡ false) × (take max_import_list_entries raw ≡ raw))

  entries-IsCut :
      (raw : List Text) (truncated : Bool)
      → ltb max_import_list_entries (length raw) ≡ truncated
      → IsCut raw truncated
  entries-IsCut raw true e = inl (refl, more (length raw) e)
    where
      more : (n : ℕ) → ltb max_import_list_entries n ≡ true → max_import_list_entries < n
      more n h = ground arith
  entries-IsCut raw false e = inr (refl, take_all max_import_list_entries raw (fits (length raw) e))
    where
      fits : (n : ℕ) → ltb max_import_list_entries n ≡ false → n ≤ max_import_list_entries
      fits n h = ground arith

  -- The list for the picker shows the first names of the folder, each once and sorted as Go sorts
  -- strings: all of them, or 500 where the folder has more, and then it says so.
  list_import_entries-IsSortedBy :
      (import_dir files_dir : Text) (raw : List Text) (rows : List ImportDirEntry)
      (truncated : Bool)
      → media.read_dir import_dir ≡ ok raw
      → text_eq (trim_space import_dir) [] ≡ false
      → list_import_entries import_dir files_dir ≡ ok (rows, truncated)
      → IsSortedBy text_less (names_of rows)
        × Perm (names_of rows) (take max_import_list_entries raw)
        × IsCut raw truncated
  unfolding list_import_entries
  list_import_entries-IsSortedBy import_dir files_dir raw rows truncated d n e =
      elim (Result-cases (validate_paths cwd import_dir files_dir)) [
        | inr (x, v) ↦ absurd (err-ne-ok x (rows, truncated) (rw (n, v) at e))
        | inl (unit, v) ↦
            let same : entries import_dir raw ≡ (rows, truncated) =
              ok-injective (rw (n, v, d) at e) in
            let sorted = sort_by text_less (take max_import_list_entries raw) in
            let names : sorted ≡ names_of rows =
              sym (map-names import_dir sorted) ∙ ap (λ p. names_of p.0) same in
            let cut : ltb max_import_list_entries (length raw) ≡ truncated = ap (λ p. p.1) same in
            (
              subst (IsSortedBy text_less) names (
                  sort_by-IsSortedBy text_less text_less-IsOrder
                    (take max_import_list_entries raw)),
              subst (λ l. Perm l (take max_import_list_entries raw)) names
                  (sort_by-Perm text_less (take max_import_list_entries raw)),
              entries-IsCut raw truncated cut,
            )
      ]
