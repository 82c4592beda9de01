-- ===== src/Server/Downloads/Stored.antt =====
-- What is served is a file of the hub, as it is stored.
use hubabox.Base.{
  true, [], ◌≡◌, refl, sym, ap, ◌∙◌, Result, ok, err, not_exist, system, Option, none, some,
  Bool-cases, Result-cases, inl, inr, err-ne-ok, ok-injective, ◌⊎◌,
}
use hubabox.Text.{Text, Unicode, text_eq}
use hubabox.Text.Assoc.{find}
use hubabox.Text.Urls.{path_unescape}
use hubabox.World.{World, Node, regular, folder, symlink, fails, query}
use hubabox.Files.{sanitize_rel_path, join_resolved_under_hub}
use hubabox.Upload.{Opened, opened, open_read}
use hubabox.Upload.Saved.{IsPlace}
use hubabox.FileMeta.{previewable}
use hubabox.Server.{Answer}
use hubabox.Server.Downloads.{
  Served, answered, served, raw_name, attachment, inline, download_name, download_named_file,
  preview_name, previewed, preview_named_file, stated,
}

-- What was opened stands at the place of its name in the hub.
abbrev pub IsOpened : Result Text → Text → Text → World → Opened → Type 0
IsOpened cwd dir name w f =
    (full : Text) × IsPlace cwd dir name f.name full
    × ((find full w.disk ≡ some (regular f.bytes f.mod_time))
        ⊎ ((find full w.disk ≡ some folder) × (f.bytes ≡ [])))

opened-node :
    (safe : Text) (o : Option Node) (f : Opened)
    → opened safe o ≡ ok f
    → (f.name ≡ safe)
      × ((o ≡ some (regular f.bytes f.mod_time)) ⊎ ((o ≡ some folder) × (f.bytes ≡ [])))
opened-node safe none f e = absurd (err-ne-ok not_exist f e)
opened-node safe (some (regular bytes at)) f e =
    let same = ok-injective e in
    (sym (ap (λ g. g.name) same), inl (ap (λ g. some (regular g.bytes g.mod_time)) same))
opened-node safe (some folder) f e =
    let same = ok-injective e in
    (sym (ap (λ g. g.name) same), inr (refl, sym (ap (λ g. g.bytes) same)))
opened-node safe (some symlink) f e = absurd (err-ne-ok system f e)

pub open_read-IsOpened :
    (cwd : Result Text) (dir name : Text) (w : World) (f : Opened)
    → (open_read cwd dir name w).0 ≡ ok f
    → IsOpened cwd dir name w f
unfolding open_read
open_read-IsOpened cwd dir name w f e = elim (Result-cases (sanitize_rel_path name)) [
  | inr (x, s) ↦ absurd (err-ne-ok x f (rw s at e))
  | inl (safe, s) ↦ elim (Result-cases (join_resolved_under_hub cwd dir safe)) [
    | inr (x, j) ↦ absurd (err-ne-ok x f (rw (s, j) at e))
    | inl (full, j) ↦ elim (Bool-cases (fails w.faults)) [
      | inl b ↦ absurd (err-ne-ok system f (rw (s, j, b) at e))
      | inr b ↦
          let (same, node) = opened-node safe (find full w.disk) f (rw (s, j, b) at e) in
          (full, (s ∙ ap ok (sym same), rw same j), node)
    ]
  ]
]

served-injective : {a b : Served} → served a ≡ served b → a ≡ b
served-injective h = cc

answered-ne-served : (a : Answer) (s : Served) → ¬ (answered a ≡ served s)
answered-ne-served a s h = cc

module _ (cwd : Result Text) (files_dir : Text) where
  -- A reply that serves a file: the name of the request, unescaped, and what was opened.
  abbrev pub Serves : (Opened → Served) → Text → World → Served → Type 0
  Serves headers param w s =
      (name : Text) × (f : Opened) × (path_unescape (raw_name param) ≡ ok name)
      × (s ≡ headers f)
      × IsOpened cwd files_dir name w f

  download_name-Serves :
      (param : Text) (r : Result Text) (w : World) (s : Served)
      → path_unescape (raw_name param) ≡ r
      → (download_name cwd files_dir r w).0 ≡ served s
      → Serves attachment param w s
  download_name-Serves param (err x) w s p e = absurd (answered-ne-served _ s e)
  download_name-Serves param (ok name) w s p e =
      elim (Result-cases (open_read cwd files_dir name w).0) [
        | inr (x, o) ↦ absurd (answered-ne-served _ s (rw o at e))
        | inl (f, o) ↦ (
          name,
          f,
          p,
          sym (served-injective (rw o at e)),
          open_read-IsOpened cwd files_dir name w f o,
        )
      ]

  -- A download serves the stored bytes of the file at the place of the requested name in the hub,
  -- or nothing of a folder, as an attachment with the last element of that name.
  pub download_named_file-Serves :
      (param : Text) (w : World) (s : Served)
      → (download_named_file cwd files_dir param w).0 ≡ served s
      → Serves attachment param w s
  unfolding download_named_file
  download_named_file-Serves param w s e = elim (Bool-cases (text_eq (raw_name param) [])) [
    | inl n ↦ absurd (answered-ne-served _ s (rw n at e))
    | inr n ↦ download_name-Serves param (path_unescape (raw_name param)) w s refl (rw n at e)
  ]

  module _ (u : Unicode) (types : Text → Text) where
    stated-served :
        (f : Opened) (r : Result (Unit {0})) (s : Served)
        → stated cwd files_dir u types f r ≡ served s
        → s ≡ inline cwd files_dir u types f
    stated-served f (err x) s e = absurd (answered-ne-served _ s e)
    stated-served f (ok _) s e = sym (served-injective e)

    previewed-served :
        (r : Result Opened) (w : World) (s : Served)
        → (previewed cwd files_dir u types r w).0 ≡ served s
        → (f : Opened) × (r ≡ ok f) × (s ≡ inline cwd files_dir u types f)
    previewed-served (err x) w s e = absurd (answered-ne-served _ s e)
    previewed-served (ok f) w s e = (f, refl, stated-served f (query (λ v. ok tt) w).0 s e)

    preview_name-Serves :
        (param : Text) (r : Result Text) (w : World) (s : Served)
        → path_unescape (raw_name param) ≡ r
        → (preview_name cwd files_dir u types r w).0 ≡ served s
        → ((name : Text) × (r ≡ ok name) × (previewable u name ≡ true))
          × Serves (inline cwd files_dir u types) param w s
    preview_name-Serves param (err x) w s p e = absurd (answered-ne-served _ s e)
    preview_name-Serves param (ok name) w s p e = elim (Bool-cases (previewable u name)) [
      | inr n ↦ absurd (answered-ne-served _ s (rw n at e))
      | inl y ↦
          let (f, o, same) =
            previewed-served (open_read cwd files_dir name w).0 (open_read cwd files_dir name w).1 s
              (rw y at e) in
          ((name, refl, y), (name, f, p, same, open_read-IsOpened cwd files_dir name w f o))
    ]

    -- A preview serves the stored bytes of the file at the place of the requested name in the hub,
    -- or nothing of a folder, inline and with the content type of a preview, and only for a name
    -- that can be previewed.
    pub preview_named_file-Serves :
        (param : Text) (w : World) (s : Served)
        → (preview_named_file cwd files_dir u types param w).0 ≡ served s
        → ((name : Text) × (path_unescape (raw_name param) ≡ ok name) × (previewable u name ≡ true))
          × Serves (inline cwd files_dir u types) param w s
    unfolding preview_named_file
    preview_named_file-Serves param w s e = elim (Bool-cases (text_eq (raw_name param) [])) [
      | inl n ↦ absurd (answered-ne-served _ s (rw n at e))
      | inr n ↦ preview_name-Serves param (path_unescape (raw_name param)) w s refl (rw n at e)
    ]
