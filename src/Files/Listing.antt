-- ===== src/Files/Listing.antt =====
-- The list of the hub's files, newest first: `ListEntries` of hubabox-proj/internal/files/list.go.
use mathlib.Core.List.{Perm}
use hubabox.Base.{
  system, err-ne-ok, ok-injective, subst, Bool-cases, inl, inr, ℕ, Bool, true, false, not, ◌&&◌,
  List, [], ◌∷◌, ◌++◌, ◌≡◌, ltb, ◌==◌, if◌then◌else◌, length, Result, ok, ◌>>=◌, Result-cases,
  arith, IsOrder, IsSortedBy, sort_by, sort_by-Perm, sort_by-IsSortedBy, Option, none, some,
}
use hubabox.Text.{Text, codes, has_prefix, has_suffix, strip}
use hubabox.Text.Order.{text_less, text_less-IsOrder}
use hubabox.FilePath.{slash, last_elem, abs}
use hubabox.World.{World, Act, Node, regular, folder, symlink, query, fails}

-- `FileEntry`; the time is in nanoseconds.
pub record FileEntry : Type 0 where
  pub name : Text
  pub size : ℕ
  pub mod_time : ℕ

-- The test of `sort.Slice`: newest first, then by name.
abbrev pub newer : FileEntry → FileEntry → Bool
newer a b = if a.mod_time == b.mod_time then text_less a.name b.name else ltb b.mod_time a.mod_time

-- What `os.Lstat` says of the size and the time of a symbolic link is an argument.
module _ (links : Text → ℕ × ℕ) where
  abbrev info : Text → Node → Option (ℕ × ℕ)
  info path folder = none
  info path symlink = some (links path)
  info path (regular bytes time) = some (length bytes, time)

  abbrev entry_of : Text → Option (ℕ × ℕ) → List FileEntry
  entry_of name none = []
  entry_of name (some (size, time)) = record { name = name; size = size; mod_time = time } ∷ []

  abbrev pub is_listed : Text → Text → Bool
  is_listed dir path =
      has_prefix path (dir ++ slash ∷ []) && not (has_suffix (last_elem path) (codes ".partial"))

  -- The function that `WalkDir` calls, on one path of the disk below the folder.
  abbrev pub visited : Text → Text × Node → List FileEntry
  visited dir (path, node) =
      if is_listed dir path then entry_of (strip path (dir ++ slash ∷ [])) (info path node) else []

  unfoldable pub walk : Text → List (Text × Node) → List FileEntry
  walk dir [] = []
  walk dir (entry ∷ disk) = visited dir entry ++ walk dir disk

  -- `ListEntries`; the disk holds absolute paths, so a relative folder is the one in the working
  -- directory. A folder that cannot be read is a fault, and no file goes away meanwhile.
  unfoldable pub list_entries : Result Text → Text → Act (List FileEntry)
  list_entries cwd dir = query (λ w. abs cwd dir >>= λ root. ok (sort_by newer (walk root w.disk)))

newer-IsOrder : IsOrder newer
newer-IsOrder = record { asym = asym; trans = trans }
  where
    asym : (a b : FileEntry) → newer a b ≡ true → newer b a ≡ false
    asym a b h = ground (arith, text_less-IsOrder.asym a.name b.name)

    trans : (a b c : FileEntry) → newer b a ≡ false → newer c b ≡ false → newer c a ≡ false
    trans a b c h k = ground (arith, text_less-IsOrder.trans a.name b.name c.name)

-- What a successful listing answers: exactly the files that the walk meets below the folder, which
-- a relative path names in the working directory, each once, the newest first and those of one time
-- by name.
pub list_entries-IsSortedBy :
    (links : Text → ℕ × ℕ) (cwd : Result Text) (dir : Text) (w : World) {rows : List FileEntry}
    → (list_entries links cwd dir w).0 ≡ ok rows
    → (root : Text) × (abs cwd dir ≡ ok root)
      × IsSortedBy newer rows
      × Perm rows (walk links root w.disk)
unfolding list_entries
list_entries-IsSortedBy links cwd dir w {rows} e = elim (Bool-cases (fails w.faults)) [
  | inl f ↦ absurd (err-ne-ok system rows (rw f at e))
  | inr f ↦ elim (Result-cases (abs cwd dir)) [
    | inr (x, a) ↦ absurd (err-ne-ok x rows (rw (f, a) at e))
    | inl (root, a) ↦
        let files = walk links root w.disk in
        let same : sort_by newer files ≡ rows = ok-injective (rw (f, a) at e) in
        (
          root,
          a,
          subst (IsSortedBy newer) same (sort_by-IsSortedBy newer newer-IsOrder files),
          subst (λ l. Perm l files) same (sort_by-Perm newer files),
        )
  ]
]
