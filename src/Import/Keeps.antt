-- ===== src/Import/Keeps.antt =====
-- An import overwrites no file of the hub and removes none, however it ends.
use hubabox.Base.{
  ℕ, zero, suc, true, false, ltb, ◌≡◌, refl, ap, ◌∙◌, subst, Result, ok, err, none, some, arith,
  Bool-cases, Result-cases, inl, inr,
}
use hubabox.Text.{Text, Unicode, codes, text_eq, text_eq_sound, has_suffix, has_suffix-append}
use hubabox.Text.Assoc.{find}
use hubabox.FilePath.{resolved_path, base, join_path}
use hubabox.Files.{sanitize_name, sanitize_rel_path, join_resolved_under_hub}
use hubabox.Files.Contained.{join_resolved_under_hub-abs}
use hubabox.World.{World, Node, continue, ◌>>=◌, lift, tick}
use hubabox.World.Disk.{Reader}
use hubabox.Upload.{partial, save_upload_with_limit, max_import_bytes}
use hubabox.Upload.Saved.{save_upload_with_limit-elsewhere}
use hubabox.Import.{
  Source, first_free, unique_dest_name, import_regular_file, last_candidate, skip_import_leaf_name,
}
use hubabox.Import.Fresh.{IsFree, unique_dest_name-IsFree}
use hubabox.Import.Candidates.{
  IsLeaf, IsNumbered-IsLeaf, sanitize_name-IsLeaf, sanitize_rel_path_of_IsLeaf,
}

first_free-disk :
    (cwd : Result Text) (dir safe : Text) (i left : ℕ) (w : World)
    → (first_free cwd dir safe i left w).1.disk ≡ w.disk
unfolding first_free
first_free-disk cwd dir safe i zero w = refl
first_free-disk cwd dir safe i (suc left) w =
    ground (arith, first_free-disk cwd dir safe (suc i) left (tick w))

unique_dest_name-disk :
    (cwd : Result Text) (dir base_name : Text) (w : World)
    → (unique_dest_name cwd dir base_name w).1.disk ≡ w.disk
unfolding unique_dest_name
unique_dest_name-disk cwd dir base_name w = elim (Result-cases (sanitize_name base_name)) [
  | inr (e, s) ↦ rw s refl
  | inl (safe, s) ↦ rw s (ground (arith, first_free-disk cwd dir safe 1 last_candidate (tick w)))
]

-- A path that is no temporary file's.
abbrev pub IsLasting : Text → Type 0
IsLasting q = has_suffix q (codes ".partial") ≡ false

IsLasting-partial : (full q : Text) → IsLasting q → text_eq (partial full) q ≡ false
IsLasting-partial full q h = elim (Bool-cases (text_eq (partial full) q)) [
  | inr n ↦ n
  | inl y ↦
      let e : has_suffix q (codes ".partial") ≡ true =
        subst (λ p. has_suffix p (codes ".partial") ≡ true) (text_eq_sound (partial full) q y)
          (has_suffix-append full (codes ".partial")) in
      cc
]

module _ (u : Unicode) (cwd : Result Text) (dir q : Text) (node : Node)
    (lasting : IsLasting q) where
  taken-ne :
      (full : Text) (w : World)
      → find full w.disk ≡ none
      → find q w.disk ≡ some node
      → text_eq full q ≡ false
  taken-ne full w free there = elim (Bool-cases (text_eq full q)) [
    | inr n ↦ n
    | inl y ↦ let e = ap (λ p. find p w.disk) (text_eq_sound full q y) in cc
  ]

  -- An upload to a free name.
  save-keeps :
      (name : Text) (reader : Reader) (w : World)
      → IsLeaf name
      → IsFree cwd dir w name
      → find q w.disk ≡ some node
      → find q (save_upload_with_limit cwd dir name reader max_import_bytes w).1.disk ≡ some node
  save-keeps name reader w leaf free there = elim (Result-cases (sanitize_rel_path name)) [
    | inr (e, s) ↦ unfold save_upload_with_limit in rw s there
    | inl (out, s) ↦ elim (Result-cases (join_resolved_under_hub cwd dir out)) [
      | inr (e, j) ↦ unfold save_upload_with_limit in rw (s, j) there
      | inl (full, j) ↦
          let same : out ≡ name = sanitize_rel_path_of_IsLeaf name leaf s in
          let placed : resolved_path cwd (join_path dir name) ≡ full =
            rw (← same) (rw (join_resolved_under_hub-abs cwd dir out j) refl) in
          let empty : find full w.disk ≡ none = rw (← placed) free in
          save_upload_with_limit-elsewhere cwd dir name reader max_import_bytes out full q w (s, j)
            (taken-ne full w empty there) (IsLasting-partial full q lasting)
          ∙ there
    ]
  ]

  after_name-keeps :
      (content : Result Reader) (p : Result Text × World)
      → ((name : Text) → p.0 ≡ ok name → IsLeaf name × IsFree cwd dir p.1 name)
      → find q p.1.disk ≡ some node
      → find q
          (continue p λ dest. lift content >>= λ reader.
            save_upload_with_limit cwd dir dest reader max_import_bytes).1.disk
        ≡ some node
  after_name-keeps content (err e, w) h there = there
  after_name-keeps (err e) (ok name, w) h there = there
  after_name-keeps (ok reader) (ok name, w) h there =
      let (leaf, free) = h name refl in save-keeps name reader w leaf free there

  named-keeps :
      (src_path : Text) (content : Result Reader) (w : World)
      → find q w.disk ≡ some node
      → find q
          (continue (unique_dest_name cwd dir (base src_path) w) λ dest. lift content >>= λ reader.
            save_upload_with_limit cwd dir dest reader max_import_bytes).1.disk
        ≡ some node
  named-keeps src_path content w there =
      let disk = unique_dest_name-disk cwd dir (base src_path) w in
      after_name-keeps content (unique_dest_name cwd dir (base src_path) w)
        (λ name e.
          let (safe, s, free, numbered) = unique_dest_name-IsFree cwd dir (base src_path) w e in
          (IsNumbered-IsLeaf safe name numbered (sanitize_name-IsLeaf src_path s), rw disk free))
        (rw disk there)

  -- Whatever fails and however the import ends, a path of the hub that
  -- held a file, and is no temporary file's, holds the same file afterwards.
  pub import_regular_file-keeps :
      (src_path : Text) (source : Source) (w : World)
      → find q w.disk ≡ some node
      → find q (import_regular_file u cwd src_path source dir w).1.disk ≡ some node
  unfolding import_regular_file
  import_regular_file-keeps src_path source w there = elim (Result-cases source.stat) [
    | inr (e, s) ↦ rw s there
    | inl (found, s) ↦ elim (Bool-cases found.0) [
      | inl d ↦ rw (s, d) there
      | inr d ↦ elim (Bool-cases (ltb max_import_bytes found.1)) [
        | inl big ↦ rw (s, d, big) there
        | inr fits ↦ elim (Bool-cases (skip_import_leaf_name u (base src_path))) [
          | inl k ↦ rw (s, d, fits, k) there
          | inr k ↦ rw (s, d, fits, k) (named-keeps src_path source.content w there)
        ]
      ]
    ]
  ]
