-- ===== src/Importer/Scan/Same.antt =====
-- Picking every name of the import folder does what a scan does.
use hubabox.Base.{
  ◌++◌, Error, canceled, Option, none, some, ℕ, suc, Bool, true, false, List, [], ◌∷◌, ◌≡◌, refl,
  any, All, Tally, count, Result, ok, Option-cases, Bool-cases, inl, inr, err-ne-ok, empty_path,
}
use hubabox.Text.{Text, Unicode, text_eq, text_eq_refl, trim_space, trim_left, trim_right}
use hubabox.Text.Trim.{IsTrimmed, trim_space_of_IsTrimmed}
use hubabox.FilePath.{base, abs}
use hubabox.Text.Assoc.{find, find-put}
use hubabox.Text.Decimal.{itoa}
use hubabox.World.{World, fails, now_seconds}
use hubabox.Importer.{validate_paths}
use hubabox.Importer.Eligible.{Media, classify_import_file, import_file_path}
use hubabox.Importer.Scan.{
  Wording, Outcome, store_all, record_result, kv_last_at, kv_last_imported, kv_last_skipped,
  kv_last_err, kv_last_mode, import_entry, pick_src, scan_loop, select_loop, scan_with_mode,
  import_selected_names,
}

-- A name that a form can carry: trimmed, and its own base name.
abbrev pub IsPickable : Text → Type 0
IsPickable name = IsTrimmed name × (base name ≡ name)

-- Each name once, and none of those seen before.
abbrev pub IsDistinct : List Text → List Text → Type 0
IsDistinct seen [] = Unit
IsDistinct seen (name ∷ names) = (any (text_eq name) seen ≡ false) × IsDistinct (name ∷ seen) names

validate_paths-ne-nil :
    (cwd : Result Text) (dir files_dir : Text)
    → text_eq dir [] ≡ true
    → ¬ (validate_paths cwd dir files_dir ≡ ok tt)
unfolding text_eq validate_paths trim_space trim_left trim_right
validate_paths-ne-nil cwd [] files_dir e v = err-ne-ok empty_path tt v
validate_paths-ne-nil cwd (c ∷ s) files_dir e v = cc

-- Two outcomes with their states that agree in all but the reported mode; the value of one key of
-- the settings is compared.
abbrev pub IsSameAt : Text → Outcome × World → Outcome × World → Type 0
IsSameAt k p q =
    (p.0 ≡ q.0)
    × (find k p.1.kv ≡ find k q.1.kv)
    × (p.1.disk ≡ q.1.disk)
    × (p.1.sessions ≡ q.1.sessions)
    × (p.1.messages ≡ q.1.messages)
    × (p.1.faults ≡ q.1.faults)

module _ (k : Text) (other : text_eq kv_last_mode k ≡ false) where
  store_all-IsSame :
      (rows : List (Text × Text)) (a b : Text) (w : World)
      → (find k (store_all (rows ++ (kv_last_mode, a) ∷ []) w).1.kv
          ≡ find k (store_all (rows ++ (kv_last_mode, b) ∷ []) w).1.kv)
        × ((store_all (rows ++ (kv_last_mode, a) ∷ []) w).1.disk
            ≡ (store_all (rows ++ (kv_last_mode, b) ∷ []) w).1.disk)
        × ((store_all (rows ++ (kv_last_mode, a) ∷ []) w).1.sessions
            ≡ (store_all (rows ++ (kv_last_mode, b) ∷ []) w).1.sessions)
        × ((store_all (rows ++ (kv_last_mode, a) ∷ []) w).1.messages
            ≡ (store_all (rows ++ (kv_last_mode, b) ∷ []) w).1.messages)
        × ((store_all (rows ++ (kv_last_mode, a) ∷ []) w).1.faults
            ≡ (store_all (rows ++ (kv_last_mode, b) ∷ []) w).1.faults)
  unfolding store_all
  store_all-IsSame [] a b w = elim (Bool-cases (fails w.faults)) [
    | inl f ↦ rw f (refl, refl, refl, refl, refl)
    | inr f ↦
        rw (f, find-put kv_last_mode k a w.kv, find-put kv_last_mode k b w.kv, other)
          (refl, refl, refl, refl, refl)
  ]
  store_all-IsSame ((key, v) ∷ rows) a b w = elim (Bool-cases (fails w.faults)) [
    | inl f ↦ rw f (refl, refl, refl, refl, refl)
    | inr f ↦ rw f (store_all-IsSame rows a b _)
  ]

  record_result-IsSame :
      (words : Wording) (t : Tally) (e : Option Error) (a b text : Text) (w : World)
      → IsSameAt k
          ((t, e), (record_result words t a text w).1)
          ((t, e), (record_result words t b text w).1)
  unfolding record_result
  record_result-IsSame words (imported, skipped) e a b text w =
      let (key, disk, sessions, messages, faults) =
        store_all-IsSame
          ((kv_last_at, words.rfc3339 (now_seconds w))
            ∷ (kv_last_imported, itoa imported)
            ∷ (kv_last_skipped, itoa skipped)
            ∷ (kv_last_err, text)
            ∷ [])
          a b w in
      (refl, key, disk, sessions, messages, faults)

module _ (u : Unicode) (cwd : Result Text) (media : Media) (words : Wording) (ctx : ℕ → Bool)
    (import_dir files_dir pick_mode scan_mode : Text) where
  pick_src-import_entry :
      (imp name : Text) (w : World)
      → pick_src u cwd media words ctx import_dir files_dir pick_mode name
          (import_file_path cwd imp name)
          w
        ≡ import_entry u cwd media words ctx import_dir files_dir scan_mode imp name w
  unfolding import_entry
  pick_src-import_entry imp name w = elim (Option-cases (import_file_path cwd imp name)) [
    | inl e ↦ elim (Bool-cases (classify_import_file u media import_dir name).eligible) [
      | inl y ↦ rw (e, y) refl
      | inr n ↦ rw (e, n) refl
    ]
    | inr (src, e) ↦ rw e refl
  ]

  module _ (k : Text) (other : text_eq kv_last_mode k ≡ false) where
    select_loop-IsSame :
        (imp : Text) (i : ℕ) (seen names : List Text) (t : Tally) (w : World)
        → All IsPickable names
        → IsDistinct seen names
        → IsSameAt k
            (select_loop u cwd media words ctx import_dir files_dir pick_mode imp i seen names t w)
            (scan_loop u cwd media words ctx import_dir files_dir scan_mode imp i names t w)
    unfolding select_loop scan_loop
    select_loop-IsSame imp i seen [] t w h d =
        record_result-IsSame k other words t none pick_mode scan_mode [] w
    select_loop-IsSame imp i seen (name ∷ names) t w ((trimmed, own), h) (fresh, d) =
        elim (Bool-cases (ctx i)) [
          | inl c ↦ rw c (
              record_result-IsSame k other words t (some canceled) pick_mode scan_mode
                (words.error_text canceled) w)
          | inr c ↦
              let (done, w') =
                import_entry u cwd media words ctx import_dir files_dir scan_mode imp name w in
              rw
                (
                  c,
                  trim_space_of_IsTrimmed name trimmed,
                  own,
                  text_eq_refl name,
                  fresh,
                  pick_src-import_entry imp name w,
                )
                (select_loop-IsSame imp (suc i) (name ∷ seen) names (count done t) w' h d)
        ]

    -- Where the folders are accepted and the folder can be read, picking all its names, each once
    -- and as a form can carry it, has the same outcome as a scan, and leaves the same files,
    -- sessions, messages and settings, the reported mode excepted, which is the caller's own.
    pub import_selected_names-scan_with_mode :
        (imp : Text) (names : List Text) (w : World)
        → validate_paths cwd import_dir files_dir ≡ ok tt
        → abs cwd import_dir ≡ ok imp
        → media.read_dir import_dir ≡ ok names
        → All IsPickable names
        → IsDistinct [] names
        → IsSameAt k
            (import_selected_names u cwd media words ctx import_dir files_dir pick_mode names w)
            (scan_with_mode u cwd media words ctx import_dir files_dir scan_mode w)
    unfolding import_selected_names scan_with_mode
    import_selected_names-scan_with_mode imp names w v a r h d =
        elim (Bool-cases (text_eq import_dir [])) [
          | inl e ↦ absurd (validate_paths-ne-nil cwd import_dir files_dir e v)
          | inr n ↦ rw (n, v, a, r) (select_loop-IsSame imp 0 [] names (0, 0) w h d)
        ]
