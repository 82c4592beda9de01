-- ===== src/Importer/Scan/Kept.antt =====
-- Neither import overwrites or removes a file of the hub, and both count every file once.
use hubabox.Base.{
  ℕ, suc, ◌+◌, Bool, true, false, List, [], ◌∷◌, ◌≡◌, refl, length, Tally, count, count_sum, Result,
  ok, err, Option, none, some, arith, Bool-cases, inl, inr,
}
use hubabox.Text.{Text, Unicode, text_eq, trim_space}
use hubabox.Text.Assoc.{find}
use hubabox.World.{World, Node, fails}
use hubabox.Import.Keeps.{IsLasting, import_regular_file-keeps}
use hubabox.Importer.Eligible.{Media, classify_import_file, import_file_path}
use hubabox.Importer.Scan.{
  Wording, Outcome, store_all, record_result, import_entry, scan_loop, scan_with_mode, select_loop,
  import_selected_names, pick_src, pick_entry, import_src, scan_prepared, select_prepared,
}

store_all-disk : (rows : List (Text × Text)) (w : World) → (store_all rows w).1.disk ≡ w.disk
unfolding store_all
store_all-disk [] w = refl
store_all-disk ((k, v) ∷ rest) w = elim (Bool-cases (fails w.faults)) [
  | inl f ↦ rw f refl
  | inr f ↦ rw f (store_all-disk rest _)
]

record_result-disk :
    (words : Wording) (t : Tally) (mode text : Text) (w : World)
    → (record_result words t mode text w).1.disk ≡ w.disk
unfolding record_result
record_result-disk words t mode text w = store_all-disk _ w

module _ (u : Unicode) (cwd : Result Text) (media : Media) (words : Wording) (ctx : ℕ → Bool)
    (import_dir files_dir mode : Text) where
  abbrev scan : World → Outcome × World
  scan w = scan_with_mode u cwd media words ctx import_dir files_dir mode w

  abbrev selected : List Text → World → Outcome × World
  selected names w = import_selected_names u cwd media words ctx import_dir files_dir mode names w

  module _ (q : Text) (node : Node) (lasting : IsLasting q) where
    abbrev Holds : World → Type 0
    Holds w = find q w.disk ≡ some node

    ended-keeps :
        (t : Tally) (text : Text) (w : World)
        → Holds w
        → Holds (record_result words t mode text w).1
    ended-keeps t text w h = rw (record_result-disk words t mode text w) h

    import_src-keeps :
        (o : Option Text) (w : World)
        → Holds w
        → Holds (import_src u cwd media words ctx import_dir files_dir mode o w).1
    import_src-keeps none w h = h
    import_src-keeps (some src) w h =
        import_regular_file-keeps u cwd files_dir q node lasting src (media.source src) w h

    import_entry-keeps :
        (imp name : Text) (w : World)
        → Holds w
        → Holds (import_entry u cwd media words ctx import_dir files_dir mode imp name w).1
    unfolding import_entry
    import_entry-keeps imp name w h =
        elim (Bool-cases (classify_import_file u media import_dir name).eligible) [
          | inl y ↦ rw y (import_src-keeps (import_file_path cwd imp name) w h)
          | inr n ↦ rw n h
        ]

    pick_src-keeps :
        (name : Text) (o : Option Text) (w : World)
        → Holds w
        → Holds (pick_src u cwd media words ctx import_dir files_dir mode name o w).1
    pick_src-keeps name none w h = h
    pick_src-keeps name (some src) w h =
        elim (Bool-cases (classify_import_file u media import_dir name).eligible) [
          | inl y ↦ rw y (import_src-keeps (some src) w h)
          | inr n ↦ rw n h
        ]

    pick_entry-keeps :
        (imp : Text) (is_new : Bool) (name : Text) (w : World)
        → Holds w
        → Holds (pick_entry u cwd media words ctx import_dir files_dir mode imp is_new name w).1
    pick_entry-keeps imp true name w h = pick_src-keeps name (import_file_path cwd imp name) w h
    pick_entry-keeps imp false name w h = h

    scan_loop-keeps :
        (imp : Text) (i : ℕ) (names : List Text) (t : Tally) (w : World)
        → Holds w
        → Holds (scan_loop u cwd media words ctx import_dir files_dir mode imp i names t w).1
    unfolding scan_loop
    scan_loop-keeps imp i [] t w h = ended-keeps t [] w h
    scan_loop-keeps imp i (name ∷ names) t w h = elim (Bool-cases (ctx i)) [
      | inl c ↦ rw c (ended-keeps t _ w h)
      | inr c ↦ rw c (scan_loop-keeps imp (suc i) names _ _ (import_entry-keeps imp name w h))
    ]

    select_loop-keeps :
        (imp : Text) (i : ℕ) (seen names : List Text) (t : Tally) (w : World)
        → Holds w
        → Holds (select_loop u cwd media words ctx import_dir files_dir mode imp i seen names t w).1
    unfolding select_loop
    select_loop-keeps imp i seen [] t w h = ended-keeps t [] w h
    select_loop-keeps imp i seen (raw ∷ names) t w h = elim (Bool-cases (ctx i)) [
      | inl c ↦ rw c (ended-keeps t _ w h)
      | inr c ↦
          rw c (
            select_loop-keeps imp (suc i) _ names _ _ (pick_entry-keeps imp _ (trim_space raw) w h))
    ]

    scan_prepared-keeps :
        (p : Result (Text × List Text)) (w : World)
        → Holds w
        → Holds (scan_prepared u cwd media words ctx import_dir files_dir mode p w).1
    scan_prepared-keeps (err e) w h = ended-keeps (0, 0) _ w h
    scan_prepared-keeps (ok (imp, names)) w h = scan_loop-keeps imp 0 names (0, 0) w h

    select_prepared-keeps :
        (names : List Text) (p : Result Text) (w : World)
        → Holds w
        → Holds (select_prepared u cwd media words ctx import_dir files_dir mode names p w).1
    select_prepared-keeps names (err e) w h = h
    select_prepared-keeps names (ok imp) w h = select_loop-keeps imp 0 [] names (0, 0) w h

    -- Whatever is in the import folder, whatever fails and whenever the context ends, a scan of the
    -- folder and an import of picked names leave each file of the hub as it was, the temporary files
    -- of uploads excepted.
    pub scan_with_mode-keeps :
        (names : List Text) (w : World)
        → find q w.disk ≡ some node
        → (find q (scan_with_mode u cwd media words ctx import_dir files_dir mode w).1.disk
            ≡ some node)
          × (find q
                (import_selected_names u cwd media words ctx import_dir files_dir mode names
                  w).1.disk
              ≡ some node)
    unfolding scan_with_mode import_selected_names
    scan_with_mode-keeps names w h = (
      elim (Bool-cases (text_eq import_dir [])) [
        | inl e ↦ rw e h
        | inr e ↦ rw e (scan_prepared-keeps _ w h)
      ],
      select_prepared-keeps names _ w h,
    )

  scan_loop-sum :
      (imp : Text) (i : ℕ) (names : List Text) (t : Tally) (w : World)
      → (scan_loop u cwd media words ctx import_dir files_dir mode imp i names t w).0.1 ≡ none
      → let (t', e) =
          (scan_loop u cwd media words ctx import_dir files_dir mode imp i names t w).0 in
        t'.0 + t'.1 ≡ t.0 + t.1 + length names
  unfolding scan_loop
  scan_loop-sum imp i [] t w h = omega arith
  scan_loop-sum imp i (name ∷ names) t w h = elim (Bool-cases (ctx i)) [
    | inl c ↦ some_ne_none (rw c at h)
    | inr c ↦
        let (done, w') = import_entry u cwd media words ctx import_dir files_dir mode imp name w in
        rw c (
          omega (
            arith,
            scan_loop-sum imp (suc i) names (count done t) w' (rw c at h),
            count_sum done t,
          ))
  ]
    where
      some_ne_none : {A B : Type 0} {a : A} → some a ≡ none → B
      some_ne_none h = cc
