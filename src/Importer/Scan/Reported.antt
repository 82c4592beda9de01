-- ===== src/Importer/Scan/Reported.antt =====
-- The report of an import is what the page reads of it.
use hubabox.Base.{ℕ, List, [], ◌∷◌, ◌≡◌, refl, ◌≤◌, some, ap}
use hubabox.Text.{Text, text_eq}
use hubabox.Text.Assoc.{find, put, find-put, get_or}
use hubabox.Text.Decimal.{itoa, max_int, atoi_clamped-itoa}
use hubabox.World.{World, fails, later, now_seconds}
use hubabox.Importer.Scan.{
  Wording, store_all, record_result, kv_last_at, kv_last_imported, kv_last_skipped, kv_last_err,
  kv_last_mode, read_last_scan, number,
}

-- The table after the loop of `recordResult`, where nothing fails.
abbrev stored : List (Text × Text) → List (Text × Text) → List (Text × Text)
stored [] kv = kv
stored ((k, v) ∷ rest) kv = stored rest (put k v kv)

store_all-stored :
    (rows : List (Text × Text)) (w : World)
    → w.faults ≡ []
    → ((store_all rows w).1.kv ≡ stored rows w.kv) × ((store_all rows w).1.faults ≡ [])
unfolding store_all fails later
store_all-stored [] w f = (refl, f)
store_all-stored ((k, v) ∷ rest) w f =
    rw f (store_all-stored rest (record w { kv = put k v w.kv; faults = [] }) refl)

read_last_scan_of :
    (at imported skipped mode err_str : Text) (w : World)
    → w.faults ≡ []
    → find kv_last_at w.kv ≡ some at
    → find kv_last_imported w.kv ≡ some imported
    → find kv_last_skipped w.kv ≡ some skipped
    → find kv_last_mode w.kv ≡ some mode
    → find kv_last_err w.kv ≡ some err_str
    → (read_last_scan w).0 ≡ record {
      at = at;
      imported = number imported;
      skipped = number skipped;
      mode = mode;
      err_str = err_str;
    }
unfolding read_last_scan fails later
read_last_scan_of at imported skipped mode err_str w f a b c d e = rw (f, a, b, c, d, e) refl

number-itoa : (n : ℕ) → n ≤ max_int → number (itoa n) ≡ n
number-itoa n h = ap (λ o. get_or o 0) (atoi_clamped-itoa n h)

-- What `ReadLastScan` reads where nothing has failed since a successful `recordResult`: the time,
-- the counts, if they are within an int, the mode and the error.
pub read_last_scan-record_result :
    (words : Wording) (imported skipped : ℕ) (mode err_str : Text) (w : World)
    → w.faults ≡ []
    → imported ≤ max_int
    → skipped ≤ max_int
    → (read_last_scan (record_result words (imported, skipped) mode err_str w).1).0 ≡ record {
      at = words.rfc3339 (now_seconds w);
      imported = imported;
      skipped = skipped;
      mode = mode;
      err_str = err_str;
    }
unfolding record_result text_eq
read_last_scan-record_result words imported skipped mode err_str w f a b =
    let rows =
      (kv_last_at, words.rfc3339 (now_seconds w))
      ∷ (kv_last_imported, itoa imported)
      ∷ (kv_last_skipped, itoa skipped)
      ∷ (kv_last_err, err_str)
      ∷ (kv_last_mode, mode)
      ∷ [] in
    let (table, fine) = store_all-stored rows w f in
    let v = (store_all rows w).1 in
    rw
      (
        read_last_scan_of (words.rfc3339 (now_seconds w)) (itoa imported) (itoa skipped) mode
            err_str v fine (rw table (simp find-put)) (rw table (simp find-put))
            (rw table (simp find-put)) (rw table (simp find-put)) (rw table (simp find-put)),
        number-itoa imported a,
        number-itoa skipped b,
      )
      refl
