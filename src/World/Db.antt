-- ===== src/World/Db.antt =====
-- The statements on the table `kv` that the packages share.
use hubabox.Base.{Result, ok, err, no_rows, Option, none, some}
use hubabox.Text.{Text}
use hubabox.Text.Assoc.{find, put, del}
use hubabox.World.{Act, exec, query}

abbrev pub or_no_rows {ℓ} : {V : Type ℓ} → Option V → Result V
or_no_rows none = err no_rows
or_no_rows (some v) = ok v

-- `SELECT value FROM kv WHERE key = ?`
abbrev pub select_kv : Text → Act Text
select_kv key = query (λ w. or_no_rows (find key w.kv))

-- `INSERT INTO kv … ON CONFLICT(key) DO UPDATE SET value = excluded.value`
abbrev pub upsert_kv : Text → Text → Act (Unit {0})
upsert_kv key value = exec (λ w. record w { kv = put key value w.kv })

-- `DELETE FROM kv WHERE key = ?`
abbrev pub delete_kv : Text → Act (Unit {0})
delete_kv key = exec (λ w. record w { kv = del key w.kv })
