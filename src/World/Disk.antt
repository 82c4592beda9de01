-- ===== src/World/Disk.antt =====
-- File operations, on the disk of `World`. A missing folder, a full disk or a name that the file
-- system refuses are faults of the schedule.
use hubabox.Base.{
  ℕ, Bool, List, [], take, length, Result, ok, err, system, not_exist, Option, none, some,
  if◌then◌else◌, ◌&&◌, ◌||◌, leb, ◌+◌, min,
}
use hubabox.Text.{Text}
use hubabox.Text.Assoc.{find, put, del}
use hubabox.World.{World, Node, regular, Act, exec, fails, tick, ◌>>◌}

-- `os.MkdirAll(filepath.Dir(path))`: folders are not recorded, so it changes nothing here, but it can fail.
abbrev pub mkdir_all : Text → Act (Unit {0})
mkdir_all path = exec (λ w. w)

-- `os.Create`: the file is there, and empty.
abbrev pub create : Text → Act (Unit {0})
create path = exec (λ w. record w { disk = put path (regular [] w.now) w.disk })

-- What a source gives before it ends, and whether it ends with an error.
pub record Reader : Type 0 where
  pub bytes : List ℕ
  pub broken : Bool

-- `io.Copy(out, io.LimitReader(r, limit))`: the count of bytes copied. An error of the source is met
-- only if the limit does not come first; the limit is the bound and one byte more.
abbrev pub copy_limited : Text → Reader → ℕ → Act ℕ
copy_limited path r max w =
    if fails w.faults || (r.broken && leb (length r.bytes) max) then (err system, tick w) else (
      ok (min (length r.bytes) (max + 1)),
      record (tick w) { disk = put path (regular (take (max + 1) r.bytes) w.now) w.disk },
    )

abbrev move : Text → Text → Option Node → World → Result (Unit {0}) × World
move from to none w = (err not_exist, w)
move from to (some node) w = (ok tt, record w { disk = put to node (del from w.disk) })

-- `os.Rename`
abbrev pub rename : Text → Text → Act (Unit {0})
rename from to w =
    if fails w.faults then (err system, tick w) else move from to (find from w.disk) (tick w)

abbrev unlink : Text → Option Node → World → Result (Unit {0}) × World
unlink path none w = (err not_exist, w)
unlink path (some node) w = (ok tt, record w { disk = del path w.disk })

-- `os.Remove`
abbrev pub remove : Text → Act (Unit {0})
remove path w =
    if fails w.faults then (err system, tick w) else unlink path (find path w.disk) (tick w)

-- `os.WriteFile`: the file is created, and then written.
abbrev pub write_file : Text → List ℕ → Act (Unit {0})
write_file path bytes =
    create path >> exec (λ w. record w { disk = put path (regular bytes w.now) w.disk })
