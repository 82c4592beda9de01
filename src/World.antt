-- ===== src/World.antt =====
-- The state that the hub's operations share, and actions over it: the SQLite tables of
-- hubabox-proj/internal/db/migrate.go, the files on disk, the clock, and a schedule of faults.
--
-- Every statement and every file operation consumes one entry of the schedule: `true` makes it fail
-- with an error of the system, and when the schedule has run out nothing fails any more. Theorems
-- quantify over the schedule, so they speak of every pattern of failures.
pub mod Db
pub mod Disk
use hubabox.Base.{
  ℕ, Bool, true, false, List, [], ◌∷◌, Result, ok, err, Error, system, Option, none, some,
  if◌then◌else◌, ◌/◌, ◌≡◌, refl, err-ne-ok,
}
use hubabox.Text.{Text}

-- `Message`, a row of `library_chat_messages`. `created_at` counts Unix seconds: the column holds
-- UTC times in RFC 3339, whose order as texts is the order in time. An `audio_file` that is NULL is
-- `none`.
pub record Message : Type 0 where
  pub id : ℕ
  pub created_at : ℕ
  pub author_nick : Text
  pub body : Text
  pub audio_file : Option Text

-- What a path leads to, with the modification time of a file.
pub data Node : Type 0 where
  regular : List ℕ → ℕ → Node
  folder : Node
  symlink : Node

pub record World : Type 0 where
  pub kv : List (Text × Text)
  -- expiry in Unix seconds, written as RFC 3339 in UTC
  pub sessions : List (Text × ℕ)
  -- in the order of their ids
  pub messages : List Message
  pub next_id : ℕ
  pub disk : List (Text × Node)
  -- nanoseconds since the Unix epoch
  pub now : ℕ
  pub faults : List Bool

abbrev pub second : ℕ
second = 1_000_000_000

-- `time.Now().UTC().Format(time.RFC3339)` keeps whole seconds.
abbrev pub now_seconds : World → ℕ
now_seconds w = w.now / second

abbrev pub Act : Type 0 → Type 0
Act A = World → Result A × World

abbrev pub continue : {A B : Type 0} → Result A × World → (A → Act B) → Result B × World
continue (ok a, w) f = f a w
continue (err e, w) f = (err e, w)

infixl 5 ◌>>=◌ ◌>>◌
abbrev pub ◌>>=◌ : {A B : Type 0} → Act A → (A → Act B) → Act B
◌>>=◌ m f w = continue (m w) f

abbrev pub ◌>>◌ : {A B : Type 0} → Act A → Act B → Act B
m >> k = m >>= λ _. k

abbrev pub return : {A : Type 0} → A → Act A
return a w = (ok a, w)

abbrev pub raise : {A : Type 0} → Error → Act A
raise e w = (err e, w)

abbrev pub lift : {A : Type 0} → Result A → Act A
lift r w = (r, w)

-- The result as a value: `if err != nil` tests it, and `_ = f()` drops it.
abbrev pub attempt : {A : Type 0} → Act A → Act (Result A)
attempt m w = let (r, w') = m w in (ok r, w')

abbrev pub refuse_if : Bool → Error → Act (Unit {0})
refuse_if true e w = (err e, w)
refuse_if false e w = (ok tt, w)

-- Whether the next operation fails, and the schedule behind it.
unfoldable pub fails : List Bool → Bool
fails [] = false
fails (b ∷ bs) = b

unfoldable pub later : List Bool → List Bool
later [] = []
later (b ∷ bs) = bs

abbrev pub tick : World → World
tick w = record w { faults = later w.faults }

-- An operation that changes the state, or fails and changes nothing.
abbrev pub exec : (World → World) → Act (Unit {0})
exec f w = if fails w.faults then (err system, tick w) else (ok tt, f (tick w))

-- An operation that reads the state.
abbrev pub query : {A : Type 0} → (World → Result A) → Act A
query f w = if fails w.faults then (err system, tick w) else (f w, tick w)

-- Inversion of a successful sequence.
pub continue-eq-ok :
    {A B : Type 0} (p : Result A × World) (f : A → Act B) {b : B}
    → (continue p f).0 ≡ ok b
    → (a : A) × (p.0 ≡ ok a) × ((f a p.1).0 ≡ ok b)
continue-eq-ok (ok a, w) f e = (a, refl, e)
continue-eq-ok (err x, w) f e = absurd (err-ne-ok x _ e)
