-- ===== src/Upload/Atomic.antt =====
-- An upload is all or nothing: the file at its place is the old one or the whole new one.
use hubabox.Base.{
  ℕ, ◌+◌, ◌≤◌, false, [], ◌∷◌, ◌≡◌, refl, ◌∙◌, ltb, Result, ok, err, Error, system, take_all,
  Option, some, arith, length, take, Bool-cases, inl, inr, err-ne-ok, Option-cases,
}
use hubabox.Text.{Text, text_eq, text_eq_refl}
use hubabox.Text.Assoc.{find, put, del, find-put, find-del}
use hubabox.World.{World, Act, Node, regular, continue, ◌>>=◌, attempt, exec, fails, tick}
use hubabox.World.Disk.{Reader, copy_limited, mkdir_all, rename, remove, create}
use hubabox.Upload.{partial, store_file, after_copy, after_rename}

pub partial-ne_self : (full : Text) → text_eq (partial full) full ≡ false
unfolding text_eq
partial-ne_self [] = refl
partial-ne_self (c ∷ full) = ground (arith, partial-ne_self full)

-- An action that leaves what a path leads to.
abbrev pub Leaves : {A : Type 0} → Text → Act A → Type 0
Leaves q m = (w : World) → find q (m w).1.disk ≡ find q w.disk

-- An action that leaves it whenever the action ends with an error.
abbrev pub LeavesOnError : {A : Type 0} → Text → Act A → Type 0
LeavesOnError q m = (w : World) (e : Error) → (m w).0 ≡ err e → find q (m w).1.disk ≡ find q w.disk

continue-Leaves :
    {A B : Type 0} (q : Text) (p : Result A × World) (f : A → Act B)
    → ((a : A) → Leaves q (f a))
    → find q (continue p f).1.disk ≡ find q p.1.disk
continue-Leaves q (ok a, w) f h = h a w
continue-Leaves q (err e, w) f h = refl

pub bind-Leaves :
    {A B : Type 0} (q : Text) (m : Act A) (f : A → Act B)
    → Leaves q m
    → ((a : A) → Leaves q (f a))
    → Leaves q (m >>= f)
bind-Leaves q m f h k w = continue-Leaves q (m w) f k ∙ h w

continue-LeavesOnError :
    {A B : Type 0} (q : Text) (p : Result A × World) (f : A → Act B) (e : Error)
    → ((a : A) → LeavesOnError q (f a))
    → (continue p f).0 ≡ err e
    → find q (continue p f).1.disk ≡ find q p.1.disk
continue-LeavesOnError q (ok a, w) f e h c = h a w e c
continue-LeavesOnError q (err x, w) f e h c = refl

bind-LeavesOnError :
    {A B : Type 0} (q : Text) (m : Act A) (f : A → Act B)
    → Leaves q m
    → ((a : A) → LeavesOnError q (f a))
    → LeavesOnError q (m >>= f)
bind-LeavesOnError q m f h k w e c = continue-LeavesOnError q (m w) f e k c ∙ h w

pub exec-Leaves :
    (q : Text) (f : World → World)
    → ((w : World) → find q (f w).disk ≡ find q w.disk)
    → Leaves q (exec f)
exec-Leaves q f h w = elim (Bool-cases (fails w.faults)) [
  | inl e ↦ rw e
  | inr e ↦ rw e (h (tick w))
]

create-Leaves : (path q : Text) → text_eq path q ≡ false → Leaves q (create path)
create-Leaves path q n =
    exec-Leaves q (λ w. record w { disk = put path (regular [] w.now) w.disk })
      (λ w. rw (find-put path q (regular [] w.now) w.disk, n))

copy-Leaves :
    (path q : Text) (r : Reader) (max : ℕ)
    → text_eq path q ≡ false
    → Leaves q (copy_limited path r max)
copy-Leaves path q r max n w =
    ground (arith, find-put path q (regular (take (max + 1) r.bytes) w.now) w.disk)

pub remove-Leaves : (path q : Text) → text_eq path q ≡ false → Leaves q (remove path)
remove-Leaves path q n w = ground (arith, find-del path q w.disk)

rename-Leaves :
    (from to q : Text) → text_eq from q ≡ false → text_eq to q ≡ false → Leaves q (rename from to)
rename-Leaves from to q n m w = elim (Option-cases (find from w.disk)) [
  | inl e ↦ ground arith
  | inr (node, e) ↦ ground (arith, find-put to q node (del from w.disk), find-del from q w.disk)
]

-- The steps of `store_file`, from the copy on and from the temporary file on.
abbrev copying : Text → Text → Reader → ℕ → Act (Text × ℕ)
copying full safe r max =
    attempt (copy_limited (partial full) r max) >>= after_copy full (partial full) safe max

abbrev writing : Text → Text → Reader → ℕ → Act (Text × ℕ)
writing full safe r max = create (partial full) >>= λ _. copying full safe r max

module _ (full safe : Text) (r : Reader) (max : ℕ) (q : Text)
    (m : text_eq (partial full) q ≡ false) where
  after_rename-Leaves :
      (n : ℕ) (renamed : Result (Unit {0})) → Leaves q (after_rename (partial full) safe n renamed)
  after_rename-Leaves n (err e) w = remove-Leaves (partial full) q m w
  after_rename-Leaves n (ok _) w = refl

  after_copy-Leaves :
      text_eq full q ≡ false
      → (copied : Result ℕ) → Leaves q (after_copy full (partial full) safe max copied)
  after_copy-Leaves n (err e) w = remove-Leaves (partial full) q m w
  after_copy-Leaves n (ok c) w = elim (Bool-cases (ltb max c)) [
    | inl big ↦ rw big (remove-Leaves (partial full) q m w)
    | inr fits ↦ rw fits (
        bind-Leaves q (attempt (rename (partial full) full)) (after_rename (partial full) safe c)
          (rename-Leaves (partial full) full q m n) (after_rename-Leaves c) w)
  ]

  before-Leaves :
      (f : Result ℕ → Act (Text × ℕ))
      → ((copied : Result ℕ) → Leaves q (f copied))
      → Leaves q (attempt (copy_limited (partial full) r max) >>= f)
  before-Leaves f h =
      bind-Leaves q (attempt (copy_limited (partial full) r max)) f
        (copy-Leaves (partial full) q r max m) h

  -- Every path but the file's own and that of its temporary file is left alone, however the upload
  -- ends.
  pub store_file-elsewhere : text_eq full q ≡ false → Leaves q (store_file full safe r max)
  unfolding store_file
  store_file-elsewhere n =
      bind-Leaves q (mkdir_all full) (λ _. writing full safe r max)
        (exec-Leaves q (λ w. w) (λ w. refl))
        λ _.
          bind-Leaves q (create (partial full)) (λ _. copying full safe r max)
            (create-Leaves (partial full) q m)
            λ _. before-Leaves (after_copy full (partial full) safe max) (after_copy-Leaves n)

  renaming-LeavesOnError :
      (c : ℕ)
      → LeavesOnError q
          (attempt (rename (partial full) full) >>= after_rename (partial full) safe c)
  renaming-LeavesOnError c w e h = elim (Option-cases (find (partial full) w.disk)) [
    | inl gone ↦ ground (arith, find-del (partial full) q w.disk)
    | inr (node, there) ↦ ground (arith, find-del (partial full) q w.disk)
  ]

  after_copy-LeavesOnError :
      (copied : Result ℕ) → LeavesOnError q (after_copy full (partial full) safe max copied)
  after_copy-LeavesOnError (err x) w e h = remove-Leaves (partial full) q m w
  after_copy-LeavesOnError (ok c) w e h = elim (Bool-cases (ltb max c)) [
    | inl big ↦ rw big (remove-Leaves (partial full) q m w)
    | inr fits ↦ rw fits (renaming-LeavesOnError c w e (rw fits at h))
  ]

  -- An upload that fails leaves every path but that of the temporary file as it was: the file that
  -- was to be replaced too.
  pub store_file-LeavesOnError : LeavesOnError q (store_file full safe r max)
  unfolding store_file
  store_file-LeavesOnError =
      bind-LeavesOnError q (mkdir_all full) (λ _. writing full safe r max)
        (exec-Leaves q (λ w. w) (λ w. refl))
        λ _.
          bind-LeavesOnError q (create (partial full)) (λ _. copying full safe r max)
            (create-Leaves (partial full) q m)
            λ _.
              bind-LeavesOnError q (attempt (copy_limited (partial full) r max))
                (after_copy full (partial full) safe max) (copy-Leaves (partial full) q r max m)
                after_copy-LeavesOnError

-- What a successful upload has left at its place, and what it has answered.
abbrev pub IsStored : Text → Reader → ℕ → Text × ℕ → Option Node → ℕ → Type 0
IsStored safe r max answer found now =
    (answer ≡ (safe, length r.bytes))
    × (length r.bytes ≤ max)
    × (found ≡ some (regular r.bytes now))

module _ (full safe : Text) (r : Reader) (max : ℕ) (answer : Text × ℕ) where
  copying-IsStored :
      (w : World)
      → (copying full safe r max w).0 ≡ ok answer
      → IsStored safe r max answer (find full (copying full safe r max w).1.disk) w.now
  copying-IsStored w e =
      let bytes = take (max + 1) r.bytes in
      let tmp = regular bytes w.now in
      let d = put (partial full) tmp w.disk in
      ground (
        arith,
        find-put (partial full) (partial full) tmp w.disk,
        text_eq_refl (partial full),
        find-put full full tmp (del (partial full) d),
        text_eq_refl full,
        take_all (max + 1) r.bytes,
      )

  writing-IsStored :
      (w : World)
      → (writing full safe r max w).0 ≡ ok answer
      → IsStored safe r max answer (find full (writing full safe r max w).1.disk) w.now
  writing-IsStored w e = elim (Bool-cases (fails w.faults)) [
    | inl f ↦ absurd (err-ne-ok system answer (rw f at e))
    | inr f ↦ rw f (copying-IsStored _ (rw f at e))
  ]

  -- A successful upload has stored the whole content of its source, and its answer is the size,
  -- which is within the bound.
  pub store_file-IsStored :
      (w : World)
      → (store_file full safe r max w).0 ≡ ok answer
      → IsStored safe r max answer (find full (store_file full safe r max w).1.disk) w.now
  unfolding store_file
  store_file-IsStored w e = elim (Bool-cases (fails w.faults)) [
    | inl f ↦ absurd (err-ne-ok system answer (rw f at e))
    | inr f ↦ rw f (writing-IsStored (tick w) (rw f at e))
  ]
