-- ===== src/Auth/Passwords.antt =====
-- Setting and checking the administrator's password.
use hubabox.Base.{
  true, false, ◌≡◌, refl, ok, err, some, arith, invalid_password, Result-cases, err-ne-ok, inl, inr,
  [], Bool-cases, if◌then◌else◌,
}
use hubabox.Text.{Text, text_eq, text_eq_refl}
use hubabox.Text.Assoc.{find, find-put}
use hubabox.World.{World, fails}
use hubabox.Auth.{
  Bcrypt, kv_admin_password, has_admin_password, set_admin_password, check_admin_password,
}

-- What the code relies on: a hash matches the password that it was made of, and is not empty.
pub record BcryptLaws (b : Bcrypt) : Type 0 where
  pub matches :
      (plain salt : Text) {hash : Text}
      → b.generate plain salt ≡ ok hash
      → b.compare hash plain ≡ true
  pub not_empty :
      (plain salt : Text) {hash : Text} → b.generate plain salt ≡ ok hash → text_eq hash [] ≡ false

set_admin_password_lem :
    (b : Bcrypt) (salt plain : Text) (w : World)
    → (set_admin_password b salt plain w).0 ≡ ok tt
    → (hash : Text) × (b.generate plain salt ≡ ok hash)
      × (find kv_admin_password (set_admin_password b salt plain w).1.kv ≡ some hash)
unfolding set_admin_password
set_admin_password_lem b salt plain w e = elim (Result-cases (b.generate plain salt)) [
  | inr (x, q) ↦ absurd (err-ne-ok x tt (rw q at e))
  | inl (hash, q) ↦ (
    hash,
    q,
    ground (
      arith,
      find-put kv_admin_password kv_admin_password hash w.kv,
      text_eq_refl kv_admin_password,
    ),
  )
]

-- If a hash matches the password that it was made of and is not empty: once `SetAdminPassword` has
-- succeeded, while the password is not changed and the query does not fail, the hub is set up,
-- `CheckAdminPassword` accepts that password, and it accepts another exactly if bcrypt matches it
-- with the hash that was made of the password set.
pub set_admin_password-check :
    (b : Bcrypt) (salt plain other : Text) (w v : World)
    → BcryptLaws b
    → (set_admin_password b salt plain w).0 ≡ ok tt
    → v.kv ≡ (set_admin_password b salt plain w).1.kv
    → fails v.faults ≡ false
    → (hash : Text) × (b.generate plain salt ≡ ok hash)
      × ((has_admin_password v).0 ≡ ok true)
      × ((check_admin_password b plain v).0 ≡ ok tt)
      × ((check_admin_password b other v).0
          ≡ (if b.compare hash other then ok tt else err invalid_password))
unfolding has_admin_password check_admin_password
set_admin_password-check b salt plain other w v laws e s f =
    let (hash, q, found) = set_admin_password_lem b salt plain w e in
    let stored : find kv_admin_password v.kv ≡ some hash = rw s found in
    (
      hash,
      q,
      rw (f, stored, laws.not_empty plain salt q) refl,
      rw (f, stored, laws.matches plain salt q) refl,
      elim (Bool-cases (b.compare hash other)) [
        | inl m ↦ rw (f, stored, m) refl
        | inr m ↦ rw (f, stored, m) refl
      ],
    )
