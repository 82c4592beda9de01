-- ===== src/Server/LibraryForms/Laws.antt =====
-- Who is let into the library, and what is left of it once it is switched off.
use hubabox.Base.{
  Bool, true, false, ◌≡◌, ◌≢◌, refl, ◌∙◌, List, [], ◌∷◌, Result, ok, err, some, arith, Bool-cases,
  Result-cases, inl, inr,
}
use hubabox.Text.{Text, Unicode, codes, trim_space}
use hubabox.Text.Assoc.{find}
use hubabox.World.{World, continue, fails, later, attempt}
use hubabox.Library.{
  kv_enabled, kv_token, is_enabled, match_library_code, normalize_display_nick, disable,
}
use hubabox.Library.Codes.{IsCode, normal, match_library_code_sound, is_enabled_lem, disable-locked}
use hubabox.FilePath.{join_path}
use hubabox.World.Disk.{remove}
use hubabox.Chat.{clear_all, remove_all, clip_folder, listing}
use hubabox.Chat.Pruned.{clear_all_messages}
use hubabox.Server.{Request, redirect, library_cookie, form_value}
use hubabox.Server.Accounts.{Cookie, keep_cookie, respond}
use hubabox.Server.LibraryForms.{
  library_nick_cookie, library_max_age, clear_library_guest_cookies, library_unlock, unlock,
  unlock_form, unlocked, library_disable_post, named,
}

-- A guest who is let in: the form has the code of the library, which is on, and a display name, and
-- the answer's cookies hold the whole code and that name.
abbrev pub LetsIn : Unicode → List (Text × Text) → List (Text × Text) → List Cookie → Type 0
LetsIn u form kv cookies =
    (tok nick : Text) × (cookies
      ≡ keep_cookie library_cookie tok library_max_age
        ∷ keep_cookie library_nick_cookie nick library_max_age
        ∷ [])
    × (find kv_enabled kv ≡ some (codes "1"))
    × (find kv_token kv ≡ some tok)
    × IsCode tok (normal u (trim_space (form_value (codes "token") form)))
    × (normalize_display_nick u (trim_space (form_value (codes "display_name") form)) ≡ ok nick)

unlocked_lem :
    (u : Unicode) (display : Text) (r : Result (Text × Bool))
    → (unlocked u display r).1 ≢ []
    → (tok nick : Text) × (r ≡ ok (tok, true))
      × (normalize_display_nick u display ≡ ok nick)
      × ((unlocked u display r).1
          ≡ keep_cookie library_cookie tok library_max_age
            ∷ keep_cookie library_nick_cookie nick library_max_age
            ∷ [])
unlocked_lem u display (err e) n = absurd (n refl)
unlocked_lem u display (ok (tok, false)) n = absurd (n refl)
unlocked_lem u display (ok (tok, true)) n = elim (Result-cases (normalize_display_nick u display)) [
  | inr (e, q) ↦ absurd (n (rw q refl))
  | inl (nick, q) ↦ (tok, nick, refl, q, rw q refl)
]

unlock_lem :
    (u : Unicode) (req : Request) (p : Result Bool × World)
    → (respond (continue p (unlock u req))).0.1 ≢ []
    → (form : List (Text × Text)) × (req.form ≡ ok form)
      × LetsIn u form p.1.kv (respond (continue p (unlock u req))).0.1
unlock_lem u req (err e, v) n = absurd (n refl)
unlock_lem u req (ok false, v) n = absurd (n refl)
unlock_lem u req (ok true, v) n = go req.form n
  where
    go :
        (f : Result (List (Text × Text)))
        → (respond (unlock_form u f v)).0.1 ≢ []
        → (form : List (Text × Text)) × (f ≡ ok form)
          × LetsIn u form v.kv (respond (unlock_form u f v)).0.1
    go (err e) n = absurd (n refl)
    go (ok form) n =
        let code = trim_space (form_value (codes "token") form) in
        let display = trim_space (form_value (codes "display_name") form) in
        let (tok, nick, m, named, set) = unlocked_lem u display (match_library_code u code v).0 n in
        let (on, stored, not_empty, same) = match_library_code_sound u code v m in
        (form, refl, (tok, nick, set, on, stored, same, named))

-- `libraryUnlock` sets cookies only for a form with the code of the library, while that is on, and a
-- valid display name; the cookies are then the whole stored code and the normalised name.
pub library_unlock-LetsIn :
    (u : Unicode) (req : Request) (w : World)
    → (library_unlock u req w).0.1 ≢ []
    → (form : List (Text × Text)) × (req.form ≡ ok form)
      × LetsIn u form w.kv (library_unlock u req w).0.1
unfolding library_unlock
library_unlock-LetsIn u req w n =
    let (form, f, (tok, nick, set, on, stored, same, named)) = unlock_lem u req (is_enabled w) n in
    let kept = (is_enabled_lem w).0 in
    (form, f, (tok, nick, set, rw (← kept) on, rw (← kept) stored, same, named))

remove_all-kv : (dir : Text) (names : List Text) (w : World) → (remove_all dir names w).1.kv ≡ w.kv
unfolding remove_all
remove_all-kv dir [] w = refl
remove_all-kv dir (name ∷ names) w =
    remove_all-kv dir names (attempt (remove (join_path dir name)) w).1
    ∙ remove-kv (join_path dir name) w
  where
    remove-kv : (path : Text) (w : World) → (remove path w).1.kv ≡ w.kv
    remove-kv path w = ground arith

clear_all-kv :
    (cwd : Result Text) (data_dir : Text) (w : World) → (clear_all cwd data_dir w).1.kv ≡ w.kv
unfolding clear_all
clear_all-kv cwd data_dir w = elim (Bool-cases (fails w.faults)) [
  | inl f ↦ rw f refl
  | inr f ↦ elim (Bool-cases (fails (later w.faults))) [
    | inl g ↦ rw (f, g) refl
    | inr g ↦
        rw (f, g)
          (remove_all-kv (clip_folder cwd data_dir) (listing (clip_folder cwd data_dir) w.disk) _)
  ]
]

disable_runs :
    (w : World) → w.faults ≡ [] → ((disable w).0 ≡ ok tt) × (fails (disable w).1.faults ≡ false)
unfolding disable fails later
disable_runs w f = rw f (refl, refl)

-- When nothing fails, `libraryDisablePost` empties the chat, removes the guest cookies of the
-- browser, and leaves a state in which no submission is granted as the code.
pub library_disable_post-locked :
    (u : Unicode) (cwd : Result Text) (data_dir submitted tok : Text) (w : World)
    → w.faults ≡ []
    → ((library_disable_post cwd data_dir w).0
        ≡ (redirect (codes "/files?msg=library_off"), clear_library_guest_cookies))
      × ((library_disable_post cwd data_dir w).1.messages ≡ [])
      × ((match_library_code u submitted (library_disable_post cwd data_dir w).1).0
          ≢ ok (tok, true))
unfolding library_disable_post
library_disable_post-locked u cwd data_dir submitted tok w f =
    let (done, fine) = disable_runs w f in
    let (cleared, next) = clear_all_messages cwd data_dir (disable w).1 in
    (
      rw done refl,
      rw done (cleared ∙ rw fine refl),
      disable-locked u submitted w _ tok done (rw done (clear_all-kv cwd data_dir (disable w).1)),
    )
