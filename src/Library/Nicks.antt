-- ===== src/Library/Nicks.antt =====
-- `NormalizeDisplayNick`, and what a cookie keeps of its result.
use hubabox.Base.{◌≤◌, Bool, true, false, not, List, [], ◌∷◌, ◌≡◌, ok, arith, All, length, any}
use hubabox.Text.{Text, Unicode, trim_space}
use hubabox.Text.Trim.{trim_space-IsTrimmed, trim_space_of_IsTrimmed}
use hubabox.Library.{
  display_nick_min_runes, display_nick_max_runes, rune_of, nick_rune, normalize_display_nick,
}

any-All :
    {A : Type 0} (p : A → Bool) (xs : List A)
    → any (λ x. not (p x)) xs ≡ false
    → All (λ x. p x ≡ true) xs
any-All p [] h = tt
any-All p (x ∷ xs) h = (ground arith, any-All p xs (ground arith))

normalize_lem :
    (u : Unicode) (raw : Text) {out : Text}
    → normalize_display_nick u raw ≡ ok out
    → (trim_space raw ≡ out)
      × (display_nick_min_runes ≤ length (trim_space raw))
      × (length (trim_space raw) ≤ display_nick_max_runes)
      × (any (λ c. not (nick_rune u (rune_of c))) (trim_space raw) ≡ false)
unfolding normalize_display_nick
normalize_lem u raw e = ground arith

-- An accepted display name is the trimmed input, has 1 to 32 characters, each of them a letter, a
-- digit, a space or one of the five punctuation marks; and it is accepted again as it stands, as
-- each request does with the name in the cookie.
normalize_display_nick_lem :
    (u : Unicode) (raw : Text) {out : Text}
    → normalize_display_nick u raw ≡ ok out
    → (trim_space raw ≡ out)
      × (display_nick_min_runes ≤ length out)
      × (length out ≤ display_nick_max_runes)
      × All (λ c. nick_rune u (rune_of c) ≡ true) out
      × (normalize_display_nick u out ≡ ok out)
normalize_display_nick_lem u raw {out} e =
    let (same, low, high, none_bad) = normalize_lem u raw e in
    let again : trim_space out ≡ out =
      rw (← same) (trim_space_of_IsTrimmed (trim_space raw) (trim_space-IsTrimmed raw)) in
    (
      same,
      rw (← same) low,
      rw (← same) high,
      rw (← same) (any-All (λ c. nick_rune u (rune_of c)) (trim_space raw) none_bad),
      accepted out again (rw (← same) low) (rw (← same) high) (rw (← same) none_bad),
    )
  where
    accepted :
        (s : Text)
        → trim_space s ≡ s
        → display_nick_min_runes ≤ length s
        → length s ≤ display_nick_max_runes
        → any (λ c. not (nick_rune u (rune_of c))) s ≡ false
        → normalize_display_nick u s ≡ ok s
    accepted s t low high n = unfold normalize_display_nick in rw t (ground arith)
