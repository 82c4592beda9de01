-- ===== src/Text/Decimal.antt =====
-- `strconv.Itoa` and `strconv.Atoi` on numbers that are not negative.
use hubabox.Base.{
  ℕ, zero, suc, ◌+◌, ◌-◌, ◌*◌, ◌^◌, ◌/◌, ◌%◌, ◌≤◌, ◌<◌, Bool, true, false, ◌&&◌, [], ◌∷◌, ◌≡◌, refl,
  ltb, leb, ◌==◌, ◌≢◌, ◌⊎◌, if◌then◌else◌, Option, none, some, arith, Bool-cases, inl, inr, All,
  ◌∙◌, ap,
}
use hubabox.Text.{Text, is_space, text_eq}
use hubabox.Text.Trim.{no_space-IsTrimmed, IsTrimmed}

-- The digits of a number in front of a text; a number below the fuel has enough of it.
unfoldable pub digits : ℕ → ℕ → Text → Text
digits zero n s = s
digits (suc fuel) n s =
    let rest = digits fuel (n / 10) ((b'0' + n % 10) ∷ s) in
    if ltb n 10 then (b'0' + n) ∷ s else rest

-- `strconv.Itoa`
unfoldable pub itoa : ℕ → Text
itoa n = digits (suc n) n []

abbrev is_digit : ℕ → Bool
is_digit c = leb b'0' c && leb c b'9'

abbrev pub value : ℕ → Text → ℕ
value n [] = n
value n (c ∷ s) = value (n * 10 + (c - b'0')) s

abbrev all_digits : Text → Bool
all_digits [] = true
all_digits (c ∷ s) = is_digit c && all_digits s

-- An `int` has 64 bits.
abbrev pub max_int : ℕ
max_int = 2 ^ 63 - 1

abbrev unsigned : Text → Option ℕ
unsigned [] = none
unsigned (c ∷ s) =
    if all_digits (c ∷ s) && leb (value 0 (c ∷ s)) max_int then some (value 0 (c ∷ s)) else none

-- `strconv.Atoi`, where a negative number is `none`, as for the callers here it is no better than
-- an error.
unfoldable pub atoi : Text → Option ℕ
atoi [] = none
atoi (c ∷ s) = if c == b'+' then unsigned s else unsigned (c ∷ s)

-- `strconv.Atoi` where the caller treats a negative number as 0.
unfoldable pub atoi_clamped : Text → Option ℕ
atoi_clamped [] = none
atoi_clamped (c ∷ []) = atoi (c ∷ [])
atoi_clamped (c ∷ d ∷ s) =
    if c == b'-'
    then (if all_digits (d ∷ s) && leb (value 0 (d ∷ s)) (max_int + 1) then some 0 else none)
    else atoi (c ∷ d ∷ s)

value-digits : (fuel n : ℕ) (s : Text) → n < fuel → value 0 (digits fuel n s) ≡ value n s
unfolding digits
value-digits zero n s h = elim h [ ]
value-digits (suc fuel) n s h = elim (Bool-cases (ltb n 10)) [
  | inl small ↦ rw small (ap (λ v. value v s) (omega arith))
  | inr big ↦
      let less : n / 10 < fuel = ground arith in
      rw big
        (value-digits fuel (n / 10) ((b'0' + n % 10) ∷ s) less ∙ ap (λ v. value v s) (omega arith))
]

all_digits-digits :
    (fuel n : ℕ) (s : Text) → all_digits s ≡ true → all_digits (digits fuel n s) ≡ true
unfolding digits
all_digits-digits zero n s h = h
all_digits-digits (suc fuel) n s h = elim (Bool-cases (ltb n 10)) [
  | inl small ↦ rw small (ground arith)
  | inr big ↦
      let ten : n % 10 < 10 = omega arith in
      rw big (all_digits-digits fuel (n / 10) ((b'0' + n % 10) ∷ s) (ground arith))
]

digits-ne-nil : (fuel n : ℕ) (s : Text) → n < fuel ⊎ (s ≢ []) → digits fuel n s ≢ []
unfolding digits
digits-ne-nil zero n s (inl h) = elim h [ ]
digits-ne-nil zero n s (inr h) = h
digits-ne-nil (suc fuel) n s h = elim (Bool-cases (ltb n 10)) [
  | inl small ↦ rw small (λ e. cc)
  | inr big ↦ rw big (digits-ne-nil fuel (n / 10) ((b'0' + n % 10) ∷ s) (inr (λ e. cc)))
]

atoi_digits :
    (s : Text) → s ≢ [] → all_digits s ≡ true → value 0 s ≤ max_int → atoi s ≡ some (value 0 s)
unfolding atoi
atoi_digits [] n d h = absurd (n refl)
atoi_digits (c ∷ s) n d h = ground arith

-- What `Itoa` prints, `Atoi` reads back, if it is an `int`.
pub atoi-itoa : (n : ℕ) → n ≤ max_int → atoi (itoa n) ≡ some n
unfolding itoa
atoi-itoa n h =
    let s = digits (suc n) n [] in
    let same : value 0 s ≡ n = value-digits (suc n) n [] (omega arith) in
    atoi_digits s (digits-ne-nil (suc n) n [] (inl (omega arith)))
      (all_digits-digits (suc n) n [] refl) (rw same h)
    ∙ ap some same

atoi_clamped_of_digits : (s : Text) → all_digits s ≡ true → atoi_clamped s ≡ atoi s
unfolding atoi_clamped atoi
atoi_clamped_of_digits [] d = refl
atoi_clamped_of_digits (c ∷ []) d = refl
atoi_clamped_of_digits (c ∷ e ∷ s) d =
    let no_minus : (c == b'-') ≡ false = ground arith in rw no_minus refl

pub atoi_clamped-itoa : (n : ℕ) → n ≤ max_int → atoi_clamped (itoa n) ≡ some n
atoi_clamped-itoa n h =
    atoi_clamped_of_digits (itoa n) (unfold itoa in all_digits-digits (suc n) n [] refl)
    ∙ atoi-itoa n h

all_digits-All : (s : Text) → all_digits s ≡ true → All (λ c. (leb b'0' c && leb c b'9') ≡ true) s
all_digits-All [] h = tt
all_digits-All (c ∷ s) h = (ground arith, all_digits-All s (ground arith))

-- `Itoa` writes digits only.
pub itoa-All : (n : ℕ) → All (λ c. (leb b'0' c && leb c b'9') ≡ true) (itoa n)
unfolding itoa
itoa-All n = all_digits-All (itoa n) (all_digits-digits (suc n) n [] refl)

digit-not_space : (c : ℕ) → is_digit c ≡ true → is_space c ≡ false
unfolding is_space
digit-not_space c h = ground arith

digits-not_space : (s : Text) → all_digits s ≡ true → All (λ c. is_space c ≡ false) s
digits-not_space [] h = tt
digits-not_space (c ∷ s) h = (digit-not_space c (ground arith), digits-not_space s (ground arith))

pub itoa-IsTrimmed : (n : ℕ) → IsTrimmed (itoa n)
unfolding itoa
itoa-IsTrimmed n =
    no_space-IsTrimmed (itoa n) (digits-not_space (itoa n) (all_digits-digits (suc n) n [] refl))

text_eq_nil : (s : Text) → s ≢ [] → text_eq s [] ≡ false
unfolding text_eq
text_eq_nil [] n = absurd (n refl)
text_eq_nil (c ∷ s) n = refl

pub itoa-not_empty : (n : ℕ) → text_eq (itoa n) [] ≡ false
unfolding itoa
itoa-not_empty n = text_eq_nil (itoa n) (digits-ne-nil (suc n) n [] (inl (omega arith)))
