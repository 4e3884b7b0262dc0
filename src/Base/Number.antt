-- ===== src/Base/Number.antt =====
-- Decimal numbers in texts: `str(n)` or `"%d" % n`, and `int(text)`.
use Prim.Native.Nat.{ℕ, zero, suc, ◌+◌, ◌*◌, ◌/◌, ◌%◌, ◌<◌}
use Prim.Native.String.{String, ◌++◌ as ◌<>◌, slice}
use mathlib.Core.Path.{◌≡◌, refl, ap, ◌∙◌}
use mathlib.Core.Bool.{false}
use mathlib.Core.Option.{Option, none, some}
use native.Mathlib.Omega.{arith}
use text.Mathlib.Text.{◌==◌, find?}
use text.Mathlib.TextLemmas.{nil-append, cons-append, append-ne-nil_of_right_ne-nil}
use ros_team_workspace.Base.Logic.{if◌then◌else◌, ltb, ltb→lt, ltb→le, Bool-cases}
use mathlib.Core.Logic.{◌≢◌, inl, inr}

abbrev digits : String
digits = "0123456789"

abbrev digit : ℕ → String
digit d = slice digits d (suc d)

-- The digits of a number. The fuel is one more than the number, which has at most as many digits.
unfoldable number_from : ℕ → ℕ → String
number_from zero n = ""
number_from (suc fuel) n =
    let rest = number_from fuel (n / 10) in if ltb n 10 then digit n else rest <> digit (n % 10)

unfoldable pub number_text : ℕ → String
unfolding number_from
number_text n = number_from (suc n) n

abbrev shift : ℕ → Option ℕ → Option ℕ
shift value none = none
shift value (some d) = some (value * 10 + d)

-- The value of digits, after those that make `value`.
unfoldable digits_value : Option ℕ → String → Option ℕ
digits_value acc String.[] = acc
digits_value none (String.◌∷◌ c s) = none
digits_value (some value) (String.◌∷◌ c s) =
    digits_value (shift value (find? digits (String.◌∷◌ c ""))) s

-- `int(text)` for a text of digits; `none` for a text with another character, or with none.
unfoldable pub int_of : String → Option ℕ
unfolding digits_value
int_of String.[] = none
int_of (String.◌∷◌ c s) = digits_value (some 0) (String.◌∷◌ c s)

read : int_of (number_text 9070) ≡ some 9070
unfolding int_of number_text digits_value number_from
read = refl

-- A property of the ten digits.
pub each_digit {ℓ} :
    (P : ℕ → Type ℓ)
    → P 0
    → P 1
    → P 2
    → P 3
    → P 4
    → P 5
    → P 6
    → P 7
    → P 8
    → P 9
    → (d : ℕ) → d < 10
    → P d
each_digit P p0 p1 p2 p3 p4 p5 p6 p7 p8 p9 zero h = p0
each_digit P p0 p1 p2 p3 p4 p5 p6 p7 p8 p9 (suc zero) h = p1
each_digit P p0 p1 p2 p3 p4 p5 p6 p7 p8 p9 (suc (suc zero)) h = p2
each_digit P p0 p1 p2 p3 p4 p5 p6 p7 p8 p9 (suc (suc (suc zero))) h = p3
each_digit P p0 p1 p2 p3 p4 p5 p6 p7 p8 p9 (suc (suc (suc (suc zero)))) h = p4
each_digit P p0 p1 p2 p3 p4 p5 p6 p7 p8 p9 (suc (suc (suc (suc (suc zero))))) h = p5
each_digit P p0 p1 p2 p3 p4 p5 p6 p7 p8 p9 (suc (suc (suc (suc (suc (suc zero)))))) h = p6
each_digit P p0 p1 p2 p3 p4 p5 p6 p7 p8 p9 (suc (suc (suc (suc (suc (suc (suc zero))))))) h = p7
each_digit P p0 p1 p2 p3 p4 p5 p6 p7 p8 p9 (suc (suc (suc (suc (suc (suc (suc (suc zero)))))))) h =
    p8
each_digit P p0 p1 p2 p3 p4 p5 p6 p7 p8 p9
      (suc (suc (suc (suc (suc (suc (suc (suc (suc zero))))))))) h =
    p9
each_digit P p0 p1 p2 p3 p4 p5 p6 p7 p8 p9
      (suc (suc (suc (suc (suc (suc (suc (suc (suc (suc n)))))))))) h =
    absurd (omega arith)

-- Reading one more digit.
value-digit : (value d : ℕ) → d < 10 → digits_value (some value) (digit d) ≡ some (value * 10 + d)
unfolding digits_value
value-digit value =
    each_digit (λ d. digits_value (some value) (digit d) ≡ some (value * 10 + d)) refl refl refl
      refl refl refl refl refl refl refl

value-append :
    (s : String) (acc : Option ℕ) (t : String)
    → digits_value acc (s <> t) ≡ digits_value (digits_value acc s) t
unfolding digits_value
value-append String.[] acc t = rw nil-append refl
value-append (String.◌∷◌ c s) none t = rw cons-append (none-value t)
  where
    none-value : (t : String) → none ≡ digits_value none t
    none-value String.[] = refl
    none-value (String.◌∷◌ c s) = refl
value-append (String.◌∷◌ c s) (some value) t =
    rw cons-append (value-append s (shift value (find? digits (String.◌∷◌ c ""))) t)

number-value : (fuel n : ℕ) → n < fuel → digits_value (some 0) (number_from fuel n) ≡ some n
unfolding number_from
number-value zero n h = elim h [ ]
number-value (suc fuel) n h = elim (Bool-cases (ltb n 10)) [
  | inl small ↦ rw small (value-digit 0 n (ltb→lt n 10 small) ∙ ap some zero_shift)
  | inr large ↦ rw large (
      value-append (number_from fuel (n / 10)) (some 0) (digit (n % 10))
      ∙ rw (number-value fuel (n / 10) (enough large))
          (value-digit (n / 10) (n % 10) (omega arith) ∙ ap some whole))
]
  where
    enough : ltb n 10 ≡ false → n / 10 < fuel
    enough large = omega (arith, ltb→le n 10 large)

    zero_shift : 0 * 10 + n ≡ n
    zero_shift = omega arith

    whole : n / 10 * 10 + n % 10 ≡ n
    whole = omega arith

digit-ne-nil : (d : ℕ) → d < 10 → digit d ≢ ""
digit-ne-nil = each_digit (λ d. digit d ≢ "") (cc) (cc) (cc) (cc) (cc) (cc) (cc) (cc) (cc) (cc)

number-ne-nil : (n : ℕ) → number_text n ≢ ""
unfolding number_text number_from
number-ne-nil n = elim (Bool-cases (ltb n 10)) [
  | inl small ↦ rw small (digit-ne-nil n (ltb→lt n 10 small))
  | inr large ↦
      rw large (
        append-ne-nil_of_right_ne-nil (number_from n (n / 10))
          (digit-ne-nil (n % 10) (omega arith)))
]

-- What `int` reads of the text of a number is the number.
pub int_of-number_text : (n : ℕ) → int_of (number_text n) ≡ some n
unfolding int_of number_text
int_of-number_text n = from (number_text n) (number-ne-nil n) (number-value (suc n) n (omega arith))
  where
    from : (s : String) → s ≢ "" → digits_value (some 0) s ≡ some n → int_of s ≡ some n
    from String.[] given h = absurd (given refl)
    from (String.◌∷◌ c s) given h = h

-- No character of the text is this one.
abbrev pub Without : String → String → Type 0
Without c String.[] = Unit
Without c (String.◌∷◌ d s) = ((String.◌∷◌ d "" == c) ≡ false) × Without c s

append-Without : (c s t : String) → Without c s → Without c t → Without c (s <> t)
append-Without c String.[] t left right = rw nil-append right
append-Without c (String.◌∷◌ d s) t (first, left) right =
    rw cons-append (first, append-Without c s t left right)

digit-Without : (d : ℕ) → d < 10 → Without "." (digit d)
digit-Without =
    each_digit (λ d. Without "." (digit d)) (refl, tt) (refl, tt) (refl, tt) (refl, tt) (refl, tt)
      (refl, tt) (refl, tt) (refl, tt) (refl, tt) (refl, tt)

number_from-Without : (fuel n : ℕ) → Without "." (number_from fuel n)
unfolding number_from
number_from-Without zero n = tt
number_from-Without (suc fuel) n = elim (Bool-cases (ltb n 10)) [
  | inl small ↦ rw small (digit-Without n (ltb→lt n 10 small))
  | inr large ↦ rw large (
      append-Without "." (number_from fuel (n / 10)) (digit (n % 10))
        (number_from-Without fuel (n / 10)) (digit-Without (n % 10) (omega arith)))
]

pub number_text-Without : (n : ℕ) → Without "." (number_text n)
unfolding number_text
number_text-Without n = number_from-Without (suc n) n
