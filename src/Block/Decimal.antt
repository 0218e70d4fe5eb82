-- ===== src/Block/Decimal.antt =====
-- `format!("{}", seconds)` of an `i64` in src/utils.rs: a sign, and the decimal digits.
use seabird_core.Prelude.{
  ℕ, zero, suc, ◌+◌, ◌*◌, ◌/◌, ◌%◌, ◌<◌, ◌≡◌, refl, Text, [], ◌∷◌, ◌++◌, if◌then◌else◌, arith, ◌-◌,
  ltb, Bool-cases, inl, inr,
}

-- `negsuc n` is -(n + 1).
pub data ℤ : Type 0 where
  pos : ℕ → ℤ
  negsuc : ℕ → ℤ

-- A number below the fuel has all its digits, the first one leading.
digits : ℕ → ℕ → Text
digits zero n = []
digits (suc f) n =
    let more = digits f (n / 10) ++ (b'0' + n % 10) ∷ [] in
    if ltb n 10 then (b'0' + n) ∷ [] else more

unfoldable pub show_ℕ : ℕ → Text
unfolding digits
show_ℕ n = digits (suc n) n

unfoldable pub show_ℤ : ℤ → Text
show_ℤ (pos n) = show_ℕ n
show_ℤ (negsuc n) = b'-' ∷ show_ℕ (suc n)

-- The number that a text of digits stands for.
abbrev read_from : ℕ → Text → ℕ
read_from acc [] = acc
read_from acc (d ∷ ds) = read_from (acc * 10 + (d - b'0')) ds

abbrev pub read_ℕ : Text → ℕ
read_ℕ = read_from 0

read_from-append :
    (acc : ℕ) (s : Text) (d : ℕ) → read_from acc (s ++ d ∷ []) ≡ read_from acc s * 10 + (d - b'0')
read_from-append acc [] d = refl
read_from-append acc (c ∷ s) d = read_from-append (acc * 10 + (c - b'0')) s d

read_ℕ-digits : (f n : ℕ) → n < f → read_ℕ (digits f n) ≡ n
unfolding digits
read_ℕ-digits zero n h = elim h [ ]
read_ℕ-digits (suc f) n h = elim (Bool-cases (ltb n 10)) [
  | inl e ↦ rw e (omega arith)
  | inr e ↦
      let deeper : n / 10 < f = ground arith in
      rw
        (e, read_from-append 0 (digits f (n / 10)) (b'0' + n % 10), read_ℕ-digits f (n / 10) deeper)
        (omega arith)
]

-- The digits of a number read back as the number: the fuel is enough.
pub read_ℕ-show : (n : ℕ) → read_ℕ (show_ℕ n) ≡ n
unfolding show_ℕ
read_ℕ-show n = read_ℕ-digits (suc n) n (omega arith)

show_test : show_ℤ (negsuc 1729) ≡ b'-' ∷ b'1' ∷ b'7' ∷ b'3' ∷ b'0' ∷ []
unfolding show_ℤ show_ℕ
show_test = refl
