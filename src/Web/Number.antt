-- ===== src/Web/Number.antt =====
-- Numbers and their texts. A JavaScript number is seen here only through `Number.isInteger`, its
-- sign and its value: whole numbers, and all others (fractions, infinities, NaN).
use isachore.Base.{ℕ, String, ◌≡◌, ◌≤◌, ap}
use isachore.Base.Int.{ℤ, pos}

pub data JsNumber : Type 0 where
  whole : ℤ → JsNumber
  other : JsNumber

abbrev pub max_safe : ℕ
max_safe = 9007199254740991

-- `Number(text)` and `String(n)`. What the language documents of them: the text of a number,
-- read again, is that number. Here a number is a whole one up to `Number.MAX_SAFE_INTEGER`, or
-- one that was itself read from a text.
pub record Numerals : Type 0 where
  pub read : String → JsNumber
  pub print : ℕ → String
  pub read-print : (n : ℕ) → n ≤ max_safe → read (print n) ≡ whole (pos n)
  pub read-print-read :
      (s : String) (n : ℕ) → read s ≡ whole (pos n) → read (print n) ≡ whole (pos n)

abbrev pub IsNumber : Numerals → ℕ → Type 0
IsNumber num n = num.read (num.print n) ≡ whole (pos n)

pub print_injective :
    (num : Numerals) (a b : ℕ) → IsNumber num a → IsNumber num b → num.print a ≡ num.print b → a ≡ b
print_injective num a b ha hb e = cc (ap num.read e)
