-- ===== src/Web/Whole.antt =====
-- What `Math.trunc(Number(text))` is, and the arithmetic that the client does with it.
use isachore.Base.{ℕ, zero, suc, String, ◌≡◌, ◌≤◌, if◌then◌else◌}
use isachore.Base.Int.{ℤ, pos, negsuc, leb_ℤ}
use isachore.Web.Number.{Numerals, max_safe}

pub data Whole : Type 0 where
  finite : ℤ → Whole
  infinite minus_infinite nan : Whole

-- `Math.trunc(Number(text))`. What the language documents of it: the text of a whole number is
-- read as that number.
pub record Truncation (num : Numerals) : Type 0 where
  pub trunc : String → Whole
  pub trunc-print : (n : ℕ) → n ≤ max_safe → trunc (num.print n) ≡ finite (pos n)

-- `w || d` of a number: zero and NaN are falsy.
abbrev pub or_else : Whole → ℕ → Whole
or_else (finite (pos zero)) d = finite (pos d)
or_else (finite (pos (suc n))) d = finite (pos (suc n))
or_else (finite (negsuc n)) d = finite (negsuc n)
or_else nan d = finite (pos d)
or_else infinite d = infinite
or_else minus_infinite d = minus_infinite

-- `Math.max(n, w)`
abbrev pub at_least : ℕ → Whole → Whole
at_least n (finite z) = if leb_ℤ (pos n) z then finite z else finite (pos n)
at_least n infinite = infinite
at_least n minus_infinite = finite (pos n)
at_least n nan = nan

-- `Math.min(n, w)`
abbrev pub at_most : ℕ → Whole → Whole
at_most n (finite z) = if leb_ℤ z (pos n) then finite z else finite (pos n)
at_most n infinite = finite (pos n)
at_most n minus_infinite = minus_infinite
at_most n nan = nan
