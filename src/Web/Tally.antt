-- ===== src/Web/Tally.antt =====
-- A concrete `Numerals`, to run the model on: a number's text has as many strokes.
use Prim.Native.String.{String, [], ◌∷◌}
use isachore.Base.{ℕ, zero, suc, ◌≡◌, refl, ap}
use isachore.Base.Int.{pos}
use isachore.Web.Number.{JsNumber, whole, Numerals}

abbrev strokes : ℕ → String
strokes zero = []
strokes (suc n) = "1" ∷ strokes n

abbrev count_strokes : String → ℕ
count_strokes [] = 0
count_strokes (c ∷ s) = suc (count_strokes s)

count-strokes : (n : ℕ) → count_strokes (strokes n) ≡ n
count-strokes zero = refl
count-strokes (suc n) = ap suc (count-strokes n)

abbrev read_strokes : String → JsNumber
read_strokes s = whole (pos (count_strokes s))

pub read-strokes : (n : ℕ) → read_strokes (strokes n) ≡ whole (pos n)
read-strokes n = ap (λ (k : ℕ). whole (pos k)) (count-strokes n)

abbrev pub tally : Numerals
tally = record {
  read = read_strokes;
  print = strokes;
  read-print = λ n _. read-strokes n;
  read-print-read = λ s n _. read-strokes n;
}

pub tally_number : (n : ℕ) → tally.read (tally.print n) ≡ whole (pos n)
tally_number n = read-strokes n
