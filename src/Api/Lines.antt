-- ===== src/Api/Lines.antt =====
-- The lines of a validation error: each once, and all of them.
use Prim.Native.String
use text.Mathlib.TextLemmas.{append_assoc}
use isachore.Base.{
  String, ◌≡◌, ◌≢◌, ◌↔◌, ◌⊎◌, refl, sym, ap, ◌∙◌, Bool, true, false, ◌||◌, Option, none, some, List,
  [], ◌∷◌, any, ◌=s=◌, arith, eq_iff, Bool-cases, inl, inr,
}
use isachore.Web.Number.{Numerals}
use isachore.Web.Value.{Value, Elems, nil, cons, array, property, is_object}
use isachore.Api.Issue.{Translate, plain, field_of_loc, label_for}
use isachore.Api.Validation.{
  line_of, add_line, add_lines, sentence, format_validation_detail, message_for, labelled, joined,
}

abbrev pub has : String → List String → Bool
has x lines = any (λ l. l =s= x) lines

abbrev pub IsDistinct : List String → Type 0
IsDistinct [] = Unit
IsDistinct (l ∷ lines) = (has l lines ≡ false) × IsDistinct lines

abbrev is_line : String → Option String → Bool
is_line x none = false
is_line x (some line) = line =s= x

-- Whether some entry says the line.
abbrev pub says : Numerals → Translate → String → Elems → Bool
says num t x nil = false
says num t x (cons v vs) = is_line x (line_of num t v) || says num t x vs

has-add_line :
    (x : String) (o : Option String) (lines : List String)
    → has x (add_line o lines) ≡ (is_line x o || has x lines)
unfolding add_line
has-add_line x none lines = refl
has-add_line x (some line) [] = ground arith
has-add_line x (some line) (l ∷ lines) =
    ground (arith, eq_iff l line, eq_iff l x, eq_iff line x, has-add_line x (some line) lines)

add_line-IsDistinct :
    (o : Option String) (lines : List String) → IsDistinct lines → IsDistinct (add_line o lines)
unfolding add_line
add_line-IsDistinct none lines d = d
add_line-IsDistinct (some line) [] d = (refl, tt)
add_line-IsDistinct (some line) (l ∷ lines) (absent, d) = elim (Bool-cases (l =s= line)) [
  | inl same ↦ rw same (absent, d)
  | inr other ↦ rw other (
    ground (arith, has-add_line l (some line) lines, eq_iff l line, eq_iff line l),
    add_line-IsDistinct (some line) lines d,
  )
]

either_line : (a b : Bool) → (a || b) ≡ true → (a ≡ true) ⊎ (b ≡ true)
either_line true b e = inl refl
either_line false b e = inr e

left_line : {a : Bool} (b : Bool) → a ≡ true → (a || b) ≡ true
left_line b e = rw e refl

right_line : (a : Bool) {b : Bool} → b ≡ true → (a || b) ≡ true
right_line true e = refl
right_line false e = e

shuffle : (a b c : Bool) → (a || (b || c)) ≡ ((b || a) || c)
shuffle true true c = refl
shuffle true false c = refl
shuffle false true c = refl
shuffle false false c = refl

has-add_lines :
    (num : Numerals) (t : Translate) (x : String) (vs : Elems) (lines : List String)
    → has x (add_lines num t vs lines) ≡ (says num t x vs || has x lines)
unfolding add_lines
has-add_lines num t x nil lines = refl
has-add_lines num t x (cons v vs) lines =
    has-add_lines num t x vs (add_line (line_of num t v) lines)
    ∙ (ap (λ b. says num t x vs || b) (has-add_line x (line_of num t v) lines)
        ∙ shuffle (says num t x vs) (is_line x (line_of num t v)) (has x lines))

add_lines-IsDistinct :
    (num : Numerals) (t : Translate) (vs : Elems) (lines : List String)
    → IsDistinct lines
    → IsDistinct (add_lines num t vs lines)
unfolding add_lines
add_lines-IsDistinct num t nil lines d = d
add_lines-IsDistinct num t (cons v vs) lines d =
    add_lines-IsDistinct num t vs (add_line (line_of num t v) lines)
      (add_line-IsDistinct (line_of num t v) lines d)

-- What a line says of an entry: its message, with the field's label before it if it has a name.
abbrev pub IsWorded : Translate → Option String → String → String → Type 0
IsWorded t none message line = line ≡ message
IsWorded t (some name) message line =
    ((name ≡ "") × (line ≡ message))
    ⊎ ((name ≢ "")
        × (line
            ≡ t "errors.validation.field"
                (record plain { words = ("field", label_for t name) ∷ ("message", message) ∷ [] })))

abbrev pub Says : Numerals → Translate → Value → String → Type 0
Says num t issue line =
    (is_object issue ≡ true)
    × (message_for num t issue ≢ "")
    × IsWorded t (field_of_loc (property num "loc" issue)) (message_for num t issue) line

abbrev pub SomeSays : Numerals → Translate → Elems → String → Type 0
SomeSays num t nil line = ⊥
SomeSays num t (cons v vs) line = Says num t v line ⊎ SomeSays num t vs line

labelled_iff :
    (t : Translate) (o : Option String) (message line : String)
    → ((labelled t o message =s= line) ≡ true) ↔ IsWorded t o message line
unfolding labelled
labelled_iff t none message line =
    (λ e. sym ((eq_iff message line).0 e), λ e. (eq_iff message line).1 (sym e))
labelled_iff t (some name) message line = elim (Bool-cases (name =s= "")) [
  | inl e ↦ rw e (
    λ q. inl ((eq_iff name "").0 e, sym ((eq_iff message line).0 q)),
    elim [
      | inl (n, q) ↦ (eq_iff message line).1 (sym q)
      | inr (n, q) ↦ absurd (n ((eq_iff name "").0 e))
    ],
  )
  | inr e ↦
      let given : name ≢ "" = λ n. ground (arith, e, (eq_iff name "").1 n) in
      rw e (
        λ q. inr (given, sym ((eq_iff _ line).0 q)),
        elim [ inl (n, q) ↦ absurd (given n) | inr (n, q) ↦ (eq_iff _ line).1 (sym q) ],
      )
]

line_of-Says :
    (num : Numerals) (t : Translate) (v : Value) (line : String)
    → (is_line line (line_of num t v) ≡ true) ↔ Says num t v line
unfolding line_of
line_of-Says num t v line =
    let worded = labelled_iff t (field_of_loc (property num "loc" v)) (message_for num t v) line in
    elim (Bool-cases (is_object v)) [
      | inr o ↦ rw o (λ e. cc, λ (q, n, w). cc)
      | inl o ↦ elim (Bool-cases (message_for num t v =s= "")) [
        | inl m ↦
            rw (o, m) (λ e. cc, λ (q, n, w). absurd (n ((eq_iff (message_for num t v) "").0 m)))
        | inr m ↦
            rw (o, m)
              (
                λ e. (
                  refl,
                  λ n. ground (arith, m, (eq_iff (message_for num t v) "").1 n),
                  worded.0 e,
                ),
                λ (q, n, w). worded.1 w,
              )
      ]
    ]

says-SomeSays :
    (num : Numerals) (t : Translate) (vs : Elems) (line : String)
    → (says num t line vs ≡ true) ↔ SomeSays num t vs line
says-SomeSays num t nil line = (λ e. cc, λ e. absurd e)
says-SomeSays num t (cons v vs) line =
    let one = line_of-Says num t v line in
    let rest = says-SomeSays num t vs line in
    (
      λ e. elim (either_line (is_line line (line_of num t v)) (says num t line vs) e) [
        | inl a ↦ inl (one.0 a)
        | inr a ↦ inr (rest.0 a)
      ],
      elim [
        | inl a ↦ left_line (says num t line vs) (one.1 a)
        | inr a ↦ right_line (is_line line (line_of num t v)) (rest.1 a)
      ],
    )

-- Every line with the separator after it.
abbrev pub ended : List String → String
ended [] = ""
ended (l ∷ lines) = String.◌++◌ l (String.◌++◌ "; " (ended lines))

joined-ended :
    (l : String) (lines : List String) → String.◌++◌ (joined (l ∷ lines)) "; " ≡ ended (l ∷ lines)
unfolding joined
joined-ended l [] = refl
joined-ended l (m ∷ lines) =
    append_assoc l (String.◌++◌ "; " (joined (m ∷ lines))) "; "
    ∙ ap (λ s. String.◌++◌ l s) (append_assoc "; " (joined (m ∷ lines)) "; ")
    ∙ ap (λ s. String.◌++◌ l (String.◌++◌ "; " s)) (joined-ended m lines)

sentence-ended :
    (lines : List String)
    → ((lines ≡ []) × (sentence lines ≡ none))
      ⊎ ((s : String) × (sentence lines ≡ some s) × (String.◌++◌ s "; " ≡ ended lines))
sentence-ended [] = inl (refl, refl)
sentence-ended (l ∷ lines) = inr (joined (l ∷ lines), refl, joined-ended l lines)

-- The answer to a list of issues comes from lines that are all different, and a text is one of them
-- exactly when some entry is an object with a message and the text is that message, put into words
-- with the label of its field if it names one. With no line there is no answer; else the answer is
-- the lines in a row, each but the last with a semicolon and a space after it.
pub format_validation_detail_lem :
    (num : Numerals) (t : Translate) (vs : Elems)
    → (lines : List String) × IsDistinct lines
      × ((x : String) → (has x lines ≡ true) ↔ SomeSays num t vs x)
      × (((lines ≡ []) × (format_validation_detail num t (array vs) ≡ none))
          ⊎ ((s : String) × (format_validation_detail num t (array vs) ≡ some s)
              × (String.◌++◌ s "; " ≡ ended lines)))
unfolding format_validation_detail
format_validation_detail_lem num t vs =
    let lines = add_lines num t vs [] in
    (
      lines,
      add_lines-IsDistinct num t vs [] tt,
      λ x.
          let same : has x lines ≡ says num t x vs = ground (arith, has-add_lines num t x vs []) in
          let both = says-SomeSays num t vs x in (λ e. both.0 (sym same ∙ e), λ e. same ∙ both.1 e),
      sentence-ended lines,
    )
