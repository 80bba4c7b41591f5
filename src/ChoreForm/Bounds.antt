-- ===== src/ChoreForm/Bounds.antt =====
-- What the form sends, whatever was typed into it.
use isachore.Base.{
  ℕ, ◌≢◌, zero, suc, String, arith, ◌≡◌, refl, ◌≤◌, inl, inr, Bool, true, false, not, ◌||◌, Option,
  none, some, List, [], ◌∷◌, map, Memᴰ, mem_of_select, Bool-cases, if◌then◌else◌, ◌=s=◌, text→ne,
}
use isachore.Base.Int.{ℤ, pos, negsuc, leb_ℤ}
use isachore.Types.{RepeatPeriod, AssignmentType}
use isachore.Web.Number.{Numerals}
use isachore.Web.Whole.{
  Whole, finite, infinite, minus_infinite, nan, Truncation, or_else, at_least, at_most,
}
use isachore.ChoreForm.{
  max_repeat_interval, nonempty_text, ChoreSubmit, Props, FormState, is_manual, is_manual_repeat,
  is_weekly, includes, nonempty_list, kept_if, can_pick_assignee, selected_assignees, selected_tags,
  interval, turn_length, current_assignee_id, payload,
}

-- A whole number within two bounds.
pub data IsWithin (low high : ℕ) : Whole → Type 0 where
  within : (n : ℕ) → low ≤ n → n ≤ high → IsWithin low high (finite (pos n))

-- One, or a number that is not below two.
pub data IsTurnLength : Whole → Type 0 where
  single : IsTurnLength (finite (pos 1))
  many : (n : ℕ) → 2 ≤ n → IsTurnLength (finite (pos n))
  endless : IsTurnLength infinite

pub data IsAtLeast (low : ℕ) : Whole → Type 0 where
  number : (n : ℕ) → low ≤ n → IsAtLeast low (finite (pos n))
  unbounded : IsAtLeast low infinite

at_least-number : (d : ℕ) (z : ℤ) → IsAtLeast d (at_least d (finite z))
at_least-number d (pos n) = elim (Bool-cases (leb_ℤ (pos d) (pos n))) [
  | inl e ↦ rw e (IsAtLeast.number n (ground (arith, e)))
  | inr e ↦ rw e (IsAtLeast.number d (omega arith))
]
at_least-number d (negsuc n) =
    let e : leb_ℤ (pos d) (negsuc n) ≡ false = ground arith in
    rw e (IsAtLeast.number d (omega arith))

at_least_lem : (d : ℕ) (w : Whole) → IsAtLeast d (at_least d (or_else w d))
at_least_lem d (finite (pos zero)) = at_least-number d (pos d)
at_least_lem d (finite (pos (suc n))) = at_least-number d (pos (suc n))
at_least_lem d (finite (negsuc n)) = at_least-number d (negsuc n)
at_least_lem d infinite = IsAtLeast.unbounded
at_least_lem d minus_infinite = IsAtLeast.number d (omega arith)
at_least_lem d nan = at_least-number d (pos d)

at_most_lem :
    (low high : ℕ) (w : Whole) → low ≤ high → IsAtLeast low w → IsWithin low high (at_most high w)
at_most_lem low high _ h (IsAtLeast.number n l) = elim (Bool-cases (leb_ℤ (pos n) (pos high))) [
  | inl e ↦ rw e (IsWithin.within n l (ground (arith, e)))
  | inr e ↦ rw e (IsWithin.within high h (omega arith))
]
at_most_lem low high _ h IsAtLeast.unbounded = IsWithin.within high h (omega arith)

turn-IsTurnLength : (w : Whole) → IsAtLeast 2 w → IsTurnLength w
turn-IsTurnLength _ (IsAtLeast.number n h) = IsTurnLength.many n h
turn-IsTurnLength _ IsAtLeast.unbounded = IsTurnLength.endless

nonempty_weekdays :
    (r : RepeatPeriod) (days : List ℕ)
    → (r ≡ RepeatPeriod.weekly → ⊥)
    → nonempty_list (if is_weekly r then days else []) ≡ none
nonempty_weekdays RepeatPeriod.weekly days h = absurd (h refl)
nonempty_weekdays RepeatPeriod.manual days h = refl
nonempty_weekdays RepeatPeriod.daily days h = refl
nonempty_weekdays RepeatPeriod.monthly days h = refl
nonempty_weekdays RepeatPeriod.yearly days h = refl

some_weekdays : (days : List ℕ) → nonempty_list days ≡ some [] → ⊥
some_weekdays [] h = cc
some_weekdays (d ∷ ds) h = cc

-- What the API is promised of a payload.
pub record IsSendable (members tags : List ℕ) (b : ChoreSubmit) : Type 0 where
  pub every : IsWithin 1 max_repeat_interval b.repeat_interval
  pub turn : IsTurnLength b.turn_length
  pub once :
      b.repeats ≡ RepeatPeriod.manual → (b.repeat_interval ≡ finite (pos 1)) × (b.start_date ≡ none)
  pub dated : (b.repeats ≡ RepeatPeriod.manual → ⊥) → b.start_date ≢ none
  pub fixed : b.assignment_type ≡ AssignmentType.manual → b.turn_length ≡ finite (pos 1)
  pub unpinned : (b.repeats ≡ RepeatPeriod.weekly → ⊥) → b.weekdays ≡ none
  pub pinned : b.weekdays ≢ some []
  pub described : b.description ≢ some ""
  pub pool : (id : ℕ) → Memᴰ id b.assignee_ids → includes members id ≡ true
  pub labels : (id : ℕ) → Memᴰ id b.tag_ids → includes tags id ≡ true
  pub current : (id : ℕ) → b.current_assignee_id ≡ some id → includes b.assignee_ids id ≡ true

pub kept_by :
    (p : ℕ → Bool) (x : ℕ) (b : Bool) (id : ℕ)
    → p x ≡ b
    → (if b then some x else none) ≡ some id
    → p id ≡ true
kept_by p x true id e h = let r : x ≡ id = cc in rw (← r) e
kept_by p x false id e h = cc

kept_if_sound : (p : ℕ → Bool) (o : Option ℕ) (id : ℕ) → kept_if p o ≡ some id → p id ≡ true
kept_if_sound p none id h = cc
kept_if_sound p (some x) id h = kept_by p x (p x) id refl h

text_by : (s : String) (b : Bool) → (s =s= "") ≡ b → (if b then none else some s) ≢ some ""
text_by s true e h = cc
text_by s false e h = text→ne s "" e cc

not_empty : (s : String) → nonempty_text s ≢ some ""
not_empty s = text_by s (s =s= "") refl

-- The start date that is sent for a period.
abbrev date_for : RepeatPeriod → String → Option String
date_for r d = if is_manual_repeat r then none else some d

date_sent : (r : RepeatPeriod) (d : String) → (r ≡ RepeatPeriod.manual → ⊥) → date_for r d ≢ none
date_sent RepeatPeriod.manual d h e = h refl
date_sent RepeatPeriod.daily d h e = cc
date_sent RepeatPeriod.weekly d h e = cc
date_sent RepeatPeriod.monthly d h e = cc
date_sent RepeatPeriod.yearly d h e = cc

date_unsent : (r : RepeatPeriod) (d : String) → r ≡ RepeatPeriod.manual → date_for r d ≡ none
date_unsent r d e = rw e refl

picked_by :
    (b : Bool) (p : ℕ → Bool) (o : Option ℕ) (id : ℕ)
    → (if b then kept_if p o else none) ≡ some id
    → p id ≡ true
picked_by true p o id h = kept_if_sound p o id h
picked_by false p o id h = cc

module _ (num : Numerals) (js : Truncation num) (today_iso : Option String → String)
    (props : Props) where
  interval-IsWithin : (s : FormState) → IsWithin 1 max_repeat_interval (interval num js s)
  unfolding interval
  interval-IsWithin s = elim (Bool-cases (is_manual_repeat s.values.repeats)) [
    | inl e ↦ rw e (IsWithin.within 1 (omega arith) (omega arith))
    | inr e ↦ rw e (
        at_most_lem 1 max_repeat_interval _ (omega arith)
          (at_least_lem 1 (js.trunc s.repeat_interval)))
  ]

  turn_length-IsTurnLength : (s : FormState) → IsTurnLength (turn_length num js s)
  unfolding turn_length
  turn_length-IsTurnLength s =
      elim (Bool-cases (is_manual s.values.assignment_type || not s.take_turns)) [
        | inl e ↦ rw e IsTurnLength.single
        | inr e ↦ rw e (turn-IsTurnLength _ (at_least_lem 2 (js.trunc s.turn_length)))
      ]

  interval-manual :
      (s : FormState) → s.values.repeats ≡ RepeatPeriod.manual → interval num js s ≡ finite (pos 1)
  unfolding interval
  interval-manual s e = rw e refl

  turn_length-manual :
      (s : FormState)
      → s.values.assignment_type ≡ AssignmentType.manual
      → turn_length num js s ≡ finite (pos 1)
  unfolding turn_length
  turn_length-manual s e = rw e refl

  -- Whatever was typed and chosen, what a submit sends has an interval from 1 to 365 and a turn
  -- length of 1 or at least 2; a chore that never repeats has the interval 1 and no start date, any
  -- other a start date; a chore of manual assignment has the turn length 1; weekdays are sent for a
  -- weekly chore alone, and never an empty list or an empty description; every assignee is a
  -- member, every tag one of the household's, and the current assignee one of the assignees.
  pub payload-IsSendable :
      (s : FormState)
      → IsSendable
          (map (λ m. m.id) props.members)
          (map (λ tag. tag.id) props.tags)
          (payload num js today_iso props s)
  unfolding payload selected_assignees selected_tags current_assignee_id interval turn_length
  payload-IsSendable s = record {
    every = interval-IsWithin s;
    turn = turn_length-IsTurnLength s;
    once = λ e. (interval-manual s e, date_unsent s.values.repeats _ e);
    dated = λ h. date_sent s.values.repeats _ h;
    fixed = turn_length-manual s;
    unpinned = nonempty_weekdays s.values.repeats s.values.weekdays;
    pinned = some_weekdays _;
    described = not_empty s.values.description;
    pool = λ id m.
        (mem_of_select (includes (map (λ x. x.id) props.members)) s.values.assignee_ids m).1;
    labels = λ id m. (mem_of_select (includes (map (λ x. x.id) props.tags)) s.values.tag_ids m).1;
    current = λ id.
        picked_by (can_pick_assignee props s) (includes (selected_assignees props s))
          s.values.current_assignee_id id;
  }
