-- ===== src/ChoreCreate/Pickers.antt =====
-- Which household a new chore goes to, and whose members and tags the pickers offer.
use isachore.Base.{
  ℕ, ◌+◌, String, arith, ◌≡◌, refl, Bool, true, false, not, ◌&&◌, Option, none, some, List, [], ◌∷◌,
  ◌==◌, ==_iff, any, any_sound, sym, ◌∙◌, select, map, length, Memᴰ, mem_of_select, Bool-cases, inl,
  inr, if◌then◌else◌,
}
use isachore.Types.{ChoreCloneState, Household, HouseholdMember, Tag, Membership}
use isachore.Web.Number.{Numerals}
use isachore.ChoreForm.{includes, selected_assignees, initial_state}
use isachore.ChoreForm.Seeds.{create_initial}
use isachore.ChoreForm.Bounds.{kept_by}
use isachore.ChoreCreate.{
  Answer, CreatePage, Options, Event, is_organised, seed_household, start, first_id,
  with_households, households_settled, options_settled, is_same, choose, step, run, dropped,
  dropped_assignees, form_props,
}

-- The last choices that the server gave, with the household that they were asked for, beside those
-- that it had given before.
abbrev given_by : Option ℕ → Answer Options → Option (ℕ × Options) → Option (ℕ × Options)
given_by (some id) (Answer.got o) kept = some (id, o)
given_by _ _ kept = kept

abbrev pub given : Event → CreatePage → Option (ℕ × Options) → Option (ℕ × Options)
given (Event.options_answer a) p kept = given_by p.request a kept
given _ p kept = kept

abbrev pub last_given :
    List Membership → String → List Event → CreatePage → Option (ℕ × Options) → Option (ℕ × Options)
last_given memberships load_error [] p kept = kept
last_given memberships load_error (e ∷ es) p kept =
    last_given memberships load_error es (step memberships load_error e p) (given e p kept)

abbrev pub id_of : Option (ℕ × Options) → Option ℕ
id_of none = none
id_of (some (id, o)) = some id

abbrev pub members_of : Option (ℕ × Options) → List HouseholdMember
members_of none = []
members_of (some (id, o)) = o.members

abbrev pub tags_of : Option (ℕ × Options) → List Tag
tags_of none = []
tags_of (some (id, o)) = o.tags

-- What the page never gets wrong, beside the choices that the server gave last.
pub record IsFitting (memberships : List Membership) (kept : Option (ℕ × Options)) (p : CreatePage)
    : Type 0 where
  pub own : (id : ℕ) → p.household_id ≡ some id → is_organised memberships id ≡ true
  pub offered : (h : Household) → Memᴰ h p.households → is_organised memberships h.id ≡ true
  pub asked : (id : ℕ) → p.request ≡ some id → p.household_id ≡ some id
  pub members : p.members ≡ members_of kept
  pub tags : p.tags ≡ tags_of kept
  pub holder : p.options_household_id ≡ id_of kept
  pub loaded : p.request ≡ none → p.error ≡ none → id_of kept ≡ p.household_id

module _ (memberships : List Membership) (load_error : String) where
  seed_own :
      (clone : Option ChoreCloneState) (id : ℕ)
      → seed_household memberships clone ≡ some id
      → is_organised memberships id ≡ true
  seed_own none id e = absurd (nobody e)
    where
      nobody : none ≡ some id → ⊥
      nobody e = cc
  seed_own (some clone) id e =
      kept_by (is_organised memberships) clone.household_id
        (is_organised memberships clone.household_id) id refl e

  start-IsFitting :
      (clone : Option ChoreCloneState) → IsFitting memberships none (start memberships clone)
  unfolding start
  start-IsFitting clone = record {
    own = seed_own clone;
    offered = λ h m. elim m [ ];
    asked = λ id e. e;
    members = refl;
    tags = refl;
    holder = refl;
    loaded = λ e f. sym e;
  }

  first_own :
      (mine : List Household) (id : ℕ)
      → ((h : Household) → Memᴰ h mine → is_organised memberships h.id ≡ true)
      → first_id mine ≡ some id
      → is_organised memberships id ≡ true
  first_own [] id o e = cc
  first_own (h ∷ hs) id o e = let r : h.id ≡ id = cc in rw (← r) (o h (Memᴰ.head refl))

  unasked :
      {kept : Option (ℕ × Options)} (p : CreatePage)
      → IsFitting memberships kept p
      → p.household_id ≡ none
      → p.request ≡ none
  unasked p f e = by_request p.request refl
    where
      by_request : (o : Option ℕ) → p.request ≡ o → p.request ≡ none
      by_request none q = q
      by_request (some id) q = let r = f.asked id q in cc

  with_households-IsFitting :
      {kept : Option (ℕ × Options)} (mine : List Household) (o : Option ℕ) (p : CreatePage)
      → p.household_id ≡ o
      → ((h : Household) → Memᴰ h mine → is_organised memberships h.id ≡ true)
      → IsFitting memberships kept p
      → IsFitting memberships kept (with_households mine o p)
  with_households-IsFitting mine none p e w f = record {
    own = λ id q. first_own mine id w q;
    offered = w;
    asked = λ id q. q;
    members = f.members;
    tags = f.tags;
    holder = f.holder;
    loaded = λ q r. f.loaded (unasked p f e) r ∙ e ∙ sym q;
  }
  with_households-IsFitting mine (some id) p e w f = record {
    own = f.own;
    offered = w;
    asked = f.asked;
    members = f.members;
    tags = f.tags;
    holder = f.holder;
    loaded = f.loaded;
  }

  households_settled-IsFitting :
      {kept : Option (ℕ × Options)} (asking : Bool) (a : Answer (List Household)) (p : CreatePage)
      → IsFitting memberships kept p
      → IsFitting memberships kept (households_settled memberships load_error asking a p)
  unfolding households_settled
  households_settled-IsFitting false a p f = f
  households_settled-IsFitting true (Answer.got items) p f =
      with_households-IsFitting (select (λ h. is_organised memberships h.id) items) p.household_id
        (record p { loading = false; asking = false }) refl
        (λ h m. (mem_of_select (λ h. is_organised memberships h.id) items m).1)
        (record {
          own = f.own;
          offered = f.offered;
          asked = f.asked;
          members = f.members;
          tags = f.tags;
          holder = f.holder;
          loaded = f.loaded;
        })
  households_settled-IsFitting true (Answer.failed message) p f = record {
    own = f.own;
    offered = f.offered;
    asked = f.asked;
    members = f.members;
    tags = f.tags;
    holder = f.holder;
    loaded = λ q r. cc;
  }

  options_settled-IsFitting :
      {kept : Option (ℕ × Options)} (o : Option ℕ) (a : Answer Options) (p : CreatePage)
      → p.request ≡ o
      → IsFitting memberships kept p
      → IsFitting memberships (given_by o a kept) (options_settled load_error o a p)
  unfolding options_settled
  options_settled-IsFitting none a p e f = f
  options_settled-IsFitting (some id) (Answer.got x) p e f = record {
    own = f.own;
    offered = f.offered;
    asked = λ k q. cc;
    members = refl;
    tags = refl;
    holder = refl;
    loaded = λ q r. sym (f.asked id e);
  }
  options_settled-IsFitting (some id) (Answer.failed message) p e f = record {
    own = f.own;
    offered = f.offered;
    asked = λ k q. cc;
    members = f.members;
    tags = f.tags;
    holder = f.holder;
    loaded = λ q r. cc;
  }

  chosen-IsFitting :
      {kept : Option (ℕ × Options)} (b : Bool) (id : ℕ) (p : CreatePage)
      → (b ≡ true → is_organised memberships id ≡ true)
      → IsFitting memberships kept p
      → IsFitting memberships kept
          (if b then record p { household_id = some id; request = some id } else p)
  chosen-IsFitting false id p w f = f
  chosen-IsFitting true id p w f = record {
    own = λ k q. let r : id ≡ k = cc in rw (← r) (w refl);
    offered = f.offered;
    asked = λ k q. q;
    members = f.members;
    tags = f.tags;
    holder = f.holder;
    loaded = λ q r. cc;
  }

  offered_own :
      {kept : Option (ℕ × Options)} (id : ℕ) (p : CreatePage) (b : Bool)
      → IsFitting memberships kept p
      → (any (λ h. h.id == id) p.households && b) ≡ true
      → is_organised memberships id ≡ true
  offered_own id p b f e =
      let (h, m, q) = any_sound (λ h. h.id == id) p.households (both _ b e) in
      let r : h.id ≡ id = (==_iff h.id id).0 q in rw (← r) (f.offered h m)
    where
      both : (a b : Bool) → (a && b) ≡ true → a ≡ true
      both true b e = refl
      both false b e = e

  step-IsFitting :
      (e : Event) (p : CreatePage) (kept : Option (ℕ × Options))
      → IsFitting memberships kept p
      → IsFitting memberships (given e p kept) (step memberships load_error e p)
  unfolding step choose
  step-IsFitting (Event.households_answer a) p kept f = households_settled-IsFitting p.asking a p f
  step-IsFitting (Event.options_answer a) p kept f = options_settled-IsFitting p.request a p refl f
  step-IsFitting (Event.select_household id) p kept f =
      chosen-IsFitting (any (λ h. h.id == id) p.households && not (is_same p.household_id id)) id p
        (offered_own id p (not (is_same p.household_id id)) f) f
  step-IsFitting Event.again p kept f = record {
    own = f.own;
    offered = f.offered;
    asked = λ id q. q;
    members = f.members;
    tags = f.tags;
    holder = f.holder;
    loaded = λ q r. f.loaded (unasked p f q) r;
  }

  run-IsFitting :
      (es : List Event) (p : CreatePage) (kept : Option (ℕ × Options))
      → IsFitting memberships kept p
      → IsFitting memberships
          (last_given memberships load_error es p kept)
          (run memberships load_error es p)
  unfolding run
  run-IsFitting [] p kept f = f
  run-IsFitting (e ∷ es) p kept f =
      run-IsFitting es (step memberships load_error e p) (given e p kept)
        (step-IsFitting e p kept f)

  -- However answers, choices and changes of the language follow one another since the page that
  -- creates a chore opened, for a clone or not: the household that the chore goes to and every
  -- household on offer is one that the user organises; the pickers offer the members and the tags
  -- that the server gave last, for the household that was asked about then, and none before; and
  -- once nothing of the pickers is asked any more and nothing has failed, that household is the
  -- one that the chore goes to.
  pub pickers-IsFitting :
      (clone : Option ChoreCloneState) (es : List Event)
      → let p = start memberships clone in
        IsFitting memberships
          (last_given memberships load_error es p none)
          (run memberships load_error es p)
  pickers-IsFitting clone es =
      run-IsFitting es (start memberships clone) none (start-IsFitting clone)

select-dropped :
    (ids cloned : List ℕ)
    → length (select (includes ids) cloned) + dropped ids cloned ≡ length cloned
select-dropped ids [] = refl
select-dropped ids (c ∷ cs) = elim (Bool-cases (includes ids c)) [
  | inl e ↦ rw e (omega (arith, select-dropped ids cs))
  | inr e ↦ rw e (omega (arith, select-dropped ids cs))
]

-- The note counts right: of a clone's assignees, those that are sent and those that the note says
-- are not are all of them.
pub sent-dropped :
    (num : Numerals) (p : CreatePage) (clone : ChoreCloneState)
    → length (selected_assignees (form_props p) (initial_state num (create_initial (some clone))))
        + dropped_assignees p (some clone)
      ≡ length clone.assignee_ids
unfolding selected_assignees form_props initial_state create_initial dropped_assignees
sent-dropped num p clone = select-dropped (map (λ m. m.id) p.members) clone.assignee_ids
