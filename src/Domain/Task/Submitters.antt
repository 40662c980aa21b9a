-- ===== src/Domain/Task/Submitters.antt =====
-- The counts of submitters in the status of a task (task.entity.ts).
use schulcloud_server.Prelude.{
  ℕ, ◌≤◌, Bool, true, false, List, [], ◌∷◌, ◌++◌, ok, ◌≡◌, refl, ◌↔◌, ◌⊎◌, inl, inr, arith, All,
  Decides, Decides-and, Decides-bool, Decides-or_else, filterb, length, unique, includes,
  is_distinct, is_distinct-unique, includes-unique, includes-append, nat_eq, any_result, Bool-cases,
  length-le_of_includes,
}
use schulcloud_server.Domain.User.{EntityId, User}
use schulcloud_server.Domain.Submission.{Submission, is_submitted, is_graded, is_submitted_for_user}
use schulcloud_server.Domain.Submission.Submitters.{
  HasTeam, IsSubmitter, get_submitter_ids_lem, is_user_submitter_lem,
}
use schulcloud_server.Domain.Task.{Task, get_submission_items}
use schulcloud_server.Domain.Task.Status.{
  gather_submitter_ids, calculate_number_of_submitters, is_submitted_for_user_of,
}

-- Some submission of the list was handed in by the user of an id.
abbrev pub SomeSubmitter : EntityId → List Submission → Type 0
SomeSubmitter i [] = ⊥
SomeSubmitter i (s ∷ ss) = IsSubmitter i s ⊎ SomeSubmitter i ss

gather_lem :
    (before : List EntityId) (ss : List Submission)
    → All HasTeam ss
    → (out : List EntityId) × (gather_submitter_ids before ss ≡ ok out)
      × ((i : EntityId)
          → (includes out i ≡ true) ↔ ((includes before i ≡ true) ⊎ SomeSubmitter i ss))
unfolding gather_submitter_ids
gather_lem before [] teams =
    (before, refl, λ i. (inl, λ d. elim d [ inl h ↦ h | inr h ↦ absurd h ]))
gather_lem before (s ∷ ss) (team, teams) =
    let (here, returned, listed, _) = get_submitter_ids_lem s team in
    let (out, gathered, all_listed) = gather_lem (before ++ here) ss teams in
    (
      out,
      rw returned gathered,
      λ i. (
        λ h. elim ((all_listed i).0 h) [
          | inl b ↦ elim (append_or before here i b) [
            | inl old ↦ inl old
            | inr new ↦ inr (inl ((listed i).0 new))
          ]
          | inr later ↦ inr (inr later)
        ],
        λ d. (all_listed i).1 (elim d [
          | inl old ↦ inl (or_append before here i (inl old))
          | inr (inl new) ↦ inl (or_append before here i (inr ((listed i).1 new)))
          | inr (inr later) ↦ inr later
        ]),
      ),
    )
  where
    append_or :
        (xs ys : List EntityId) (i : EntityId)
        → includes (xs ++ ys) i ≡ true
        → (includes xs i ≡ true) ⊎ (includes ys i ≡ true)
    append_or xs ys i h = ground (arith, includes-append xs ys i)

    or_append :
        (xs ys : List EntityId) (i : EntityId)
        → (includes xs i ≡ true) ⊎ (includes ys i ≡ true)
        → includes (xs ++ ys) i ≡ true
    or_append xs ys i d = ground (arith, includes-append xs ys i)

-- For submissions whose teams are loaded, the number of submitters is the length of a list that
-- holds every submitter of some submission and holds none twice.
pub calculate_number_of_submitters_lem :
    (ss : List Submission)
    → All HasTeam ss
    → (submitters : List EntityId) × (calculate_number_of_submitters ss ≡ ok (length submitters))
      × ((i : EntityId) → (includes submitters i ≡ true) ↔ SomeSubmitter i ss)
      × (is_distinct submitters ≡ true)
unfolding calculate_number_of_submitters
calculate_number_of_submitters_lem ss teams =
    let (out, gathered, listed) = gather_lem [] ss teams in
    (
      unique out,
      rw gathered refl,
      λ i. (
        λ h. elim ((listed i).0 (rw includes-unique at h)) [
          | inl impossible ↦ cc
          | inr some_one ↦ some_one
        ],
        λ h. rw includes-unique ((listed i).1 (inr h)),
      ),
      is_distinct-unique out,
    )

All-filterb :
    (p : Submission → Bool) (ss : List Submission) → All HasTeam ss → All HasTeam (filterb p ss)
All-filterb p [] teams = tt
All-filterb p (s ∷ ss) (team, teams) = elim (Bool-cases (p s)) [
  | inl e ↦ rw e (team, All-filterb p ss teams)
  | inr e ↦ rw e (All-filterb p ss teams)
]

SomeSubmitter-filterb :
    (p q : Submission → Bool) (i : EntityId) (ss : List Submission)
    → All (λ s. p s ≡ true → q s ≡ true) ss
    → SomeSubmitter i (filterb p ss)
    → SomeSubmitter i (filterb q ss)
SomeSubmitter-filterb p q i [] imp h = h
SomeSubmitter-filterb p q i (s ∷ ss) (here, later) h = elim (Bool-cases (p s)) [
  | inl e ↦ rw (here e) (elim (rw e at h) [
    | inl one ↦ inl one
    | inr more ↦ inr (SomeSubmitter-filterb p q i ss later more)
  ])
  | inr e ↦ elim (Bool-cases (q s)) [
    | inl f ↦ rw f (inr (SomeSubmitter-filterb p q i ss later (rw e at h)))
    | inr f ↦ rw f (SomeSubmitter-filterb p q i ss later (rw e at h))
  ]
]

-- For submissions whose teams are loaded and of which every graded one is submitted, the number
-- of graded submitters is at most the number of those who submitted.
pub graded-le-submitted :
    (ss : List Submission)
    → All HasTeam ss
    → All (λ s. is_graded s ≡ true → is_submitted s ≡ true) ss
    → (graded submitted : ℕ) × (calculate_number_of_submitters (filterb is_graded ss) ≡ ok graded)
      × (calculate_number_of_submitters (filterb is_submitted ss) ≡ ok submitted)
      × (graded ≤ submitted)
graded-le-submitted ss teams graded_is_submitted =
    let (gs, g_counted, g_listed, g_distinct) =
      calculate_number_of_submitters_lem (filterb is_graded ss) (All-filterb is_graded ss teams) in
    let (ms, m_counted, m_listed, _) =
      calculate_number_of_submitters_lem (filterb is_submitted ss)
        (All-filterb is_submitted ss teams) in
    (
      length gs,
      length ms,
      g_counted,
      m_counted,
      length-le_of_includes gs ms g_distinct λ i h. (m_listed i).1 (
          SomeSubmitter-filterb is_graded is_submitted i ss graded_is_submitted ((g_listed i).0 h)),
    )

-- The user handed in one of the submissions, and it counts as submitted.
abbrev pub HasSubmitted : EntityId → List Submission → Type 0
HasSubmitted i [] = ⊥
HasSubmitted i (s ∷ ss) = (IsSubmitter i s × (is_submitted s ≡ true)) ⊎ HasSubmitted i ss

is_submitted_for_user_lem :
    (s : Submission) (u : User)
    → HasTeam s
    → Decides (is_submitted_for_user s u) (IsSubmitter u.id s × (is_submitted s ≡ true))
unfolding is_submitted_for_user
is_submitted_for_user_lem s u team =
    Decides-and (is_user_submitter_lem s u team)
      (Decides-bool (is_submitted s) ((λ d. d), (λ d. d)))

any_submitted_lem :
    (ss : List Submission) (u : User)
    → All HasTeam ss
    → Decides (any_result (λ s. is_submitted_for_user s u) ss) (HasSubmitted u.id ss)
any_submitted_lem [] u teams = Decides-bool false ((λ e. (cc)), λ e. absurd e)
any_submitted_lem (s ∷ ss) u (team, teams) =
    Decides-or_else (is_submitted_for_user_lem s u team) (any_submitted_lem ss u teams)

-- For a task whose submissions and their teams are loaded, the question whether it is submitted
-- for a user is always answered, with true exactly if the user is a submitter of a submitted
-- submission.
pub is_submitted_for_user_of_lem :
    (t : Task) (u : User) (ss : List Submission)
    → get_submission_items t ≡ ok ss
    → All HasTeam ss
    → Decides (is_submitted_for_user_of t u) (HasSubmitted u.id ss)
unfolding is_submitted_for_user_of
is_submitted_for_user_of_lem t u ss items teams =
    rw (items, is_submitted_for_user_of) (any_submitted_lem ss u teams)
