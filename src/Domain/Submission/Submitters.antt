-- ===== src/Domain/Submission/Submitters.antt =====
-- The submitters of a submission (submission.entity.ts).
use schulcloud_server.Prelude.{
  List, ◌∷◌, ◌++◌, Option, none, some, Memᴰ, true, ◌≡◌, refl, ◌↔◌, inl, inr, ok, Decides, any,
  any_eq-includes, includes, unique, includes-unique, includes→mem, mem→includes, nat_eq, ◌==◌,
  is_some, sym, Option-cases, arith, is_distinct, is_distinct-unique,
}
use mathlib.Core.List.Memᴰ
use schulcloud_server.Domain.User.{EntityId, User, ids}
use schulcloud_server.Domain.CourseGroup.{CourseGroup}
use schulcloud_server.Domain.Submission.{
  Submission, get_submitter_ids, is_user_submitter, get_team_member_ids,
  get_course_group_student_ids,
}

-- The team members are loaded.
abbrev pub HasTeam : Submission → Type 0
HasTeam s = is_some s.team_members ≡ true

-- The user of an id handed the submission in: as its student, in its team, or in its course group.
pub data IsSubmitter (i : EntityId) (s : Submission) : Type 0 where
  as_student : s.student.id ≡ i → IsSubmitter i s
  in_team : (us : List User) → s.team_members ≡ some us → Memᴰ i (ids us) → IsSubmitter i s
  in_course_group :
      (g : CourseGroup) (us : List User)
      → s.course_group ≡ some g
      → g.students ≡ some us
      → Memᴰ i (ids us)
      → IsSubmitter i s

group_of :
    (i : EntityId) (s : Submission) → Memᴰ i (get_course_group_student_ids s) → IsSubmitter i s
unfolding get_course_group_student_ids
group_of i s m = by_group s.course_group refl
  where
    by_students :
        (g : CourseGroup) (o : Option (List User))
        → s.course_group ≡ some g
        → g.students ≡ o
        → IsSubmitter i s
    by_students g none e k = absurd (Memᴰ.not-nil (rw (e, k) at m))
    by_students g (some us) e k = in_course_group g us e k (rw (e, k) at m)

    by_group : (o : Option CourseGroup) → s.course_group ≡ o → IsSubmitter i s
    by_group none e = absurd (Memᴰ.not-nil (rw e at m))
    by_group (some g) e = by_students g g.students e refl

listed_iff :
    (i : EntityId) (s : Submission) (us : List User)
    → s.team_members ≡ some us
    → Memᴰ i (s.student.id ∷ (ids us ++ get_course_group_student_ids s)) ↔ IsSubmitter i s
unfolding get_course_group_student_ids
listed_iff i s us e = (to, from)
  where
    to : Memᴰ i (s.student.id ∷ (ids us ++ get_course_group_student_ids s)) → IsSubmitter i s
    to (Memᴰ.head same) = as_student (sym same)
    to (Memᴰ.tail m) = elim (Memᴰ.append_cases (ids us) m) [
      | inl t ↦ in_team us e t
      | inr g ↦ group_of i s g
    ]

    from : IsSubmitter i s → Memᴰ i (s.student.id ∷ (ids us ++ get_course_group_student_ids s))
    from (as_student same) = Memᴰ.head (sym same)
    from (in_team vs e' m) =
        let same : us ≡ vs = cc in
        Memᴰ.tail (Memᴰ.append_left (get_course_group_student_ids s) (rw same m))
    from (in_course_group g vs h k m) = Memᴰ.tail (Memᴰ.append_right (ids us) (rw (h, k) m))

-- `getSubmitterIds` lists the ids of those who handed the submission in, each once.
pub get_submitter_ids_lem :
    (s : Submission)
    → HasTeam s
    → (out : List EntityId) × (get_submitter_ids s ≡ ok out)
      × ((i : EntityId) → (includes out i ≡ true) ↔ IsSubmitter i s)
      × (is_distinct out ≡ true)
unfolding get_submitter_ids get_team_member_ids
get_submitter_ids_lem s team = elim (Option-cases s.team_members) [
  | inl e ↦ absurd (ground arith)
  | inr (us, e) ↦
      let all_ids = s.student.id ∷ (ids us ++ get_course_group_student_ids s) in
      (
        unique all_ids,
        rw e refl,
        λ i. (
          λ h. (listed_iff i s us e).0 (includes→mem all_ids i (rw includes-unique at h)),
          λ h. rw includes-unique (mem→includes ((listed_iff i s us e).1 h)),
        ),
        is_distinct-unique all_ids,
      )
]

-- For a submission whose team is loaded the question whether a user is a submitter is always
-- answered, with true exactly for its student, the members of its team and the students of its
-- course group.
pub is_user_submitter_lem :
    (s : Submission) (u : User) → HasTeam s → Decides (is_user_submitter s u) (IsSubmitter u.id s)
unfolding is_user_submitter
is_user_submitter_lem s u team =
    let (out, returned, listed, _) = get_submitter_ids_lem s team in
    (any (λ i. i == u.id) out, rw returned refl, rw (any_eq-includes out u.id) (listed u.id))
