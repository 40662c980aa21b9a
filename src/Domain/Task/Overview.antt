-- ===== src/Domain/Task/Overview.antt =====
-- Publication and archiving of a task (task.entity.ts).
use schulcloud_server.Prelude.{
  ℕ, ◌≤◌, true, false, List, some, ok, ◌≡◌, refl, sym, ◌↔◌, ◌⊎◌, inl, inr, arith, Memᴰ, Decides,
  nat_eq, any, any_eq-includes, includes_iff-mem, ◌==◌, or_iff, Decides-iff, Decides-eq,
  Decides-unique, ◌||◌,
}
use mathlib.Core.List.Memᴰ
use schulcloud_server.Domain.User.{User, ids, refs}
use schulcloud_server.Domain.Orm.{Orm}
use schulcloud_server.Domain.Task.{
  Task, is_draft, is_published, is_planned, publish, unpublish, is_finished_for_user,
  get_finished_user_ids, finish_for_user, restore_for_user, is_finished_course,
}

-- A task that is published stays published as time goes on, and a planned task is published at
-- its date.
pub publication_grows :
    (now later : ℕ) (t : Task)
    → now ≤ later
    → (is_published now t ≡ true → is_published later t ≡ true)
      × (is_planned now t ≡ true
          → (date : ℕ) × (t.available_date ≡ some date) × (is_published date t ≡ true))
unfolding is_published is_planned
publication_grows now later t h = (λ p. ground arith, λ p. ground arith)

-- A task that is published now is published at every later time; one that is taken back is a
-- draft, and neither published nor planned at that time.
pub publish-unpublish :
    (now later : ℕ) (t : Task)
    → now ≤ later
    → (is_published later (publish now t) ≡ true)
      × (is_draft (unpublish t) ≡ true)
      × (is_published later (unpublish t) ≡ false)
      × (is_planned later (unpublish t) ≡ false)
unfolding is_published is_planned is_draft publish unpublish
publish-unpublish now later t h = (ground arith, refl, refl, refl)

-- Within one request there is one object for each id, and the users who archived the task are such.
abbrev pub OneObjectPerId : User → List User → Type 0
OneObjectPerId u us = (v : User) → Memᴰ v us → (v.ref ≡ u.ref) ↔ (v.id ≡ u.id)

ids_of_refs :
    (u : User) (us : List User)
    → OneObjectPerId u us
    → (Memᴰ u.ref (refs us)) ↔ (Memᴰ u.id (ids us))
ids_of_refs u us one = (
  λ m.
      let (v, mv, e) = Memᴰ.of_map (λ (x : User). x.ref) us m in
      Memᴰ.cast (sym ((one v mv).0 e)) (Memᴰ.map (λ (x : User). x.id) mv),
  λ m.
      let (v, mv, e) = Memᴰ.of_map (λ (x : User). x.id) us m in
      Memᴰ.cast (sym ((one v mv).1 e)) (Memᴰ.map (λ (x : User). x.ref) mv),
)

finished_iff :
    (now : ℕ) (t : Task) (u : User) (us : List User)
    → t.finished ≡ some us
    → Decides
        (is_finished_for_user now t u)
        (Memᴰ u.id (ids us) ⊎ (is_finished_course now t.course ≡ true))
unfolding is_finished_for_user get_finished_user_ids
finished_iff now t u us e = (
  any (λ i. i == u.id) (ids us) || is_finished_course now t.course,
  rw e refl,
  or_iff _ _ (rw (any_eq-includes (ids us) u.id) (includes_iff-mem (ids us) u.id))
      ((λ h. h), (λ h. h)),
)

module _ (orm : Orm) (u : User) (us : List User) (one : OneObjectPerId u us) where
  add_one : OneObjectPerId u (orm.add us u)
  add_one v m = elim (orm.mem-add us u v m) [
    | inl same ↦ rw same ((λ _. refl), (λ _. refl))
    | inr old ↦ one v old
  ]

  remove_one : OneObjectPerId u (orm.remove us u)
  remove_one v m = one v (orm.mem-remove us u v m)

  only_course : {P : Type 0} → (Memᴰ u.id (ids (orm.remove us u)) ⊎ P) ↔ P
  only_course = (
    λ d. elim d [
      | inl m ↦ absurd (
          ((orm.refs-remove_iff us u u.ref).0 ((ids_of_refs u (orm.remove us u) remove_one).1 m)).0
            refl)
      | inr p ↦ p
    ],
    inr,
  )

  -- For a task whose list of users is loaded, and where users have the same id exactly if they
  -- are the same object, a user who finishes the task is told that it is finished, and one who
  -- restores it is told so only if the course is over.
  pub finish-restore :
      (now : ℕ) (t : Task)
      → t.finished ≡ some us
      → ((t' : Task) × (finish_for_user orm t u ≡ ok t')
          × (is_finished_for_user now t' u ≡ ok true))
        × ((t' : Task) × (restore_for_user orm t u ≡ ok t')
            × (is_finished_for_user now t' u ≡ ok (is_finished_course now t.course)))
  unfolding finish_for_user restore_for_user
  finish-restore now t e =
      let finished : Task = record t { finished = some (orm.add us u) } in
      let restored : Task = record t { finished = some (orm.remove us u) } in
      (
        (
          finished,
          rw e refl,
          (Decides-unique (finished_iff now finished u (orm.add us u) refl)).1 (
              inl (
                (ids_of_refs u (orm.add us u) add_one).0
                  ((orm.refs-add_iff us u u.ref).1 (inl refl)))),
        ),
        (
          restored,
          rw e refl,
          Decides-eq _
              (Decides-iff only_course (finished_iff now restored u (orm.remove us u) refl)),
        ),
      )
