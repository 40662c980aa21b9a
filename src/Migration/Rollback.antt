-- ===== src/Migration/Rollback.antt =====
-- school-migration.service.ts: what is saved by a migration, and by the roll-back of one that failed.
use schulcloud_server.Prelude.{
  ℕ, suc, String, List, [], ◌∷◌, ◌++◌, Option, Option-cases, inl, inr, none, some, Result, ok,
  throw, ◌≡◌, refl, nat_eq, ==_self, ◌∙◌,
}
use schulcloud_server.Action.{caught}
use schulcloud_server.Migration.School.{
  SchoolDo, SavedSchool, Services, Memory, new_school_do, as_saved, read_systems, update, save,
  do_migration, rollback_migration, migrate_school,
}

-- The systems of a school after one more has been pushed.
abbrev pub pushed : String → Option (List String) → List String
pushed target none = target ∷ []
pushed target (some xs) = xs ++ target ∷ []

-- The school as a migration saves it.
abbrev pub migrated : String → String → SavedSchool → SavedSchool
migrated external_id target school = record school {
  external_id = some external_id;
  previous_external_id = school.external_id;
  systems = some (pushed target school.systems);
}

-- What the roll-back saves: the array that the copy shares has been changed.
abbrev pub kept_systems : String → Option (List String) → Option (List String)
kept_systems target none = none
kept_systems target (some xs) = some (xs ++ target ∷ [])

module _ {W : Type 0} (services : Services W) where
  -- A call of the service as the migration sees it: the answer and the world.
  abbrev pub outcome : Result (Unit {0}) × Memory W → Result (Unit {0}) × W
  outcome (r, m) = (r, m.world)

  -- The answer to a save, followed by another if it throws.
  abbrev pub or_save : SavedSchool → Result (Unit {0}) × W → Result (Unit {0}) × W
  or_save school (ok a, w) = (ok a, w)
  or_save school (throw e, w) = services.save school w

  settle :
      (school : SchoolDo) (array : ℕ → List String) (next : ℕ) (x : Result (Unit {0}) × W)
      → outcome (
          caught
            (λ e. save services school)
            (x.0, record { array = array; next = next; world = x.1 }))
        ≡ or_save (as_saved array school) x
  settle school array next (ok a, w) = refl
  settle school array next (throw e, w) = refl

  -- A migration of a school saves it with the new external id, the old one as the previous one,
  -- and the target system added to its systems. If that throws, it saves the school once more
  -- with the ids that it had, and answers what this save answers; the systems are then still
  -- those with the target system, unless the school had no array of systems.
  pub migrate_school_lem :
      (external_id target : String) (school : SchoolDo) (m : Memory W)
      → outcome (migrate_school services external_id school target m)
        ≡ or_save
            (record (as_saved m.array school) {
              systems = kept_systems target (read_systems m.array school.systems);
            })
            (services.save (migrated external_id target (as_saved m.array school)) m.world)
  unfolding migrate_school do_migration rollback_migration new_school_do
  migrate_school_lem external_id target school m = elim (Option-cases school.systems) [
    | inl missing ↦
        rw (missing, ==_self m.next)
          (settle (record school { systems = none }) (update m.array m.next (target ∷ []))
            (suc m.next) (saving (target ∷ [])))
    | inr (ref, given) ↦
        rw (given, ==_self ref)
          (settle (record school { systems = some ref })
              (update m.array ref (m.array ref ++ target ∷ [])) m.next
              (saving (m.array ref ++ target ∷ []))
            ∙ rw (==_self ref) refl)
  ]
    where
      saving : List String → Result (Unit {0}) × W
      saving systems =
          services.save
            (record (as_saved m.array school) {
              external_id = some external_id;
              previous_external_id = school.external_id;
              systems = some systems;
            })
            m.world
