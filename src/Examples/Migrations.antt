-- ===== src/Examples/Migrations.antt =====
-- The theorems on the migration of a school whose systems stand in an array, saved by a service that
-- refuses the new login system.
use schulcloud_server.Prelude.{
  String, List, [], ◌∷◌, none, some, ok, throw, error, ◌≡◌, ◌↔◌, ◌==◌, string_eq, if◌then◌else◌,
}
use schulcloud_server.Migration.School.{
  SchoolDo, SavedSchool, Services, Memory, as_saved, read_systems, same_text, migrate_school,
  school_to_migrate,
}
use schulcloud_server.Migration.Rollback.{
  migrated, kept_systems, outcome, or_save, migrate_school_lem,
}
use schulcloud_server.Migration.Eligible.{Eligible, school_to_migrate_lem}

abbrev school : SchoolDo
school = record {
  id = some "school";
  name = "A school";
  external_id = some "old";
  previous_external_id = none;
  official_school_number = some "01234";
  systems = some 7;
}

-- It keeps the schools that were saved, the last one first.
abbrev services : Services (List SavedSchool)
services = record {
  save =
      λ s w. if same_text s.external_id "new" then (throw (error "refused"), w) else (ok tt, s ∷ w);
  get_school_by_school_number = λ number w. if number == "01234" then some school else none;
  school_id_of = λ user_id w. (ok "school", w);
}

abbrev memory : Memory (List SavedSchool)
memory = record { array = λ ref. "ldap" ∷ []; next = 8; world = [] }

migrate_school_lem_example :
    outcome services (migrate_school services "new" school "oauth" memory)
    ≡ or_save services
        (record (as_saved memory.array school) {
          systems = kept_systems "oauth" (read_systems memory.array school.systems);
        })
        (services.save (migrated "new" "oauth" (as_saved memory.array school)) memory.world)
migrate_school_lem_example = migrate_school_lem services "new" "oauth" school memory

school_to_migrate_lem_example :
    ((school_to_migrate services "user" "new" (some "01234") memory).0 ≡ ok (some school)) ↔ (
      (number : String) × (some "01234" ≡ some number)
      × Eligible services "user" "new" number school memory.world)
school_to_migrate_lem_example =
    school_to_migrate_lem services "user" "new" (some "01234") school memory
