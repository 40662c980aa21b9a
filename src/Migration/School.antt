-- ===== src/Migration/School.antt =====
-- school-migration.service.ts: migrateSchool, schoolToMigrate and what they call. The array of the
-- systems is an object that several schools may refer to, so it stands on a heap. The services for
-- schools and users are parameters, and so is what they keep.
use schulcloud_server.Prelude.{
  ℕ, suc, String, Bool, true, false, List, [], ◌∷◌, ◌++◌, Option, none, some, Result, ok, throw,
  error, ◌==◌, string_eq, nat_eq, if◌then◌else◌,
}
use schulcloud_server.Action.{Action, pure, raise, try_catch, ◌>>=◌}

-- SchoolDO, `systems` being a reference. Of the properties that the migration neither reads nor
-- writes, only the name is here.
pub record SchoolDo : Type 0 where
  pub id : Option String
  pub name : String
  pub external_id : Option String
  pub previous_external_id : Option String
  pub official_school_number : Option String
  pub systems : Option ℕ

-- What is written when a school is saved: the arrays as they are then.
pub record SavedSchool : Type 0 where
  pub id : Option String
  pub name : String
  pub external_id : Option String
  pub previous_external_id : Option String
  pub official_school_number : Option String
  pub systems : Option (List String)

pub record Services (W : Type 0) : Type 0 where
  pub save : SavedSchool → W → Result (Unit {0}) × W
  pub get_school_by_school_number : String → W → Option SchoolDo
  -- The school of the user that is found by an id.
  pub school_id_of : (user_id : String) → W → Result String × W

pub record Memory (W : Type 0) : Type 0 where
  pub array : ℕ → List String
  pub next : ℕ
  pub world : W

-- `new SchoolDO({ ...school })`
unfoldable pub new_school_do : SchoolDo → SchoolDo
new_school_do school = record {
  id = school.id;
  name = school.name;
  external_id = school.external_id;
  previous_external_id = school.previous_external_id;
  official_school_number = school.official_school_number;
  systems = school.systems;
}

abbrev pub read_systems : (ℕ → List String) → Option ℕ → Option (List String)
read_systems array none = none
read_systems array (some ref) = some (array ref)

abbrev pub as_saved : (ℕ → List String) → SchoolDo → SavedSchool
as_saved array school = record {
  id = school.id;
  name = school.name;
  external_id = school.external_id;
  previous_external_id = school.previous_external_id;
  official_school_number = school.official_school_number;
  systems = read_systems array school.systems;
}

abbrev pub update : (ℕ → List String) → ℕ → List String → ℕ → List String
update array ref xs other = if other == ref then xs else array other

abbrev pub same_text : Option String → String → Bool
same_text none s = false
same_text (some t) s = t == s

module _ {W : Type 0} where
  -- `systems.push(target)`, or a new array where there is none.
  abbrev pub push_system : (target_system_id : String) → Option ℕ → Action (Memory W) ℕ
  push_system target (some ref) m = (
    ok ref,
    record {
      array = update m.array ref (m.array ref ++ target ∷ []);
      next = m.next;
      world = m.world;
    },
  )
  push_system target none m = (
    ok m.next,
    record { array = update m.array m.next (target ∷ []); next = suc m.next; world = m.world },
  )

module _ {W : Type 0} (services : Services W) where
  abbrev pub save : SchoolDo → Action (Memory W) (Unit {0})
  save school m =
      let (r, w) = services.save (as_saved m.array school) m.world in
      (r, record { array = m.array; next = m.next; world = w })

  unfoldable pub do_migration :
      (external_id : String) → SchoolDo → (target_system_id : String) → Action (Memory W) (Unit {0})
  do_migration external_id school target_system_id = do
    ref ← push_system target_system_id school.systems
    save (record school {
      systems = some ref;
      previous_external_id = school.external_id;
      external_id = some external_id;
    })

  unfoldable pub rollback_migration : (original : SchoolDo) → Action (Memory W) (Unit {0})
  rollback_migration original = save original

  unfoldable pub migrate_school :
      (external_id : String)
      → (existing_school : SchoolDo) → (target_system_id : String) → Action (Memory W) (Unit {0})
  migrate_school external_id existing_school target_system_id =
      let school_do_copy = new_school_do existing_school in
      try_catch (do_migration external_id existing_school target_system_id)
        (λ e. rollback_migration school_do_copy)

  -- `existingSchool.id !== currentUser.schoolId`, negated.
  unfoldable pub is_external_user_in_school :
      (current_user_id : String) → SchoolDo → Action (Memory W) Bool
  is_external_user_in_school current_user_id school m =
      let (r, w) = services.school_id_of current_user_id m.world in
      (answer r, record { array = m.array; next = m.next; world = w })
    where
      answer : Result String → Result Bool
      answer (throw e) = throw e
      answer (ok school_id) = ok (same_text school.id school_id)

  abbrev pub if_in_school :
      (external_id : String) → SchoolDo → Bool → Action (Memory W) (Option SchoolDo)
  if_in_school external_id school false = raise (error "ext_official_school_number_mismatch")
  if_in_school external_id school true =
      pure (if same_text school.external_id external_id then none else some school)

  abbrev pub if_found :
      (current_user_id external_id : String) → Option SchoolDo → Action (Memory W) (Option SchoolDo)
  if_found current_user_id external_id none = raise (error "ext_official_school_number_mismatch")
  if_found current_user_id external_id (some school) =
      is_external_user_in_school current_user_id school >>= if_in_school external_id school

  abbrev pub if_given :
      (current_user_id external_id : String) → Option String → Action (Memory W) (Option SchoolDo)
  if_given current_user_id external_id none m =
      (throw (error "ext_official_school_number_missing"), m)
  if_given current_user_id external_id (some number) m =
      if number == ""
      then (throw (error "ext_official_school_number_missing"), m)
      else if_found current_user_id external_id
          (services.get_school_by_school_number number m.world) m

  unfoldable pub school_to_migrate :
      (current_user_id external_id : String)
      → (school_number : Option String) → Action (Memory W) (Option SchoolDo)
  school_to_migrate current_user_id external_id school_number =
      if_given current_user_id external_id school_number
