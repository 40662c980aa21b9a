-- ===== src/Lib.antt =====
-- A model of the core of the schulcloud server (apps/server/src): who may do what with which
-- entity, what tasks, lessons and submissions say of themselves, and the dashboard of a user.
--
-- Parts, and the files that model them:
--   * Prelude.antt and its children: Boolean tests on the native numbers, the array methods that the
--     program calls, equality as an interface, calls that return or throw, and what it means that
--     such a call decides a statement.
--   * Action.antt: a method call of a service as a function of the state, which answers or throws and
--     gives the state that it leaves; Action/Yields says what holds after it on either way.
--   * Domain.antt: the entities of shared/domain/entity, a file for each, with their methods: User
--     and Role, Course, CourseGroup, Lesson (LessonTasks for its tasks), Submission, Task (Status for
--     what its status counts), TaskCard, Team. The theorems are in Submission/Submitters,
--     Task/Submitters, Task/Overview and LessonTasks.
--   * Authorization.antt: shared/domain/rules and modules/authorization. Utils is
--     authorisation.utils.ts and permission.service.ts, Rules/* has one file for each rule object,
--     Manager is base-permission-manager.ts with select-strategies.ts, Service is
--     authorization.service.ts with reference.loader.ts. Guarantees has what the rules give together.
--     A rule asks the rule objects of the parents (task, lesson, course group, course), which are
--     calls of the functions here, with the context that the code builds.
--   * Dashboard.antt: shared/domain/entity/dashboard.entity.ts. Element is GridElement, Grid is
--     DashboardEntity, LearnRooms is setLearnRooms and what it calls, Map is the JavaScript map.
--   * Learnroom.antt: modules/learnroom. RoomsAuthorisation is uc/rooms.authorisation.service.ts,
--     Agreement compares it with the rules.
--   * Board.antt: shared/domain/entity/board.entity.ts and boardelement.entity.ts. What
--     `references.set` and `references.remove` leave in the collection is a parameter (References).
--     The two synchronisations, for tasks and for lessons, are one function of the element type.
--   * BoardNode.antt: shared/domain/entity/boardnode and modules/board/repo. Node is
--     boardnode.entity.ts with the classes of nodes, Builder is board-do.builder.ts with the
--     domain objects, Repo has the repositories over the database, whose queries give nodes in no
--     fixed order. Order is on sorting them by position, Flat says which nodes stand for a board,
--     Level what is found at a path among the nodes of one level and all below it; RoundTrip and
--     Stored have the theorems.
--   * Migration.antt: modules/user-login-migration/service/school-migration.service.ts. School has the
--     migration of a school over a heap of arrays, since a copied school shares its array of systems;
--     Rollback and Eligible have the theorems. The services for schools and users are parameters.
--   * CopyHelper.antt: deriveStatusFromElements of modules/copy-helper/service/copy-helper.service.ts.
--   * Tool.antt: modules/tool/service. Parameters has the domain objects, Version is
--     external-tool-version.service.ts, Validation is validation/common-tool-validation.service.ts,
--     ExternalValidation is validation/external-tool-validation.service.ts, SchoolValidation is
--     validation/school-external-tool-validation.service.ts. Regular expressions,
--     lower case and the stored tools are parameters (Engine, Outside).
--   * FileStorage.antt: modules/files-storage. Record is entity/filerecord.entity.ts with
--     helper/file-record.ts, Names is helper/file-name.ts, ScanResult is
--     mapper/file-record.mapper.ts, Environment is repo/filerecord.repo.ts over the database, the
--     storage and the queue, which are parameters and each call of which may throw; a write to
--     the database that throws has changed nothing, since a flush is a transaction. Service is
--     service/files-storage.service.ts with helper/path.ts and the antivirus service,
--     Service/Copying its copies. The other children of Service, Names/Resolved and
--     ScanResult/Reported have the theorems.
--   * Examples.antt: entities of one school and one dashboard, and the theorems applied to them.
--
-- How the code corresponds: a method is a function of the entity, named after it; a method that
-- changes the entity returns the changed one. An exception is a value of `Result`. `new Date()` is
-- the argument `now`, a time is the number of its milliseconds. An id is a text that is only
-- compared, so a number stands for it; `ref` is the identity of an object, which `===` compares. A
-- property that may be missing at run time is an `Option`. A back reference of an entity (the task of
-- a submission, the tasks of a lesson) is an argument beside it, since entities are trees here.
--
-- A path of a board node is a list of ids: an id has no comma and each is closed by one, so that the
-- texts correspond.
--
-- What is not in the repository is a parameter: the collections of @mikro-orm/core (Domain/Orm.antt,
-- with the set laws that the code relies on; Examples/Collections.antt shows that they can hold), the
-- repositories that ask the database (Authorization/Service.antt), the entity manager, the storage
-- client and the publishing of messages (FileStorage/Environment.antt; Examples/FileEnvironment.antt
-- shows that its laws can hold), the metadata of learn rooms
-- (Dashboard/Element.antt).
--
-- Bounds: the search for a free file name is given two rounds more than the parent has files, of
-- which the last finds a name, as the numbered names differ. The search for an open index runs on
-- as many rounds as the grid has entries, plus the last look: that many entries cannot take more
-- indices. Role graphs are without cycles, which the recursion of the program needs as well. A dashboard position is two natural numbers, as the
-- request validation lets whole ones through.
--
-- Not modelled: the interleaving of calls that run at the same time (the copies of one request run
-- one after another here), controllers and their mapping, the other repositories and the database,
-- the adapters for outside services (hydra, etherpad, rocket chat, S3, BBB), the older application
-- under src/, and the use cases outside the parts above.
pub mod Prelude
pub mod Action
pub mod Domain
pub mod Authorization
pub mod Dashboard
pub mod Board
pub mod CopyHelper
pub mod Tool
pub mod BoardNode
pub mod FileStorage
pub mod Migration
pub mod Learnroom
pub mod Examples
