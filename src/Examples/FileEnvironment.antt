-- ===== src/Examples/FileEnvironment.antt =====
-- A database that keeps the records in a list, the last written first, with a storage that works, as
-- the environment of the files storage.
use Prim.Native.String.{◌++◌ as concat, count}
use mathlib.Core.Path.{subst}
use text.Mathlib.TextLemmas.{length-append}
use schulcloud_server.Prelude.{
  ℕ, zero, suc, String, Bool, true, false, not, List, [], ◌∷◌, ◌++◌, Option, none, some, Result, ok,
  Memᴰ, filterb, ◌≡◌, ◌↔◌, inl, inr, refl, sym, ap, ◌∙◌, arith, if◌then◌else◌, ◌==◌, string_eq,
  ==_iff, ==_self, Bool-cases, some_inj, ok_inj, throw, Exception, filter_to, filter_from,
}
use schulcloud_server.FileStorage.Record.{FileRecord}
use schulcloud_server.FileStorage.Names.{Naming}
use schulcloud_server.FileStorage.Environment.{Environment, Keeps, persisted, removed}

abbrev pub Database : Type 0
Database = List FileRecord

abbrev other_than : FileRecord → FileRecord → Bool
other_than r q = not (r.id == q.id)

abbrev lookup : Database → String → Option FileRecord
lookup [] id = none
lookup (r ∷ d) id = let rest = lookup d id in if r.id == id then some r else rest

-- Each record once, as it was written last.
abbrev current : Database → List FileRecord
current [] = []
current (r ∷ d) = r ∷ filterb (other_than r) (current d)

abbrev first : List FileRecord → Option FileRecord
first [] = none
first (r ∷ rs) = some r

abbrev remove : List FileRecord → Database → Database
remove [] d = d
remove (r ∷ rs) d = filterb (other_than r) (remove rs d)

abbrev tally : ℕ → String
tally zero = ""
tally (suc i) = concat "|" (tally i)

pub count-tally : (i : ℕ) → count (tally i) ≡ i
count-tally zero = refl
count-tally (suc i) = omega (arith, length-append "|" (tally i), count-tally i)

abbrev pub naming : Naming
naming = record {
  parse = λ filename. record { name = filename; ext = "" };
  show = tally;
  show_inj = λ i j e. sym (count-tally i) ∙ ap count e ∙ count-tally j;
}

abbrev pub works : Unit {0} → Result (Unit {0}) × Unit {0}
works w = (ok tt, w)

abbrev pub environment : Environment Database (Unit {0}) String
environment = record {
  persist_and_flush = λ rs d. (ok tt, rs ++ d);
  remove_and_flush = λ rs d. (ok tt, remove rs d);
  find = λ p d. ok (filterb p (current d));
  find_one = λ p d. ok (first (filterb p (current d)));
  create = λ path file w. works w;
  delete = λ paths w. works w;
  move_to_trash = λ paths w. works w;
  restore = λ paths w. works w;
  copy = λ paths w. works w;
  get = λ path bytes_range w. (ok path, w);
  enabled = true;
  publish = λ token w. works w;
  max_file_size = 1000;
  join = λ school_id file_record_id. concat school_id (concat "/" file_record_id);
  naming = naming;
}

pub lookup-id : (d : Database) (id : String) (r : FileRecord) → lookup d id ≡ some r → r.id ≡ id
lookup-id [] id r e = cc
lookup-id (q ∷ d) id r e = elim (Bool-cases (q.id == id)) [
  | inl same ↦
      ap (λ (x : FileRecord). x.id) (sym (some_inj (rw same at e))) ∙ (==_iff q.id id).0 same
  | inr other ↦ lookup-id d id r (rw other at e)
]

pub lookup-append :
    (rs : List FileRecord) (d : Database) (id : String)
    → lookup (rs ++ d) id ≡ persisted rs id (lookup d id)
lookup-append [] d id = refl
lookup-append (r ∷ rs) d id = ground (arith, lookup-append rs d id)

lookup-filter :
    (r : FileRecord) (d : Database) (id : String)
    → lookup (filterb (other_than r) d) id ≡ (if r.id == id then none else lookup d id)
lookup-filter r [] id = ground arith
lookup-filter r (q ∷ d) id =
    ground (arith, lookup-filter r d id, ==_iff r.id id, ==_iff q.id id, ==_iff r.id q.id)

pub lookup-remove :
    (rs : List FileRecord) (d : Database) (id : String)
    → lookup (remove rs d) id ≡ removed rs id (lookup d id)
lookup-remove [] d id = refl
lookup-remove (r ∷ rs) d id =
    ground (arith, lookup-filter r (remove rs d) id, lookup-remove rs d id)

current_to : (d : Database) (r : FileRecord) → Memᴰ r (current d) → lookup d r.id ≡ some r
current_to [] r m = elim m [ ]
current_to (q ∷ d) r (Memᴰ.head e) = rw e (rw (==_self q.id) refl)
current_to (q ∷ d) r (Memᴰ.tail m) =
    let (inside, differs) = filter_to (other_than q) (current d) r m in
    ground (arith, differs, current_to d r inside)

current_from : (d : Database) (r : FileRecord) → lookup d r.id ≡ some r → Memᴰ r (current d)
current_from [] r e = cc
current_from (q ∷ d) r e = elim (Bool-cases (q.id == r.id)) [
  | inl same ↦ Memᴰ.head (sym (some_inj (rw same at e)))
  | inr other ↦
      Memᴰ.tail (
        filter_from (other_than q) (current d) r (current_from d r (rw other at e)) (rw other refl))
]

pub find_iff :
    (p : FileRecord → Bool) (d : Database) (r : FileRecord)
    → Memᴰ r (filterb p (current d)) ↔ ((lookup d r.id ≡ some r) × (p r ≡ true))
find_iff p d r = (
  λ m. let (inside, fits) = filter_to p (current d) r m in (current_to d r inside, fits),
  λ (found, fits). filter_from p (current d) r (current_from d r found) fits,
)

pub first-mem : (rs : List FileRecord) (r : FileRecord) → first rs ≡ some r → Memᴰ r rs
first-mem [] r e = cc
first-mem (q ∷ rs) r e = Memᴰ.head (sym (some_inj e))

first-none : (rs : List FileRecord) (r : FileRecord) → first rs ≡ none → ¬ Memᴰ r rs
first-none [] r e m = elim m [ ]
first-none (q ∷ rs) r e m = cc

pub unfound :
    (p : FileRecord → Bool) (d : Database) (r : FileRecord)
    → first (filterb p (current d)) ≡ none
    → lookup d r.id ≡ some r
    → p r ≡ false
unfound p d r e found = elim (Bool-cases (p r)) [
  | inl fits ↦ absurd (first-none (filterb p (current d)) r e ((find_iff p d r).1 (found, fits)))
  | inr fits ↦ fits
]

pub no_throw : {A : Type 0} {a : A} {e : Exception} → ¬ (ok a ≡ throw e)
no_throw h = cc

abbrev pub keeps : Keeps environment
keeps = record {
  lookup = lookup;
  lookup-id = lookup-id;
  lookup-persist = λ rs d d' id e.
      ap (λ x. lookup x id) (sym (ap (λ (x : Result (Unit {0}) × Database). x.1) e))
      ∙ lookup-append rs d id;
  lookup-persist_failed =
      λ rs d d' t id e. absurd (no_throw (ap (λ (x : Result (Unit {0}) × Database). x.0) e));
  lookup-remove = λ rs d d' id e.
      ap (λ x. lookup x id) (sym (ap (λ (x : Result (Unit {0}) × Database). x.1) e))
      ∙ lookup-remove rs d id;
  lookup-remove_failed =
      λ rs d d' t id e. absurd (no_throw (ap (λ (x : Result (Unit {0}) × Database). x.0) e));
  find_iff = λ p d rs r e. (
    λ m. (find_iff p d r).0 (subst (λ l. Memᴰ r l) (sym (ok_inj e)) m),
    λ h. subst (λ l. Memᴰ r l) (ok_inj e) ((find_iff p d r).1 h),
  );
  find_one-found = λ p d r e. (find_iff p d r).0 (first-mem (filterb p (current d)) r (ok_inj e));
  find_one-none = λ p d r e. unfound p d r (ok_inj e);
}
