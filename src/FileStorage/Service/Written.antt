-- ===== src/FileStorage/Service/Written.antt =====
-- filerecord.repo.ts: what one finds under an id after records have been saved.
use schulcloud_server.Prelude.{
  ℕ, String, Bool, true, false, List, [], ◌∷◌, map, any, Option, some, ◌≡◌, inl, inr, Memᴰ, refl,
  sym, ap, arith, ◌==◌, string_eq, ==_iff, Bool-cases, some_inj,
}
use schulcloud_server.FileStorage.Record.{FileRecord, mark_for_delete}
use schulcloud_server.FileStorage.Environment.{persisted, is_marked}

-- Whether one of the records has the id.
abbrev pub has_id : List FileRecord → String → Bool
has_id rs id = any (λ r. r.id == id) rs

-- What is written to a record does not change its id.
abbrev pub KeepsId : (FileRecord → FileRecord) → Type 0
KeepsId f = (r : FileRecord) → (f r).id ≡ r.id

pub persisted-outside :
    (f : FileRecord → FileRecord) (rs : List FileRecord) (id : String) (old : Option FileRecord)
    → KeepsId f
    → has_id rs id ≡ false
    → persisted (map f rs) id old ≡ old
persisted-outside f [] id old keeps_id h = refl
persisted-outside f (r ∷ rs) id old keeps_id h =
    ground (arith, persisted-outside f rs id old keeps_id, ap (λ i. i == id) (keeps_id r), h)

pub persisted-inside :
    (f : FileRecord → FileRecord) (rs : List FileRecord) (id : String) (old new : Option FileRecord)
    → KeepsId f
    → has_id rs id ≡ true
    → persisted (map f rs) id old ≡ persisted (map f rs) id new
persisted-inside f [] id old new keeps_id h = cc
persisted-inside f (r ∷ rs) id old new keeps_id h =
    ground (arith, persisted-inside f rs id old new keeps_id, ap (λ i. i == id) (keeps_id r), h)

-- The later of two writes to the same records is what one finds.
pub persisted-persisted :
    (f g : FileRecord → FileRecord) (rs : List FileRecord) (id : String) (old : Option FileRecord)
    → KeepsId f
    → KeepsId g
    → persisted (map f rs) id (persisted (map g rs) id old) ≡ persisted (map f rs) id old
persisted-persisted f g rs id old keeps_f keeps_g = elim (Bool-cases (has_id rs id)) [
  | inl inside ↦ persisted-inside f rs id (persisted (map g rs) id old) old keeps_f inside
  | inr outside ↦ ap (persisted (map f rs) id) (persisted-outside g rs id old keeps_g outside)
]

pub map-map :
    (f g h : FileRecord → FileRecord) (rs : List FileRecord)
    → ((r : FileRecord) → f (g r) ≡ h r)
    → map f (map g rs) ≡ map h rs
map-map f g h [] e = refl
map-map f g h (r ∷ rs) e = rw (e r, map-map f g h rs e) refl

pub persisted-marked :
    (now : ℕ) (rs : List FileRecord) (id : String) (old : Option FileRecord) (q : FileRecord)
    → has_id rs id ≡ true
    → persisted (map (mark_for_delete now) rs) id old ≡ some q
    → is_marked q ≡ true
unfolding mark_for_delete
persisted-marked now [] id old q h e = cc
persisted-marked now (r ∷ rs) id old q h e = elim (Bool-cases (r.id == id)) [
  | inl same ↦ ap is_marked (sym (some_inj (rw same at e)))
  | inr other ↦ persisted-marked now rs id old q (rw other at h) (rw other at e)
]

pub has_id-mem : (rs : List FileRecord) (r : FileRecord) → Memᴰ r rs → has_id rs r.id ≡ true
has_id-mem [] r m = elim m [ ]
has_id-mem (x ∷ xs) r (Memᴰ.head e) =
    ground (arith, ==_iff x.id r.id, ap (λ (y : FileRecord). y.id) e)
has_id-mem (x ∷ xs) r (Memᴰ.tail m) = ground (arith, has_id-mem xs r m)

pub no_member : (rs : List FileRecord) → ((r : FileRecord) → ¬ Memᴰ r rs) → rs ≡ []
no_member [] h = refl
no_member (r ∷ rs) h = absurd (h r (Memᴰ.head refl))
