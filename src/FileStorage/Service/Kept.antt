-- ===== src/FileStorage/Service/Kept.antt =====
-- files-storage.service.ts: what the single calls leave in the database, also where they throw.
use schulcloud_server.Prelude.{
  String, not, ◌&&◌, List, Option, none, some, Result, ok, throw, Exception, ◌≡◌, refl, ap, ◌∙◌,
  inl, inr, ◌==◌, string_eq, Bool-cases,
}
use schulcloud_server.FileStorage.Record.{FileRecord}
use schulcloud_server.Action.Yields.{Yields, Yields-ok, Yields-throw, Yields-result, Yields-try}
use schulcloud_server.FileStorage.Environment.{
  Environment, Keeps, Store, save, delete as delete_records, outside, persisted, removed,
}
use schulcloud_server.FileStorage.Service.{send, send_token}

module _ {D W F : Type 0} (env : Environment D W F) where
  -- The database refuses to write the records, or to remove them.
  abbrev pub SaveThrows : List FileRecord → D → Exception → Type 0
  SaveThrows rs d e = (env.persist_and_flush rs d).0 ≡ throw e

  abbrev pub RemovalThrows : List FileRecord → D → Exception → Type 0
  RemovalThrows rs d e = (env.remove_and_flush rs d).0 ≡ throw e

module _ {D W F : Type 0} (env : Environment D W F) (keeps : Keeps env) where
  abbrev pub Unchanged : Store D W → Store D W → Type 0
  Unchanged s s' = (id : String) → keeps.lookup s'.db id ≡ keeps.lookup s.db id

  -- What a lookup gives in a state, after some records have been written to another, or removed.
  abbrev pub Written : List FileRecord → Store D W → Store D W → Type 0
  Written rs s s' = (id : String) → keeps.lookup s'.db id ≡ persisted rs id (keeps.lookup s.db id)

  abbrev pub Removed : List FileRecord → Store D W → Store D W → Type 0
  Removed rs s s' = (id : String) → keeps.lookup s'.db id ≡ removed rs id (keeps.lookup s.db id)

  -- After the first records have been written to a state, the database refuses to write the second
  -- ones, or to remove some.
  abbrev pub RefusedAfter : (first second : List FileRecord) → Store D W → Exception → Type 0
  RefusedAfter first second s e = (t : Store D W) × Written first s t × SaveThrows env second t.db e

  abbrev pub KeptAfter : (first second : List FileRecord) → Store D W → Exception → Type 0
  KeptAfter first second s e = (t : Store D W) × Written first s t × RemovalThrows env second t.db e

  pub Unchanged-trans : (s s' s'' : Store D W) → Unchanged s s' → Unchanged s' s'' → Unchanged s s''
  Unchanged-trans s s' s'' h k id = k id ∙ h id

  pub Yields-save :
      (rs : List FileRecord) (s : Store D W)
      → Yields
          (λ _ s'. Written rs s s')
          (λ e s'. SaveThrows env rs s.db e × Unchanged s s')
          (save env rs s)
  unfolding save
  Yields-save rs s = go (env.persist_and_flush rs s.db) refl
    where
      go :
          (x : Result (Unit {0}) × D)
          → env.persist_and_flush rs s.db ≡ x
          → Yields
              (λ _ s'. Written rs s s')
              (λ e s'. SaveThrows env rs s.db e × Unchanged s s')
              (x.0, record { db = x.1; world = s.world })
      go (ok _, d) e = Yields-ok (λ id. keeps.lookup-persist rs s.db d id e)
      go (throw t, d) e =
          Yields-throw (ap (λ x. x.0) e, λ id. keeps.lookup-persist_failed rs s.db d t id e)

  pub Yields-delete :
      (rs : List FileRecord) (s : Store D W)
      → Yields
          (λ _ s'. Removed rs s s')
          (λ e s'. RemovalThrows env rs s.db e × Unchanged s s')
          (delete_records env rs s)
  unfolding delete_records
  Yields-delete rs s = go (env.remove_and_flush rs s.db) refl
    where
      go :
          (x : Result (Unit {0}) × D)
          → env.remove_and_flush rs s.db ≡ x
          → Yields
              (λ _ s'. Removed rs s s')
              (λ e s'. RemovalThrows env rs s.db e × Unchanged s s')
              (x.0, record { db = x.1; world = s.world })
      go (ok _, d) e = Yields-ok (λ id. keeps.lookup-remove rs s.db d id e)
      go (throw t, d) e =
          Yields-throw (ap (λ x. x.0) e, λ id. keeps.lookup-remove_failed rs s.db d t id e)

  -- The storage and the queue are apart from the database.
  pub Yields-outside :
      {A : Type 0} (call : W → Result A × W) (s : Store D W)
      → Yields (λ _ s'. Unchanged s s') (λ _ s'. Unchanged s s') (outside env call s)
  Yields-outside call s =
      Yields-result (call s.world).0 (record { db = s.db; world = (call s.world).1 })
        (λ _ _ _. refl) (λ _ _ _. refl)

  pub Yields-send :
      (r : FileRecord) (s : Store D W)
      → Yields (λ _ s'. Unchanged s s') (λ _ s'. Unchanged s s') (send env r s)
  unfolding send
  Yields-send r s = go r.security_check.request_token
    where
      go :
          (token : Option String)
          → Yields (λ _ s'. Unchanged s s') (λ _ s'. Unchanged s s') (send_token env token s)
      go none = Yields-ok (λ _. refl)
      go (some token) = elim (Bool-cases (env.enabled && not (token == ""))) [
        | inl sends ↦ rw sends (
            Yields-try (outside env (env.publish token)) _ s (Yields-outside (env.publish token) s)
              (λ e s' h. Yields-throw h))
        | inr silent ↦ rw silent (Yields-ok (λ _. refl))
      ]
