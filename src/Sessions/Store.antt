-- ===== src/Sessions/Store.antt =====
-- What a store gives for an identifier.
use web_frame.Prelude.{
  ℕ, ◌+◌, ◌≡◌, refl, ap, ◌∙◌, false, Option, none, some, ◌≤◌, ltb, le→ltb, ==_refl, if◌then◌else◌,
  Option-cases, Bool-cases, inl, inr, eq_list_refl,
}
use web_frame.Prelude.Text.{Text}
use web_frame.Prelude.Dict.{text_eq, find, find-insert}
use web_frame.Sessions.{
  Session, StoredSession, MemorySessionStore, mark_saved, touch, put, load, load_found, store_at,
  allocate, new_session, save, save_found,
}

module _ {Any : Type 0} where
  abbrev pub object_of : Option ℕ × MemorySessionStore Any → Option (Session Any)
  object_of (none, m) = none
  object_of (some a, m) = some (m.objects a)

  -- The session that `load` gives.
  unfoldable pub loaded : ℕ → Text → MemorySessionStore Any → Option (Session Any)
  loaded now id m = object_of (load now id m)

  loaded-store_at :
      (now later : ℕ) (s : Session Any) (a : ℕ) (m : MemorySessionStore Any)
      → loaded later s.id (store_at now s a m)
        ≡ (if ltb (now + m.default_max_age) later then none else some (touch later (mark_saved s)))
  unfolding loaded load put touch
  loaded-store_at now later s a m =
      let stored : StoredSession = record { session = a; expires = now + m.default_max_age } in
      let m' = store_at now s a m in
      let found : find s.id m'.sessions ≡ some stored =
        find-insert s.id s.id stored m.sessions ∙ rw (eq_list_refl s.id) refl in
      ap (λ o. object_of (load_found later s.id m' o)) found
      ∙ elim (Bool-cases (ltb (now + m.default_max_age) later)) [
        | inl late ↦ rw late refl
        | inr early ↦ rw (early, ==_refl a) refl
      ]

  -- A saved session is loaded until it expires.
  pub loaded-save :
      (now later : ℕ) (s : Session Any) (m : MemorySessionStore Any)
      → loaded later s.id (save now s m)
        ≡ (if ltb (now + m.default_max_age) later then none else some (touch later (mark_saved s)))
  unfolding save allocate put
  loaded-save now later s m = elim (Option-cases (find s.id m.sessions)) [
    | inl e ↦
        ap (λ o. loaded later s.id (save_found now s m o)) e
        ∙ loaded-store_at now later s m.fresh (allocate (new_session now s.id false) m)
    | inr (old, e) ↦
        ap (λ o. loaded later s.id (save_found now s m o)) e
        ∙ loaded-store_at now later s old.session m
  ]

  pub loaded-save_in_time :
      (now later : ℕ) (s : Session Any) (m : MemorySessionStore Any)
      → later ≤ now + m.default_max_age
      → loaded later s.id (save now s m) ≡ some (touch later (mark_saved s))
  loaded-save_in_time now later s m h =
      loaded-save now later s m ∙ rw (le→ltb (now + m.default_max_age) later h) refl

  load_found-default_max_age :
      (now : ℕ) (id : Text) (m : MemorySessionStore Any) (o : Option StoredSession)
      → (load_found now id m o).1.default_max_age ≡ m.default_max_age
  unfolding put
  load_found-default_max_age now id m none = refl
  load_found-default_max_age now id m (some stored) = elim (Bool-cases (ltb stored.expires now)) [
    | inl late ↦ rw late refl
    | inr early ↦ rw early refl
  ]

  pub load-default_max_age :
      (now : ℕ) (id : Text) (m : MemorySessionStore Any)
      → (load now id m).1.default_max_age ≡ m.default_max_age
  unfolding load
  load-default_max_age now id m = load_found-default_max_age now id m (find id m.sessions)
