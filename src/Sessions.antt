-- ===== src/Sessions.antt =====
-- include/coroute/core/session.hpp and src/core/session.cpp: sessions and the store that keeps them in
-- memory. A `shared_ptr` to a session is an address, `objects` what it points to. A time is a number of
-- ticks of the clock, which also counts the ages; every operation gets it as an argument. `Any` are the
-- values that a session may hold.
mod Store
mod Middleware
mod Visits
mod Tests
use web_frame.Prelude.{
  ℕ, ◌+◌, ◌-◌, Bool, true, false, not, Option, none, some, List, [], ◌∷◌, ◌++◌, map, ltb, ◌==◌,
  length, if◌then◌else◌,
}
use web_frame.Prelude.Text.{Text}
use web_frame.Prelude.Dict.{text_eq, find, insert, erase}

pub record Session (Any : Type 0) : Type 0 where
  pub id : Text
  pub data_of : List (Text × Any)
  pub created : ℕ
  pub last_accessed : ℕ
  pub modified : Bool
  pub is_new : Bool

-- A session and when it expires.
pub record StoredSession : Type 0 where
  pub session : ℕ
  pub expires : ℕ

pub record MemorySessionStore (Any : Type 0) : Type 0 where
  pub objects : ℕ → Session Any
  pub fresh : ℕ
  pub sessions : List (Text × StoredSession)
  pub default_max_age : ℕ

module _ {Any : Type 0} where
  abbrev pub new_session : ℕ → Text → Bool → Session Any
  new_session now id is_new = record {
    id = id;
    data_of = [];
    created = now;
    last_accessed = now;
    modified = false;
    is_new = is_new;
  }

  unfoldable pub set : Text → Any → Session Any → Session Any
  set key value s = record s { data_of = insert key value s.data_of; modified = true }

  abbrev is_some : Option Any → Bool
  is_some none = false
  is_some (some value) = true

  unfoldable pub has : Text → Session Any → Bool
  has key s = is_some (find key s.data_of)

  unfoldable pub keys : Session Any → List Text
  keys s = map (λ e. e.0) s.data_of

  unfoldable pub remove : Text → Session Any → Session Any
  unfolding has
  remove key s =
      if has key s then record s { data_of = erase key s.data_of; modified = true } else s

  abbrev clear_data : Session Any → List (Text × Any) → Session Any
  clear_data s [] = s
  clear_data s (d ∷ ds) = record s { data_of = []; modified = true }

  unfoldable pub clear : Session Any → Session Any
  clear s = clear_data s s.data_of

  unfoldable pub touch : ℕ → Session Any → Session Any
  touch now s = record s { last_accessed = now }

  abbrev pub mark_saved : Session Any → Session Any
  mark_saved s = record s { modified = false }

  -- The object at an address is changed, for all who hold the address.
  unfoldable pub put : ℕ → Session Any → MemorySessionStore Any → MemorySessionStore Any
  put address s m = record m { objects = λ a. if a == address then s else m.objects a }

  -- `std::make_shared`: the new object is at `fresh`.
  unfoldable pub allocate : Session Any → MemorySessionStore Any → MemorySessionStore Any
  unfolding put
  allocate s m = record (put m.fresh s m) { fresh = m.fresh + 1 }

  abbrev pub load_found :
      ℕ → Text → MemorySessionStore Any → Option StoredSession → Option ℕ × MemorySessionStore Any
  load_found now id m none = (none, m)
  load_found now id m (some stored) =
      if ltb stored.expires now
      then (none, record m { sessions = erase id m.sessions })
      else (some stored.session, put stored.session (touch now (m.objects stored.session)) m)

  unfoldable pub load : ℕ → Text → MemorySessionStore Any → Option ℕ × MemorySessionStore Any
  unfolding put touch
  load now id m = load_found now id m (find id m.sessions)

  abbrev pub store_at : ℕ → Session Any → ℕ → MemorySessionStore Any → MemorySessionStore Any
  store_at now s address m = record (put address (mark_saved s) m) {
    sessions =
        insert s.id (record { session = address; expires = now + m.default_max_age }) m.sessions;
  }

  abbrev pub save_found :
      ℕ → Session Any → MemorySessionStore Any → Option StoredSession → MemorySessionStore Any
  save_found now s m none = store_at now s m.fresh (allocate (new_session now s.id false) m)
  save_found now s m (some stored) = store_at now s stored.session m

  unfoldable pub save : ℕ → Session Any → MemorySessionStore Any → MemorySessionStore Any
  unfolding put allocate
  save now s m = save_found now s m (find s.id m.sessions)

  unfoldable pub destroy : Text → MemorySessionStore Any → MemorySessionStore Any
  destroy id m = record m { sessions = erase id m.sessions }

  -- The loop of `cleanup`, which erases what was not used since the cutoff.
  unfoldable pub used_since :
      ℕ → (ℕ → Session Any) → List (Text × StoredSession) → List (Text × StoredSession)
  used_since cutoff objects [] = []
  used_since cutoff objects ((id, stored) ∷ rest) =
      let used = used_since cutoff objects rest in
      if ltb (objects stored.session).last_accessed cutoff then used else (id, stored) ∷ used

  unfoldable pub cleanup : ℕ → ℕ → MemorySessionStore Any → MemorySessionStore Any
  unfolding used_since
  cleanup now max_age m = record m { sessions = used_since (now - max_age) m.objects m.sessions }

  unfoldable pub size : MemorySessionStore Any → ℕ
  size m = length m.sessions

  abbrev pub new_store : ℕ → MemorySessionStore Any
  new_store max_age = record {
    objects = λ a. new_session 0 [] false;
    fresh = 0;
    sessions = [];
    default_max_age = max_age;
  }
