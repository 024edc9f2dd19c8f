-- ===== src/Sessions/Visits.antt =====
-- Two requests of one client, with the cookie between them.
use web_frame.Prelude.{
  ℕ, ◌+◌, ◌≤◌, ◌≡◌, refl, sym, ap, ◌∙◌, Bool, true, false, Option, none, some, List, ◌∷◌, ==_refl,
  arith,
}
use web_frame.Prelude.Text.{Text}
use web_frame.Prelude.Dict.{text_eq}
use web_frame.Core.Request.{Request}
use web_frame.Core.Response.{Response}
use web_frame.Cookies
use web_frame.Cookies.{from_request, set_cookie}
use web_frame.Sessions.{
  Session, MemorySessionStore, new_session, set, clear, touch, mark_saved, put, allocate, load,
  save, destroy,
}
use web_frame.Sessions.Store.{object_of, loaded, loaded-save_in_time, load-default_max_age}
use web_frame.Sessions.Middleware.{
  SessionOptions, generate_id, Next, begin_session, open_session, close_session, handle,
  destroy_session,
}

module _ {Any : Type 0} where
  -- A handler that stores a value in its session, and one that only answers.
  abbrev pub remember : Text → Any → Response → Next Any
  remember key value resp a req m = (resp, put a (set key value (m.objects a)) m)

  abbrev pub answer : Response → Next Any
  answer resp a req m = (resp, m)

  -- A handler that ends its session.
  abbrev pub log_out : (ℕ → Text) → SessionOptions → Response → Next Any
  log_out put_date o resp a req m =
      destroy_session put_date o a resp (put a (clear (m.objects a)) m)

  begin_session-object_of :
      (now : ℕ) (id : Text) (r : Option ℕ × MemorySessionStore Any) (s : Session Any)
      → object_of r ≡ some s
      → ((begin_session now id r).need_set_cookie ≡ false)
        × ((begin_session now id r).store.objects (begin_session now id r).session ≡ s)
  begin_session-object_of now id (none, m) s h = ground arith
  begin_session-object_of now id (some a, m) s h = (refl, ground arith)

  open_session-loaded :
      (o : SessionOptions) (now : ℕ) (draws : ℕ × ℕ) (req : Request) (m : MemorySessionStore Any)
      (id : Text) (s : Session Any)
      → Cookies.get o.cookie_name (from_request req) ≡ some id
      → loaded now id m ≡ some s
      → (let v = open_session o now draws req m in
          (v.need_set_cookie ≡ false) × (v.store.objects v.session ≡ s))
  unfolding open_session loaded
  open_session-loaded o now draws req m id s c h =
      rw c (begin_session-object_of now (generate_id draws) _ s h)

  abbrev pub first_session : ℕ → Text → Text → Any → Session Any
  first_session now id key value = set key value (new_session now id true)

  begin_session-default_max_age :
      (now : ℕ) (id : Text) (r : Option ℕ × MemorySessionStore Any)
      → (begin_session now id r).store.default_max_age ≡ r.1.default_max_age
  unfolding allocate put
  begin_session-default_max_age now id (none, m) = refl
  begin_session-default_max_age now id (some a, m) = refl

  open_session-default_max_age :
      (o : SessionOptions) (now : ℕ) (draws : ℕ × ℕ) (req : Request) (m : MemorySessionStore Any)
      (id : Text)
      → Cookies.get o.cookie_name (from_request req) ≡ some id
      → (open_session o now draws req m).store.default_max_age ≡ m.default_max_age
  unfolding open_session
  open_session-default_max_age o now draws req m id c = rw c (
      begin_session-default_max_age now (generate_id draws) (load now id m)
      ∙ load-default_max_age now id m)

  close_session-log_out :
      (put_date : ℕ → Text) (o : SessionOptions) (now session : ℕ) (need : Bool) (resp : Response)
      (req : Request) (m : MemorySessionStore Any) (s : Session Any) (d : Text × Any)
      (ds : List (Text × Any))
      → o.auto_save ≡ true
      → m.objects session ≡ s
      → s.data_of ≡ d ∷ ds
      → (close_session put_date o now session need (log_out put_date o resp session req m)).1
        ≡ save now (clear s) (destroy s.id (put session (clear s) m))
  unfolding close_session put destroy_session destroy clear
  close_session-log_out put_date o now session need resp req m s d ds a h n =
      rw (==_refl session, h, n, a) refl

  id-clear :
      (s : Session Any) (d : Text × Any) (ds : List (Text × Any))
      → s.data_of ≡ d ∷ ds
      → (clear s).id ≡ s.id
  unfolding clear
  id-clear s d ds n = rw n refl

  -- Where sessions are saved automatically, and the cookie of a request names a session that is loaded
  -- and holds something: a handler that clears the session and destroys it leaves it in the store, where
  -- it is saved again under its identifier, empty, to be loaded until it expires.
  pub handle-log_out :
      (put_date : ℕ → Text) (o : SessionOptions) (now later again : ℕ) (draws : ℕ × ℕ)
      (req : Request) (resp : Response) (id : Text) (s : Session Any) (d : Text × Any)
      (ds : List (Text × Any)) (m : MemorySessionStore Any)
      → o.auto_save ≡ true
      → Cookies.get o.cookie_name (from_request req) ≡ some id
      → loaded now id m ≡ some s
      → s.id ≡ id
      → s.data_of ≡ d ∷ ds
      → again ≤ later + m.default_max_age
      → loaded again id (handle put_date o now later draws req (log_out put_date o resp) m).1
        ≡ some (touch again (mark_saved (clear s)))
  unfolding handle destroy put
  handle-log_out put_date o now later again draws req resp id s d ds m a c h e n t =
      let v = open_session o now draws req m in
      let opened = open_session-loaded o now draws req m id s c h in
      let m' = destroy s.id (put v.session (clear s) v.store) in
      let in_time : again ≤ later + v.store.default_max_age =
        omega (arith, t, open_session-default_max_age o now draws req m id c) in
      ap (loaded again id) (
        close_session-log_out put_date o later v.session v.need_set_cookie resp req v.store s d ds a
          opened.1 n)
      ∙ ap (λ i. loaded again i (save later (clear s) m')) (sym (id-clear s d ds n ∙ e))
      ∙ loaded-save_in_time later again (clear s) m' in_time
