-- ===== src/Sessions/Middleware.antt =====
-- src/core/session.cpp, `SessionMiddleware` over the store in memory. The two numbers that `generate_id`
-- draws are arguments. The handler gets the address of its session, as `get_session` gives it.
use web_frame.Prelude.{
  ℕ, ◌-◌, Bool, true, false, not, ◌&&◌, ◌||◌, Option, none, some, ◌∷◌, ◌++◌, zero, suc, length,
  if◌then◌else◌,
}
use web_frame.Prelude.Int.{pos}
use web_frame.Prelude.Text.{Text, is_empty}
use web_frame.Core.Request.{Request}
use web_frame.Core.Response.{Response}
use web_frame.Chunked.Codec.{to_hex}
use web_frame.Cookies
use web_frame.Cookies.{Cookie, SameSite, cookie, from_request, set_cookie, delete_cookie}
use web_frame.Sessions.{Session, MemorySessionStore, new_session, allocate, load, save, destroy}

pub record SessionOptions : Type 0 where
  pub cookie_name : Text
  pub cookie_path : Text
  pub cookie_domain : Text
  pub max_age : ℕ
  pub secure : Bool
  pub http_only : Bool
  pub same_site : SameSite
  pub auto_save : Bool
  pub rolling : Bool

abbrev pub zeros : ℕ → Text → Text
zeros zero t = t
zeros (suc n) t = b'0' ∷ zeros n t

-- `setw(16)` with the fill `0`.
abbrev pub padded : Text → Text
padded t = zeros (16 - length t) t

unfoldable pub generate_id : ℕ × ℕ → Text
generate_id (a, b) = padded (to_hex a) ++ padded (to_hex b)

unfoldable pub create_session_cookie : SessionOptions → Text → Cookie
create_session_cookie o id = record (cookie o.cookie_name id) {
  path = some o.cookie_path;
  domain = if is_empty o.cookie_domain then none else some o.cookie_domain;
  max_age = some (pos o.max_age);
  secure = o.secure;
  http_only = o.http_only;
  same_site = o.same_site;
}

-- Where a handler is called: the address of its session, whether that is a new one, and the store.
pub record Opened (Any : Type 0) : Type 0 where
  pub session : ℕ
  pub need_set_cookie : Bool
  pub store : MemorySessionStore Any

abbrev pub Next : Type 0 → Type 0
Next Any = ℕ → Request → MemorySessionStore Any → Response × MemorySessionStore Any

module _ {Any : Type 0} where
  abbrev load_cookie : ℕ → Option Text → MemorySessionStore Any → Option ℕ × MemorySessionStore Any
  load_cookie now none m = (none, m)
  load_cookie now (some id) m = load now id m

  abbrev pub begin_session : ℕ → Text → Option ℕ × MemorySessionStore Any → Opened Any
  begin_session now id (none, m) = record {
    session = m.fresh;
    need_set_cookie = true;
    store = allocate (new_session now id true) m;
  }
  begin_session now id (some a, m) = record { session = a; need_set_cookie = false; store = m }

  -- Up to the call of the handler.
  unfoldable pub open_session :
      SessionOptions → ℕ → ℕ × ℕ → Request → MemorySessionStore Any → Opened Any
  open_session o now draws req m =
      begin_session now (generate_id draws)
        (load_cookie now (Cookies.get o.cookie_name (from_request req)) m)

  abbrev pub auto_saved : SessionOptions → ℕ → ℕ → MemorySessionStore Any → MemorySessionStore Any
  auto_saved o now session m =
      if o.auto_save && (m.objects session).modified then save now (m.objects session) m else m

  abbrev pub with_cookie : (ℕ → Text) → SessionOptions → Bool → Session Any → Response → Response
  with_cookie put_date o need s resp =
      if need || (o.rolling && not s.is_new)
      then set_cookie put_date (create_session_cookie o s.id) resp
      else resp

  -- From the return of the handler on.
  unfoldable pub close_session :
      (ℕ → Text)
      → SessionOptions
      → ℕ
      → ℕ
      → Bool
      → Response × MemorySessionStore Any
      → Response × MemorySessionStore Any
  close_session put_date o now session need (resp, m) =
      let m' = auto_saved o now session m in
      (with_cookie put_date o need (m'.objects session) resp, m')

  -- `operator()`: the handler is called at `now` and returns at `later`.
  unfoldable pub handle :
      (ℕ → Text)
      → SessionOptions
      → ℕ
      → ℕ
      → ℕ × ℕ
      → Request
      → Next Any
      → MemorySessionStore Any
      → Response × MemorySessionStore Any
  unfolding open_session close_session
  handle put_date o now later draws req next m =
      let v = open_session o now draws req m in
      close_session put_date o later v.session v.need_set_cookie (next v.session req v.store)

  unfoldable pub destroy_session :
      (ℕ → Text)
      → SessionOptions
      → ℕ
      → Response
      → MemorySessionStore Any
      → Response × MemorySessionStore Any
  destroy_session put_date o session resp m = (
    delete_cookie put_date o.cookie_name o.cookie_path o.cookie_domain resp,
    destroy (m.objects session).id m,
  )
