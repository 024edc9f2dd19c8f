-- ===== src/Sessions/Tests.antt =====
-- Sessions at concrete requests.
use web_frame.Prelude.{ℕ, ◌≡◌, refl, true, some, List, [], ◌∷◌, arith}
use web_frame.Prelude.Bytes.{codes}
use web_frame.Prelude.Text.{Text, find_char, trim}
use web_frame.Prelude.Dict.{find, insert}
use web_frame.Core.Request.{Request, empty_request, header}
use web_frame.Core.Response.{empty_response}
use web_frame.Cookies
use web_frame.Cookies.{lax, from_request}
use web_frame.Cookies.RoundTrip.{print_cookies, more_cookies}
use web_frame.Sessions.{
  Session, MemorySessionStore, new_store, new_session, clear, save, touch, mark_saved, size,
  cleanup,
}
use web_frame.Sessions.Store.{loaded, loaded-save}
use web_frame.Sessions.Middleware.{SessionOptions, handle}
use web_frame.Sessions.Visits.{log_out, handle-log_out}

abbrev options : SessionOptions
options = record {
  cookie_name = codes "session_id";
  cookie_path = codes "/";
  cookie_domain = [];
  max_age = 3600;
  secure = true;
  http_only = true;
  same_site = lax;
  auto_save = true;
  rolling = true;
}

abbrev first_id : Text
first_id = codes "000000000000002a00000000000000ff"

abbrev empty_store : MemorySessionStore ℕ
empty_store = new_store 3600

cleanup_test : size (cleanup 90 10 (save 75 (new_session 75 first_id true) empty_store)) ≡ 0
unfolding cleanup save size find insert
cleanup_test = refl

abbrev brought : List (Text × Text)
brought = (codes "lang", codes "en") ∷ (codes "session_id", first_id) ∷ []

abbrev second : Request
second = record empty_request { headers = (codes "Cookie", print_cookies brought) ∷ [] }

second_cookie : Cookies.get (codes "session_id") (from_request second) ≡ some first_id
unfolding Cookies.get from_request header find insert find_char more_cookies trim
second_cookie = refl

abbrev user_session : Session ℕ
user_session = record (new_session 10 first_id true) {
  data_of = (codes "user", 7) ∷ [];
  modified = true;
}

abbrev saved_store : MemorySessionStore ℕ
saved_store = save 11 user_session empty_store

handle-log_out_example :
    loaded 3001 first_id
      (handle
        (λ t. [])
        options
        3000
        3000
        (1, 2)
        second
        (log_out (λ t. []) options empty_response)
        saved_store).1
    ≡ some (touch 3001 (mark_saved (clear (touch 3000 (mark_saved user_session)))))
unfolding touch save find
handle-log_out_example =
    handle-log_out (λ t. []) options 3000 3000 3001 (1, 2) second empty_response first_id
      (touch 3000 (mark_saved user_session)) (codes "user", 7) [] saved_store refl second_cookie
      (loaded-save 11 3000 user_session empty_store) refl refl (omega arith)
