-- ===== src/Tests/Requests.antt =====
-- Requests at concrete inputs.
use hubabox.Base.{false, List, [], ◌∷◌, ◌≡◌, ◌≢◌, refl, ok, err, none, some, ◌*◌, system}
use hubabox.Text.{Text, codes, text_eq, has_prefix, ascii}
use hubabox.Text.Assoc.{find}
use hubabox.World.{World, second, fails}
use hubabox.Auth.{Bcrypt}
use hubabox.Auth.Sessions.{IsLive}
use hubabox.Library.{kv_enabled, kv_token}
use hubabox.Library.Codes.{IsCode, normal}
use hubabox.RateLimit.{new_limiter}
use hubabox.Server.{
  Method, get, post, Request, Hub, Answer, redirect, failure, session_token, library_token,
  csrf_cookie, form_token,
}
use hubabox.Server.Address.{split_host, rate_limit_key}
use hubabox.Server.Routes.{
  Endpoint, files_upload, library_chat_fragment_get, login_post, Admitted, reached, answered, admit,
}
use hubabox.Server.Admission.{admit-IsLive, admit-IsCode}
use hubabox.Server.Admission.Csrf.{admit-csrf}
use hubabox.Server.Accounts.{
  Setup, is_remote, setup_post, logout_post, clear_cookie, Response, Cookie,
}
use hubabox.Server.Accounts.Laws.{
  IsSetUp, Refuses, SignsIn, IsPassword, setup_post-Refuses, login_post-SignsIn, logout_post-dead,
}

unfoldable pub requests : Unit {0}
unfolding hubabox.Library.nick_rune hubabox.Text.contains_rune admit
    hubabox.Server.Routes.run_guards hubabox.Server.Routes.matches
    hubabox.Server.Routes.select_route hubabox.Server.require_csrf hubabox.Server.require_admin
    hubabox.Server.require_library_guest hubabox.Server.rate_limit_repeated_post form_token
    hubabox.RateLimit.allow rate_limit_key split_host hubabox.Text.Split.cut
    hubabox.Auth.validate_session hubabox.Auth.check_session hubabox.Auth.delete_session
    hubabox.Library.valid_guest hubabox.Library.valid_plain hubabox.Library.match_library_code
    hubabox.Library.is_enabled hubabox.Library.token hubabox.Library.code_matches
    hubabox.Library.is_lower_hex hubabox.Library.byte_suffix hubabox.Text.to_lower
    hubabox.Text.trim_space fails hubabox.World.later find hubabox.Text.Assoc.put
    hubabox.Text.Assoc.del text_eq has_prefix setup_post hubabox.Server.Accounts.login_post
    logout_post hubabox.Server.Accounts.sign_in hubabox.Auth.create_session
    hubabox.Auth.Base64.base64_raw_url hubabox.Auth.has_admin_password
    hubabox.Auth.check_admin_password hubabox.Auth.set_admin_password
    hubabox.Server.Address.is_loopback_request
requests = tt

address_tests :
    (split_host (codes "10.0.0.7:5123") ≡ some (codes "10.0.0.7"))
    × (split_host (codes "[fe80::1]:80") ≡ some (codes "fe80::1"))
    × (split_host (codes "10.0.0.7") ≡ none)
    × (split_host (codes "fe80::1") ≡ none)
    × (rate_limit_key (codes "login") (codes "10.0.0.7") ≡ codes "login|10.0.0.7")
unfolding requests
address_tests = (refl, refl, refl, refl, refl)

abbrev pub world : World
world = record {
  kv =
      (codes "admin_password_bcrypt", codes "$open")
      ∷ (kv_enabled, codes "1")
      ∷ (kv_token, codes "00abcdef")
      ∷ [];
  sessions = (codes "tok", 100) ∷ [];
  messages = [];
  next_id = 1;
  disk = [];
  now = 5 * second;
  faults = [];
}

abbrev pub hub : Hub
hub = record {
  world = world;
  setup_limiter = new_limiter 12 (60 * second);
  login_limiter = new_limiter 24 (60 * second);
  library_limiter = new_limiter 40 (60 * second);
}

abbrev form : List (Text × Text)
form = (codes "csrf_token", codes "c0ffee") ∷ (codes "password", codes "open") ∷ []

abbrev pub ask : Method → Text → Text → Text → Request
ask method path session code = record {
  method = method;
  path = path;
  remote_addr = codes "10.0.0.7:5123";
  cookies =
      (codes "hubabox_session", session)
      ∷ (codes "hubabox_library", code)
      ∷ (csrf_cookie, codes "c0ffee")
      ∷ [];
  csrf_header = [];
  form = ok form;
}

abbrev upload : Request
upload = ask post (codes "/files/upload") (codes "tok") []

abbrev fragment : Request
fragment = ask get (codes "/library/chat/fragment") [] (codes "abcdef")

admit_tests :
    ((admit ascii upload hub).0 ≡ reached files_upload)
    × ((admit ascii fragment hub).0 ≡ reached library_chat_fragment_get)
    × ((admit ascii (ask post (codes "/files/upload") (codes "old") []) hub).0
        ≡ answered (redirect (codes "/login")))
    × ((admit ascii (record upload { form = err system }) hub).0 ≡ answered (failure 403))
    × ((admit ascii (ask get (codes "/library/chat/fragment") [] (codes "000000")) hub).0
        ≡ answered (failure 403))
    × ((admit ascii (ask post (codes "/login") [] []) hub).0 ≡ reached login_post)
    × ((admit ascii (ask get (codes "/files/upload") [] []) hub).0 ≡ answered (failure 405))
    × ((admit ascii (ask get (codes "/nothing") [] []) hub).0 ≡ answered (failure 404))
unfolding requests
admit_tests = (refl, refl, refl, refl, refl, refl, refl, refl)

admit-IsLive_example : IsLive world (codes "tok")
unfolding requests
admit-IsLive_example = admit-IsLive ascii upload hub files_upload refl admit_tests.0

admit-IsCode_example :
    (tok : Text) × (find kv_enabled world.kv ≡ some (codes "1"))
    × (find kv_token world.kv ≡ some tok)
    × IsCode tok (normal ascii (library_token fragment))
unfolding requests
admit-IsCode_example = admit-IsCode ascii fragment hub library_chat_fragment_get refl admit_tests.1

admit-csrf_example :
    (value : Text) × (find csrf_cookie upload.cookies ≡ some value)
    × (value ≢ [])
    × (form_token upload ≡ ok value)
unfolding requests
admit-csrf_example = admit-csrf ascii upload hub files_upload refl refl admit_tests.0

abbrev setup : Setup
setup = record {
  allow_remote_setup = false;
  bcrypt = record {
    generate = λ plain salt. ok (b'$' ∷ plain);
    compare = λ hash other. text_eq hash (b'$' ∷ other);
  };
  is_loopback = λ host. text_eq host (codes "127.0.0.1");
}

world-IsSetUp : IsSetUp world
unfolding requests
world-IsSetUp = (codes "$open", refl, refl)

setup_post-Refuses_example : Refuses world (setup_post setup [] (ok (1 ∷ 2 ∷ [])) upload world)
unfolding requests
setup_post-Refuses_example = setup_post-Refuses setup [] (ok (1 ∷ 2 ∷ [])) upload world refl

is_signed_in :
    (hubabox.Server.Accounts.login_post setup (ok (1 ∷ 2 ∷ 3 ∷ [])) upload world).0.1 ≢ []
unfolding requests
is_signed_in e = cc

login_post-SignsIn_example :
    (fields : List (Text × Text)) × (upload.form ≡ ok fields)
    × IsPassword setup.bcrypt fields world
    × SignsIn (hubabox.Server.Accounts.login_post setup (ok (1 ∷ 2 ∷ 3 ∷ [])) upload world)
login_post-SignsIn_example = login_post-SignsIn setup 1 (2 ∷ 3 ∷ []) upload world is_signed_in

logout_post-dead_example :
    (¬ IsLive (logout_post upload world).1 (session_token upload))
    × ((logout_post upload world).0
        ≡ (redirect (codes "/login"), clear_cookie (codes "hubabox_session") ∷ []))
unfolding requests
logout_post-dead_example = logout_post-dead upload world refl
