-- ===== src/Api/Tests.antt =====
-- The theorems on the HTTP API's state and gates at concrete inputs.
use aistudio2api.Prelude.{
  ℕ, zero, suc, ◌+◌, ◌≤◌, ◌<◌, ◌≡◌, ◌↔◌, ◌⊎◌, inl, inr, refl, arith, Bool, true, false, Option,
  none, some, List, ◌∷◌, [], Text, codes, is_empty, IsIn, lookup, length, if◌then◌else◌, ltb,
}
use aistudio2api.Api.AdminAuth.{
  AdminAuth, new_admin_auth, live_attempts, login, signed_in, rate_limited,
}
use aistudio2api.Api.AdminAuth.Sessions.{
  Request, logs_in, visits, asks, logs_out, handle_all, handle_all-new_admin_auth,
}
use aistudio2api.Api.AdminAuth.Sound.{IsSound}
use aistudio2api.Api.AdminAuth.Attempts.{Try, WithinMinute, wrongs, wrongs_at_most_five}
use aistudio2api.Api.AdminAuth.Tickets.{IsEarned, session_from, login-IsEarned}
use aistudio2api.Api.Signatures.{
  FunctionCall, ThoughtSignatureStore, new_thought_signature_store, thought_signature_capacity,
  remember, restore_part,
}
use aistudio2api.Api.Signatures.Fifo.{
  IsOrdered, remembered, remembered-new_thought_signature_store, restore_part-remember,
}
use aistudio2api.Api.Failures.{RequestError}
use aistudio2api.Api.Access
use aistudio2api.Api.Access.{Net, Url, served, console, reached, admin_handler, public_handler}
use aistudio2api.Api.Access.Public.{IsAdmitted, public_handler-IsAdmitted}
use aistudio2api.Api.Access.Console.{
  IsSameOrigin, IsFromLoopback, IsSignedIn, admin_handler-IsGuarded,
}

abbrev call : FunctionCall
call = record {
  id = codes "c1";
  name = codes "f";
  arguments = codes "{}";
  thought_signature = codes "s";
}

abbrev verbatim : Text → Text
verbatim text = text

remembered-new_thought_signature_store_example :
    IsOrdered (remembered verbatim new_thought_signature_store ((call ∷ call ∷ []) ∷ []))
    × (length (remembered verbatim new_thought_signature_store ((call ∷ call ∷ []) ∷ [])).order
        ≤ thought_signature_capacity)
remembered-new_thought_signature_store_example =
    remembered-new_thought_signature_store verbatim ((call ∷ call ∷ []) ∷ [])

abbrev store : ThoughtSignatureStore
store = remembered verbatim new_thought_signature_store []

store-IsOrdered : IsOrdered store × (length store.order ≤ thought_signature_capacity)
store-IsOrdered = remembered-new_thought_signature_store verbatim []

abbrev unsigned : FunctionCall
unsigned = record call { thought_signature = [] }

restore_part-remember_example :
    restore_part verbatim
      (remember verbatim store (call ∷ []))
      (record { function_call = some unsigned; thought_signature = [] })
    ≡ record { function_call = some call; thought_signature = [] }
restore_part-remember_example =
    restore_part-remember verbatim store call store-IsOrdered.0 store-IsOrdered.1 refl refl

abbrev root : AdminAuth
root = new_admin_auth true (codes "root") (codes "secret")

abbrev right : Option (Text × Text)
right = some (codes " root ", codes "secret")

abbrev visitors : List Request
visitors =
    logs_in none (codes "p") 1 (codes "t1") right
    ∷ logs_in (some (codes "t1")) (codes "p") 2 (codes "t2") right
    ∷ visits (some (codes "t2")) 3
    ∷ asks (some (codes "t2")) 4
    ∷ logs_out (some (codes "t2"))
    ∷ []

handle_all-new_admin_auth_example :
    (after : AdminAuth) × (handle_all root visitors ≡ some after) × IsSound after
handle_all-new_admin_auth_example =
    handle_all-new_admin_auth true (codes "root") (codes "secret") visitors
      (refl, (refl, (tt, (tt, (tt, tt)))))

abbrev guess : ℕ → Try
guess now = record {
  cookie = none;
  peer = codes "p";
  now = now;
  token = codes "t";
  body = some (codes "root", codes "guess");
}

abbrev guesses : List Try
guesses = guess 10 ∷ guess 20 ∷ guess 30 ∷ guess 40 ∷ guess 50 ∷ guess 60 ∷ guess 70 ∷ []

guesses-WithinMinute : WithinMinute 0 guesses
guesses-WithinMinute = (
  (omega arith, omega arith),
  (
    (omega arith, omega arith),
    (
      (omega arith, omega arith),
      (
        (omega arith, omega arith),
        (
          (omega arith, omega arith),
          ((omega arith, omega arith), ((omega arith, omega arith), tt)),
        ),
      ),
    ),
  ),
)

limits : (wrongs (codes "p") root guesses 0).0.enabled ≡ true
unfolding wrongs login new_admin_auth lookup aistudio2api.Prelude.str_eq
    aistudio2api.Prelude.trim_space aistudio2api.Prelude.insert
limits = refl

wrongs_at_most_five_example :
    let (after, n) = wrongs (codes "p") root guesses 0 in
    (n ≤ 5)
    × ((n < 5)
        ⊎ (login after none (codes "p") 80 (codes "t") right
            ≡ some (record after { attempts = live_attempts 80 after.attempts }, rate_limited)))
unfolding new_admin_auth lookup
wrongs_at_most_five_example =
    wrongs_at_most_five (codes "p") 0 root guesses none 80 (codes "t") (codes " root ")
      (codes "secret") guesses-WithinMinute refl (omega arith) (omega arith) limits

abbrev signed : AdminAuth
signed = record root { sessions = (codes "t1", session_from 0 5) ∷ []; contexts = 1 }

signs_in : login root none (codes "p") 5 (codes "t1") right ≡ some (signed, signed_in (codes "t1"))
unfolding login new_admin_auth lookup aistudio2api.Prelude.str_eq aistudio2api.Prelude.trim_space
    aistudio2api.Prelude.insert aistudio2api.Prelude.erase
signs_in = refl

login-IsEarned_example :
    (codes "t1" ≡ codes "t1") × IsEarned root (codes "p") 5 (codes "t1") right signed
login-IsEarned_example =
    login-IsEarned root signed none (codes "p") 5 (codes "t1") (codes "t1") right signs_in

abbrev refused : RequestError
refused = record {
  canceled = false;
  deadline_exceeded = false;
  accounts_not_ready = false;
  no_eligible_account = false;
  invalid_argument = false;
  model_not_found = false;
  unverified = true;
  rpc_error = none;
  http_status = some 200;
  status_code = none;
  error_code = none;
}

-- A network that knows no address but 127.0.0.1 and no URL but one of another site.
abbrev net : Net
net = record {
  parse_url =
      λ text. some (record { scheme = codes "http"; has_user = false; host = codes "evil" });
  split_host_port = λ text. some (codes "127.0.0.1");
  is_loopback = λ text. true;
  equal_fold = λ a b. false;
}

abbrev get : aistudio2api.Api.Access.Request
get = record {
  method = codes "GET";
  path = codes "/v1/models";
  host = codes "127.0.0.1:80";
  remote_addr = codes "127.0.0.1:9";
  query_key = [];
  goog_api_key = [];
  x_api_key = codes "k";
  authorization = [];
  origin = [];
  sec_fetch_site = [];
  anthropic_version = [];
  cookie = some (codes "t1");
}

public_handler-IsAdmitted_example :
    (public_handler net (codes "k") (λ r. served) get ≡ served) ↔ IsAdmitted net (codes "k") get
public_handler-IsAdmitted_example = public_handler-IsAdmitted net (codes "k") get

reaches : admin_handler net (λ r. console) signed 6 get ≡ (signed, reached console)
unfolding admin_handler new_admin_auth aistudio2api.Prelude.str_eq aistudio2api.Prelude.trim_space
    lookup
reaches = refl

admin_handler-IsGuarded_example :
    IsSameOrigin net get
    × (((true ≡ true) × IsSignedIn signed get 6) ⊎ ((true ≡ false) × IsFromLoopback net get))
unfolding new_admin_auth
admin_handler-IsGuarded_example =
    admin_handler-IsGuarded net (λ r. console) signed signed 6 get reaches
