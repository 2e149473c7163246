-- ===== src/Identity/Examples.antt =====
-- The theorems on signing in, at a concrete store: a code is its own digest, a verifier its own
-- challenge, and a token says when it was issued.
use mosemo.Prelude.{◌+◌, ◌≡◌, refl, true, some, [], String, Bool, ok, err, arith}
use mosemo.Shared.Time.{minutes}
use mosemo.Identity.{
  Account, kakao, AccessClaims, IdentityStore, SignIn, invalid_authorization_code, find_account,
  issue_access_token, log_in, exchange,
}
use mosemo.Identity.Codes.{Exchanges, exchange-Exchanges, exchange-once}
use mosemo.Identity.Accounts.{SignsIn, log_in-SignsIn, log_in-exchange}

abbrev as_is : String → String
as_is s = s

abbrev any_verifier : String → Bool
any_verifier s = true

abbrev token : AccessClaims → String
token c = "token"

abbrev empty : IdentityStore
empty = record { accounts = []; devices = []; auth_codes = []; labels = [] }

abbrev visit : SignIn
visit = record {
  provider = kakao;
  code_challenge = "verifier";
  now = minutes 100;
  ttl = minutes 5;
  account_id = 1;
  database_now = minutes 100;
  authorization_code = "code";
  label_ids = λ n. n + 2;
}

abbrev visited : IdentityStore
visited = (log_in as_is visit (some "user") empty).1

log_in-SignsIn_example : SignsIn as_is visit "user" empty visited
log_in-SignsIn_example = log_in-SignsIn as_is visit "user" empty refl

log_in-exchange_example :
    (a : Account) × (find_account visited.accounts kakao "user" ≡ some a)
    × ((exchange as_is any_verifier as_is token
          (minutes 60)
          "code"
          "verifier"
          (minutes 104)
          visited).0
        ≡ ok (issue_access_token as_is any_verifier as_is token (minutes 60) a.id (minutes 104)))
log_in-exchange_example =
    log_in-exchange as_is any_verifier as_is token (minutes 60) visit "user" "verifier"
      (minutes 104) empty refl refl refl (omega arith)

exchange-Exchanges_example :
    Exchanges as_is any_verifier as_is token
      (minutes 60)
      "code"
      "verifier"
      (minutes 104)
      visited
      (exchange as_is any_verifier as_is token (minutes 60) "code" "verifier" (minutes 104) visited)
exchange-Exchanges_example =
    exchange-Exchanges as_is any_verifier as_is token (minutes 60) "code" "verifier" (minutes 104)
      visited

abbrev after : IdentityStore
after =
    (exchange as_is any_verifier as_is token (minutes 60) "code" "verifier" (minutes 104) visited).1

run-exchange :
    exchange as_is any_verifier as_is token (minutes 60) "code" "verifier" (minutes 104) visited
    ≡ (ok "token", after)
unfolding exchange log_in
run-exchange = refl

exchange-once_example :
    exchange as_is any_verifier as_is token (minutes 60) "code" "another" (minutes 105) after
    ≡ (err invalid_authorization_code, after)
exchange-once_example =
    exchange-once as_is any_verifier as_is token (minutes 60) "code" "verifier" "another"
      (minutes 104) (minutes 105) visited after "token" run-exchange
