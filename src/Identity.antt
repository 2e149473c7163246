-- ===== src/Identity.antt =====
-- src/mosemo/identity: accounts, devices, and signing in with a one-time authorization code.
-- The libraries' work is a parameter: SHA-256 of a code (`hashlib`), the PKCE pattern and hash
-- (`re`, `hashlib`, `base64`), and the signing of claims (`jwt`). The OAuth client's answer, the
-- random code and the generated identifiers are arguments.
pub mod Codes
pub mod Accounts
mod Examples
use mosemo.Prelude.{
  ℕ, ◌+◌, String, Bool, true, false, not, ◌&&◌, Option, none, some, List, [], ◌∷◌, ◌++◌, nat_eq,
  string_eq, ◌==◌, leb, find, keep, replace, is_some, map, Result, ok, err, ◌>>=◌, ◌>>◌, guard,
  require, unit_of_work, if◌then◌else◌,
}
use mosemo.Shared.Time.{Instant, Span, Uuid, Timezone, asia_seoul}
use mosemo.Labels.{Label, on_account_created}

pub data AccountProvider : Type 0 where
  kakao : AccountProvider

abbrev pub provider_beq : AccountProvider → AccountProvider → Bool
provider_beq kakao kakao = true

pub record Account : Type 0 where
  pub id : Uuid
  pub provider : AccountProvider
  pub provider_subject : String
  pub timezone : Timezone
  pub last_authenticated_at : Instant

pub record Device : Type 0 where
  pub id : Uuid
  pub account_id : Uuid
  pub idempotency_key : Uuid

pub record NativeAuthCode : Type 0 where
  pub code_digest : String
  pub account_id : Uuid
  pub code_challenge : String
  pub expires_at : Instant

pub record IdentityStore : Type 0 where
  pub accounts : List Account
  pub devices : List Device
  pub auth_codes : List NativeAuthCode
  pub labels : List Label

pub data SignInError : Type 0 where
  oauth_authentication invalid_authorization_code : SignInError

unfoldable pub is_expired : NativeAuthCode → Instant → Bool
is_expired code now = leb code.expires_at now

-- `matches`; comparing in constant time is comparing.
unfoldable pub matches : NativeAuthCode → String → Bool
matches code challenge = code.code_challenge == challenge

-- `NativeAuthCode.issue`, for the random `authorization_code`.
abbrev pub issue : (String → String) → Uuid → String → Instant → Span → String → NativeAuthCode
issue digest account challenge now ttl authorization_code = record {
  code_digest = digest authorization_code;
  account_id = account;
  code_challenge = challenge;
  expires_at = now + ttl;
}

-- `find_for_update`
abbrev pub find_code : List NativeAuthCode → String → Option NativeAuthCode
find_code codes code_digest = find (λ c. c.code_digest == code_digest) codes

-- `delete`, by the primary key.
abbrev pub delete_code : NativeAuthCode → List NativeAuthCode → List NativeAuthCode
delete_code code codes = keep (λ c. not (c.code_digest == code.code_digest)) codes

unfoldable pub delete_expired : Instant → List NativeAuthCode → List NativeAuthCode
unfolding is_expired
delete_expired now codes = keep (λ c. not (is_expired c now)) codes

abbrev pub find_account : List Account → AccountProvider → String → Option Account
find_account accounts provider subject =
    find (λ a. provider_beq a.provider provider && (a.provider_subject == subject)) accounts

-- `AccountRepository.get_or_create`: the account, whether it is new, and the table.
unfoldable pub get_or_create_account : Account → List Account → Account × Bool × List Account
get_or_create_account account accounts =
    elim (find_account accounts account.provider account.provider_subject) [
      | none ↦ (account, true, accounts ++ account ∷ [])
      | some existing ↦ (existing, false, accounts)
    ]

-- `authenticate`, flushed to the account's row.
abbrev pub authenticate : Instant → Account → List Account → List Account
authenticate now account accounts =
    replace (λ a. a.id == account.id) (λ a. record a { last_authenticated_at = now }) accounts

pub record SignIn : Type 0 where
  pub provider : AccountProvider
  pub code_challenge : String
  pub now : Instant
  pub ttl : Span
  -- What the constructors generate and the database sets.
  pub account_id : Uuid
  pub database_now : Instant
  pub authorization_code : String
  pub label_ids : ℕ → Uuid

abbrev pub new_account : SignIn → String → Account
new_account c subject = record {
  id = c.account_id;
  provider = c.provider;
  provider_subject = subject;
  timezone = asia_seoul;
  last_authenticated_at = c.database_now;
}

module _ (digest : String → String) where
  -- The store after the transaction of `LogIn`, with the handler of `AccountCreated`, which runs
  -- before the commit.
  abbrev pub signed_in : SignIn → Account × Bool × List Account → IdentityStore → IdentityStore
  signed_in c (account, created, accounts) s = record s {
    accounts = if created then accounts else authenticate c.now account accounts;
    auth_codes =
        delete_expired c.now s.auth_codes
        ++ issue digest account.id c.code_challenge c.now c.ttl c.authorization_code ∷ [];
    labels = if created then on_account_created c.label_ids account.id s.labels else s.labels;
  }

  -- `LogIn.execute`; `none` is an error of the OAuth client.
  unfoldable pub log_in :
      SignIn → Option String → IdentityStore → Result SignInError String × IdentityStore
  unfolding get_or_create_account delete_expired
  log_in c none s = (err oauth_authentication, s)
  log_in c (some subject) s = (
    ok c.authorization_code,
    signed_in c (get_or_create_account (new_account c subject) s.accounts) s,
  )

-- The claims that differ from token to token; `jti` is random, and the others are settings.
pub record AccessClaims : Type 0 where
  pub sub : Uuid
  pub iat : Instant
  pub exp : Instant

-- The token, or `none` if the code expired, and the store without the code.
abbrev pub settle :
    Bool → Bool → String → IdentityStore → Result SignInError (Option String × IdentityStore)
settle expired matched token used =
    if expired
    then ok (none, used)
    else if matched
    then ok (some token, used)
    else err invalid_authorization_code

-- The code that expired is deleted, and refused all the same.
abbrev pub refuse_expired :
    Result SignInError (Option String) × IdentityStore → Result SignInError String × IdentityStore
refuse_expired (ok none, s) = (err invalid_authorization_code, s)
refuse_expired (ok (some token), s) = (ok token, s)
refuse_expired (err e, s) = (err e, s)

module _ (digest : String → String) (is_valid_verifier : String → Bool)
    (pkce_hash : String → String) (encode : AccessClaims → String) (token_ttl : Span) where
  -- `create_code_challenge`; `none` is the `ValueError`.
  abbrev pub create_code_challenge : String → Option String
  create_code_challenge verifier =
      if is_valid_verifier verifier then some (pkce_hash verifier) else none

  abbrev pub issue_access_token : Uuid → Instant → String
  issue_access_token account now =
      encode (record { sub = account; iat = now; exp = now + token_ttl })

  -- A stored code's exchange in the transaction.
  abbrev pub redeem :
      String
      → Instant
      → NativeAuthCode
      → IdentityStore
      → Result SignInError (Option String × IdentityStore)
  redeem challenge now stored s =
      settle (is_expired stored now) (matches stored challenge)
        (issue_access_token stored.account_id now)
        (record s { auth_codes = delete_code stored s.auth_codes })

  abbrev pub redeem_code :
      String → String → Instant → IdentityStore → Result SignInError (Option String × IdentityStore)
  redeem_code code challenge now s = do
    stored ← require (find_code s.auth_codes (digest code)) invalid_authorization_code
    redeem challenge now stored s

  abbrev pub exchange_challenge :
      String → Instant → IdentityStore → Option String → Result SignInError String × IdentityStore
  exchange_challenge code now s none = (err invalid_authorization_code, s)
  exchange_challenge code now s (some challenge) =
      refuse_expired (unit_of_work (redeem_code code challenge now) s)

  -- `ExchangeAuthorizationCode.execute`
  unfoldable pub exchange :
      String → String → Instant → IdentityStore → Result SignInError String × IdentityStore
  unfolding is_expired matches
  exchange code verifier now s = exchange_challenge code now s (create_code_challenge verifier)

-- `DeviceRepository.get_or_create`
unfoldable pub get_or_create_device : Device → List Device → Device × Bool × List Device
get_or_create_device device devices =
    elim (find
      (λ d. (d.account_id == device.account_id) && (d.idempotency_key == device.idempotency_key))
      devices) [
        | none ↦ (device, true, devices ++ device ∷ [])
        | some existing ↦ (existing, false, devices)
      ]

-- `RegisterDevice.execute`; `id` is what the constructor generates.
unfoldable pub register_device : Uuid → Uuid → Uuid → List Device → Uuid × List Device
unfolding get_or_create_device
register_device id account key devices =
    let (device, created, rows) =
      get_or_create_device (record { id = id; account_id = account; idempotency_key = key })
        devices in
    (device.id, rows)

-- `DeviceQuery.find_owned_id`
unfoldable pub find_owned_device : List Device → Uuid → Uuid → Option Uuid
find_owned_device devices account id =
    elim (find (λ d. (d.id == id) && (d.account_id == account)) devices) [
      | none ↦ none
      | some d ↦ some d.id
    ]
