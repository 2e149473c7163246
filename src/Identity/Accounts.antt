-- ===== src/Identity/Accounts.antt =====
-- Signing in and registering devices (identity/application/sign_in.py, devices.py).
use mosemo.Prelude.{
  ◌+◌, ◌<◌, ◌≡◌, ◌⊎◌, inl, inr, refl, sym, subst, String, Bool, true, false, ◌&&◌, Option, none,
  some, List, [], ◌∷◌, ◌++◌, nat_eq, string_eq, ◌==◌, ==_refl, find, find-append_one, arith, ok,
  if◌then◌else◌,
}
use mosemo.Labels.{on_account_created}
use mosemo.Shared.Time.{Instant, Span, Uuid}
use mosemo.Identity.{
  NativeAuthCode, Account, AccountProvider, kakao, provider_beq, Device, IdentityStore, SignIn,
  AccessClaims, find_code, find_account, authenticate, issue_access_token, exchange, log_in,
  signed_in, get_or_create_account, new_account, delete_expired, issue, get_or_create_device,
  register_device,
}
use mosemo.Identity.Codes.{exchange-stored}

provider_beq_refl : (p : AccountProvider) → provider_beq p p ≡ true
provider_beq_refl kakao = refl

find_code-delete_expired :
    (codes : List NativeAuthCode) (now : Instant) (d : String)
    → find_code codes d ≡ none
    → find_code (delete_expired now codes) d ≡ none
unfolding delete_expired
find_code-delete_expired [] now d h = refl
find_code-delete_expired (c ∷ codes) now d h = ground (arith, find_code-delete_expired codes now d)

-- The account as a sign-in leaves it.
abbrev touched : Instant → Account → Account → Account
touched now account a = if a.id == account.id then record a { last_authenticated_at = now } else a

find_account-authenticate :
    (now : Instant) (account a : Account) (accounts : List Account) (p : AccountProvider)
    (subject : String)
    → find_account accounts p subject ≡ some a
    → find_account (authenticate now account accounts) p subject ≡ some (touched now account a)
find_account-authenticate now account a [] p subject h = absurd (cc)
find_account-authenticate now account a (c ∷ accounts) p subject h =
    ground (arith, find_account-authenticate now account a accounts p subject)

touched-id : (now : Instant) (account a : Account) → (touched now account a).id ≡ a.id
touched-id now account a = ground arith

module _ (digest : String → String) (c : SignIn) (subject : String) (s : IdentityStore) where
  -- The account that signed in, with a code for it; default labels come with a new account only.
  abbrev pub SignsIn : IdentityStore → Type 0
  SignsIn t =
      (a : Account) × (find_account t.accounts c.provider subject ≡ some a)
      × (find_code t.auth_codes (digest c.authorization_code)
          ≡ some (issue digest a.id c.code_challenge c.now c.ttl c.authorization_code))
      × (((find_account s.accounts c.provider subject ≡ none)
            × (t.labels ≡ on_account_created c.label_ids a.id s.labels))
          ⊎ ((b : Account) × (find_account s.accounts c.provider subject ≡ some b)
              × (a.id ≡ b.id)
              × (t.labels ≡ s.labels)))

  -- Signing in with a code that is not in use gives the provider's user one account: the one that
  -- exists, or else a new one with the default labels. The code is stored for it.
  pub log_in-SignsIn :
      find_code s.auth_codes (digest c.authorization_code) ≡ none
      → SignsIn (log_in digest c (some subject) s).1
  unfolding log_in get_or_create_account
  log_in-SignsIn unused = by_account (find_account s.accounts c.provider subject) refl
    where
      stored :
          (id : Uuid)
          → find_code
              (delete_expired c.now s.auth_codes
                ++ issue digest id c.code_challenge c.now c.ttl c.authorization_code ∷ [])
              (digest c.authorization_code)
            ≡ some (issue digest id c.code_challenge c.now c.ttl c.authorization_code)
      stored id =
          find-append_one (λ d. d.code_digest == digest c.authorization_code)
            (delete_expired c.now s.auth_codes) _
            (find_code-delete_expired s.auth_codes c.now (digest c.authorization_code) unused)
            (==_refl (digest c.authorization_code))

      by_account :
          (found : Option Account)
          → find_account s.accounts c.provider subject ≡ found
          → SignsIn (
              signed_in digest c
                (elim found [
                  | none ↦ (new_account c subject, true, s.accounts ++ new_account c subject ∷ [])
                  | some existing ↦ (existing, false, s.accounts)
                ])
                s)
      by_account none e = (
        new_account c subject,
        find-append_one (λ a. provider_beq a.provider c.provider && (a.provider_subject == subject))
            s.accounts (new_account c subject) e
            (rw (provider_beq_refl c.provider) (==_refl subject)),
        stored c.account_id,
        inl (e, refl),
      )
      by_account (some b) e = (
        touched c.now b b,
        find_account-authenticate c.now b b s.accounts c.provider subject e,
        rw (touched-id c.now b b) (stored b.id),
        inr (b, e, touched-id c.now b b, refl),
      )

-- A code that signing in gave, exchanged before it expires with the verifier of its challenge, gives
-- a token for the account of the user who signed in.
pub log_in-exchange :
    (digest : String → String) (is_valid_verifier : String → Bool) (pkce_hash : String → String)
    (encode : AccessClaims → String) (token_ttl : Span) (c : SignIn) (subject verifier : String)
    (later : Instant) (s : IdentityStore)
    → find_code s.auth_codes (digest c.authorization_code) ≡ none
    → is_valid_verifier verifier ≡ true
    → c.code_challenge ≡ pkce_hash verifier
    → later < c.now + c.ttl
    → let t = (log_in digest c (some subject) s).1 in
      (a : Account) × (find_account t.accounts c.provider subject ≡ some a)
      × ((exchange digest is_valid_verifier pkce_hash encode token_ttl c.authorization_code verifier
            later t).0
          ≡ ok (issue_access_token digest is_valid_verifier pkce_hash encode token_ttl a.id later))
log_in-exchange digest is_valid_verifier pkce_hash encode token_ttl c subject verifier later s
      unused valid challenge live =
    let (a, there, code, known) = log_in-SignsIn digest c subject s unused in
    (
      a,
      there,
      exchange-stored digest is_valid_verifier pkce_hash encode token_ttl c.authorization_code
          verifier later (log_in digest c (some subject) s).1
          (issue digest a.id c.code_challenge c.now c.ttl c.authorization_code) code valid challenge
          live,
    )

module _ (account key : Uuid) where
  abbrev is_same : Device → Bool
  is_same d = (d.account_id == account) && (d.idempotency_key == key)

  register_device-known :
      (id : Uuid) (devices : List Device) (d : Device)
      → find is_same devices ≡ some d
      → register_device id account key devices ≡ (d.id, devices)
  unfolding register_device get_or_create_device
  register_device-known id devices d e = rw (get_or_create_device, e) refl

  register_device-new :
      (id : Uuid) (devices : List Device)
      → find is_same devices ≡ none
      → register_device id account key devices
        ≡ (id, devices ++ record { id = id; account_id = account; idempotency_key = key } ∷ [])
  unfolding register_device get_or_create_device
  register_device-new id devices e = rw (get_or_create_device, e) refl

-- A device that registers again with its key gets the identifier that it has, and no second row.
pub register_device-twice :
    (id id' account key : Uuid) (devices : List Device)
    → register_device id' account key (register_device id account key devices).1
      ≡ register_device id account key devices
register_device-twice id id' account key devices =
    by_found (find (is_same account key) devices) refl
  where
    by_found :
        (found : Option Device)
        → find (is_same account key) devices ≡ found
        → register_device id' account key (register_device id account key devices).1
          ≡ register_device id account key devices
    by_found none e =
        let row : Device = record { id = id; account_id = account; idempotency_key = key } in
        subst (λ r. register_device id' account key r.1 ≡ r)
          (sym (register_device-new account key id devices e))
          (register_device-known account key id' (devices ++ row ∷ []) row (
            find-append_one (is_same account key) devices row e
              (rw (==_refl account) (==_refl key))))
    by_found (some d) e =
        subst (λ r. register_device id' account key r.1 ≡ r)
          (sym (register_device-known account key id devices d e))
          (register_device-known account key id' devices d e)
