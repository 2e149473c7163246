-- ===== src/Identity/Codes.antt =====
-- One-time authorization codes (identity/application/sign_in.py, `ExchangeAuthorizationCode`).
use mosemo.Prelude.{
  ◌<◌, ◌≤◌, ◌≡◌, ◌⊎◌, inl, inr, refl, ap, sym, ◌∙◌, subst, String, Bool, true, false, Option, none,
  some, List, [], ◌∷◌, nat_eq, string_eq, ◌==◌, ==_iff, find-holds, arith, Result, ok, err, ◌>>=◌,
  require, unit_of_work,
}
use mosemo.Shared.Time.{Instant, Span}
use mosemo.Identity.{
  NativeAuthCode, IdentityStore, SignInError, invalid_authorization_code, AccessClaims, is_expired,
  matches, find_code, delete_code, issue_access_token, create_code_challenge, redeem, settle,
  redeem_code, refuse_expired, exchange_challenge, exchange,
}

-- A deleted code is not found.
find_code-delete :
    (stored : NativeAuthCode) (codes : List NativeAuthCode) (d : String)
    → stored.code_digest ≡ d
    → find_code (delete_code stored codes) d ≡ none
find_code-delete stored [] d e = refl
find_code-delete stored (c ∷ codes) d e = ground (
  arith,
  find_code-delete stored codes d e,
  ==_iff c.code_digest d,
  ==_iff c.code_digest stored.code_digest,
)

-- The other codes stay.
find_code-delete_ne :
    (stored : NativeAuthCode) (codes : List NativeAuthCode) (d : String)
    → (stored.code_digest == d) ≡ false
    → find_code (delete_code stored codes) d ≡ find_code codes d
find_code-delete_ne stored [] d ne = refl
find_code-delete_ne stored (c ∷ codes) d ne = ground (
  arith,
  find_code-delete_ne stored codes d ne,
  ==_iff c.code_digest d,
  ==_iff c.code_digest stored.code_digest,
  ==_iff stored.code_digest d,
)

module _ (digest : String → String) (is_valid_verifier : String → Bool)
    (pkce_hash : String → String) (encode : AccessClaims → String) (token_ttl : Span)
    (code verifier : String) (now : Instant) (s : IdentityStore) where
  -- A code was there, and is no longer; every other code still is.
  abbrev pub Consumes : NativeAuthCode → IdentityStore → Type 0
  Consumes stored t =
      (find_code s.auth_codes (digest code) ≡ some stored)
      × (find_code t.auth_codes (digest code) ≡ none)
      × ((d : String)
          → (digest code == d) ≡ false
          → find_code t.auth_codes d ≡ find_code s.auth_codes d)
      × (t.accounts ≡ s.accounts)
      × (t.devices ≡ s.devices)
      × (t.labels ≡ s.labels)

  -- Why an exchange is refused without using a code up: the verifier is malformed, the code is unknown,
  -- or it has not expired and is another verifier's.
  abbrev pub Refuses : Type 0
  Refuses =
      (create_code_challenge digest is_valid_verifier pkce_hash encode token_ttl verifier ≡ none)
      ⊎ ((find_code s.auth_codes (digest code) ≡ none)
          ⊎ ((challenge : String) × (stored : NativeAuthCode) × (create_code_challenge digest
                  is_valid_verifier pkce_hash encode token_ttl verifier
                ≡ some challenge)
              × (find_code s.auth_codes (digest code) ≡ some stored)
              × (now < stored.expires_at)
              × ((stored.code_challenge == challenge) ≡ false)))

  -- What an exchange did, by how it ended.
  abbrev pub Exchanges : Result SignInError String × IdentityStore → Type 0
  Exchanges (ok token, t) =
      (stored : NativeAuthCode) × Consumes stored t
      × (now < stored.expires_at)
      × (create_code_challenge digest is_valid_verifier pkce_hash encode token_ttl verifier
          ≡ some stored.code_challenge)
      × (token
          ≡ issue_access_token digest is_valid_verifier pkce_hash encode token_ttl stored.account_id
              now)
  Exchanges (err e, t) =
      (e ≡ invalid_authorization_code)
      × (((t ≡ s) × Refuses)
          ⊎ ((stored : NativeAuthCode) × Consumes stored t
              × (stored.expires_at ≤ now)
              × ((challenge : String) × (create_code_challenge digest is_valid_verifier pkce_hash
                      encode token_ttl verifier
                    ≡ some challenge))))

  delete-Consumes :
      (stored : NativeAuthCode)
      → find_code s.auth_codes (digest code) ≡ some stored
      → Consumes stored (record s { auth_codes = delete_code stored s.auth_codes })
  delete-Consumes stored found =
      let same =
        (==_iff stored.code_digest (digest code)).0
          (find-holds (λ c. c.code_digest == digest code) s.auth_codes stored found) in
      (
        found,
        find_code-delete stored s.auth_codes (digest code) same,
        (λ d ne. find_code-delete_ne stored s.auth_codes d (rw same ne)),
        refl,
        refl,
        refl,
      )

  redeem-Exchanges :
      (challenge : String) (stored : NativeAuthCode)
      → create_code_challenge digest is_valid_verifier pkce_hash encode token_ttl verifier
        ≡ some challenge
      → find_code s.auth_codes (digest code) ≡ some stored
      → Exchanges (
          refuse_expired (
            unit_of_work
              (redeem digest is_valid_verifier pkce_hash encode token_ttl challenge now stored)
              s))
  redeem-Exchanges challenge stored valid found =
      by_tests (is_expired stored now) (matches stored challenge) refl refl
    where
      not_expired : is_expired stored now ≡ false → now < stored.expires_at
      not_expired h = unfold is_expired in ground arith

      has_expired : is_expired stored now ≡ true → stored.expires_at ≤ now
      has_expired h = unfold is_expired in ground arith

      other_challenge :
          matches stored challenge ≡ false → (stored.code_challenge == challenge) ≡ false
      other_challenge h = unfold matches in h

      same_challenge : matches stored challenge ≡ true → stored.code_challenge ≡ challenge
      same_challenge h = unfold matches in (==_iff stored.code_challenge challenge).0 h

      by_tests :
          (expired matched : Bool)
          → is_expired stored now ≡ expired
          → matches stored challenge ≡ matched
          → Exchanges (
              refuse_expired (
                unit_of_work
                  (λ t.
                    settle expired matched
                      (issue_access_token digest is_valid_verifier pkce_hash encode token_ttl
                        stored.account_id now)
                      (record t { auth_codes = delete_code stored t.auth_codes }))
                  s))
      by_tests true matched e m =
          (refl, inr (stored, delete-Consumes stored found, has_expired e, (challenge, valid)))
      by_tests false true e m = (
        stored,
        delete-Consumes stored found,
        not_expired e,
        valid ∙ ap some (sym (same_challenge m)),
        refl,
      )
      by_tests false false e m = (
        refl,
        inl (refl, inr (inr (challenge, stored, valid, found, not_expired e, other_challenge m))),
      )

  -- An exchange that succeeds was of a stored code that had not expired, with the verifier of its
  -- challenge; it returns a token for the code's account and uses the code up, and no other. One that
  -- fails is refused as an invalid code. It uses the code up, and no other, if that was stored and had
  -- expired and the verifier is well formed; and it changes nothing if the verifier is malformed, the code is unknown, or it has not
  -- expired and its challenge is another one. Every failure is one of these.
  pub exchange-Exchanges :
      Exchanges (exchange digest is_valid_verifier pkce_hash encode token_ttl code verifier now s)
  unfolding exchange
  exchange-Exchanges =
      by_challenge
        (create_code_challenge digest is_valid_verifier pkce_hash encode token_ttl verifier) refl
    where
      by_code :
          (challenge : String) (found : Option NativeAuthCode)
          → create_code_challenge digest is_valid_verifier pkce_hash encode token_ttl verifier
            ≡ some challenge
          → find_code s.auth_codes (digest code) ≡ found
          → Exchanges (
              refuse_expired (
                unit_of_work
                  (λ t. require found invalid_authorization_code >>= λ stored.
                    redeem digest is_valid_verifier pkce_hash encode token_ttl challenge now stored
                      t)
                  s))
      by_code challenge none valid e = (refl, inl (refl, inr (inl e)))
      by_code challenge (some stored) valid e = redeem-Exchanges challenge stored valid e

      by_challenge :
          (c : Option String)
          → create_code_challenge digest is_valid_verifier pkce_hash encode token_ttl verifier ≡ c
          → Exchanges
              (exchange_challenge digest is_valid_verifier pkce_hash encode token_ttl code now s c)
      by_challenge none e = (refl, inl (refl, inl e))
      by_challenge (some challenge) e =
          by_code challenge (find_code s.auth_codes (digest code)) e refl

module _ (digest : String → String) (is_valid_verifier : String → Bool)
    (pkce_hash : String → String) (encode : AccessClaims → String) (token_ttl : Span) where
  -- A stored code that has not expired is redeemed.
  pub exchange-stored :
      (code verifier : String) (now : Instant) (s : IdentityStore) (stored : NativeAuthCode)
      → find_code s.auth_codes (digest code) ≡ some stored
      → is_valid_verifier verifier ≡ true
      → stored.code_challenge ≡ pkce_hash verifier
      → now < stored.expires_at
      → (exchange digest is_valid_verifier pkce_hash encode token_ttl code verifier now s).0
        ≡ ok (
            issue_access_token digest is_valid_verifier pkce_hash encode token_ttl stored.account_id
              now)
  unfolding exchange is_expired matches
  exchange-stored code verifier now s stored found valid challenge live =
      subst
        (λ o.
          (exchange_challenge digest is_valid_verifier pkce_hash encode token_ttl code now s o).0
          ≡ ok token)
        (sym challenged) (ap (λ r. (refuse_expired (unit_of_work (λ t. r) s)).0) redeemed)
    where
      token : String
      token =
          issue_access_token digest is_valid_verifier pkce_hash encode token_ttl stored.account_id
            now

      used : IdentityStore
      used = record s { auth_codes = delete_code stored s.auth_codes }

      challenged :
          create_code_challenge digest is_valid_verifier pkce_hash encode token_ttl verifier
          ≡ some (pkce_hash verifier)
      challenged = rw valid refl

      not_expired : is_expired stored now ≡ false
      not_expired = ground arith

      same : matches stored (pkce_hash verifier) ≡ true
      same = (==_iff stored.code_challenge (pkce_hash verifier)).1 challenge

      redeemed :
          redeem_code digest is_valid_verifier pkce_hash encode token_ttl code
            (pkce_hash verifier)
            now
            s
          ≡ ok (some token, used)
      redeemed =
          ap
            (λ o. require o invalid_authorization_code >>= λ st.
              redeem digest is_valid_verifier pkce_hash encode token_ttl (pkce_hash verifier) now st
                s)
            found
          ∙ ap (λ x. settle x (matches stored (pkce_hash verifier)) token used) not_expired
          ∙ ap (λ y. settle false y token used) same

  exchange-unknown :
      (code verifier : String) (now : Instant) (s : IdentityStore)
      → find_code s.auth_codes (digest code) ≡ none
      → exchange digest is_valid_verifier pkce_hash encode token_ttl code verifier now s
        ≡ (err invalid_authorization_code, s)
  unfolding exchange
  exchange-unknown code verifier now s unknown =
      by_challenge
        (create_code_challenge digest is_valid_verifier pkce_hash encode token_ttl verifier)
    where
      by_challenge :
          (c : Option String)
          → exchange_challenge digest is_valid_verifier pkce_hash encode token_ttl code now s c
            ≡ (err invalid_authorization_code, s)
      by_challenge none = refl
      by_challenge (some challenge) =
          rw (exchange_challenge, redeem_code, unit_of_work, unknown) refl

  -- A code is exchanged at most once: after it gave a token, every exchange of it, with any verifier
  -- and at any time, is refused and changes nothing.
  pub exchange-once :
      (code verifier verifier' : String) (now later : Instant) (s t : IdentityStore)
      (token : String)
      → exchange digest is_valid_verifier pkce_hash encode token_ttl code verifier now s
        ≡ (ok token, t)
      → exchange digest is_valid_verifier pkce_hash encode token_ttl code verifier' later t
        ≡ (err invalid_authorization_code, t)
  exchange-once code verifier verifier' now later s t token h =
      let (stored, used, live, valid, made) =
        subst
          (λ r. Exchanges digest is_valid_verifier pkce_hash encode token_ttl code verifier now s r)
          h
          (exchange-Exchanges digest is_valid_verifier pkce_hash encode token_ttl code verifier now
            s) in
      exchange-unknown code verifier' later t used.1
