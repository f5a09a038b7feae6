-- ===== src/Service/Tokens/Lifetimes.antt =====
-- How long a token is valid.
use charm_registry.Prelude.{
  ℕ, zero, suc, ◌+◌, ◌*◌, ◌≤◌, String, ◌≡◌, refl, ap, ◌∙◌, Option, none, some, arith, ℤ, pos,
  negsuc,
}
use charm_registry.Core.{Time, Identity, StoreToken}
use charm_registry.Service.Tokens.{
  IssueTokenRequest, second, seconds, ttl_of, add_duration, issued_token, issue_store_token,
}
use charm_registry.Service.Tokens.Attenuation.{issue_store_token_lem}
use charm_registry.Service.Context.{Service, World}
use charm_registry.Errors.{ok}
use charm_registry.Auth.Tokens.{hash_token}

-- The largest number of seconds that a time.Duration holds.
abbrev pub longest : ℕ
longest = 9223372036

-- The lifetime, in seconds, that a request asks for: 30 hours where it asks for none or for one that
-- is not positive.
abbrev pub asked_seconds : Option ℤ → ℕ
asked_seconds none = 108000
asked_seconds (some (pos zero)) = 108000
asked_seconds (some (pos (suc n))) = suc n
asked_seconds (some (negsuc n)) = 108000

ttl_of-asked :
    (ttl : Option ℤ) → asked_seconds ttl ≤ longest → ttl_of ttl ≡ pos (asked_seconds ttl * second)
unfolding ttl_of seconds
ttl_of-asked none h = refl
ttl_of-asked (some (pos zero)) h = refl
ttl_of-asked (some (pos (suc n))) h = ground arith
ttl_of-asked (some (negsuc n)) h = refl

valid_until-asked :
    (identity : Identity) (req : IssueTokenRequest) (hash id : String) (t : Time)
    → asked_seconds req.ttl ≤ longest
    → (issued_token identity req hash id t).valid_until ≡ t + asked_seconds req.ttl * second
unfolding issued_token add_duration
valid_until-asked identity req hash id t h = rw (ttl_of-asked req.ttl h) refl

-- The token of an IssueStoreToken that answers is valid from the time that the call reads for the
-- seconds that the request asks for, 30 hours by default, where these are at most 9223372036.
pub issue_store_token-asked_seconds :
    (s : Service) (identity : Identity) (req : IssueTokenRequest) (w w' : World s) (raw : String)
    (token : StoreToken)
    → asked_seconds req.ttl ≤ longest
    → issue_store_token s identity req w ≡ (ok (raw, token), w')
    → (token.valid_since ≡ s.runtime.clock (w.calls + 1))
      × (token.valid_until ≡ s.runtime.clock (w.calls + 1) + asked_seconds req.ttl * second)
unfolding issued_token
issue_store_token-asked_seconds s identity req w w' raw token h answered =
    let issued = issue_store_token_lem s identity req w w' raw token answered in
    let time = issued.at in
    (
      ap (λ x. x.valid_since) issued.made ∙ time,
      ap (λ x. x.valid_until) issued.made
          ∙ valid_until-asked identity req (hash_token s.runtime raw) issued.session_id issued.t h
          ∙ ap (λ t. t + asked_seconds req.ttl * second) time,
    )
