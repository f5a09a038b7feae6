-- ===== src/Repo/Memory/Accounts/Sessions.antt =====
-- What RevokeStoreToken does.
use mathlib.Core.List.{Mem, Memᴰ}
use mathlib.Core.List.Memᴰ
use mathlib.Core.Logic.{∥∥₁_elim}
use mathlib.Core.HLevel.{⊥_prop}
use mathlib.Core.List.Perm
use charm_registry.Prelude.{
  String, ◌≡◌, ◌≢◌, ◌&&◌, none, some, [], ◌∷◌, ◌==◌, eq_iff, eq_refl, arith, Option-cases,
  Bool-cases, inl, inr,
}
use charm_registry.Prelude.Maps.{Map, lookup, lookup-insert}
use charm_registry.Core.{Time, StoreToken}
use charm_registry.Errors.{ok, err, not_found}
use charm_registry.Repo.Memory.State.{Memory, Platform}
use charm_registry.Repo.Memory.Accounts.{find_session, revoke_store_token, revoked}

-- The token is the account's and belongs to the session.
abbrev pub IsSession : String → String → StoreToken → Type 0
IsSession account_id session_id token =
    (token.account_id ≡ account_id) × (token.session_id ≡ session_id)

pub find_session-eq-some :
    (acc ses : String) (l : Map StoreToken) (hash : String) (token : StoreToken)
    → find_session acc ses l ≡ some (hash, token)
    → Memᴰ (hash, token) l × IsSession acc ses token
unfolding find_session
find_session-eq-some acc ses [] hash token e = cc
find_session-eq-some acc ses ((h, t) ∷ l) hash token e =
    elim (Bool-cases (t.account_id == acc && t.session_id == ses)) [
      | inl here ↦ (
        Memᴰ.head (ground arith),
        ground (arith, eq_iff t.account_id acc, eq_iff t.session_id ses),
      )
      | inr there ↦
          let (found, session) = find_session-eq-some acc ses l hash token (ground arith) in
          (Memᴰ.tail found, session)
    ]

find_session-eq-none :
    (acc ses : String) (l : Map StoreToken) (hash : String) (token : StoreToken)
    → find_session acc ses l ≡ none
    → Memᴰ (hash, token) l
    → ¬ IsSession acc ses token
unfolding find_session
find_session-eq-none acc ses [] hash token e m h = absurd (Memᴰ.not-nil m)
find_session-eq-none acc ses ((h', t) ∷ l) hash token e (Memᴰ.head same) h =
    ground (arith, eq_iff t.account_id acc, eq_iff t.session_id ses)
find_session-eq-none acc ses ((h', t) ∷ l) hash token e (Memᴰ.tail later) h =
    find_session-eq-none acc ses l hash token (ground arith) later h

-- What a revocation leaves behind: a token of the session that the state before it held, now
-- revoked at the given time by the given account and otherwise as it was, and every other token.
pub record IsRevoked (now : Time) (acc ses by : String) (m m' : Memory) : Type 0 where
  pub hash : String
  pub token : StoreToken
  pub held : Mem (hash, token) m.tokens
  pub session : IsSession acc ses token
  pub now_revoked :
      lookup hash m'.tokens ≡ some (record token { revoked_at = some now; revoked_by = some by })
  pub others : (j : String) → hash ≢ j → lookup j m'.tokens ≡ lookup j m.tokens

module _ (order : Platform) where
  -- RevokeStoreToken revokes one token of the account's session and changes no other token.
  pub revoke_store_token-IsRevoked :
      (now : Time) (acc ses by : String) (m m' : Memory)
      → revoke_store_token order now acc ses by m ≡ ok (tt, m')
      → IsRevoked now acc ses by m m'
  unfolding revoke_store_token
  revoke_store_token-IsRevoked now acc ses by m m' e =
      elim (Option-cases (find_session acc ses (order.visit m.tokens))) [
        | inl missing ↦ cc (rw (missing, revoke_store_token) at e)
        | inr ((h, t), found) ↦
            let (listed, session) = find_session-eq-some acc ses (order.visit m.tokens) h t found in
            record {
              hash = h;
              token = t;
              held = (Perm.mem_iff (order.visit-perm m.tokens)).0 ∣ listed ∣₁;
              session = session;
              now_revoked =
                  ground (arith, lookup-insert h h (revoked now by t) m.tokens, eq_refl h);
              others =
                  λ j ne. ground (arith, lookup-insert h j (revoked now by t) m.tokens, eq_iff h j);
            }
      ]

  -- Where RevokeStoreToken answers ErrNotFound, the state holds no token of the account's session.
  pub revoke_store_token-eq-err :
      (now : Time) (acc ses by : String) (m : Memory)
      → revoke_store_token order now acc ses by m ≡ err not_found
      → (hash : String) (token : StoreToken) → Mem (hash, token) m.tokens
      → ¬ IsSession acc ses token
  unfolding revoke_store_token
  revoke_store_token-eq-err now acc ses by m e hash token held h =
      ∥∥₁_elim ((Perm.mem_iff (order.visit-perm m.tokens)).1 held) ⊥_prop (λ listed.
        find_session-eq-none acc ses (order.visit m.tokens) hash token (ground arith) listed h)
