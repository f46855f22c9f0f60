-- ===== src/Auth/History/Policy.antt =====
-- Properties of the rows of the authentication tables, and what a request must meet for one.
use veillend.Base.{ℕ, ◌≡◌, true, some, All, List}
use veillend.Auth.Data.{WalletNonce, RefreshToken, JtiEntry, Draws, Db}
use veillend.Auth.History.{
  Call, asks_nonce, logs_in, presents, redeems, validates, logs_out, revokes, revokes_all,
  cleans_up, Request,
}

pub record Policy : Type 1 where
  pub NonceOk : WalletNonce → Type 0
  pub TokenOk : RefreshToken → Type 0
  pub JtiOk : JtiEntry → Type 0
  pub used_ok : (n : WalletNonce) → NonceOk n → NonceOk (record n { used = true })
  pub revoked_ok :
      (r : RefreshToken) (t : ℕ) → TokenOk r → TokenOk (record r { revoked_at = some t })
  pub jti_revoked_ok : (j : JtiEntry) (t : ℕ) → JtiOk j → JtiOk (record j { revoked_at = some t })

abbrev pub Kept : Policy → Db → Type 0
Kept p db = All p.NonceOk db.nonces × All p.TokenOk db.refresh_tokens × All p.JtiOk db.jtis

abbrev pub AdmitsDraws : Policy → Draws → Type 0
AdmitsDraws p d =
    ((r : RefreshToken) → r.id ≡ d.refresh_id → p.TokenOk r)
    × ((j : JtiEntry) → j.jti ≡ d.jti → p.JtiOk j)

-- The rows that this call adds are as the policy asks.
abbrev pub Admits : Policy → Call → Type 0
Admits p (asks_nonce id nonce wallet) = (n : WalletNonce) → n.nonce ≡ nonce → p.NonceOk n
Admits p (logs_in d wallet nonce signature) = AdmitsDraws p d
Admits p (presents raw) = Unit
Admits p (redeems d presented) = AdmitsDraws p d
Admits p (validates token) = Unit
Admits p (logs_out id wallet) = Unit
Admits p (revokes id user_id wallet) = Unit
Admits p (revokes_all user_id wallet keep) = Unit
Admits p cleans_up = Unit

abbrev pub AllAdmitted : Policy → List Request → Type 0
AllAdmitted p qs = All (λ q. Admits p q.call) qs
