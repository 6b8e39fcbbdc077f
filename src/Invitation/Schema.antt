-- ===== src/Invitation/Schema.antt =====
-- The tables that the invitation store reads and writes (prisma/schema.prisma, src/convites.ts), as
-- lists of rows. Identifiers, digests and fingerprints are compared for equality only and stand as
-- the numbers that they spell; instants are milliseconds; a nullable column is an Option.
use egogero.Common.{
  ℕ, ◌≡◌, refl, ◌⊎◌, inl, inr, Bool, false, ◌&&◌, Option, none, some, List, arith, leb, ◌==◌,
  if◌then◌else◌, is_none, after,
}
use Prim.Native.String.{String}
use egogero.Auth.{Role}

pub data TipoConvite : Type 0 where
  visitante prestador entregador : TipoConvite

pub data AccessType : Type 0 where
  pedestre veiculo : AccessType

pub data Resultado : Type 0 where
  permitido negado : Resultado

pub record Condominio : Type 0 where
  pub id : ℕ
  pub deleted_at : Option ℕ
  pub nome : String
  pub timezone : String
  pub daily_invitation_limit : Option ℕ

pub record Morador : Type 0 where
  pub id : ℕ
  pub deleted_at : Option ℕ
  pub nome : String
  pub condominio_id : ℕ
  pub daily_invitation_limit : Option ℕ

pub record Convidado : Type 0 where
  pub id : ℕ
  pub deleted_at : Option ℕ
  pub anonymized_at : Option ℕ
  pub nome : String
  pub condominio_id : ℕ
  pub morador_id : Option ℕ
  pub ultimo_uso_em : Option ℕ

pub record Convite : Type 0 where
  pub id : ℕ
  pub created_at : ℕ
  pub deleted_at : Option ℕ
  pub condominio_id : ℕ
  pub morador_id : Option ℕ
  pub convidado_id : Option ℕ
  pub tipo : Option TipoConvite
  pub expires_at : Option ℕ
  pub used_at : Option ℕ
  pub revoked_at : Option ℕ
  pub token_digest : Option ℕ

pub record Dispositivo : Type 0 where
  pub id : ℕ
  pub deleted_at : Option ℕ
  pub condominio_id : ℕ
  pub ativo : Bool  -- status = 'ativo'
  pub api_key_digest : Option ℕ

pub data AccountStatus : Type 0 where
  invited_account active_account suspended_account disabled_account : AccountStatus

pub data MembershipStatus : Type 0 where
  invited active disabled : MembershipStatus

pub record HumanAccount : Type 0 where
  pub id : ℕ
  pub status : AccountStatus

pub record HumanMembership : Type 0 where
  pub id : ℕ
  pub account_id : ℕ
  pub condominio_id : Option ℕ
  pub role : Role
  pub status : MembershipStatus

-- `AuditoriaAcesso`: the actor is a device.
pub record AuditoriaAcesso : Type 0 where
  pub id : ℕ
  pub created_at : ℕ
  pub condominio_id : ℕ
  pub dispositivo_id : Option ℕ
  pub convite_id : Option ℕ
  pub morador_id : Option ℕ
  pub convidado_id : Option ℕ
  pub tipo_acesso : AccessType
  pub resultado : Resultado

-- `AuditoriaAcessoHumano`: the actor is an account with a membership.
pub record AuditoriaAcessoHumano : Type 0 where
  pub id : ℕ
  pub created_at : ℕ
  pub condominio_id : ℕ
  pub account_id : ℕ
  pub membership_id : ℕ
  pub convite_id : Option ℕ
  pub morador_id : Option ℕ
  pub convidado_id : Option ℕ
  pub tipo_acesso : AccessType
  pub resultado : Resultado

pub record Notificacao : Type 0 where
  pub condominio_id : ℕ
  pub morador_id : Option ℕ
  pub convidado_id : Option ℕ
  pub convite_id : ℕ
  pub nome_convidado : String
  pub entrou_em : ℕ

pub record Database : Type 0 where
  pub invitation_token_key : Option ℕ  -- the row 'invitation-token' of SecurityKey
  pub condominios : List Condominio
  pub moradores : List Morador
  pub convidados : List Convidado
  pub convites : List Convite
  pub dispositivos : List Dispositivo
  pub accounts : List HumanAccount
  pub memberships : List HumanMembership
  pub auditorias : List AuditoriaAcesso
  pub auditorias_humanas : List AuditoriaAcessoHumano
  pub notificacoes : List Notificacao

pub data Error : Type 0 where
  invitation_secret_mismatch : Error
  invalid_condominium_time_zone : Error
  expiration_not_in_future : Error
  daily_invitation_limit_reached : Error
  token_collision : Error
  guest_became_unavailable : Error
  unique_violation : Error
  token_generation_exhausted : Error
  invalid_token_generated : Error
  at_least_one_invitation : Error
  type_error : Error

-- How a statement or a whole transaction ends.
pub data Result (A : Type 0) : Type 0 where
  err : Error → Result A
  ok : A → Result A

-- A transaction: an error rolls it back, so no state comes with one.
abbrev pub Transaction : Type 0 → Type 0
Transaction A = Database → Result (A × Database)

-- Errors pass every later statement by.
infixl 5 ◌>>=◌
abbrev pub ◌>>=◌ : {Before After : Type 0} → Result Before → (Before → Result After) → Result After
err reason >>= next = err reason
ok value >>= next = next value

pub Result-cases :
    {A : Type 0} (r : Result A) → ((reason : Error) × (r ≡ err reason)) ⊎ ((a : A) × (r ≡ ok a))
Result-cases (err reason) = inl (reason, refl)
Result-cases (ok a) = inr (a, refl)

-- A sequence that succeeds has a first part that does.
pub >>=-eq-ok :
    {Before After : Type 0} (step : Result Before) (next : Before → Result After) {final : After}
    → (step >>= next) ≡ ok final
    → (value : Before) × (step ≡ ok value) × (next value ≡ ok final)
>>=-eq-ok (err reason) next e = absurd (cc)
>>=-eq-ok (ok value) next e = (value, refl, e)

abbrev pub Token : Type 0
Token = List ℕ

-- The secret of the store: the HMAC of a token under it, and its fingerprint.
pub record TokenSecret : Type 0 where
  pub digest_token : Token → ℕ
  pub fingerprint : ℕ

-- `verifyTokenSecret`: INSERT ... ON CONFLICT DO NOTHING, and a comparison with what is stored.
unfoldable pub verify_token_secret : TokenSecret → Database → Result Database
verify_token_secret secret db = elim db.invitation_token_key [
  | none ↦ ok (record db { invitation_token_key = some secret.fingerprint })
  | some stored ↦ if stored == secret.fingerprint then ok db else err invitation_secret_mismatch
]

-- Only the row of the key can change.
pub verify_token_secret_inv :
    (secret : TokenSecret) (db db' : Database)
    → verify_token_secret secret db ≡ ok db'
    → db' ≡ record db { invitation_token_key = some secret.fingerprint }
unfolding verify_token_secret
verify_token_secret_inv secret db db' h = ground arith

-- `"expiresAt" <= now`, not true where the column is NULL.
abbrev pub due : Option ℕ → ℕ → Bool
due none now = false
due (some t) now = leb t now

-- The conditions that the UPDATE and SELECT statements share: not deleted, used or revoked, and
-- not expired at `now`.
abbrev pub is_open : ℕ → Convite → Bool
is_open now c =
    is_none c.deleted_at && is_none c.used_at && is_none c.revoked_at && after c.expires_at now
