-- ===== src/Invitation/Access/Admission.antt =====
-- What the gate has checked when it lets someone in.
use egogero.Common.{
  ℕ, ◌≡◌, refl, inl, inr, true, false, not, ◌&&◌, Option, none, some, [], ◌∷◌, Bool-cases,
  Option-cases, first,
}
use Prim.Native.String.{String}
use egogero.Invitation.Schema.{
  Convidado, Convite, Database, ok, Token, TokenSecret, verify_token_secret,
  verify_token_secret_inv, >>=-eq-ok,
}
use egogero.Invitation.Access.{
  Args, Readings, Event, entered, refuse, candidate_row, validate_digest, validate_token,
  validate_access, human_ok, device_ok,
}
use egogero.Invitation.Access.Outcome.{Entry, select_active-Entry}

validate_digest-Entry :
    (secret : TokenSecret) (token : Token) (args : Args) (at : Readings) (db : Database)
    (name : String) (event : Event) (db' : Database)
    → args.token ≡ some token
    → validate_digest (secret.digest_token token) args at db ≡ ok (entered name event, db')
    → (c : Convite) × (g : Convidado) × Entry secret args at db name event db' token c g
unfolding validate_digest refuse
validate_digest-Entry secret token args at db name event db' given h =
    let digest = secret.digest_token token in
    elim (Option-cases (first (candidate_row digest args.condominium_id) db.convites)) [
      | inl missing ↦ absurd (cc (rw (missing, validate_digest) at h))
      | inr (candidate, e) ↦
          select_active-Entry secret token args at candidate db name event db' given
            (rw (e, validate_digest) at h)
    ]

Entry-of_key :
    (secret : TokenSecret) (args : Args) (at : Readings) (db : Database) (key : Option ℕ)
    (name : String) (event : Event) (db' : Database) (token : Token) (c : Convite) (g : Convidado)
    → Entry secret args at (record db { invitation_token_key = key }) name event db' token c g
    → Entry secret args at db name event db' token c g
Entry-of_key secret args at db key name event db' token c g e = record {
  given = e.given;
  invited = e.invited;
  digest = e.digest;
  condominium = e.condominium;
  open_when_read = e.open_when_read;
  guest = e.guest;
  of_guest = e.of_guest;
  guest_live = e.guest_live;
  greeted = e.greeted;
  reported = e.reported;
  open_when_used = e.open_when_used;
  used = e.used;
  notified = e.notified;
}

validate_token-Entry :
    (secret : TokenSecret) (args : Args) (at : Readings) (given : Option Token) (db : Database)
    (name : String) (event : Event) (db' : Database)
    → args.token ≡ given
    → validate_token secret args at given db ≡ ok (entered name event, db')
    → (token : Token) × (c : Convite) × (g : Convidado) × Entry secret args at db name event db'
        token c g
unfolding validate_token refuse
validate_token-Entry secret args at none db name event db' same h = absurd (cc)
validate_token-Entry secret args at (some []) db name event db' same h = absurd (cc)
validate_token-Entry secret args at (some (digit ∷ rest)) db name event db' same h =
    let token : Token = digit ∷ rest in
    let (db1, verified, h1) = >>=-eq-ok (verify_token_secret secret db) _ h in
    let key = verify_token_secret_inv secret db db1 verified in
    let (c, g, e) =
      validate_digest-Entry secret token args at
        (record db { invitation_token_key = some secret.fingerprint }) name event db' same
        (rw key at h1) in
    (token, c, g, Entry-of_key secret args at db _ name event db' token c g e)

-- Whoever is let in holds the token of an invitation that stands in the condominium's table, was
-- open both when it was read and when it was used, and belongs to a guest who is not deleted; the
-- answer names that guest and that invitation, the invitation is marked as used, and its resident
-- is notified. The human or device that asked has passed its guards.
pub validate_access-Entry :
    (secret : TokenSecret) (args : Args) (at : Readings) (db : Database) (name : String)
    (event : Event) (db' : Database)
    → validate_access secret args at db ≡ ok (entered name event, db')
    → (human_ok args.account_id args.membership_id args.condominium_id db ≡ true)
      × ((args.require_active_device && not (device_ok args db)) ≡ false)
      × ((token : Token) × (c : Convite) × (g : Convidado) × Entry secret args at db name event db'
            token c g)
unfolding validate_access refuse
validate_access-Entry secret args at db name event db' h =
    elim (Bool-cases (human_ok args.account_id args.membership_id args.condominium_id db)) [
      | inr stranger ↦ absurd (cc (rw stranger at h))
      | inl known ↦ elim (Bool-cases (args.require_active_device && not (device_ok args db))) [
        | inl revoked ↦ absurd (cc (rw (known, revoked) at h))
        | inr active ↦ (
          known,
          active,
          validate_token-Entry secret args at args.token db name event db' refl
              (rw (known, active) at h),
        )
      ]
    ]
