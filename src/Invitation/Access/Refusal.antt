-- ===== src/Invitation/Access/Refusal.antt =====
-- What a refusal at the gate leaves behind.
use egogero.Common.{
  ℕ, ◌≡◌, refl, ◌⊎◌, inl, inr, Bool, true, false, not, ◌&&◌, Option, none, some, [], ◌∷◌, arith,
  Bool-cases, Option-cases, first, any,
}
use egogero.Invitation.Schema.{
  Convidado, Convite, Database, ok, Token, TokenSecret, verify_token_secret,
  verify_token_secret_inv, >>=-eq-ok, negado,
}
use egogero.Invitation.Access.{
  Args, Readings, ValidationResult, invalid_or_unavailable, Identified, identified, unidentified,
  insert_audit, refuse, candidate_row, consumable, active_invitation, consume, select_active,
  validate_digest, validate_token, validate_access, human_ok, device_ok,
}
use egogero.Invitation.Access.Outcome.{Kept, insert_audit-Kept, admit_inv}

-- The tables after a refusal: one audit row with the result `negado`, and the row of the key.
abbrev pub Refused : Args → Readings → Database → Database → Type 0
Refused args at db db' =
    (key : Option ℕ) × (who : Identified) × (db'
      ≡ insert_audit args at.audit_id negado who at.now (record db { invitation_token_key = key }))

refuse_inv :
    (args : Args) (at : Readings) (who : Identified) (db db' : Database) (r : ValidationResult)
    → refuse args at who db ≡ ok (r, db')
    → Refused args at db db'
unfolding refuse
refuse_inv args at who db db' r h = (db.invitation_token_key, who, cc)

consume-Refused :
    (digest : ℕ) (args : Args) (at : Readings) (c : Convite) (g : Convidado) (db db' : Database)
    → consume digest args at c g db ≡ ok (invalid_or_unavailable, db')
    → Refused args at db db'
unfolding consume
consume-Refused digest args at c g db db' h =
    elim (Bool-cases (any (consumable c.id digest args.condominium_id at.updated_at) db.convites)) [
      | inl found ↦
          absurd (cc ((admit_inv args at c g _ invalid_or_unavailable db' (rw found at h)).0))
      | inr gone ↦ refuse_inv args at (identified c) db db' _ (rw gone at h)
    ]

select_active-Refused :
    (digest : ℕ) (args : Args) (at : Readings) (candidate : Convite) (db db' : Database)
    → select_active digest args at candidate db ≡ ok (invalid_or_unavailable, db')
    → Refused args at db db'
unfolding select_active
select_active-Refused digest args at candidate db db' h =
    elim (Option-cases
      (active_invitation candidate.id digest args.condominium_id at.selected_at db)) [
        | inl missing ↦
            refuse_inv args at (identified candidate) db db' _ (rw (missing, select_active) at h)
        | inr ((c, g), e) ↦ consume-Refused digest args at c g db db' (rw (e, select_active) at h)
      ]

validate_digest-Refused :
    (digest : ℕ) (args : Args) (at : Readings) (db db' : Database)
    → validate_digest digest args at db ≡ ok (invalid_or_unavailable, db')
    → Refused args at db db'
unfolding validate_digest
validate_digest-Refused digest args at db db' h =
    elim (Option-cases (first (candidate_row digest args.condominium_id) db.convites)) [
      | inl missing ↦ refuse_inv args at unidentified db db' _ (rw (missing, validate_digest) at h)
      | inr (candidate, e) ↦
          select_active-Refused digest args at candidate db db' (rw (e, validate_digest) at h)
    ]

validate_token-Refused :
    (secret : TokenSecret) (args : Args) (at : Readings) (given : Option Token) (db db' : Database)
    → validate_token secret args at given db ≡ ok (invalid_or_unavailable, db')
    → Refused args at db db'
unfolding validate_token
validate_token-Refused secret args at none db db' h = refuse_inv args at unidentified db db' _ h
validate_token-Refused secret args at (some []) db db' h =
    refuse_inv args at unidentified db db' _ h
validate_token-Refused secret args at (some (digit ∷ rest)) db db' h =
    let (db1, verified, h1) = >>=-eq-ok (verify_token_secret secret db) _ h in
    let key = verify_token_secret_inv secret db db1 verified in
    let (key', who, e) =
      validate_digest-Refused (secret.digest_token (digit ∷ rest)) args at
        (record db { invitation_token_key = some secret.fingerprint }) db' (rw key at h1) in
    (key', who, e)

-- The account, if one is given, is let in, and an active device is required and not there.
abbrev pub is_inactive : Args → Database → Bool
is_inactive args db =
    human_ok args.account_id args.membership_id args.condominium_id db
    && args.require_active_device
    && not (device_ok args db)

-- A refused validation where an active device is required and the given one is not, and the account,
-- if any, is let in, leaves the tables as they are; every other refusal writes one audit row, with
-- the result `negado`, and sets the row of the key at most.
pub validate_access-Refused :
    (secret : TokenSecret) (args : Args) (at : Readings) (db db' : Database)
    → validate_access secret args at db ≡ ok (invalid_or_unavailable, db')
    → ((is_inactive args db ≡ false) × Refused args at db db')
      ⊎ ((is_inactive args db ≡ true) × (db' ≡ db))
unfolding validate_access
validate_access-Refused secret args at db db' h =
    elim (Bool-cases (human_ok args.account_id args.membership_id args.condominium_id db)) [
      | inr stranger ↦
          inl (rw stranger refl, refuse_inv args at unidentified db db' _ (rw stranger at h))
      | inl known ↦ elim (Bool-cases (args.require_active_device && not (device_ok args db))) [
        | inl revoked ↦ let e = rw (known, revoked) at h in inr (rw (known, revoked) refl, cc)
        | inr active ↦ inl (
          rw (known, active) refl,
          validate_token-Refused secret args at args.token db db' (rw (known, active) at h),
        )
      ]
    ]

-- So no invitation, guest or notification changes.
pub refused-Kept :
    (secret : TokenSecret) (args : Args) (at : Readings) (db db' : Database)
    → validate_access secret args at db ≡ ok (invalid_or_unavailable, db')
    → Kept db db'
refused-Kept secret args at db db' h = elim (validate_access-Refused secret args at db db' h) [
  | inl (_, (key, who, e)) ↦
      let k =
        insert_audit-Kept args at.audit_id negado who at.now
          (record db { invitation_token_key = key }) in
      rw e (record {
        convites = k.convites;
        convidados = k.convidados;
        notificacoes = k.notificacoes;
        condominios = k.condominios;
        moradores = k.moradores;
      })
  | inr (_, e) ↦ rw e (ground arith)
]
