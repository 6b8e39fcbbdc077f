-- ===== src/Session/Family.antt =====
-- A family has one live session at most: the invariant on the table of sessions.
pub mod Rotation
pub mod Login
pub mod Reading
pub mod History
mod Examples
use egogero.Common.{
  ℕ, zero, suc, ◌+◌, ◌-◌, ◌*◌, ◌/◌, ◌%◌, ◌^◌, ◌≤◌, ◌<◌, min, max, ◌≡◌, refl, sym, ap, subst, ◌∙◌,
  ◌≢◌, ◌↔◌, ◌⊎◌, inl, inr, Bool, true, false, not, ◌&&◌, ◌||◌, Option, none, some, List, [], ◌∷◌,
  ◌++◌, map, arith, ltb, leb, ◌==◌, if◌then◌else◌, ==_iff, ==_refl, ==_sym, Bool-cases,
  Option-cases, is, is_none, after, length, length-append, select, first, update, count, any, all,
  head?, count-append, count-le-length, contains, All, Memᴰ, first-mem, first_of-count, any-first,
  count-any, count-mem,
}
use egogero.Session.Schema.{BrowserSession, RevokeReason, SessionTables, Ran, crashed, done}
use egogero.Session.Load.{SessionRow}
use egogero.Session.Rotate.{unrevoked, revoked_as}

abbrev pub has_id : ℕ → BrowserSession → Bool
has_id id s = s.id == id

abbrev pub of_line : ℕ → BrowserSession → Bool
of_line family s = s.family_id == family

abbrev pub live_in : ℕ → BrowserSession → Bool
live_in family s = s.family_id == family && is_none s.revoked_at

-- Identifiers are unique, and no family has two sessions that are not revoked.
pub record IsSound (rows : List BrowserSession) : Type 0 where
  pub unique : (id : ℕ) → count (has_id id) rows ≤ 1
  pub single : (family : ℕ) → count (live_in family) rows ≤ 1

-- A change of a row that leaves its identifier and family and revives nothing.
pub record IsTame (f : BrowserSession → BrowserSession) : Type 0 where
  pub same_id : (s : BrowserSession) → (f s).id ≡ s.id
  pub same_family : (s : BrowserSession) → (f s).family_id ≡ s.family_id
  pub not_revived :
      (s : BrowserSession) → is_none (f s).revoked_at ≡ true → is_none s.revoked_at ≡ true

module _ (p : BrowserSession → Bool) (f : BrowserSession → BrowserSession) (tame : IsTame f) where
  pub ids-update :
      (id : ℕ) (rows : List BrowserSession)
      → count (has_id id) (update p f rows) ≡ count (has_id id) rows
  ids-update id [] = refl
  ids-update id (s ∷ rows) = ground (arith, ids-update id rows, tame.same_id s)

  live-update :
      (family : ℕ) (rows : List BrowserSession)
      → count (live_in family) (update p f rows) ≤ count (live_in family) rows
  live-update family [] = omega arith
  live-update family (s ∷ rows) =
      ground (arith, live-update family rows, tame.same_family s, tame.not_revived s)

  pub update-IsSound : (rows : List BrowserSession) → IsSound rows → IsSound (update p f rows)
  update-IsSound rows good = record {
    unique = λ id. omega (arith, ids-update id rows, good.unique id);
    single = λ family. omega (arith, live-update family rows, good.single family);
  }

  pub families-update :
      (family : ℕ) (rows : List BrowserSession)
      → count (of_line family) (update p f rows) ≡ count (of_line family) rows
  families-update family [] = refl
  families-update family (s ∷ rows) =
      ground (arith, families-update family rows, tame.same_family s)

pub revoked_as-IsTame : (now : ℕ) (why : RevokeReason) → IsTame (revoked_as now why)
revoked_as-IsTame now why = record {
  same_id = λ s. refl;
  same_family = λ s. refl;
  not_revived = λ s h. absurd (cc (h));
}

live-le-line :
    (family : ℕ) (rows : List BrowserSession)
    → count (live_in family) rows ≤ count (of_line family) rows
live-le-line family [] = omega arith
live-le-line family (s ∷ rows) = ground (arith, live-le-line family rows)

unrevoked-le-id :
    (id : ℕ) (rows : List BrowserSession) → count (unrevoked id) rows ≤ count (has_id id) rows
unrevoked-le-id id [] = omega arith
unrevoked-le-id id (s ∷ rows) = ground (arith, unrevoked-le-id id rows)

-- A new session of a new family.
pub login-IsSound :
    (new : BrowserSession) (rows : List BrowserSession)
    → count (has_id new.id) rows ≡ 0
    → count (of_line new.family_id) rows ≡ 0
    → IsSound rows
    → IsSound (new ∷ rows)
login-IsSound new rows fresh_id fresh_family good = record {
  unique = λ id. ground (arith, good.unique id, fresh_id);
  single = λ family. ground (arith, good.single family, live-le-line family rows, fresh_family);
}

module _ (id family now : ℕ) (why : RevokeReason) where
  -- The family loses the session that is revoked.
  live-revoked :
      (rows : List BrowserSession)
      → count (live_in family) (update (unrevoked id) (revoked_as now why) rows)
          + count (λ s. unrevoked id s && of_line family s) rows
        ≡ count (live_in family) rows
  live-revoked [] = refl
  live-revoked (s ∷ rows) = ground (arith, live-revoked rows)

  -- Where the session of the identifier is of the family, the one that is revoked is too.
  unrevoked-le-line :
      (rows : List BrowserSession) {s : BrowserSession}
      → Memᴰ s rows
      → s.id ≡ id
      → s.family_id ≡ family
      → count (has_id id) rows ≤ 1
      → count (unrevoked id) rows ≤ count (λ r. unrevoked id r && of_line family r) rows
  unrevoked-le-line [] m own line only = elim m [ ]
  unrevoked-le-line (r ∷ rows) {s} (Memᴰ.head e) own line only =
      let r_id : r.id ≡ id = sym (ap (λ (x : BrowserSession). x.id) e) ∙ own in
      let r_family : r.family_id ≡ family =
        sym (ap (λ (x : BrowserSession). x.family_id) e) ∙ line in
      ground (arith, r_id, r_family, only, unrevoked-le-id id rows)
  unrevoked-le-line (r ∷ rows) {s} (Memᴰ.tail m) own line only =
      let there = count-mem (has_id id) m ((==_iff s.id id).1 own) in
      ground (arith, only, there, unrevoked-le-line rows m own line (ground (arith, only)))

  -- A session takes the place of the one of its family that is revoked.
  pub replace-IsSound :
      (new : BrowserSession) (rows : List BrowserSession) {s : BrowserSession}
      → Memᴰ s rows
      → s.id ≡ id
      → s.family_id ≡ family
      → new.family_id ≡ family
      → count (unrevoked id) rows ≡ 1
      → count (has_id new.id) rows ≡ 0
      → IsSound rows
      → IsSound (new ∷ update (unrevoked id) (revoked_as now why) rows)
  replace-IsSound new rows m own line heir one fresh_id good =
      let kept =
        update-IsSound (unrevoked id) (revoked_as now why) (revoked_as-IsTame now why) rows good in
      record {
        unique = λ other. ground (
          arith,
          kept.unique other,
          fresh_id,
          ids-update (unrevoked id) (revoked_as now why) (revoked_as-IsTame now why) new.id rows,
        );
        single = λ other. ground (
          arith,
          kept.single other,
          heir,
          good.single family,
          one,
          live-revoked rows,
          unrevoked-le-line rows m own line (good.unique id),
        );
      }
