-- ===== src/Auth/Examples.antt =====
-- Concrete requests.
use egogero.Common.{◌≡◌, refl, ◌↔◌, some, [], ◌∷◌}
use egogero.Auth.{
  morador, convites_create, morador_role, AuthenticatedIdentity, development, tenant, identified,
  proceed, forbidden, authorize,
}
use egogero.Auth.Access.{InScope, ActsForItself, Granted, authorize-proceed_iff}

abbrev resident_seven : AuthenticatedIdentity
resident_seven = development (tenant 7 morador_role (3 ∷ []))

own_request :
    (authorize (identified resident_seven) convites_create (some 3) (some 7)).0
    ≡ proceed resident_seven
unfolding authorize
own_request = refl

other_resident :
    authorize (identified resident_seven) convites_create (some 3) (some 8) ≡ (forbidden, [])
unfolding authorize
other_resident = refl

other_condominium :
    authorize (identified resident_seven) convites_create (some 4) (some 7)
    ≡ (forbidden, convites_create ∷ [])
unfolding authorize
other_condominium = refl

authorize-proceed_iff_example :
    ((authorize (identified resident_seven) convites_create (some 3) (some 7)).0
      ≡ proceed resident_seven)
    ↔ ((identified resident_seven ≡ identified resident_seven)
        × Granted morador convites_create
        × InScope resident_seven (some 3)
        × ActsForItself resident_seven (some 7))
authorize-proceed_iff_example =
    authorize-proceed_iff (identified resident_seven) convites_create (some 3) (some 7)
      resident_seven
