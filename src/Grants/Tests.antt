-- ===== src/Grants/Tests.antt =====
-- Grants at concrete requests.
use octonomy.Prelude.{
  ◌≡◌, ◌↔◌, inl, inr, refl, String, Bool, true, false, Option, none, some, List, [], ◌∷◌, Any,
}
use octonomy.Prelude.Text.{is_blank}
use octonomy.Scope.{IsScope, application_q}
use octonomy.Scope.Laws.{partition}
use octonomy.Grants.{Grant, grant_authorizes, some_grant_authorizes, authorized_application_ids}
use octonomy.Grants.Laws.{Covers, grant_authorizes_iff}
use octonomy.Grants.Applications.{application_q-authorized}

abbrev shop_grant : Grant
shop_grant = record {
  tenant_id = "t1";
  application_id = some "shop";
  namespace = partition "merchant" "a";
  namespace_wildcard = false;
  scopes = "tags:read" ∷ "tags:write" ∷ [];
}

abbrev other_tenant : Grant
other_tenant = record shop_grant {
  tenant_id = "t2";
  application_id = none;
  namespace_wildcard = true;
}

abbrev client_grants : List Grant
client_grants = other_tenant ∷ shop_grant ∷ []

partition_a-IsScope : IsScope (partition "merchant" "a")
unfolding is_blank
partition_a-IsScope = inr ("merchant", "a", refl, refl, refl, refl)

grant_authorizes_iff_example :
    Covers shop_grant "t1" (some "shop") (partition "merchant" "a") "tags:write"
unfolding grant_authorizes octonomy.Prelude.contains
grant_authorizes_iff_example =
    (grant_authorizes_iff shop_grant "t1" (some "shop") (partition "merchant" "a") "tags:write"
        partition_a-IsScope).0
      refl

-- A grant of one application says nothing about another.
foreign_application :
    grant_authorizes shop_grant "t1" (some "blog") (partition "merchant" "a") "tags:write" ≡ false
unfolding grant_authorizes octonomy.Prelude.contains
foreign_application = refl

application_q-authorized_example :
    application_q
      (authorized_application_ids client_grants "t1" (partition "merchant" "a") (some "tags:read"))
      true
      (some "shop")
    ≡ some_grant_authorizes client_grants "t1" (some "shop") (partition "merchant" "a") "tags:read"
application_q-authorized_example =
    application_q-authorized client_grants "t1" (partition "merchant" "a") "tags:read" "shop" true
      refl refl
