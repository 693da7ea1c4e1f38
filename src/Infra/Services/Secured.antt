-- ===== src/Infra/Services/Secured.antt =====
-- The secrets of the OAuth clients, and that they need a provider: `createServices` of
-- packages/infra/src/services.ts.
use mathlib.Core.Path.{subst}
use jaritanet.Base.{
  ◌≡◌, refl, ap, ◌∙◌, none, some, [], ◌∷◌, ◌++◌, Text, codes, All-append, here, In-append_right,
}
use jaritanet.Infra.{Deployed, returned}
use jaritanet.Infra.Services.{EstateContext, Packages, Collected, auth_of, oidc_name, add, listed}
use jaritanet.Infra.Services.Each.{create_services, grafana_client}
use jaritanet.Infra.Services.Clients.{
  Preserves, IsSecured, HasSecret, without_secret, with_secret, generate-IsSecured, add-returned,
  none_listed,
}
use jaritanet.Infra.Services.Steps.{create_services-Preserves}

module _ (pk : Packages) (ctx : EstateContext) (generated : Text → Text) (c : Collected) where
  -- Every OAuth client that the services register has a secret that was generated in the same run,
  -- where the services are created without an exception.
  pub create_services-IsSecured :
      create_services pk ctx generated ≡ returned c → IsSecured generated c
  create_services-IsSecured e =
      create_services-Preserves pk ctx generated (IsSecured generated)
        (record {
          pushed = λ route c p. p;
          plain = without_secret generated;
          signed = λ auth o. with_secret generated;
          hydra = λ auth o c p. p;
          grafana = λ auth o hostname c p.
              All-append (HasSecret generated (c.secrets ++ oidc_name (codes "metrics") ∷ []))
                c.clients (grafana_client ctx generated hostname ∷ [])
                (generate-IsSecured generated (codes "metrics") c p)
                ((oidc_name (codes "metrics"), In-append_right c.secrets here, refl), tt);
        })
        c e tt

  no_auth : {auth : Text} → auth_of ctx ≡ none → ¬ (auth_of ctx ≡ some auth)
  no_auth n o = cc (o, n)

  -- Nothing that needs a provider has been collected.
  abbrev IsOpen : Collected → Type 0
  IsOpen b = (b.clients ≡ []) × (b.secrets ≡ []) × (b.aliases ≡ [])

  plain-IsOpen : (d : Deployed) → Preserves IsOpen (add d none)
  plain-IsOpen d b a (cs, ss, als) e =
      let (client, k, same) = add-returned d none b a e in
      subst IsOpen same (ap (λ xs. xs ++ listed client) cs ∙ none_listed client k, ss, als)

  -- Where there is no provider, no client is registered, no secret generated and no path
  -- rewritten, if the services are created without an exception.
  pub create_services-no_provider :
      auth_of ctx ≡ none
      → create_services pk ctx generated ≡ returned c
      → (c.clients ≡ []) × (c.secrets ≡ []) × (c.aliases ≡ [])
  create_services-no_provider n e =
      create_services-Preserves pk ctx generated IsOpen
        (record {
          pushed = λ route c p. p;
          plain = plain-IsOpen;
          signed = λ auth o. elim (no_auth n o) [ ];
          hydra = λ auth o. elim (no_auth n o) [ ];
          grafana = λ auth o. elim (no_auth n o) [ ];
        })
        c e (refl, refl, refl)
