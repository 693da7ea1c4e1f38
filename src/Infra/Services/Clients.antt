-- ===== src/Infra/Services/Clients.antt =====
-- The OAuth clients of the services, `createServices` of packages/infra/src/services.ts.
use jaritanet.Base.{
  ◌≡◌, refl, sym, Option, none, some, List, [], ◌∷◌, ◌++◌, Text, In, All, All-append, All_map,
  In-append_left, In-append_right, here,
}
use mathlib.Core.Path.{subst}
use jaritanet.Base.Options.{some_injective}
use jaritanet.Infra.{OidcClient, Deployed, RelyingParty, Result, returned, thrown, ◌>>=◌}
use jaritanet.Infra.Services.{Collected, register, registration, listed, oidc_name, add, generate}
use jaritanet.Infra.Services.Each.{when, add_with_secret, in_turn}

pub returned_injective {ℓ} : {A : Type ℓ} {a b : A} → returned a ≡ returned b → a ≡ b
returned_injective e = cc

pub >>=-returned {ℓ κ} :
    {A : Type ℓ} {B : Type κ} (r : Result A) (f : A → Result B) {b : B}
    → (r >>= f) ≡ returned b
    → (a : A) × (r ≡ returned a) × (f a ≡ returned b)
>>=-returned (returned a) f e = (a, refl, e)
>>=-returned (thrown x) f e = cc

-- What holds of the collection before a step holds of it behind.
abbrev pub Preserves : (Collected → Type 0) → (Collected → Result Collected) → Type 0
Preserves P f = (c d : Collected) → P c → f c ≡ returned d → P d

pub when-Preserves {ℓ} :
    {A : Type ℓ} (P : Collected → Type 0) (o : Option A) (f : A → Collected → Result Collected)
    → ((a : A) → o ≡ some a → Preserves P (f a))
    → Preserves P (when o f)
when-Preserves P none f h c d p e = subst P (returned_injective e) p
when-Preserves P (some a) f h c d p e = h a refl c d p e

pub in_turn-Preserves :
    (P : Collected → Type 0) (fs : List (Collected → Result Collected))
    → All (Preserves P) fs
    → Preserves P (in_turn fs)
unfolding in_turn
in_turn-Preserves P [] h c d p e = subst P (returned_injective e) p
in_turn-Preserves P (f ∷ fs) (g, h) c d p e =
    let (b, e1, e2) = >>=-returned (f c) (in_turn fs) e in
    in_turn-Preserves P fs h b d (g c b p e1) e2

-- A client has the secret that was handed over with its service.
register-secret :
    (oidc : Option OidcClient) (secret : Option Text) (client : Option RelyingParty)
    → register oidc secret ≡ returned client
    → All (λ (c : RelyingParty). secret ≡ some c.secret) (listed client)
unfolding register
register-secret none secret client e =
    subst (λ o. All (λ (c : RelyingParty). secret ≡ some c.secret) (listed o))
      (returned_injective e) tt
register-secret (some oidc) none client e = cc e
register-secret (some oidc) (some secret) client e =
    subst (λ o. All (λ (c : RelyingParty). some secret ≡ some c.secret) (listed o))
      (returned_injective e) (refl, tt)

-- What `add` comes to where it does not throw.
pub add-returned :
    (d : Deployed) (secret : Option Text) (c b : Collected)
    → add d secret c ≡ returned b
    → (client : Option RelyingParty) × All
        (λ (p : RelyingParty). secret ≡ some p.secret)
        (listed client)
      × (record c { routes = c.routes ++ d.routes; clients = c.clients ++ listed client } ≡ b)
unfolding add registration
add-returned d secret c b e =
    let (client, e1, e2) =
      >>=-returned (registration d secret)
        (λ client.
          returned
            (record c { routes = c.routes ++ d.routes; clients = c.clients ++ listed client }))
        e in
    (client, register-secret d.oidc secret client e1, returned_injective e2)

-- Without a secret, nothing is registered.
pub none_listed :
    (client : Option RelyingParty)
    → All (λ (p : RelyingParty). none ≡ some p.secret) (listed client)
    → listed client ≡ []
none_listed none h = refl
none_listed (some p) (e, _) = cc e

module _ (generated : Text → Text) where
  -- The secret of a client was generated, in this run.
  abbrev pub HasSecret : List Text → RelyingParty → Type 0
  HasSecret secrets client = (n : Text) × In n secrets × (client.secret ≡ generated n)

  abbrev pub IsSecured : Collected → Type 0
  IsSecured c = All (HasSecret c.secrets) c.clients

  add-IsSecured :
      (d : Deployed) (secret : Option Text) (c b : Collected)
      → ((s : Text) → secret ≡ some s → (n : Text) × In n c.secrets × (s ≡ generated n))
      → IsSecured c
      → add d secret c ≡ returned b
      → IsSecured b
  add-IsSecured d secret c b h p e =
      let (client, k, same) = add-returned d secret c b e in
      subst IsSecured same (
        All-append (HasSecret c.secrets) c.clients (listed client) p
          (All_map (listed client) (λ r q. h r.secret q) k))

  pub without_secret : (d : Deployed) → Preserves IsSecured (add d none)
  without_secret d c b p e = add-IsSecured d none c b (λ s q. cc q) p e

  pub generate-IsSecured : (id : Text) (c : Collected) → IsSecured c → IsSecured (generate id c)
  generate-IsSecured id c p =
      All_map c.clients (λ r h. let (n, m, e) = h in (n, In-append_left (oidc_name id ∷ []) m, e)) p

  pub with_secret :
      (id : Text) (deploy : Text → Deployed)
      → Preserves IsSecured (add_with_secret generated id deploy)
  with_secret id deploy c b p e =
      let secret = generated (oidc_name id) in
      add-IsSecured (deploy secret) (some secret) (generate id c) b
        (λ s q. (oidc_name id, In-append_right c.secrets here, some_injective _ _ (sym q)))
        (generate-IsSecured id c p) e
