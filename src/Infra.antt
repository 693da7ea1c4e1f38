-- ===== src/Infra.antt =====
-- The program of the infrastructure, packages/infra/src: the values that it computes and the
-- resources that it creates, as values. Here are the types of packages/k8s/src/deployed.ts, what a
-- service hands back.
pub mod Publish
pub mod TailnetPolicy
pub mod Exits
pub mod Entries
pub mod Cdn
pub mod Firewall
pub mod Auth
pub mod Program
mod Examples
mod ServicesExamples
mod ProgramExamples
pub mod Services
use jaritanet.Base.{ℕ, Option, none, List, Text}

pub record Route : Type 0 where
  pub service : Text
  pub hostname : Text
  pub paths : Option (List Text)
  pub priority : Option ℕ
  pub middlewares : Option (List Text)
  pub depends_on : Option (List Text)

pub record OidcClient : Type 0 where
  pub id : Text
  pub name : Text
  pub redirect_uri : Text

pub record Deployed : Type 0 where
  pub routes : List Route
  pub oidc : Option OidcClient

pub record RelyingParty : Type 0 where
  pub id : Text
  pub name : Text
  pub redirect_uri : Text
  pub secret : Text

-- A service's route on all of its host.
abbrev pub whole_host : Text → Text → Route
whole_host service hostname = record {
  service = service;
  hostname = hostname;
  paths = none;
  priority = none;
  middlewares = none;
  depends_on = none;
}

-- The exceptions that the program throws.
pub data Failure : Type 0 where
  no_secret : Text → Failure
  shared_bind : Failure
  no_auth_key : Failure
  service_hostname : Text → Failure
  no_zone : Text → Failure
  bad_user : Text → Failure
  repeated_user : Text → Failure

pub data Result {ℓ} (A : Type ℓ) : Type ℓ where
  returned : A → Result A
  thrown : Failure → Result A

infixl 5 ◌>>=◌
abbrev pub ◌>>=◌ {ℓ κ} : {A : Type ℓ} {B : Type κ} → Result A → (A → Result B) → Result B
returned a >>= f = f a
thrown e >>= f = thrown e
