-- ===== src/Vpn/Xray/Clients.antt =====
-- The users that the inbounds of packages/vpn/src/xray.ts accept, and the ids of the profiles of
-- packages/vpn/src/singbox.ts.
use mathlib.Core.Path.{subst}
use jaritanet.Base.{
  ◌≡◌, refl, sym, ap, ◌∙◌, Option, none, some, List, [], ◌∷◌, Text, text_eq, text_eq_iff, In, here,
  there, All, In-map, Bool-cases, inl, inr,
}
use jaritanet.Base.Dicts.{Dict, lookup, put, lookup-put_same, lookup-put_other}
use jaritanet.Vpn.Users.{VpnUser}
use jaritanet.Vpn.Singbox.Data.{ResolvedNode}
use jaritanet.Vpn.Singbox.Outbounds.{Client, uuid_of}
use jaritanet.Vpn.Xray.{
  XrayConf, XhttpConf, Keypair, XrayClient, Inbound, uuids_from, uuids, xray_config,
  reality_inbound, reality_clients, xhttp_inbounds, xhttp_clients,
}

module _ (mint : Text → Text) where
  lookup-put-mint :
      (n name : Text) (found : Dict)
      → lookup n found ≡ some (mint n)
      → lookup n (put name (mint name) found) ≡ some (mint n)
  lookup-put-mint n name found h = elim (Bool-cases (text_eq name n)) [
    | inl e ↦
        let same = (text_eq_iff name n).0 e in
        subst (λ x. lookup x (put name (mint name) found) ≡ some (mint x)) same
          (lookup-put_same name (mint name) found)
    | inr e ↦ lookup-put_other name n (mint name) found e ∙ h
  ]

  uuids_from-keeps :
      (n : Text) (found : Dict) (us : List VpnUser)
      → lookup n found ≡ some (mint n)
      → lookup n (uuids_from mint found us) ≡ some (mint n)
  unfolding uuids_from
  uuids_from-keeps n found [] h = h
  uuids_from-keeps n found (u ∷ us) h =
      uuids_from-keeps n (put u.name (mint u.name) found) us (lookup-put-mint n u.name found h)

  lookup-uuids_from :
      (found : Dict) (us : List VpnUser) (u : VpnUser)
      → In u us
      → lookup u.name (uuids_from mint found us) ≡ some (mint u.name)
  unfolding uuids_from
  lookup-uuids_from found [] u m = elim m [ ]
  lookup-uuids_from found (v ∷ us) u here =
      uuids_from-keeps u.name (put u.name (mint u.name) found) us
        (lookup-put_same u.name (mint u.name) found)
  lookup-uuids_from found (v ∷ us) u (there m) =
      lookup-uuids_from (put v.name (mint v.name) found) us u m

-- The inbound has a client by this email with this id.
abbrev pub Accepts : Text → Option Text → Inbound → Type 0
Accepts email id inbound = (c : XrayClient) × In c inbound.clients × (c.email ≡ email) × (c.id ≡ id)

xhttp-Accepts :
    (conf : Option XhttpConf) (path : Text) (ids : Dict) (users : List VpnUser) (user : VpnUser)
    → In user users
    → All (Accepts user.name (lookup user.name ids)) (xhttp_inbounds conf path ids users)
unfolding xhttp_inbounds xhttp_clients
xhttp-Accepts none path ids users user m = tt
xhttp-Accepts (some conf) path ids users user m = (
  (
    _,
    In-map (λ (u : VpnUser). record { id = lookup u.name ids; email = u.name; flow = none }) m,
    refl,
    refl,
  ),
  tt,
)

-- What a user's profile presents to a node is what the node accepts: with the ids of the server on
-- the node, the profile has an id for each user of the roster, and every inbound has a client with
-- the user's name and that id.
pub xray_config-clients :
    (xray : XrayConf) (keys : Keypair) (short_id path : Text) (mint : Text → Text)
    (users : List VpnUser) (user : VpnUser) (client : Client) (n : ResolvedNode)
    → In user users
    → n.reality.uuids ≡ uuids mint users
    → (uuid_of user client n ≡ some (mint user.name))
      × All
          (Accepts user.name (uuid_of user client n))
          (xray_config xray keys short_id path mint users).inbounds
unfolding xray_config reality_inbound reality_clients
xray_config-clients xray keys short_id path mint users user client n m e =
    let ids = uuids mint users in
    let same : uuid_of user client n ≡ lookup user.name ids = ap (lookup user.name) e in
    (
      same ∙ lookup-uuids_from mint [] users user m,
      subst
          (λ i. All (Accepts user.name i) (xray_config xray keys short_id path mint users).inbounds)
          (sym same) ((_, In-map _ m, refl, refl), xhttp-Accepts xray.xhttp path ids users user m),
    )
