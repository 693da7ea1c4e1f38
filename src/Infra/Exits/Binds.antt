-- ===== src/Infra/Exits/Binds.antt =====
-- Which exits can be bound together: packages/infra/src/main.ts.
use mathlib.Core.Path.{subst}
use jaritanet.Base.{
  ◌≡◌, refl, sym, ap, ◌∙◌, ◌↔◌, ◌⊎◌, true, false, Option, some, List, [], ◌∷◌, ◌++◌, map, Text,
  codes, All, All-In, All_of_In, In, In-map, Bool-cases, inl, inr, length, ◌==◌, ==_iff,
}
use jaritanet.Base.Decimal.{decimal, decimal_injective, decimal-Lacks}
use jaritanet.Base.Slices.{split_last, split_last-append}
use jaritanet.Base.Members.{In_of_map}
use jaritanet.Base.Sets.{dedup, Unique, length-dedup_iff}
use jaritanet.Infra.{returned, thrown, shared_bind, no_auth_key}
use jaritanet.Infra.Exits.{
  ExitConf, BoundExit, resolve_exit, exit_bind, lacks_key, check_exits, resolved_exits,
}

-- Two exits that listen on the same port of the same machine.
abbrev pub Clash : BoundExit → BoundExit → Type 0
Clash e f = (e.node ≡ f.node) × (e.port ≡ f.port)

-- No exit clashes with a later one.
abbrev pub NoClash : List BoundExit → Type 0
NoClash [] = Unit
NoClash (e ∷ es) = All (λ f. ¬ Clash e f) es × NoClash es

split_bind : (e : BoundExit) → split_last b':' (exit_bind e) ≡ some (e.node, decimal e.port)
unfolding exit_bind
split_bind e = split_last-append b':' e.node (decimal e.port) (decimal-Lacks b':' e.port refl)

pair_of : {a b : Text × Text} → some a ≡ some b → a ≡ b
pair_of e = cc

exit_bind_iff : (e f : BoundExit) → (exit_bind e ≡ exit_bind f) ↔ Clash e f
unfolding exit_bind
exit_bind_iff e f = (
  λ same.
      let pairs = pair_of (sym (split_bind e) ∙ ap (split_last b':') same ∙ split_bind f) in
      (
        ap (λ (p : Text × Text). p.0) pairs,
        decimal_injective e.port f.port (ap (λ (p : Text × Text). p.1) pairs),
      ),
  λ (n, p).
      ap (λ t. t ++ (codes ":" ++ decimal e.port)) n
      ∙ ap (λ q. f.node ++ (codes ":" ++ decimal q)) p,
)

binds-Unique : (exits : List BoundExit) → Unique (map exit_bind exits) ↔ NoClash exits
binds-Unique exits = (to exits, from exits)
  where
    to : (es : List BoundExit) → Unique (map exit_bind es) → NoClash es
    to [] u = tt
    to (e ∷ es) (n, u) = (
      All_of_In (λ f. ¬ Clash e f) es
          (λ f m c. n (
            subst (λ t. In t (map exit_bind es)) (sym ((exit_bind_iff e f).1 c))
              (In-map exit_bind m))),
      to es u,
    )

    from : (es : List BoundExit) → NoClash es → Unique (map exit_bind es)
    from [] u = tt
    from (e ∷ es) (n, u) = (
      λ m.
          let (f, k, same) = In_of_map exit_bind es m in
          All-In (λ f. ¬ Clash e f) es n k ((exit_bind_iff e f).0 (sym same)),
      from es u,
    )

-- The exits are refused exactly where two of them would listen on the same port of the same
-- machine, or where there are exits and no key to join the tailnet with; the first is reported where
-- both hold.
pub resolved_exits-cases :
    (confs : List ExitConf) (key : Option Text)
    → let exits = map resolve_exit confs in
      ((NoClash exits)
        × (lacks_key exits key ≡ false)
        × (resolved_exits confs key ≡ returned exits))
      ⊎ (((NoClash exits)
            × (lacks_key exits key ≡ true)
            × (resolved_exits confs key ≡ thrown no_auth_key))
          ⊎ ((¬ NoClash exits) × (resolved_exits confs key ≡ thrown shared_bind)))
unfolding resolved_exits check_exits
resolved_exits-cases confs key =
    let exits = map resolve_exit confs in
    let binds = map exit_bind exits in
    elim (Bool-cases (length (dedup binds) == length binds)) [
      | inl same ↦
          let no_clash =
            (binds-Unique exits).0 (
              (length-dedup_iff binds).0 ((==_iff (length (dedup binds)) (length binds)).0 same)) in
          elim (Bool-cases (lacks_key exits key)) [
            | inl l ↦ inr (inl (no_clash, l, rw (same, l) refl))
            | inr l ↦ inl (no_clash, l, rw (same, l) refl)
          ]
      | inr other ↦ inr (
          inr (
            (λ n. cc (
              other,
              (==_iff (length (dedup binds)) (length binds)).1
                  ((length-dedup_iff binds).1 ((binds-Unique exits).1 n)),
            )),
            rw other refl,
          ))
    ]
