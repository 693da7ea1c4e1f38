-- ===== src/Cluster/Examples.antt =====
-- Runs of the version check, and each theorem on it at a concrete input.
use jaritanet.Base.{◌+◌, ◌*◌, ◌≡◌, refl, none, some, ◌∷◌, ◌++◌, codes, text_eq, span, is_truthy}
use jaritanet.Base.Decimal.{digits_value}
use jaritanet.Cluster.{
  minor_here, minor_behind, minor_of, range_of, check_range, check_cilium_support, not_in_table,
  outside,
}
use jaritanet.Cluster.Minors.{minor_of-decorated}

support_runs :
    (check_cilium_support (codes "1.19.6") (codes "v1.34.2+k3s1") ≡ none)
    × (check_cilium_support (codes "1.16.1") (codes "v1.34.2+k3s1")
        ≡ some (not_in_table (codes "1.16")))
    × (check_cilium_support (codes "1.19.6") (codes "v1.36.2")
        ≡ some
            (outside (codes "1.19") (codes "1.31") (codes "1.34") (codes "v1.36.2") (codes "1.36")))
unfolding check_cilium_support check_range range_of minor_of minor_here minor_behind span is_truthy
    digits_value text_eq
support_runs = (refl, refl, refl)

minor_of-decorated_example :
    minor_of (codes "v" ++ (codes "1" ++ b'.' ∷ (codes "36" ++ codes ".2+k3s1")))
    ≡ some (record {
      key = codes "1" ++ b'.' ∷ codes "36";
      ord = digits_value (codes "1") * 1000 + digits_value (codes "36");
    })
minor_of-decorated_example =
    minor_of-decorated (codes "v") (codes "1") (codes "36") (codes ".2+k3s1") (refl, tt) (λ e. cc e)
      (λ e. cc e) (refl, tt) (refl, (refl, tt)) refl
