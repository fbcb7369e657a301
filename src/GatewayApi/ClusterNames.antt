-- ===== src/GatewayApi/ClusterNames.antt =====
-- internal/gatewayapi/backends.go: clusterName, whose names key the clusters of buildClusters.
use mathlib.Core.List.{Memᴰ}
use flareway.Base.{ℕ, ◌≡◌, refl, sym, ap, ◌∙◌, ◌+◌, some, [], ◌∷◌, ◌++◌, arith}
use flareway.Base.Bytes.{Text, codes}
use flareway.Base.Decimal.{decimal, parse_uint, parse_uint-decimal}
use flareway.GatewayApi.Backends.{cluster_name}

cancel_prefix : (p x y : Text) → p ++ x ≡ p ++ y → x ≡ y
cancel_prefix [] x y e = e
cancel_prefix (c ∷ p) x y e = cancel_prefix p x y cc

-- What stands before the first separator, and after it.
parts_unique :
    (c : ℕ) (x y u v : Text)
    → ¬ Memᴰ c x
    → ¬ Memᴰ c y
    → x ++ (c ∷ u) ≡ y ++ (c ∷ v)
    → (x ≡ y) × (u ≡ v)
parts_unique c [] [] u v h k e = (refl, cc)
parts_unique c [] (b ∷ y) u v h k e = absurd (k (Memᴰ.head cc))
parts_unique c (a ∷ x) [] u v h k e = absurd (h (Memᴰ.head cc))
parts_unique c (a ∷ x) (b ∷ y) u v h k e =
    let (p, q) = parts_unique c x y u v (λ m. h (Memᴰ.tail m)) (λ m. k (Memᴰ.tail m)) cc in (cc, q)

decimal_injective : (n m : ℕ) → decimal n ≡ decimal m → n ≡ m
decimal_injective n m e = some_injective (
    sym (parse_uint-decimal (n + m) n (omega arith))
    ∙ (ap (parse_uint (n + m)) e ∙ parse_uint-decimal (n + m) m (omega arith)))
  where
    some_injective : some n ≡ some m → n ≡ m
    some_injective f = cc

-- Two backends have the same cluster name only if they have the same namespace, Service and port,
-- provided that no namespace has a slash and no Service name has a colon.
pub cluster_name_injective :
    (namespace service : Text) (port : ℕ) (namespace' service' : Text) (port' : ℕ)
    → ¬ Memᴰ b'/' namespace
    → ¬ Memᴰ b'/' namespace'
    → ¬ Memᴰ b':' service
    → ¬ Memᴰ b':' service'
    → cluster_name namespace service port ≡ cluster_name namespace' service' port'
    → (namespace ≡ namespace') × (service ≡ service') × (port ≡ port')
unfolding cluster_name
cluster_name_injective n s p n' s' p' a b c d e =
    let (f, g) = parts_unique b'/' n n' _ _ a b (cancel_prefix (codes "k8s://") _ _ e) in
    let (h, k) = parts_unique b':' s s' _ _ c d g in (f, h, decimal_injective p p' k)
