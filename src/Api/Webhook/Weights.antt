-- ===== src/Api/Webhook/Weights.antt =====
-- `validateWeights` (api/v1/heliosconfig_webhook.go): what an accepted list of weights satisfies.
use helios_lb.Prelude.{
  ◌≡◌, ◌≢◌, ◌↔◌, ◌⊎◌, refl, true, false, List, [], ◌∷◌, none, All, arith, inl, Text, text_eq_iff,
}
use helios_lb.Api.Types.{WeightConfig, method_weighted_round_robin}
use helios_lb.Api.Webhook.{seen_name, in_bounds, weights_from, validate_weights}

-- A weight between 1 and 100 for a named service.
abbrev pub IsWeight : WeightConfig → Type 0
IsWeight w = (w.service_name ≢ []) × (in_bounds 1 100 w.weight ≡ true)

-- No two entries of the list name one service.
abbrev pub OnePerService : List WeightConfig → Type 0
OnePerService [] = Unit {0}
OnePerService (w ∷ ws) = All (λ v. v.service_name ≢ w.service_name) ws × OnePerService ws

abbrev New : List Text → List WeightConfig → Type 0
New seen = All (λ v. seen_name v.service_name seen ≡ false)

New-cons :
    (n : Text) (seen : List Text) (ws : List WeightConfig)
    → New (n ∷ seen) ws ↔ (All (λ v. v.service_name ≢ n) ws × New seen ws)
unfolding seen_name
New-cons n seen [] = (λ h. (tt, tt), λ h. tt)
New-cons n seen (w ∷ ws) = ground (arith, text_eq_iff w.service_name n, New-cons n seen ws)

New-nil : (ws : List WeightConfig) → New [] ws
unfolding seen_name
New-nil [] = tt
New-nil (w ∷ ws) = (refl, New-nil ws)

weights_from_iff :
    (ws : List WeightConfig) (seen : List Text)
    → (weights_from ws seen ≡ none) ↔ (All IsWeight ws × OnePerService ws × New seen ws)
unfolding weights_from
weights_from_iff [] seen = (λ h. (tt, tt, tt), λ h. refl)
weights_from_iff (w ∷ ws) seen = ground (
  arith,
  text_eq_iff w.service_name [],
  weights_from_iff ws (w.service_name ∷ seen),
  New-cons w.service_name seen ws,
)

-- `validateWeights` accepts a list exactly when it is empty or the method is the weighted one, every
-- weight is between 1 and 100 for a named service, and no two are for one service.
pub validate_weights_iff :
    (ws : List WeightConfig) (method : Text)
    → (validate_weights ws method ≡ none)
      ↔ (((ws ≡ []) ⊎ (method ≡ method_weighted_round_robin)) × All IsWeight ws × OnePerService ws)
unfolding validate_weights
validate_weights_iff [] method = (λ h. (inl refl, tt, tt), λ h. refl)
validate_weights_iff (w ∷ ws) method = ground (
  arith,
  text_eq_iff method method_weighted_round_robin,
  weights_from_iff (w ∷ ws) [],
  New-nil (w ∷ ws),
)
