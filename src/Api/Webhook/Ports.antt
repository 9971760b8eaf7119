-- ===== src/Api/Webhook/Ports.antt =====
-- `validatePorts` (api/v1/heliosconfig_webhook.go): what an accepted list of ports satisfies.
use helios_lb.Prelude.{
  suc, ◌≡◌, ◌≢◌, ◌↔◌, refl, true, false, List, [], ◌∷◌, none, some, All, arith, Bool-cases, inl,
  inr, ap,
}
use helios_lb.Prelude.Int.{ℤ, pos, negsuc, pos_part, neg_part}
use helios_lb.Api.Types.{PortConfig}
use helios_lb.Api.Webhook.{
  eq_ℤ, seen_port, in_bounds, is_port_protocol, ports_from, validate_ports, port_out_of_range,
  port_protocol, duplicate_port,
}

eq_ℤ_iff : (a b : ℤ) → (eq_ℤ a b ≡ true) ↔ (a ≡ b)
unfolding eq_ℤ
eq_ℤ_iff (pos m) (pos n) =
    (λ h. ap pos (ground arith), λ h. let e : m ≡ n = ap pos_part h in ground (arith, e))
eq_ℤ_iff (pos m) (negsuc n) = (λ h. absurd (ground arith), λ h. cc)
eq_ℤ_iff (negsuc m) (pos n) = (λ h. absurd (ground arith), λ h. cc)
eq_ℤ_iff (negsuc m) (negsuc n) =
    (λ h. ap negsuc (ground arith), λ h. let e : suc m ≡ suc n = ap neg_part h in ground (arith, e))

eq_ℤ-false : (a b : ℤ) → (eq_ℤ a b ≡ false) ↔ (a ≢ b)
eq_ℤ-false a b = (
  λ h e. let t = (eq_ℤ_iff a b).1 e in cc,
  λ n. elim (Bool-cases (eq_ℤ a b)) [ inl e ↦ absurd (n ((eq_ℤ_iff a b).0 e)) | inr e ↦ e ],
)

-- A port number in range, with a protocol of those allowed.
abbrev pub IsPort : PortConfig → Type 0
IsPort p = (in_bounds 1 65535 p.port ≡ true) × (is_port_protocol p.protocol ≡ true)

-- No two entries of the list have one port number.
abbrev pub Distinct : List PortConfig → Type 0
Distinct [] = Unit {0}
Distinct (p ∷ ps) = All (λ q. q.port ≢ p.port) ps × Distinct ps

abbrev Unseen : List ℤ → List PortConfig → Type 0
Unseen seen = All (λ q. seen_port q.port seen ≡ false)

-- The list is accepted behind the ports seen.
abbrev Accepted : List PortConfig → List ℤ → Type 0
Accepted ps seen = All IsPort ps × Distinct ps × Unseen seen ps

Unseen-split :
    (p : ℤ) (seen : List ℤ) (ps : List PortConfig)
    → Unseen (p ∷ seen) ps
    → All (λ q. q.port ≢ p) ps × Unseen seen ps
unfolding seen_port
Unseen-split p seen [] h = (tt, tt)
Unseen-split p seen (q ∷ ps) (h, hs) =
    let (k, u) = Unseen-split p seen ps hs in
    elim (Bool-cases (eq_ℤ q.port p)) [
      | inl e ↦ let c : true ≡ false = rw (seen_port, e) at h in cc
      | inr e ↦ (((eq_ℤ-false q.port p).0 e, k), (rw (seen_port, e) at h, u))
    ]

Unseen-join :
    (p : ℤ) (seen : List ℤ) (ps : List PortConfig)
    → All (λ q. q.port ≢ p) ps
    → Unseen seen ps
    → Unseen (p ∷ seen) ps
unfolding seen_port
Unseen-join p seen [] k u = tt
Unseen-join p seen (q ∷ ps) (e, k) (h, u) =
    (rw (seen_port, (eq_ℤ-false q.port p).1 e, h) refl, Unseen-join p seen ps k u)

ports_from-Accepted :
    (ps : List PortConfig) (seen : List ℤ) → ports_from ps seen ≡ none → Accepted ps seen
unfolding ports_from
ports_from-Accepted [] seen h = (tt, tt, tt)
ports_from-Accepted (p ∷ ps) seen h = elim (Bool-cases (in_bounds 1 65535 p.port)) [
  | inr b ↦ let e : some port_out_of_range ≡ none = rw (ports_from, b) at h in cc
  | inl b ↦ elim (Bool-cases (is_port_protocol p.protocol)) [
    | inr r ↦ let e : some port_protocol ≡ none = rw (ports_from, b, r) at h in cc
    | inl r ↦ elim (Bool-cases (seen_port p.port seen)) [
      | inl s ↦ let e : some duplicate_port ≡ none = rw (ports_from, b, r, s) at h in cc
      | inr s ↦
          let (i, d, u) = ports_from-Accepted ps (p.port ∷ seen) (rw (ports_from, b, r, s) at h) in
          let (k, v) = Unseen-split p.port seen ps u in (((b, r), i), (k, d), (s, v))
    ]
  ]
]

Accepted-ports_from :
    (ps : List PortConfig) (seen : List ℤ) → Accepted ps seen → ports_from ps seen ≡ none
unfolding ports_from
Accepted-ports_from [] seen h = refl
Accepted-ports_from (p ∷ ps) seen (((b, r), i), (k, d), (s, v)) =
    rw (ports_from, b, r, s)
      (Accepted-ports_from ps (p.port ∷ seen) (i, d, Unseen-join p.port seen ps k v))

nothing_seen : (ps : List PortConfig) → Unseen [] ps
unfolding seen_port
nothing_seen [] = tt
nothing_seen (p ∷ ps) = (refl, nothing_seen ps)

-- A list of ports is accepted exactly when each is between 1 and 65535 and has an allowed protocol,
-- and no two have the same number.
pub validate_ports_iff :
    (ps : List PortConfig) → (validate_ports ps ≡ none) ↔ (All IsPort ps × Distinct ps)
unfolding validate_ports
validate_ports_iff ps = (
  λ h. let (i, d, u) = ports_from-Accepted ps [] h in (i, d),
  λ (i, d). Accepted-ports_from ps [] (i, d, nothing_seen ps),
)
