-- ===== src/Command/Admitted.antt =====
-- The webhook of api/v1 and the check for conflicts of internal/controller, on one cluster.
use helios_lb.Prelude.{
  ℕ, zero, suc, ◌≡◌, refl, sym, ◌∙◌, ◌⊎◌, inl, inr, Bool, Bool-cases, true, false, List, [], ◌∷◌,
  none, some, length, get_elem?, All, arith, contains, trim_space, Text, text_eq, Dict, ok,
}
use helios_lb.Net.Addr.{Ip}
use helios_lb.Net.Parse.{parse_ip}
use helios_lb.Network.Parse.{parse_ip_range, normalize_ip}
use helios_lb.Network.Bounds.{parse_ip_range-AreEnds}
use helios_lb.Network.Allocator.{ip_in_range, between}
use helios_lb.Network.Allocator.Free.{InRange}
use helios_lb.Network.Allocator.Specific.{between-value}
use helios_lb.Api.Types.{HeliosConfig}
use helios_lb.Api.Webhook.{family_range, listed, validate_spec, validate_create}
use helios_lb.Api.Webhook.Overlap.{OneFamily, accepted_disjoint}
use helios_lb.Controller.Manager.{check_ip_conflicts}
use helios_lb.Controller.Manager.Conflicts.{HasNamesOf, NoneIn, Clear, check_ip_conflicts_iff}
use helios_lb.Command.{HeliosConfigValidator, lister}

-- The text is an address between the ends.
abbrev pub LiesIn : Ip → Ip → Text → Type 0
LiesIn s e ip =
    (target : Ip) × (parse_ip (trim_space ip) ≡ some target) × InRange s e (normalize_ip target)

abbrev pub AllLieIn : Ip → Ip → Dict Text → Type 0
AllLieIn s e [] = Unit {0}
AllLieIn s e ((service, ip) ∷ m) = LiesIn s e ip × AllLieIn s e m

-- The addresses of the map, of a range of their own, where both ranges are of one family and the first
-- is not a CIDR network.
abbrev pub OfRange : Text → Text → Dict Text → Type 0
OfRange range own m =
    (s : Ip) × (e : Ip) × (s' : Ip) × (e' : Ip) × (parse_ip_range range ≡ ok (s, e))
    × (parse_ip_range own ≡ ok (s', e'))
    × OneFamily s e s' e'
    × (contains range b'/' ≡ false)
    × AllLieIn s' e' m

in_range :
    (s e s' e' x : Ip) (range : Text)
    → parse_ip_range range ≡ ok (s, e)
    → OneFamily s e s' e'
    → InRange s' e' x
    → between s e x ≡ true
    → InRange s e x
in_range s e s' e' x range p f r b =
    let ((_, hs), (_, he)) = parse_ip_range-AreEnds range (s, e) p in
    let (l, l', k) = f.same_length in
    let family : length x ≡ length s = r.family ∙ sym l' in
    let v = sym (between-value s e x hs he r.bytes family (family ∙ l)) ∙ b in
    record {
      bytes = r.bytes;
      family = family;
      above = ground (arith, v);
      below = ground (arith, v);
    }

-- An address of the other range is not in this one, if they share none.
outside :
    (s e s' e' : Ip) (range ip : Text)
    → parse_ip_range range ≡ ok (s, e)
    → OneFamily s e s' e'
    → contains range b'/' ≡ false
    → ((x : Ip) → ¬ (InRange s e x × InRange s' e' x))
    → LiesIn s' e' ip
    → ip_in_range ip range ≡ false
unfolding ip_in_range
outside s e s' e' range ip p f d apart (target, q, r) =
    elim (Bool-cases (between s e (normalize_ip target))) [
      | inr b ↦ rw (ip_in_range, q, d, p, b) refl
      | inl b ↦
          let both = in_range s e s' e' (normalize_ip target) range p f r b in
          absurd (apart (normalize_ip target) (both, r))
    ]

outside_all :
    (s e s' e' : Ip) (range : Text) (m : Dict Text)
    → parse_ip_range range ≡ ok (s, e)
    → OneFamily s e s' e'
    → contains range b'/' ≡ false
    → ((x : Ip) → ¬ (InRange s e x × InRange s' e' x))
    → AllLieIn s' e' m
    → NoneIn range m
outside_all s e s' e' range [] p f d apart h = tt
outside_all s e s' e' range ((service, ip) ∷ m) p f d apart (h, hs) =
    (outside s e s' e' range ip p f d apart h, outside_all s e s' e' range m p f d apart hs)

-- A config other than `hc` has a name, and recorded addresses of its own ranges only.
abbrev pub KeepsToItself : HeliosConfig → HeliosConfig → Type 0
KeepsToItself hc c =
    (text_eq c.name [] ≡ false)
    × OfRange hc.spec.ip_range c.spec.ip_range c.status.allocated_ips
    × ((hc.spec.ipv6_range ≡ [])
        ⊎ OfRange hc.spec.ipv6_range c.spec.ipv6_range c.status.allocated_ipv6s)

module _ (items : List HeliosConfig) (hc : HeliosConfig)
    (h : validate_spec (listed items) hc [] ≡ none) where
  none_in :
      (v6 : Bool) (i : ℕ) (c : HeliosConfig) (m : Dict Text)
      → get_elem? items i ≡ some c
      → text_eq c.name [] ≡ false
      → OfRange (family_range v6 hc.spec) (family_range v6 c.spec) m
      → NoneIn (family_range v6 hc.spec) m
  none_in v6 i c m g n (s, e, s', e', p, p', f, d, a) =
      outside_all s e s' e' (family_range v6 hc.spec) m p f d
        (λ x. accepted_disjoint items hc c [] v6 i s e s' e' x h g n p p' f) a

  clear_at :
      (i : ℕ) (c : HeliosConfig)
      → get_elem? items i ≡ some c
      → HasNamesOf hc c ⊎ KeepsToItself hc c
      → HasNamesOf hc c
        ⊎ (NoneIn hc.spec.ip_range c.status.allocated_ips
            × ((hc.spec.ipv6_range ≡ []) ⊎ NoneIn hc.spec.ipv6_range c.status.allocated_ipv6s))
  clear_at i c g (inl q) = inl q
  clear_at i c g (inr (n, a, inl z)) = inr (none_in false i c c.status.allocated_ips g n a, inl z)
  clear_at i c g (inr (n, a, inr b)) = inr (
    none_in false i c c.status.allocated_ips g n a,
    inr (none_in true i c c.status.allocated_ipv6s g n b),
  )

Clear-each :
    (hc : HeliosConfig) (cs : List HeliosConfig)
    → ((i : ℕ) (c : HeliosConfig)
        → get_elem? cs i ≡ some c
        → HasNamesOf hc c ⊎ KeepsToItself hc c
        → HasNamesOf hc c
          ⊎ (NoneIn hc.spec.ip_range c.status.allocated_ips
              × ((hc.spec.ipv6_range ≡ []) ⊎ NoneIn hc.spec.ipv6_range c.status.allocated_ipv6s)))
    → All (λ c. HasNamesOf hc c ⊎ KeepsToItself hc c) cs
    → Clear hc cs
Clear-each hc [] f a = tt
Clear-each hc (c ∷ cs) f (a, rest) =
    (f zero c refl a, Clear-each hc cs (λ i d g. f (suc i) d g) rest)

-- When the configs are listed, the check for conflicts finds nothing for a config that the webhook
-- accepts on its creation, if every other config has a name and recorded addresses of its own ranges
-- only, and the ranges of the config and of each other one are, family by family, of one length of
-- addresses and the config's are not CIDR networks.
pub admitted_without_conflicts :
    {W E : Type 0}
    → (v : HeliosConfigValidator W E) (w : W) (hc : HeliosConfig) (configs : List HeliosConfig)
    → v.client.list_configs w ≡ ok configs
    → validate_create (lister v w) hc ≡ none
    → All (λ c. HasNamesOf hc c ⊎ KeepsToItself hc c) configs
    → check_ip_conflicts v.client w hc ≡ ok []
unfolding lister validate_create
admitted_without_conflicts v w hc configs e h a =
    let accepted : validate_spec (listed configs) hc [] ≡ none = rw (lister, e) at h in
    (check_ip_conflicts_iff v.client w hc configs e).1
      (Clear-each hc configs (clear_at configs hc accepted) a)
