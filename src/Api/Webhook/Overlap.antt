-- ===== src/Api/Webhook/Overlap.antt =====
-- `checkIPRangeOverlap` (api/v1/heliosconfig_webhook.go): the ranges of accepted configs are disjoint.
use mathlib.Core.Option.{some-injective}
use helios_lb.Prelude.{
  ℕ, zero, suc, ◌≡◌, refl, sym, ◌∙◌, ap, ◌⊎◌, inl, inr, Bool, true, false, not, ◌&&◌, List, [], ◌∷◌,
  Option, none, some, leb, leb→le, le→leb, if◌then◌else◌, length, get_elem?, arith, Bool-cases,
  Option-cases, ok, err, ok-injective, Text, text_eq, eq_of_text_eq, subst, &&_split,
}
use helios_lb.Net.Addr.{Ip, IsBytes}
use helios_lb.Network.Parse.{invalid_format, normalize_ip, compare_ips, parse_ip_range}
use helios_lb.Network.Value.{value}
use helios_lb.Network.Bounds.{parse_ip_range-AreEnds}
use helios_lb.Network.Allocator.Steps.{not_above-value, not_below-value}
use helios_lb.Network.Allocator.Free.{InRange}
use helios_lb.Api.Types.{HeliosConfig}
use helios_lb.Api.Webhook.{
  Fault, family_range, ranges_overlap, overlaps_existing, overlap_from, overlap_for_range, Lister,
  listed, ◌then_check◌, check_ip_range_overlap, validate_spec, overlap,
}

-- The ends of two ranges are of one family, in the form of `NormalizeIP`.
pub record OneFamily (s e s' e' : Ip) : Type 0 where
  pub same_length : (length s ≡ length e) × (length s ≡ length s') × (length s ≡ length e')
  pub normal : (normalize_ip s ≡ s) × (normalize_ip e ≡ e)
  pub normal' : (normalize_ip s' ≡ s') × (normalize_ip e' ≡ e')

ranges_overlap-value :
    (s e s' e' : Ip)
    → OneFamily s e s' e'
    → IsBytes s
    → IsBytes e
    → IsBytes s'
    → IsBytes e'
    → ranges_overlap (s, e) (s', e') ≡ (leb (value s) (value e') && leb (value s') (value e))
unfolding ranges_overlap compare_ips
ranges_overlap-value s e s' e' f hs he hs' he' =
    let (l, l', k) = f.same_length in
    let (ns, ne) = f.normal in
    let (ns', ne') = f.normal' in
    rw
      (
        ranges_overlap,
        compare_ips,
        ns,
        ne,
        ns',
        ne',
        not_above-value s e' k hs he',
        not_below-value e s' (sym l ∙ l') he hs',
      )
      refl

empty_range_fails : parse_ip_range [] ≡ err invalid_format
unfolding parse_ip_range helios_lb.Prelude.contains helios_lb.Prelude.trim_space
    helios_lb.Net.Parse.parse_ip helios_lb.Prelude.split
empty_range_fails = refl

not_empty : (range : Text) (r : Ip × Ip) → parse_ip_range range ≡ ok r → text_eq range [] ≡ false
not_empty range r e = elim (Bool-cases (text_eq range [])) [
  | inr n ↦ n
  | inl n ↦
      let q : range ≡ [] = eq_of_text_eq range [] n in
      let c : err invalid_format ≡ ok r = sym empty_range_fails ∙ ap parse_ip_range (sym q) ∙ e in
      cc
]

overlap_from-tail :
    (new : Ip × Ip) (exclude : Text) (d : HeliosConfig) (ds : List HeliosConfig) (v6 : Bool)
    → overlap_from new exclude (d ∷ ds) v6 ≡ none
    → overlap_from new exclude ds v6 ≡ none
unfolding overlap_from
overlap_from-tail new exclude d ds v6 h = ground arith

overlap_from-head :
    (new r : Ip × Ip) (exclude : Text) (d : HeliosConfig) (ds : List HeliosConfig) (v6 : Bool)
    → overlap_from new exclude (d ∷ ds) v6 ≡ none
    → text_eq d.name exclude ≡ false
    → parse_ip_range (family_range v6 d.spec) ≡ ok r
    → ranges_overlap new r ≡ false
unfolding overlap_from overlaps_existing
overlap_from-head new r exclude d ds v6 h n e = elim (Bool-cases (ranges_overlap new r)) [
  | inr o ↦ o
  | inl o ↦
      let c : some (overlap d.name) ≡ none =
        rw (overlap_from, n, not_empty (family_range v6 d.spec) r e, overlaps_existing, e, o) at
          h in
      cc
]

-- A config behind a loop without a fault does not overlap.
overlap_from-none :
    (new r : Ip × Ip) (exclude : Text) (items : List HeliosConfig) (v6 : Bool) (i : ℕ)
    (c : HeliosConfig)
    → overlap_from new exclude items v6 ≡ none
    → get_elem? items i ≡ some c
    → text_eq c.name exclude ≡ false
    → parse_ip_range (family_range v6 c.spec) ≡ ok r
    → ranges_overlap new r ≡ false
overlap_from-none new r exclude [] v6 i c h g n e = cc
overlap_from-none new r exclude (d ∷ ds) v6 zero c h g n e =
    let q : d ≡ c = some-injective d c g in
    overlap_from-head new r exclude d ds v6 h (rw q n) (rw q e)
overlap_from-none new r exclude (d ∷ ds) v6 (suc i) c h g n e =
    overlap_from-none new r exclude ds v6 i c (overlap_from-tail new exclude d ds v6 h) g n e

then_check-none : (m n : Option Fault) → (m then_check n) ≡ none → (m ≡ none) × (n ≡ none)
then_check-none none n h = (refl, h)
then_check-none (some f) n h = cc

overlap_for_range-none :
    (range exclude : Text) (items : List HeliosConfig) (v6 : Bool) (new : Ip × Ip)
    → parse_ip_range range ≡ ok new
    → overlap_for_range range exclude items v6 ≡ none
    → overlap_from new exclude items v6 ≡ none
unfolding overlap_for_range
overlap_for_range-none range exclude items v6 new e h = rw (overlap_for_range, e) at h

-- The fault of the overlap check is that of a spec which has no other.
validate_spec-overlap :
    (lister : Lister) (hc : HeliosConfig) (exclude : Text)
    → validate_spec lister hc exclude ≡ none
    → check_ip_range_overlap hc exclude lister ≡ none
unfolding validate_spec
validate_spec-overlap lister hc exclude h = (then_check-none _ _ h).1

check-overlap_for_range :
    (v6 : Bool) (hc : HeliosConfig) (exclude : Text) (items : List HeliosConfig)
    → check_ip_range_overlap hc exclude (listed items) ≡ none
    → text_eq (family_range v6 hc.spec) [] ≡ false
    → overlap_for_range (family_range v6 hc.spec) exclude items v6 ≡ none
unfolding check_ip_range_overlap
check-overlap_for_range false hc exclude items h n = (then_check-none _ _ h).0
check-overlap_for_range true hc exclude items h n =
    let (a, b) =
      then_check-none (overlap_for_range hc.spec.ip_range exclude items false)
        (if text_eq hc.spec.ipv6_range []
          then none
          else overlap_for_range hc.spec.ipv6_range exclude items true)
        h in
    rw n at b

-- An accepted config has, in each family, no address in common with any listed config that is not
-- excluded by its name, if the ends of both ranges are of one family and in normal form.
pub accepted_disjoint :
    (items : List HeliosConfig) (hc c : HeliosConfig) (exclude : Text) (v6 : Bool) (i : ℕ)
    (s e s' e' x : Ip)
    → validate_spec (listed items) hc exclude ≡ none
    → get_elem? items i ≡ some c
    → text_eq c.name exclude ≡ false
    → parse_ip_range (family_range v6 hc.spec) ≡ ok (s, e)
    → parse_ip_range (family_range v6 c.spec) ≡ ok (s', e')
    → OneFamily s e s' e'
    → ¬ (InRange s e x × InRange s' e' x)
accepted_disjoint items hc c exclude v6 i s e s' e' x h g n p p' f (r, r') =
    let checked = validate_spec-overlap (listed items) hc exclude h in
    let each =
      check-overlap_for_range v6 hc exclude items checked
        (not_empty (family_range v6 hc.spec) (s, e) p) in
    let ((_, hs), (_, he)) = parse_ip_range-AreEnds (family_range v6 hc.spec) (s, e) p in
    let ((_, hs'), (_, he')) = parse_ip_range-AreEnds (family_range v6 c.spec) (s', e') p' in
    let apart : ranges_overlap (s, e) (s', e') ≡ false =
      overlap_from-none (s, e) (s', e') exclude items v6 i c
        (overlap_for_range-none (family_range v6 hc.spec) exclude items v6 (s, e) p each) g n p' in
    let meet : (leb (value s) (value e') && leb (value s') (value e)) ≡ false =
      sym (ranges_overlap-value s e s' e' f hs he hs' he') ∙ apart in
    ground (arith, meet, r.above, r.below, r'.above, r'.below)
