-- ===== src/Net/Bounds.antt =====
-- What `net.ParseIP` returns is an address: sixteen bytes.
use native.Mathlib.Nat.{pow-suc}
use mathlib.Core.Option.{some-injective}
use helios_lb.Prelude.{
  subst, ℕ, zero, suc, ◌+◌, ◌-◌, ◌*◌, ◌/◌, ◌%◌, ◌^◌, ◌≤◌, ◌<◌, ◌≡◌, refl, inl, inr, List, [], ◌∷◌,
  ◌++◌, Option, none, some, ltb, ◌==◌, length, take, drop, replicate, All-append, All-take,
  All-drop, All-replicate, length-append, length-replicate, length-take-add-drop, arith, Text,
  Bool-cases, Option-cases,
}
use helios_lb.Net.Addr.{Ip, IsBytes, v4_in_v6_prefix}
use helios_lb.Net.Parse.{
  fields_from, parse_ipv4, hex_digit, hex_group, Progress, trailing, Follow, ends, dotted, bad,
  colon, double, follow, after_group, groups_from, expand, finish, parse_ipv6, parse_addr, as_16,
  parse_ip, Family, ipv4, ipv6, family_bytes,
}

abbrev pub IsIpv4 : Ip → Type 0
IsIpv4 ip = (length ip ≡ 4) × IsBytes ip

abbrev pub IsIpv6 : Ip → Type 0
IsIpv6 ip = (length ip ≡ 16) × IsBytes ip

snoc-IsBytes : (ip : Ip) (b : ℕ) → IsBytes ip → b < 256 → IsBytes (ip ++ b ∷ [])
snoc-IsBytes ip b h k = All-append _ ip (b ∷ []) h (k, tt)

fields_from-IsIpv4 :
    (s : Text) (val digits : ℕ) (fields ip : List ℕ)
    → val < 256
    → length fields ≤ 3
    → IsBytes fields
    → fields_from s val digits fields ≡ some ip
    → IsIpv4 ip
unfolding fields_from
fields_from-IsIpv4 [] val digits fields ip hv hl h e =
    ground (arith, length-append fields (val ∷ []), snoc-IsBytes fields val h hv)
fields_from-IsIpv4 (c ∷ s) val digits fields ip hv hl h e = ground (
  arith,
  fields_from-IsIpv4 s (val * 10 + (c - b'0')) (suc digits) fields ip,
  fields_from-IsIpv4 s 0 0 (fields ++ val ∷ []) ip,
  snoc-IsBytes fields val h hv,
  length-append fields (val ∷ []),
)

parse_ipv4-IsIpv4 : (s : Text) (ip : Ip) → parse_ipv4 s ≡ some ip → IsIpv4 ip
unfolding parse_ipv4
parse_ipv4-IsIpv4 s ip e = fields_from-IsIpv4 s 0 0 [] ip (omega arith) (omega arith) tt e

hex_digit-lt : (c d : ℕ) → hex_digit c ≡ some d → d < 16
unfolding hex_digit
hex_digit-lt c d e = ground arith

pow16-le : (k : ℕ) → k ≤ 4 → 16 ^ k ≤ 65536
pow16-le zero h = omega arith
pow16-le (suc zero) h = omega arith
pow16-le (suc (suc zero)) h = omega arith
pow16-le (suc (suc (suc zero))) h = omega arith
pow16-le (suc (suc (suc (suc zero)))) h = omega arith
pow16-le (suc (suc (suc (suc (suc k))))) h = absurd (omega arith)

-- A group of at most four digits is a 16-bit number.
hex_group-lt :
    (s : Text) (off acc o v : ℕ) (rest : Text)
    → off ≤ 4
    → acc < 16 ^ off
    → hex_group s off acc ≡ some (o, v, rest)
    → v < 65536
unfolding hex_group
hex_group-lt [] off acc o v rest h k e = ground (arith, pow16-le off)
hex_group-lt (c ∷ s) off acc o v rest h k e = elim (Option-cases (hex_digit c)) [
  | inl n ↦ ground (arith, n, pow16-le off)
  | inr (d, n) ↦
      ground (
        arith,
        n,
        hex_digit-lt c d,
        hex_group-lt s (suc off) (acc * 16 + d) o v rest,
        pow-suc 16 off,
      )
]

-- Bytes that may still grow to sixteen.
abbrev IsPart : Ip → Type 0
IsPart ip = (length ip ≤ 16) × IsBytes ip

append_group :
    (rounds v : ℕ) (ip : Ip)
    → v < 65536
    → length ip + 2 * suc rounds ≡ 16
    → IsBytes ip
    → (length (ip ++ v / 256 ∷ v % 256 ∷ []) + 2 * rounds ≡ 16)
      × IsBytes (ip ++ v / 256 ∷ v % 256 ∷ [])
append_group rounds v ip hv hl h = (
  omega (arith, length-append ip (v / 256 ∷ v % 256 ∷ [])),
  All-append _ ip (v / 256 ∷ v % 256 ∷ []) h (omega arith, (omega arith, tt)),
)

trailing-IsPart :
    (s : Text) (ip : Ip) (e : Option ℕ) (ip' : Ip) (e' : Option ℕ)
    → IsBytes ip
    → trailing s ip e ≡ some (ip', e')
    → IsPart ip'
unfolding trailing
trailing-IsPart s ip e ip' e' h t = elim (Option-cases (parse_ipv4 s)) [
  | inl n ↦ refused e t n
  | inr (f, n) ↦ appended e t f n
]
  where
    refused : (e : Option ℕ) → trailing s ip e ≡ some (ip', e') → parse_ipv4 s ≡ none → IsPart ip'
    refused none t n = ground arith
    refused (some k) t n = ground arith

    appended :
        (e : Option ℕ)
        → trailing s ip e ≡ some (ip', e')
        → (f : Ip) → parse_ipv4 s ≡ some f
        → IsPart ip'
    appended none t f n =
        ground
          (arith, parse_ipv4-IsIpv4 s f n, length-append ip f, All-append (λ b. b < 256) ip f h)
    appended (some k) t f n =
        ground
          (arith, parse_ipv4-IsIpv4 s f n, length-append ip f, All-append (λ b. b < 256) ip f h)

after_group-IsPart :
    (go_on : Text → Ip → Option ℕ → Option Progress) (f : Follow) (s : Text) (ip : Ip)
    (e : Option ℕ) (ip' : Ip) (q : Ip) (e' : Option ℕ)
    → ((t : Text) (d : Option ℕ) → go_on t ip' d ≡ some (q, e') → IsPart q)
    → IsBytes ip
    → IsPart ip'
    → after_group go_on f s ip e ip' ≡ some (q, e')
    → IsPart q
unfolding after_group
after_group-IsPart go_on ends s ip e ip' q e' k h h' t = ground arith
after_group-IsPart go_on bad s ip e ip' q e' k h h' t = cc
after_group-IsPart go_on dotted s ip e ip' q e' k h h' t = trailing-IsPart s ip e q e' h t
after_group-IsPart go_on (colon more) s ip e ip' q e' k h h' t = k more e t
after_group-IsPart go_on (double more) s ip (some _) ip' q e' k h h' t = cc
after_group-IsPart go_on (double more) s ip none ip' q e' k h h' t =
    ground (arith, k more (some (length ip')))

groups_from-IsPart :
    (rounds : ℕ) (s : Text) (ip : Ip) (e : Option ℕ) (q : Ip) (e' : Option ℕ)
    → length ip + 2 * rounds ≡ 16
    → IsBytes ip
    → groups_from rounds s ip e ≡ some (q, e')
    → IsPart q
unfolding groups_from
groups_from-IsPart zero s ip e q e' l h t = ground arith
groups_from-IsPart (suc rounds) s ip e q e' l h t = elim (Option-cases (hex_group s 0 0)) [
  | inl n ↦ ground (arith, n)
  | inr ((off, v, rest), n) ↦ elim (Bool-cases (off == 0)) [
    | inl z ↦ ground (arith, n, z)
    | inr z ↦
        let ip' : Ip = ip ++ v / 256 ∷ v % 256 ∷ [] in
        let (l', h') =
          append_group rounds v ip (hex_group-lt s 0 0 off v rest (omega arith) (omega arith) n) l
            h in
        after_group-IsPart (groups_from rounds) (follow rest) s ip e ip' q e'
          (λ more d g. groups_from-IsPart rounds more ip' d q e' l' h' g) h (omega arith, h')
          (rw (n, groups_from, z) at t)
  ]
]

filled-IsIpv6 :
    (p : Ip) (e : ℕ)
    → length p ≤ 16
    → IsBytes p
    → IsIpv6 (take e p ++ (replicate (16 - length p) 0 ++ drop e p))
filled-IsIpv6 p e l h = (
  omega (
    arith,
    length-append (take e p) (zeros ++ drop e p),
    length-append zeros (drop e p),
    length-take-add-drop e p,
    length-replicate {A = ℕ} (16 - length p) 0,
  ),
  All-append (λ b. b < 256) (take e p) (zeros ++ drop e p) (All-take (λ b. b < 256) e p h)
      (All-append (λ b. b < 256) zeros (drop e p)
        (All-replicate (λ b. b < 256) (16 - length p) 0 (omega arith))
        (All-drop (λ b. b < 256) e p h)),
)
  where
    zeros : Ip
    zeros = replicate (16 - length p) 0

expand-IsIpv6 : (p : Ip) (e : Option ℕ) (ip : Ip) → IsPart p → expand (p, e) ≡ some ip → IsIpv6 ip
unfolding expand
expand-IsIpv6 p none ip h t = ground arith
expand-IsIpv6 p (some e) ip (l, h) t = elim (Bool-cases (ltb (length p) 16)) [
  | inl z ↦ subst IsIpv6 (some-injective _ ip (rw (z, expand) at t)) (filled-IsIpv6 p e l h)
  | inr z ↦ let n : none ≡ some ip = rw (z, expand) at t in cc
]

finish-IsIpv6 :
    (m : Option Progress) (ip : Ip)
    → ((q : Ip) (e : Option ℕ) → m ≡ some (q, e) → IsPart q)
    → finish m ≡ some ip
    → IsIpv6 ip
unfolding finish
finish-IsIpv6 none ip h t = cc
finish-IsIpv6 (some (q, e)) ip h t = expand-IsIpv6 q e ip (h q e refl) t

all_groups-IsIpv6 :
    (s : Text) (e : Option ℕ) (ip : Ip) → finish (groups_from 8 s [] e) ≡ some ip → IsIpv6 ip
all_groups-IsIpv6 s e ip t =
    finish-IsIpv6 (groups_from 8 s [] e) ip
      (λ q e' g. groups_from-IsPart 8 s [] e q e' (omega arith) tt g) t

parse_ipv6-IsIpv6 : (s : Text) (ip : Ip) → parse_ipv6 s ≡ some ip → IsIpv6 ip
unfolding parse_ipv6
parse_ipv6-IsIpv6 [] ip t = all_groups-IsIpv6 [] none ip t
parse_ipv6-IsIpv6 (c ∷ []) ip t = all_groups-IsIpv6 (c ∷ []) none ip t
parse_ipv6-IsIpv6 (c ∷ d ∷ s) ip t = ground (
  arith,
  all_groups-IsIpv6 s (some 0) ip,
  all_groups-IsIpv6 (c ∷ d ∷ s) none ip,
  length-replicate {A = ℕ} 16 0,
  All-replicate (λ b. b < 256) 16 0 (omega arith),
)

-- The bytes of an address in the notation of its family.
pub parse_addr-IsBytes :
    (s : Text) (family : Family) (ip : Ip)
    → parse_addr s ≡ some (family, ip)
    → (length ip ≡ family_bytes family) × IsBytes ip
unfolding parse_addr
parse_addr-IsBytes s ipv4 ip t = ground (arith, parse_ipv4-IsIpv4 s ip, parse_ipv6-IsIpv6 s ip)
parse_addr-IsBytes s ipv6 ip t = ground (arith, parse_ipv4-IsIpv4 s ip, parse_ipv6-IsIpv6 s ip)

as_16-IsIpv6 :
    (m : Option (Family × Ip)) (ip : Ip)
    → ((family : Family) (b : Ip)
        → m ≡ some (family, b)
        → (length b ≡ family_bytes family) × IsBytes b)
    → as_16 m ≡ some ip
    → IsIpv6 ip
unfolding as_16
as_16-IsIpv6 none ip h t = cc
as_16-IsIpv6 (some (ipv4, b)) ip h t =
    ground (arith, h ipv4 b refl, length-append v4_in_v6_prefix b)
as_16-IsIpv6 (some (ipv6, b)) ip h t = ground (arith, h ipv6 b refl)

-- `net.ParseIP` returns sixteen bytes.
pub parse_ip-IsIpv6 : (s : Text) (ip : Ip) → parse_ip s ≡ some ip → IsIpv6 ip
unfolding parse_ip
parse_ip-IsIpv6 s ip t =
    as_16-IsIpv6 (parse_addr s) ip (λ family b e. parse_addr-IsBytes s family b e) t
