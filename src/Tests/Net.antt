-- ===== src/Tests/Net.antt =====
-- Runs of the texts and addresses of Go's standard library.
use Prim.Native.String.{String}
use helios_lb.Prelude.{◌≡◌, refl, [], ◌∷◌, Option, none, some, codes, split, trim_space, Text}
use helios_lb.Net.Addr.{cidr_mask, mask_size}
use helios_lb.Net.Parse.{parse_ip}
use helios_lb.Net.Print.{ip_string}

split_range : split (codes "10.0.0.1-10.0.0.9") b'-' ≡ codes "10.0.0.1" ∷ codes "10.0.0.9" ∷ []
unfolding split
split_range = refl

trim_both_ends : trim_space (codes "  a b ") ≡ codes "a b"
unfolding trim_space
trim_both_ends = refl

mask_of_20 : cidr_mask 4 20 ≡ 255 ∷ 255 ∷ 240 ∷ 0 ∷ []
unfolding cidr_mask
mask_of_20 = refl

size_of_20 : mask_size (cidr_mask 4 20) ≡ (20, 32)
unfolding cidr_mask mask_size
size_of_20 = refl

-- The print of a parsed address.
reprint : String → Option Text
unfolding parse_ip ip_string
reprint s = elim (parse_ip (codes s)) [ none ↦ none | some ip ↦ some (ip_string ip) ]

prints_v4 : reprint "192.168.1.20" ≡ some (codes "192.168.1.20")
unfolding reprint
prints_v4 = refl

prints_v6 : reprint "FD00:0:0:1::0:ff" ≡ some (codes "fd00:0:0:1::ff")
unfolding reprint
prints_v6 = refl

prints_mapped : reprint "::ffff:10.0.0.1" ≡ some (codes "10.0.0.1")
unfolding reprint
prints_mapped = refl

prints_unspecified : reprint "::" ≡ some (codes "::")
unfolding reprint
prints_unspecified = refl

refuses_leading_zero : reprint "10.0.0.01" ≡ none
unfolding reprint
refuses_leading_zero = refl

refuses_zone : reprint "fe80::1%eth0" ≡ none
unfolding reprint
refuses_zone = refl
