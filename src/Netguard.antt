-- ===== src/Netguard.antt =====
-- lib/netguard.js: which addresses are the host's own network. An IPv4 address is its four octets, an
-- IPv6 address the eight hextets that `expandV6` makes of its text; the parsing of the texts is not
-- modelled.
pub mod Laws
use circuit_agent_cloud.Prelude.{
  ℕ, ◌+◌, ◌-◌, ◌*◌, ◌/◌, ◌%◌, ◌^◌, ◌≡◌, refl, Bool, true, false, ◌&&◌, ◌||◌, List, [], ◌∷◌, any,
  all, leb, nat_eq, if◌then◌else◌,
}

pub record V4 : Type 0 where
  pub o0 : ℕ
  pub o1 : ℕ
  pub o2 : ℕ
  pub o3 : ℕ

-- `ipToLong`: four rounds of `((a << 8) + o) >>> 0`.
unfoldable pub ip_to_long : V4 → ℕ
ip_to_long a = (((a.o0 * 256 + a.o1) * 256 + a.o2) * 256 + a.o3) % 2 ^ 32

-- `v4InCidr`: the masks keep the top `bits` bits, so they compare what a shift by the rest leaves.
unfoldable pub v4_in_cidr : V4 → V4 → ℕ → Bool
unfolding ip_to_long
v4_in_cidr ip base bits =
    nat_eq (ip_to_long ip / 2 ^ (32 - bits)) (ip_to_long base / 2 ^ (32 - bits))

abbrev pub v4 : ℕ → ℕ → ℕ → ℕ → V4
v4 a b c d = record { o0 = a; o1 = b; o2 = c; o3 = d }

unfoldable pub is_private_v4 : V4 → Bool
unfolding v4_in_cidr
is_private_v4 ip =
    v4_in_cidr ip (v4 0 0 0 0) 8
    || v4_in_cidr ip (v4 10 0 0 0) 8
    || v4_in_cidr ip (v4 100 64 0 0) 10
    || v4_in_cidr ip (v4 127 0 0 0) 8
    || v4_in_cidr ip (v4 169 254 0 0) 16
    || v4_in_cidr ip (v4 172 16 0 0) 12
    || v4_in_cidr ip (v4 192 0 0 0) 24
    || v4_in_cidr ip (v4 192 0 2 0) 24
    || v4_in_cidr ip (v4 192 168 0 0) 16
    || v4_in_cidr ip (v4 198 18 0 0) 15
    || v4_in_cidr ip (v4 198 51 100 0) 24
    || v4_in_cidr ip (v4 203 0 113 0) 24
    || v4_in_cidr ip (v4 224 0 0 0) 4
    || v4_in_cidr ip (v4 240 0 0 0) 4

pub record V6 : Type 0 where
  pub h0 : ℕ
  pub h1 : ℕ
  pub h2 : ℕ
  pub h3 : ℕ
  pub h4 : ℕ
  pub h5 : ℕ
  pub h6 : ℕ
  pub h7 : ℕ

-- The IPv4 address in the last two hextets.
abbrev pub embedded : V6 → V4
embedded h = v4 (h.h6 / 256) (h.h6 % 256) (h.h7 / 256) (h.h7 % 256)

-- `every` hextet but the last is 0.
abbrev pub zero_to_h6 : V6 → Bool
zero_to_h6 h = all (λ n. nat_eq n 0) (h.h0 ∷ h.h1 ∷ h.h2 ∷ h.h3 ∷ h.h4 ∷ h.h5 ∷ h.h6 ∷ [])

-- `isPrivateV6` from the hextets on; `& 0xffc0` drops 6 bits of 16, `& 0xfe00` 9.
unfoldable pub is_private_v6 : V6 → Bool
unfolding is_private_v4
is_private_v6 h =
    zero_to_h6 h && (nat_eq h.h7 1 || nat_eq h.h7 0)
    || nat_eq (h.h0 / 64) (65152 / 64)
    || nat_eq (h.h0 / 512) (64512 / 512)
    || leb 65280 h.h0
    || all (λ n. nat_eq n 0) (h.h0 ∷ h.h1 ∷ h.h2 ∷ h.h3 ∷ h.h4 ∷ [])
      && (nat_eq h.h5 65535 || nat_eq h.h5 0)
      && is_private_v4 (embedded h)

metadata_endpoint : is_private_v4 (v4 169 254 169 254) ≡ true
unfolding is_private_v4 v4_in_cidr ip_to_long
metadata_endpoint = refl
