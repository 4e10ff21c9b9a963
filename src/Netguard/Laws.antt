-- ===== src/Netguard/Laws.antt =====
-- An IPv4 address inside an IPv6 one is judged as the IPv4 address.
use circuit_agent_cloud.Prelude.{◌+◌, ◌*◌, ◌/◌, ◌%◌, ◌<◌, ◌≡◌, ap, arith}
use circuit_agent_cloud.Netguard.{V4, V6, embedded, is_private_v4, is_private_v6}

-- `::ffff:a.b.c.d`.
abbrev pub mapped : V4 → V6
mapped a = record {
  h0 = 0;
  h1 = 0;
  h2 = 0;
  h3 = 0;
  h4 = 0;
  h5 = 65535;
  h6 = a.o0 * 256 + a.o1;
  h7 = a.o2 * 256 + a.o3;
}

embedded-mapped : (a : V4) → a.o1 < 256 → a.o3 < 256 → embedded (mapped a) ≡ a
embedded-mapped a p q =
    let e0 : (a.o0 * 256 + a.o1) / 256 ≡ a.o0 = omega arith in
    let e1 : (a.o0 * 256 + a.o1) % 256 ≡ a.o1 = omega arith in
    let e2 : (a.o2 * 256 + a.o3) / 256 ≡ a.o2 = omega arith in
    let e3 : (a.o2 * 256 + a.o3) % 256 ≡ a.o3 = omega arith in cc

-- For octets below 256: the IPv6 spelling of an IPv4 address is private exactly when the address is.
pub is_private_v6-mapped :
    (a : V4) → a.o1 < 256 → a.o3 < 256 → is_private_v6 (mapped a) ≡ is_private_v4 a
unfolding is_private_v6
is_private_v6-mapped a p q = ap is_private_v4 (embedded-mapped a p q)
