-- ===== src/Webhook/Ranges.antt =====
-- internal/core/webhook.go: `isInternalIP` on the four bytes of an IPv4 address, and on the blocks of
-- IPv6.
use sampmail.Prelude.{
  ℕ, ◌+◌, ◌*◌, ◌/◌, ◌<◌, ◌≡◌, refl, Bool, true, false, ◌&&◌, ◌||◌, nat_eq, ◌==◌, leb, arith, ◌%◌,
  ◌^◌, ltb,
}
use sampmail.Prelude.Counting.{within}
use sampmail.Webhook.{v4, quad, is_internal_ip, v6}

-- The addresses that no webhook may reach, by their bytes.
unfoldable pub is_internal_quad : ℕ → ℕ → ℕ → ℕ → Bool
is_internal_quad a b c d =
    a == 127
    || (a == 10
        || ((a == 172 && within 16 32 b)
            || ((a == 192 && b == 168)
                || ((a == 169 && b == 254)
                    || ((a == 100 && within 64 128 b)
                        || ((a == 192 && (b == 0 && (c == 0 || c == 2)))
                            || ((a == 198 && within 18 20 b)
                                || ((a == 198 && (b == 51 && c == 100))
                                    || ((a == 203 && (b == 0 && c == 113))
                                        || (leb 224 a
                                            || (a == 0 && (b == 0 && (c == 0 && d == 0)))))))))))))

-- The tests in the order of the code, and in the order of `is_internal_quad`.
same_tests :
    (t127 t10 t172 t192 t169 m z t100 x y t198 u v g xy : Bool)
    → (m || g) ≡ g
    → (x || y) ≡ xy
    → (t127
        || ((t10 || (t172 || t192))
            || (t169 || (m || (z || (t169 || (t100 || (x || (y || (t198 || (u || (v || g))))))))))))
      ≡ (t127
          || (t10
              || (t172 || (t192 || (t169 || (t100 || (xy || (t198 || (u || (v || (g || z)))))))))))
same_tests true t10 t172 t192 t169 m z t100 x y t198 u v g xy hm hx = refl
same_tests false true t172 t192 t169 m z t100 x y t198 u v g xy hm hx = refl
same_tests false false true t192 t169 m z t100 x y t198 u v g xy hm hx = refl
same_tests false false false true t169 m z t100 x y t198 u v g xy hm hx = refl
same_tests false false false false true m z t100 x y t198 u v g xy hm hx = refl
same_tests false false false false false m z t100 x y t198 u v g xy hm hx = ground arith

module _ (a b c d : ℕ) (ha : a < 256) (hb : b < 256) (hc : c < 256) (hd : d < 256) where
  div_8 : quad a b c d / 256 ≡ (a * 256 + b) * 256 + c
  div_8 = omega arith

  div_16 : quad a b c d / 65536 ≡ a * 256 + b
  div_16 = omega arith

  div_17 : quad a b c d / 131072 ≡ a * 128 + b / 2
  div_17 = omega arith

  div_20 : quad a b c d / 1048576 ≡ a * 16 + b / 16
  div_20 = omega arith

  div_22 : quad a b c d / 4194304 ≡ a * 4 + b / 64
  div_22 = omega arith

  div_24 : quad a b c d / 16777216 ≡ a
  div_24 = omega arith

  div_28 : quad a b c d / 268435456 ≡ a / 16
  div_28 = omega arith

  in_172 : (a * 16 + b / 16 == 2753) ≡ (a == 172 && within 16 32 b)
  in_172 = ground arith

  in_100 : (a * 4 + b / 64 == 401) ≡ (a == 100 && within 64 128 b)
  in_100 = ground arith

  in_198 : (a * 128 + b / 2 == 25353) ≡ (a == 198 && within 18 20 b)
  in_198 = ground arith

  two_bytes : (x y : ℕ) → y < 256 → (a * 256 + b == x * 256 + y) ≡ (a == x && b == y)
  two_bytes x y hy = ground arith

  three_bytes :
      (x y z : ℕ)
      → y < 256
      → z < 256
      → ((a * 256 + b) * 256 + c == (x * 256 + y) * 256 + z) ≡ (a == x && (b == y && c == z))
  three_bytes x y z hy hz = ground arith

  four_bytes : (quad a b c d == 0) ≡ (a == 0 && (b == 0 && (c == 0 && d == 0)))
  four_bytes = ground arith

  from_224 : (a / 16 == 14 || (a / 16 == 15 || false)) ≡ leb 224 a
  from_224 = ground arith

  zero_or_two :
      (a == 192 && (b == 0 && c == 0) || a == 192 && (b == 0 && c == 2))
      ≡ (a == 192 && (b == 0 && (c == 0 || c == 2)))
  zero_or_two = ground arith

  multicast : (a == 224 && (b == 0 && c == 0) || leb 224 a) ≡ leb 224 a
  multicast = ground arith

  -- For four bytes, the test of the code on the IPv4 address that they make answers what the ranges of
  -- reserved addresses say about them.
  pub is_internal_ip-quad : is_internal_ip (v4 (quad a b c d)) ≡ is_internal_quad a b c d
  unfolding is_internal_ip is_internal_quad
  is_internal_ip-quad =
      rw
        (
          div_8,
          div_16,
          div_17,
          div_20,
          div_22,
          div_24,
          div_28,
          in_172,
          in_100,
          in_198,
          two_bytes 192 168 (omega arith),
          two_bytes 169 254 (omega arith),
          three_bytes 224 0 0 (omega arith) (omega arith),
          three_bytes 192 0 0 (omega arith) (omega arith),
          three_bytes 192 0 2 (omega arith) (omega arith),
          three_bytes 198 51 100 (omega arith) (omega arith),
          three_bytes 203 0 113 (omega arith) (omega arith),
          four_bytes,
          from_224,
        )
        (same_tests (a == 127) (a == 10) (a == 172 && within 16 32 b) (a == 192 && b == 168)
          (a == 169 && b == 254) (a == 224 && (b == 0 && c == 0))
          (a == 0 && (b == 0 && (c == 0 && d == 0))) (a == 100 && within 64 128 b)
          (a == 192 && (b == 0 && c == 0)) (a == 192 && (b == 0 && c == 2))
          (a == 198 && within 18 20 b) (a == 198 && (b == 51 && c == 100))
          (a == 203 && (b == 0 && c == 113)) (leb 224 a)
          (a == 192 && (b == 0 && (c == 0 || c == 2))) multicast zero_or_two)

-- The addresses of IPv6 that no webhook may reach: the unspecified one, the loopback, fc00 to fdff,
-- fe80 to febf, and the multicast addresses whose scope is the link.
unfoldable pub is_internal_v6 : ℕ → Bool
is_internal_v6 n =
    n == 0
    || (n == 1
        || (within (252 * 2 ^ 120) (254 * 2 ^ 120) n
            || (within (1018 * 2 ^ 118) (1019 * 2 ^ 118) n
                || (leb (255 * 2 ^ 120) n && (ltb n (256 * 2 ^ 120) && n / 2 ^ 112 % 16 == 2)))))

unique_local : (n : ℕ) → (n / 2 ^ 121 == 126) ≡ within (252 * 2 ^ 120) (254 * 2 ^ 120) n
unique_local n = ground arith

link_local : (n : ℕ) → (n / 2 ^ 118 == 1018) ≡ within (1018 * 2 ^ 118) (1019 * 2 ^ 118) n
link_local n = ground arith

multicast_v6 : (n : ℕ) → (n / 2 ^ 120 == 255) ≡ (leb (255 * 2 ^ 120) n && ltb n (256 * 2 ^ 120))
multicast_v6 n = ground arith

same_tests_v6 :
    (one ul ll a b c z : Bool)
    → (one || (ul || (ll || (((a && b) && c) || (z || (ul || (ll || false)))))))
      ≡ (z || (one || (ul || (ll || (a && (b && c))))))
same_tests_v6 one ul ll a b c z = ground arith

pub is_internal_ip-v6 : (n : ℕ) → is_internal_ip (v6 n) ≡ is_internal_v6 n
unfolding is_internal_ip is_internal_v6
is_internal_ip-v6 n =
    rw (unique_local n, link_local n, multicast_v6 n)
      (same_tests_v6 (n == 1) (within (252 * 2 ^ 120) (254 * 2 ^ 120) n)
        (within (1018 * 2 ^ 118) (1019 * 2 ^ 118) n) (leb (255 * 2 ^ 120) n) (ltb n (256 * 2 ^ 120))
        (n / 2 ^ 112 % 16 == 2) (n == 0))

-- The bytes of a number make the number.
pub quad_bytes : (n : ℕ) → quad (n / 16777216) (n / 65536 % 256) (n / 256 % 256) (n % 256) ≡ n
quad_bytes n = omega arith
