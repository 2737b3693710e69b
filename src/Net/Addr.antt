-- ===== src/Net/Addr.antt =====
-- `std::net::IpAddr`: an address of either family, by its number.
use app_home_services.Base.{ℕ, ◌/◌, ◌≡◌, ◌↔◌, Bool, true, false, nat_beq, arith, PartialEq}

pub data IpAddr : Type 0 where
  v4 : ℕ → IpAddr
  v6 : ℕ → IpAddr

unfoldable pub ip_beq : IpAddr → IpAddr → Bool
ip_beq (v4 a) (v4 b) = nat_beq a b
ip_beq (v4 a) (v6 b) = false
ip_beq (v6 a) (v4 b) = false
ip_beq (v6 a) (v6 b) = nat_beq a b

pub ip_beq_iff : (a b : IpAddr) → (ip_beq a b ≡ true) ↔ (a ≡ b)
unfolding ip_beq
ip_beq_iff (v4 a) (v4 b) = ground arith
ip_beq_iff (v4 a) (v6 b) = ground arith
ip_beq_iff (v6 a) (v4 b) = ground arith
ip_beq_iff (v6 a) (v6 b) = ground arith

instance abbrev pub ip_eq : PartialEq IpAddr
ip_eq = record { eq = ip_beq; eq_iff = ip_beq_iff }

-- `IpAddr::is_loopback`: 127.0.0.0/8, and ::1.
unfoldable pub is_loopback : IpAddr → Bool
is_loopback (v4 a) = nat_beq (a / 0x1000000) 127
is_loopback (v6 a) = nat_beq a 1
