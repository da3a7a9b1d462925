-- ===== src/Net/Addrs.antt =====
-- src/net.rs: the addresses of a host, without repetition and interleaved by family, as the connection
-- attempts use them.
pub mod Unique
pub mod Interleave
pub mod Queue
mod Tests
use fetch.Common.{
  ℕ, Bool, true, false, not, ◌&&◌, ◌||◌, List, [], ◌∷◌, ◌++◌, map, ◌==◌, if◌then◌else◌, Result, ok,
  err,
}

-- `std::net::SocketAddr`: an IP address as a number, a port and, for IPv6, the flow information and
-- the scope.
pub data SocketAddr : Type 0 where
  v4 : ℕ → ℕ → SocketAddr
  v6 : ℕ → ℕ → ℕ → ℕ → SocketAddr

-- `std::net::IpAddr`
pub data IpAddr : Type 0 where
  ipv4 ipv6 : ℕ → IpAddr

pub data AddressFamily : Type 0 where
  ipv4 ipv6 : AddressFamily

pub data NetError : Type 0 where
  no_addresses : NetError

-- `==`
pub same : SocketAddr → SocketAddr → Bool
same (v4 a p) (v4 b q) = (a == b) && (p == q)
same (v6 a p f s) (v6 b q g t) = ((a == b) && (p == q)) && ((f == g) && (s == t))
same (v4 a p) (v6 b q g t) = false
same (v6 a p f s) (v4 b q) = false

pub contains : List SocketAddr → SocketAddr → Bool
contains [] addr = false
contains (a ∷ addrs) addr = same a addr || contains addrs addr

pub is_ipv4 : SocketAddr → Bool
is_ipv4 (v4 a p) = true
is_ipv4 (v6 a p f s) = false

-- `if !target.contains(addr) { target.push(addr) }`
pub push_unique : List SocketAddr → SocketAddr → List SocketAddr
push_unique target addr = if contains target addr then target else target ++ addr ∷ []

pub append_unique_socket_addrs : List SocketAddr → List SocketAddr → List SocketAddr
append_unique_socket_addrs target [] = target
append_unique_socket_addrs target (addr ∷ addrs) =
    append_unique_socket_addrs (push_unique target addr) addrs

pub dedupe_socket_addrs : List SocketAddr → List SocketAddr
dedupe_socket_addrs addrs = append_unique_socket_addrs [] addrs

-- `SocketAddr::new`
pub socket_addr : ℕ → IpAddr → SocketAddr
socket_addr port (IpAddr.ipv4 ip) = v4 ip port
socket_addr port (IpAddr.ipv6 ip) = v6 ip port 0 0

pub socket_addrs_with_port : List IpAddr → ℕ → List SocketAddr
socket_addrs_with_port addrs port = dedupe_socket_addrs (map (socket_addr port) addrs)

pub same_family : Bool → Bool → Bool
same_family true b = b
same_family false b = not b

-- The `for` loop of `interleave_socket_addrs`: the preferred family, and the other one.
pub split_families : Bool → List SocketAddr → List SocketAddr × List SocketAddr
split_families first_is_ipv4 [] = ([], [])
split_families first_is_ipv4 (addr ∷ addrs) =
    let (preferred, fallback) = split_families first_is_ipv4 addrs in
    if same_family (is_ipv4 addr) first_is_ipv4
    then (addr ∷ preferred, fallback)
    else (preferred, addr ∷ fallback)

-- The `while` loop of `interleave_socket_addrs`.
pub interleave_unique : List SocketAddr → List SocketAddr → List SocketAddr → List SocketAddr
interleave_unique ordered [] [] = ordered
interleave_unique ordered [] (b ∷ fallback) = interleave_unique (push_unique ordered b) [] fallback
interleave_unique ordered (a ∷ preferred) [] =
    interleave_unique (push_unique ordered a) preferred []
interleave_unique ordered (a ∷ preferred) (b ∷ fallback) =
    interleave_unique (push_unique (push_unique ordered a) b) preferred fallback

pub interleave_socket_addrs : List SocketAddr → Result NetError (List SocketAddr)
interleave_socket_addrs [] = err no_addresses
interleave_socket_addrs (first ∷ addrs) =
    let (preferred, fallback) = split_families (is_ipv4 first) (first ∷ addrs) in
    ok (interleave_unique [] preferred fallback)

-- The `while` loop of `interleave_socket_addr_families`.
pub interleave_loop : List SocketAddr → List SocketAddr → List SocketAddr → List SocketAddr
interleave_loop out [] [] = out
interleave_loop out [] (b ∷ second) = interleave_loop (out ++ b ∷ []) [] second
interleave_loop out (a ∷ first) [] = interleave_loop (out ++ a ∷ []) first []
interleave_loop out (a ∷ first) (b ∷ second) =
    interleave_loop ((out ++ a ∷ []) ++ b ∷ []) first second

pub interleave_socket_addr_families : List SocketAddr → List SocketAddr → List SocketAddr
interleave_socket_addr_families first second = interleave_loop [] first second

-- The queue of addresses to try, and all that ever were in it.
pub record Schedule : Type 0 where
  pub pending : List SocketAddr
  pub scheduled_addrs : List SocketAddr

pub schedule : Schedule → SocketAddr → Schedule
schedule s addr = if contains s.scheduled_addrs addr then s else record {
  pending = s.pending ++ addr ∷ [];
  scheduled_addrs = s.scheduled_addrs ++ addr ∷ [];
}

pub schedule_all : Schedule → List SocketAddr → Schedule
schedule_all s [] = s
schedule_all s (addr ∷ addrs) = schedule_all (schedule s addr) addrs

abbrev pub ordered_by : AddressFamily → List SocketAddr → List SocketAddr → List SocketAddr
ordered_by AddressFamily.ipv4 ipv4_addrs ipv6_addrs =
    interleave_socket_addr_families ipv4_addrs ipv6_addrs
ordered_by AddressFamily.ipv6 ipv4_addrs ipv6_addrs =
    interleave_socket_addr_families ipv6_addrs ipv4_addrs

pub enqueue_interleaved : Schedule → List SocketAddr → List SocketAddr → AddressFamily → Schedule
enqueue_interleaved s ipv4_addrs ipv6_addrs preferred_family =
    schedule_all s (ordered_by preferred_family ipv4_addrs ipv6_addrs)
