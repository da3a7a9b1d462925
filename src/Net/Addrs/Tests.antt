-- ===== src/Net/Addrs/Tests.antt =====
-- src/net.rs: three addresses of two families.
use fetch.Common.{◌||◌, List, [], ◌∷◌, ◌≡◌, refl, ok}
use fetch.Net.Addrs.{
  SocketAddr, v4, v6, AddressFamily, contains, same, push_unique, is_ipv4, same_family,
  split_families, interleave_unique, append_unique_socket_addrs, dedupe_socket_addrs,
  interleave_socket_addrs, Schedule, enqueue_interleaved, schedule_all, schedule, interleave_loop,
  interleave_socket_addr_families,
}
use fetch.Net.Addrs.Unique.{Distinct, append_unique_socket_addrs-Distinct}
use fetch.Net.Addrs.Interleave.{Orders, interleave_socket_addrs-Orders}
use fetch.Net.Addrs.Queue.{Queued, enqueue_interleaved-Queued}

abbrev a : SocketAddr
a = v4 1 80

abbrev b : SocketAddr
b = v4 2 80

abbrev c : SocketAddr
c = v6 3 80 0 0

interleave_three : interleave_socket_addrs (a ∷ b ∷ a ∷ c ∷ []) ≡ ok (a ∷ c ∷ b ∷ [])
unfolding interleave_socket_addrs split_families is_ipv4 same_family interleave_unique push_unique
    contains same
interleave_three = refl

dedupe_three : dedupe_socket_addrs (a ∷ b ∷ a ∷ []) ≡ a ∷ b ∷ []
unfolding dedupe_socket_addrs append_unique_socket_addrs push_unique contains same
dedupe_three = refl

abbrev before : Schedule
before = record { pending = []; scheduled_addrs = b ∷ [] }

enqueue_three :
    enqueue_interleaved before (a ∷ b ∷ []) (c ∷ []) AddressFamily.ipv6
    ≡ record { pending = c ∷ a ∷ []; scheduled_addrs = b ∷ c ∷ a ∷ [] }
unfolding enqueue_interleaved interleave_socket_addr_families interleave_loop schedule_all schedule
    contains same
enqueue_three = refl

append_unique_socket_addrs-Distinct_example :
    Distinct (append_unique_socket_addrs (a ∷ []) (b ∷ a ∷ []))
    × ((addr : SocketAddr)
        → contains (append_unique_socket_addrs (a ∷ []) (b ∷ a ∷ [])) addr
          ≡ (contains (a ∷ []) addr || contains (b ∷ a ∷ []) addr))
unfolding contains
append_unique_socket_addrs-Distinct_example =
    append_unique_socket_addrs-Distinct (a ∷ []) (b ∷ a ∷ []) (refl, tt)

interleave_socket_addrs-Orders_example :
    (out : List SocketAddr) × (interleave_socket_addrs (a ∷ b ∷ c ∷ []) ≡ ok out)
    × Orders a (a ∷ b ∷ c ∷ []) out
interleave_socket_addrs-Orders_example = interleave_socket_addrs-Orders a (b ∷ c ∷ [])

enqueue_interleaved-Queued_example :
    (addrs : List SocketAddr) × Queued addrs before
      (enqueue_interleaved before (a ∷ b ∷ []) (c ∷ []) AddressFamily.ipv6)
    × ((addr : SocketAddr)
        → contains addrs addr ≡ (contains (a ∷ b ∷ []) addr || contains (c ∷ []) addr))
unfolding contains
enqueue_interleaved-Queued_example =
    enqueue_interleaved-Queued before (a ∷ b ∷ []) (c ∷ []) AddressFamily.ipv6 (refl, tt)
