-- ===== src/Net/Addrs/Queue.antt =====
-- src/net.rs: addresses that resolve at different times are queued once each.
use mathlib.Core.Bool.{or_assoc, or-false, or_comm}
use fetch.Common.{
  Bool, Bool-cases, true, false, ◌||◌, List, [], ◌∷◌, ◌++◌, append_assoc, append-nil, ◌≡◌, refl,
  sym, ap, ◌∙◌, inl, inr,
}
use fetch.Net.Addrs.{
  SocketAddr, same, contains, interleave_loop, interleave_socket_addr_families, Schedule, schedule,
  schedule_all, ordered_by, enqueue_interleaved, AddressFamily,
}
use fetch.Net.Addrs.Unique.{Distinct, contains-pushed, contains_known, Distinct-pushed}

shuffle : (o s p t f : Bool) → ((o || s) || t) || (p || f) ≡ (o || ((s || p) || (t || f)))
shuffle true s p t f = refl
shuffle false true p t f = refl
shuffle false false true true f = refl
shuffle false false true false f = refl
shuffle false false false t f = refl

contains-interleave_loop :
    (out first second : List SocketAddr) (b : SocketAddr)
    → contains (interleave_loop out first second) b
      ≡ (contains out b || (contains first b || contains second b))
unfolding interleave_loop contains
contains-interleave_loop out [] [] b = sym (or-false (contains out b))
contains-interleave_loop out [] (y ∷ second) b =
    contains-interleave_loop (out ++ y ∷ []) [] second b
    ∙ ap (λ (r : Bool). r || contains second b) (contains-pushed out y b)
    ∙ or_assoc (contains out b) (same y b) (contains second b)
contains-interleave_loop out (x ∷ first) [] b =
    contains-interleave_loop (out ++ x ∷ []) first [] b
    ∙ ap (λ (r : Bool). r || (contains first b || false)) (contains-pushed out x b)
    ∙ or_assoc (contains out b) (same x b) (contains first b || false)
    ∙ ap (λ (r : Bool). contains out b || r) (sym (or_assoc (same x b) (contains first b) false))
contains-interleave_loop out (x ∷ first) (y ∷ second) b =
    contains-interleave_loop ((out ++ x ∷ []) ++ y ∷ []) first second b
    ∙ ap (λ (r : Bool). r || (contains first b || contains second b))
        (contains-pushed (out ++ x ∷ []) y b
          ∙ ap (λ (r : Bool). r || same y b) (contains-pushed out x b))
    ∙ shuffle (contains out b) (same x b) (contains first b) (same y b) (contains second b)

-- What queueing `addrs` did: the same addresses went to the end of both lists, none that had been
-- scheduled before, and then all of `addrs` had been.
pub record Queued (addrs : List SocketAddr) (before after : Schedule) : Type 0 where
  pub added : List SocketAddr
  pub pending : after.pending ≡ before.pending ++ added
  pub scheduled : after.scheduled_addrs ≡ before.scheduled_addrs ++ added
  pub distinct : Distinct after.scheduled_addrs
  pub known :
      (b : SocketAddr)
      → contains after.scheduled_addrs b ≡ (contains before.scheduled_addrs b || contains addrs b)

schedule-Queued :
    (s : Schedule) (a : SocketAddr) → Distinct s.scheduled_addrs → Queued (a ∷ []) s (schedule s a)
unfolding schedule contains
schedule-Queued s a d = elim (Bool-cases (contains s.scheduled_addrs a)) [
  | inl old ↦ rw old (record {
    added = [];
    pending = sym (append-nil s.pending);
    scheduled = sym (append-nil s.scheduled_addrs);
    distinct = d;
    known = λ b.
        contains_known s.scheduled_addrs a b old
        ∙ ap (λ (r : Bool). contains s.scheduled_addrs b || r) (sym (or-false (same a b)));
  })
  | inr fresh ↦ rw fresh (record {
    added = a ∷ [];
    pending = refl;
    scheduled = refl;
    distinct = Distinct-pushed s.scheduled_addrs a d fresh;
    known = λ b.
        contains-pushed s.scheduled_addrs a b
        ∙ ap (λ (r : Bool). contains s.scheduled_addrs b || r) (sym (or-false (same a b)));
  })
]

schedule_all-Queued :
    (s : Schedule) (addrs : List SocketAddr)
    → Distinct s.scheduled_addrs
    → Queued addrs s (schedule_all s addrs)
unfolding schedule_all contains
schedule_all-Queued s [] d = record {
  added = [];
  pending = sym (append-nil s.pending);
  scheduled = sym (append-nil s.scheduled_addrs);
  distinct = d;
  known = λ b. sym (or-false (contains s.scheduled_addrs b));
}
schedule_all-Queued s (a ∷ addrs) d =
    let one = schedule-Queued s a d in
    let more = schedule_all-Queued (schedule s a) addrs one.distinct in
    record {
      added = one.added ++ more.added;
      pending =
          more.pending
          ∙ ap (λ (t : List SocketAddr). t ++ more.added) one.pending
          ∙ append_assoc s.pending one.added more.added;
      scheduled =
          more.scheduled
          ∙ ap (λ (t : List SocketAddr). t ++ more.added) one.scheduled
          ∙ append_assoc s.scheduled_addrs one.added more.added;
      distinct = more.distinct;
      known = λ b.
          more.known b
          ∙ ap (λ (r : Bool). r || contains addrs b)
              (one.known b
                ∙ ap (λ (r : Bool). contains s.scheduled_addrs b || r) (or-false (same a b)))
          ∙ or_assoc (contains s.scheduled_addrs b) (same a b) (contains addrs b);
    }

contains-ordered_by :
    (family : AddressFamily) (ipv4_addrs ipv6_addrs : List SocketAddr) (b : SocketAddr)
    → contains (ordered_by family ipv4_addrs ipv6_addrs) b
      ≡ (contains ipv4_addrs b || contains ipv6_addrs b)
unfolding interleave_socket_addr_families contains
contains-ordered_by AddressFamily.ipv4 a c b = contains-interleave_loop [] a c b
contains-ordered_by AddressFamily.ipv6 a c b =
    contains-interleave_loop [] c a b ∙ or_comm (contains c b) (contains a b)

-- Where no address is scheduled twice, enqueueing the addresses of both families adds the same new
-- addresses to the end of the queue and of the schedule, leaves none scheduled twice, and afterwards
-- exactly those that were scheduled or are given are.
pub enqueue_interleaved-Queued :
    (s : Schedule) (ipv4_addrs ipv6_addrs : List SocketAddr) (family : AddressFamily)
    → Distinct s.scheduled_addrs
    → (addrs : List SocketAddr) × Queued addrs s
        (enqueue_interleaved s ipv4_addrs ipv6_addrs family)
      × ((b : SocketAddr) → contains addrs b ≡ (contains ipv4_addrs b || contains ipv6_addrs b))
unfolding enqueue_interleaved
enqueue_interleaved-Queued s ipv4_addrs ipv6_addrs family d = (
  ordered_by family ipv4_addrs ipv6_addrs,
  schedule_all-Queued s (ordered_by family ipv4_addrs ipv6_addrs) d,
  contains-ordered_by family ipv4_addrs ipv6_addrs,
)
