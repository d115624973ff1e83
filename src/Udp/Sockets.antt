-- ===== src/Udp/Sockets.antt =====
-- The constructors and the destructor of src/udp_feed_reader.cpp. What the calls of the system give
-- is a parameter; the state is the list of the descriptors that the process has open.
use itch_parser.Prelude.Descriptors.{Opening, then_open, check, close_fd, close_fd_first}
use itch_parser.Prelude.Result.{
  Failure, ok, err, runtime_error, socket_failed, bind_failed, invalid_group, invalid_interface,
  membership_failed,
}
use itch_parser.Prelude.{
  ℕ, ◌≡◌, refl, ◌⊎◌, inl, inr, Bool, true, false, ◌&&◌, List, ◌∷◌, Option, none, some,
  if◌then◌else◌, Bool-cases,
}
use itch_parser.Udp.{UdpFeedReader, new_udp_feed_reader}

-- What `socket` gives, a descriptor or an error, and whether the other calls succeed.
pub record Calls : Type 0 where
  pub socket : Option ℕ
  pub bind : Bool
  pub group_pton : Bool
  pub iface_pton : Bool
  pub add_membership : Bool

module _ (calls : Calls) where
  unfoldable pub make_udp_socket : List ℕ → Opening ℕ
  make_udp_socket open_fds = elim calls.socket [
    | none ↦ (err (runtime_error socket_failed), open_fds)
    | some sock ↦ (ok sock, sock ∷ open_fds)
  ]

  unfoldable pub bind_socket : List ℕ → Opening Unit
  bind_socket open_fds = check calls.bind bind_failed open_fds

  unfoldable pub join_multicast : List ℕ → Opening Unit
  join_multicast open_fds = then_open (check calls.group_pton invalid_group open_fds) (λ _ fds.
      then_open (check calls.iface_pton invalid_interface fds)
        (λ _ fds'. check calls.add_membership membership_failed fds'))

  -- The reader with its descriptor.
  unfoldable pub open_multicast : List ℕ → Opening (ℕ × UdpFeedReader)
  open_multicast open_fds = then_open (make_udp_socket open_fds) (λ sock fds.
      then_open (bind_socket fds) (λ _ fds'.
        then_open (join_multicast fds') (λ _ fds''. (ok (sock, new_udp_feed_reader), fds''))))

  unfoldable pub open_loopback : List ℕ → Opening (ℕ × UdpFeedReader)
  open_loopback open_fds =
      then_open (make_udp_socket open_fds)
        (λ sock fds. then_open (bind_socket fds) (λ _ fds'. (ok (sock, new_udp_feed_reader), fds')))

unfoldable pub destroy : ℕ × UdpFeedReader → List ℕ → List ℕ
destroy (sock, r) open_fds = if r.is_open then close_fd sock open_fds else open_fds

module _ (calls : Calls) (sock : ℕ) (open_fds : List ℕ) (h : calls.socket ≡ some sock) where
  made : make_udp_socket calls open_fds ≡ (ok sock, sock ∷ open_fds)
  unfolding make_udp_socket
  made = rw h refl

  -- Where `socket` succeeds: if the other calls succeed as well, the constructor for multicast
  -- returns a new, open reader, and the destructor then closes the socket and no other descriptor;
  -- if one of them fails, the constructor throws, and the socket stays open, with nobody to close it.
  pub open_multicast_lem :
      let all = calls.bind && (calls.group_pton && (calls.iface_pton && calls.add_membership)) in
      let reader : ℕ × UdpFeedReader = (sock, new_udp_feed_reader) in
      ((all ≡ true)
        × (open_multicast calls open_fds ≡ (ok reader, sock ∷ open_fds))
        × (destroy reader (sock ∷ open_fds) ≡ open_fds))
      ⊎ ((all ≡ false)
          × (f : Failure) × (open_multicast calls open_fds
              ≡ (err (runtime_error f), sock ∷ open_fds)))
  unfolding open_multicast bind_socket join_multicast destroy
  open_multicast_lem = elim (Bool-cases calls.bind) [
    | inr unbound ↦ inr (rw unbound refl, bind_failed, rw (made, unbound) refl)
    | inl bound ↦ elim (Bool-cases calls.group_pton) [
      | inr bad ↦ inr (rw (bound, bad) refl, invalid_group, rw (made, bound, bad) refl)
      | inl group ↦ elim (Bool-cases calls.iface_pton) [
        | inr bad ↦
            inr (rw (bound, group, bad) refl, invalid_interface, rw (made, bound, group, bad) refl)
        | inl iface ↦ elim (Bool-cases calls.add_membership) [
          | inr bad ↦ inr (
            rw (bound, group, iface, bad) refl,
            membership_failed,
            rw (made, bound, group, iface, bad) refl,
          )
          | inl joined ↦ inl (
            rw (bound, group, iface, joined) refl,
            rw (made, bound, group, iface, joined) refl,
            close_fd_first sock open_fds,
          )
        ]
      ]
    ]
  ]
