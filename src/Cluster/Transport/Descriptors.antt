-- ===== src/Cluster/Transport/Descriptors.antt =====
-- The descriptors that the transport opens and closes.
use neural_kv.Prelude.{
  ℕ, ◌≡◌, refl, ap, ◌∙◌, inl, inr, List, [], ◌∷◌, ◌++◌, map, some, arith, Bool-cases, Option-cases,
}
use neural_kv.Status.{is_ok}
use neural_kv.Result.{Result, ok, err}
use neural_kv.Protocol.{ClusterRequest, ClusterResponse}
use neural_kv.Protocol.Encode.{encode_cluster_request}
use neural_kv.Net.Socket.{Transfer, write_full}
use neural_kv.Server.Session.{ReadStep}
use neural_kv.Cluster.Transport.{
  close_quietly, await_response, send_rpc, ClusterTransport, find_fd, get_or_connect, close_each,
  close_all,
}

close_quietly_lem : (fd : ℕ) (fds : List ℕ) → close_quietly fd (fd ∷ fds) ≡ fds
unfolding close_quietly
close_quietly_lem fd fds = ground arith

sent_then :
    (fd : ℕ) (writes : List Transfer) (reads : List ReadStep) (req : ClusterRequest)
    (fds encoded : List ℕ) (result : Result ClusterResponse)
    → encode_cluster_request req ≡ ok encoded
    → (send_rpc (ok fd) writes reads req fds).result ≡ some result
    → (send_rpc (ok fd) writes reads req fds).open_fds ≡ fds
unfolding send_rpc
sent_then fd writes reads req fds encoded result enc e =
    elim (Bool-cases (is_ok (write_full encoded (record { sent = []; writes = writes })).0)) [
      | inr bad ↦ ground (arith, enc, bad, close_quietly_lem fd fds)
      | inl good ↦ elim (Option-cases (await_response reads [])) [
        | inl blocked ↦ absurd (ground (arith, enc, good, blocked, e))
        | inr (r, there) ↦ ground (arith, enc, good, there, close_quietly_lem fd fds)
      ]
    ]

-- Whatever happens in it, a call of SendRpc that returns leaves the descriptors open that were open
-- before: it closes the one that it dialled on every path.
pub send_rpc_closes :
    (dialled : Result ℕ) (writes : List Transfer) (reads : List ReadStep) (req : ClusterRequest)
    (fds : List ℕ) (result : Result ClusterResponse)
    → (send_rpc dialled writes reads req fds).result ≡ some result
    → (send_rpc dialled writes reads req fds).open_fds ≡ fds
unfolding send_rpc
send_rpc_closes (err status) writes reads req fds result e = refl
send_rpc_closes (ok fd) writes reads req fds result e = go (encode_cluster_request req) refl
  where
    go :
        (o : Result (List ℕ))
        → encode_cluster_request req ≡ o
        → (send_rpc (ok fd) writes reads req fds).open_fds ≡ fds
    go (ok encoded) enc = sent_then fd writes reads req fds encoded result enc e
    go (err status) enc = ground (arith, enc, close_quietly_lem fd fds)

-- A sequence of calls of GetOrConnect, each with the outcome of the dial that it would make.
unfoldable pub dial_all : List (ℕ × Result ℕ) → ClusterTransport → ClusterTransport
unfolding get_or_connect
dial_all [] t = t
dial_all ((node_id, dialled) ∷ calls) t = dial_all calls (get_or_connect node_id dialled t).1

abbrev fds_of : List (ℕ × ℕ) → List ℕ
fds_of cached = map (λ (entry : ℕ × ℕ). entry.1) cached

-- The cache has exactly the descriptors that it opened.
abbrev HoldsOver : List ℕ → ClusterTransport → Type 0
HoldsOver fds t = t.open_fds ≡ fds_of t.peer_fds ++ fds

dial-HoldsOver :
    (node_id : ℕ) (dialled : Result ℕ) (fds : List ℕ) (t : ClusterTransport)
    → HoldsOver fds t
    → HoldsOver fds (get_or_connect node_id dialled t).1
unfolding get_or_connect
dial-HoldsOver node_id (err status) fds t holds = elim (Option-cases (find_fd node_id t.peer_fds)) [
  | inl absent ↦ rw (get_or_connect, absent) holds
  | inr (fd, there) ↦ rw (get_or_connect, there) holds
]
dial-HoldsOver node_id (ok fd) fds t holds = elim (Option-cases (find_fd node_id t.peer_fds)) [
  | inl absent ↦ rw (get_or_connect, absent) (ap (λ r. fd ∷ r) holds)
  | inr (fd', there) ↦ rw (get_or_connect, there) holds
]

dial_all-HoldsOver :
    (calls : List (ℕ × Result ℕ)) (fds : List ℕ) (t : ClusterTransport)
    → HoldsOver fds t
    → HoldsOver fds (dial_all calls t)
unfolding dial_all
dial_all-HoldsOver [] fds t holds = holds
dial_all-HoldsOver ((node_id, dialled) ∷ calls) fds t holds =
    dial_all-HoldsOver calls fds (get_or_connect node_id dialled t).1
      (dial-HoldsOver node_id dialled fds t holds)

close_each_lem :
    (cached : List (ℕ × ℕ)) (fds : List ℕ) → close_each cached (fds_of cached ++ fds) ≡ fds
close_each_lem [] fds = refl
close_each_lem ((id, fd) ∷ cached) fds =
    rw (close_quietly_lem fd (fds_of cached ++ fds)) (close_each_lem cached fds)

-- After any calls of GetOrConnect on a new transport, CloseAll leaves the descriptors open that
-- were open before the first of them, and an empty cache.
pub close_all-dial_all :
    (calls : List (ℕ × Result ℕ)) (fds : List ℕ)
    → let t = close_all (dial_all calls (record { peer_fds = []; open_fds = fds })) in
      (t.open_fds ≡ fds) × (t.peer_fds ≡ [])
unfolding close_all
close_all-dial_all calls fds =
    let t = dial_all calls (record { peer_fds = []; open_fds = fds }) in
    (
      ap (λ o. close_each t.peer_fds o)
            (dial_all-HoldsOver calls fds (record { peer_fds = []; open_fds = fds }) refl)
          ∙ close_each_lem t.peer_fds fds,
      refl,
    )
