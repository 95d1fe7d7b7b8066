-- ===== src/Raft/Node/Leader.antt =====
-- raft/node.cpp: what a leader does with its peers: AdvanceCommitIndexLocked, ReplicateToPeer and
-- ConfirmLeadershipQuorum.
use neural_kv.Prelude.{
  ℕ, ◌+◌, ◌-◌, ◌/◌, ◌%◌, ◌^◌, List, [], ◌∷◌, map, Option, none, some, Bool, true, false, not, ◌||◌,
  ◌==◌, ltb, leb, if◌then◌else◌, length, get_elem?,
}
use neural_kv.Result.{Result, ok, err}
use neural_kv.Cluster.{PeerInfo}
use neural_kv.Protocol.{ClusterRequest, ClusterResponse, ClusterOpcode}
use neural_kv.Persistence.WalWriter.{back_index}
use neural_kv.Raft.{LogEntry}
use neural_kv.Raft.Log.{get, entries_from, last_index}
use neural_kv.Raft.PeerMap.{assign, at_or_zero}
use neural_kv.Raft.RpcCodec.{
  AppendEntriesRequest, AppendEntriesResponse, encode_append_entries_request,
  decode_append_entries_response,
}
use neural_kv.Raft.Node.{
  RaftNode, Clock, PersistOutcome, become_follower, is_leader, majority_of,
  has_recent_majority_contact,
}
use neural_kv.Raft.Node.Handlers.{apply_committed_entries}

-- std::sort on numbers
unfoldable pub insert : ℕ → List ℕ → List ℕ
insert x [] = x ∷ []
insert x (y ∷ ys) = let rest = insert x ys in if leb x y then x ∷ y ∷ ys else y ∷ rest

unfoldable pub sort : List ℕ → List ℕ
unfolding insert
sort [] = []
sort (x ∷ xs) = insert x (sort xs)

-- The last index of this node and the match index of every peer.
unfoldable pub indices : RaftNode → List ℕ
indices n = last_index n.entries ∷ map (λ entry. entry.1) n.match_index

-- The index that a majority of the logs has reached; the list is never empty.
unfoldable pub majority_index : List ℕ → Option ℕ
majority_index all = get_elem? (sort all) (length all - (length all / 2 + 1))

unfoldable pub advance_commit_index : (List ℕ → ℕ) → RaftNode → RaftNode
advance_commit_index hash n = elim (majority_index (indices n)) [
  | none ↦ n
  | some candidate ↦ if leb candidate n.commit_index then n else elim (get candidate n.entries) [
    | none ↦ n
    | some entry ↦
        if entry.term == n.current_term
        then apply_committed_entries hash (record n { commit_index = candidate })
        else n
  ]
]

-- What happens around one RPC to a peer: what the other threads do to the node while the mutex is free,
-- the peer's answer, the clock, and the write of raft/state.bin if the node steps down.
pub record PeerIo : Type 0 where
  pub meanwhile : RaftNode → RaftNode
  pub send_rpc : ClusterRequest → Result ClusterResponse
  pub clock : Clock
  pub step_down : PersistOutcome

-- `prev != nullptr ? prev->term : 0`
unfoldable pub prev_term : ℕ → List LogEntry → ℕ
prev_term index entries = elim (get index entries) [ none ↦ 0 | some prev ↦ prev.term ]

-- `next_idx - 1` on 64 bits.
abbrev pub before : ℕ → ℕ
before next = (next + 2 ^ 64 - 1) % 2 ^ 64

module _ (local_node_id : ℕ) where
  -- The request that a locked section builds, with these entries.
  unfoldable pub request_for : ℕ → (ℕ → List LogEntry) → RaftNode → AppendEntriesRequest × RaftNode
  request_for peer_id chosen n =
      let (next, next_index) = at_or_zero peer_id n.next_index in
      (
        record {
          term = n.current_term;
          leader_id = local_node_id;
          prev_log_index = before next;
          prev_log_term = prev_term (before next) n.entries;
          leader_commit = n.commit_index;
          entries = chosen next;
        },
        record n { next_index = next_index },
      )

  -- The body in a ClusterRequest, sent, and the decoded answer.
  unfoldable pub ask :
      (ClusterRequest → Result ClusterResponse)
      → AppendEntriesRequest
      → Option AppendEntriesResponse
  ask send_rpc req =
      elim (send_rpc (record {
        request_id = 0;
        opcode = ClusterOpcode.append_entries;
        body = encode_append_entries_request req;
      })) [
        | err status ↦ none
        | ok answer ↦ elim (decode_append_entries_response answer.body) [
          | err status ↦ none
          | ok resp ↦ some resp
        ]
      ]

  -- An answer that says success.
  unfoldable pub acknowledged : ℕ → ℕ → List LogEntry → RaftNode → RaftNode
  acknowledged peer_id now [] n = record n { last_ack_time = assign peer_id now n.last_ack_time }
  acknowledged peer_id now (e ∷ es) n = record n {
    last_ack_time = assign peer_id now n.last_ack_time;
    match_index = assign peer_id (back_index (e ∷ es)) n.match_index;
    next_index = assign peer_id (back_index (e ∷ es) + 1) n.next_index;
  }

  -- An answer that says no: one entry further back next time.
  unfoldable pub refused : ℕ → RaftNode → RaftNode
  refused peer_id n =
      let (next, next_index) = at_or_zero peer_id n.next_index in
      if ltb 1 next
      then record n { next_index = assign peer_id (next - 1) next_index }
      else record n { next_index = next_index }

  -- The locked section after the answer.
  unfoldable pub take_answer :
      (List ℕ → ℕ) → ℕ → AppendEntriesRequest → AppendEntriesResponse → PeerIo → RaftNode → RaftNode
  take_answer hash peer_id req resp io n =
      if not (is_leader n.state) || not (n.current_term == req.term)
      then n
      else if ltb n.current_term resp.term
      then become_follower resp.term io.clock io.step_down n
      else if resp.success
      then advance_commit_index hash (acknowledged peer_id io.clock.now req.entries n)
      else refused peer_id n

  unfoldable pub replicate_to_peer : (List ℕ → ℕ) → PeerInfo → PeerIo → RaftNode → RaftNode
  replicate_to_peer hash peer io n =
      let (req, n₁) = request_for peer.node_id (λ next. entries_from next n.entries) n in
      if not (is_leader n.state) then n else elim (ask io.send_rpc req) [
        | none ↦ io.meanwhile n₁
        | some resp ↦ take_answer hash peer.node_id req resp io (io.meanwhile n₁)
      ]

  -- The loop over the peers that Propose and RunLoop share.
  unfoldable pub replicate_to_all :
      (List ℕ → ℕ) → List PeerInfo → (PeerInfo → PeerIo) → RaftNode → RaftNode
  replicate_to_all hash [] io n = n
  replicate_to_all hash (peer ∷ peers) io n =
      replicate_to_all hash peers io (elim (peer.node_id == local_node_id) [
        | true ↦ n
        | false ↦ replicate_to_peer hash peer (io peer) n
      ])

  -- The locked section of ConfirmLeadershipQuorum after an answer: `none` where the function returns
  -- false at once, else whether the peer acked.
  unfoldable pub confirm_answer :
      ℕ → ℕ → AppendEntriesResponse → PeerIo → RaftNode → Option Bool × RaftNode
  confirm_answer term peer_id resp io n =
      if ltb n.current_term resp.term
      then (none, become_follower resp.term io.clock io.step_down n)
      else if not (is_leader n.state) || not (n.current_term == term)
      then (none, n)
      else if resp.success
      then (some true, record n { last_ack_time = assign peer_id io.clock.now n.last_ack_time })
      else (some false, n)

  -- One peer in ConfirmLeadershipQuorum.
  unfoldable pub confirm_with : ℕ → PeerInfo → PeerIo → RaftNode → Option Bool × RaftNode
  confirm_with term peer io n =
      let (req, n₁) = request_for peer.node_id (λ next. []) n in
      if not (is_leader n.state) || not (n.current_term == term)
      then (none, n)
      else elim (ask io.send_rpc req) [
        | none ↦ (some false, io.meanwhile n₁)
        | some resp ↦ confirm_answer term peer.node_id resp io (io.meanwhile n₁)
      ]

  -- The loop of ConfirmLeadershipQuorum: the acks, or `none` where it returned false.
  unfoldable pub count_acks :
      ℕ → List PeerInfo → (PeerInfo → PeerIo) → ℕ → RaftNode → Option ℕ × RaftNode
  count_acks term [] io acks n = (some acks, n)
  count_acks term (peer ∷ peers) io acks n = elim (peer.node_id == local_node_id) [
    | true ↦ count_acks term peers io acks n
    | false ↦
        let (answer, n₁) = confirm_with term peer (io peer) n in
        elim answer [
          | none ↦ (none, n₁)
          | some true ↦ count_acks term peers io (acks + 1) n₁
          | some false ↦ count_acks term peers io acks n₁
        ]
  ]

  -- ConfirmLeadershipQuorum; `now` is the time of the check of recent contact.
  unfoldable pub confirm_leadership_quorum :
      List PeerInfo → ℕ → (PeerInfo → PeerIo) → RaftNode → Bool × RaftNode
  confirm_leadership_quorum peers now io n =
      if not (is_leader n.state)
      then (false, n)
      else if has_recent_majority_contact peers now n
      then (true, n)
      else let (acks, n₁) = count_acks n.current_term peers io 1 n in
        (elim acks [ none ↦ false | some count ↦ leb (majority_of (length peers)) count ], n₁)
