-- ===== src/Raft/Node/Steps.antt =====
-- The locked sections of raft/node.cpp as steps. The handlers, the run loop, Propose and the reads run on
-- threads of their own: a run is any sequence of their sections, and of restarts from the disk.
use neural_kv.Prelude.{
  ℕ, ◌+◌, ◌≡◌, ◌≢◌, inl, inr, refl, sym, ap, ◌∙◌, List, Option, none, some, true, arith, Bool-cases,
  Option-cases,
}
use neural_kv.Bytes.{IsU32, IsU64}
use neural_kv.Status.{is_ok}
use neural_kv.Result.{ok}
use neural_kv.Cluster.{PeerInfo}
use neural_kv.Persistence.Recovery.{LogFile}
use neural_kv.Persistence.DurableStorage.{DurableStorage}
use neural_kv.Raft.{LogEntry, PersistentState}
use neural_kv.Raft.Log.{AppendIo, append, load}
use neural_kv.Raft.RpcCodec.{
  RequestVoteRequest, RequestVoteResponse, AppendEntriesRequest, AppendEntriesResponse,
}
use neural_kv.Raft.Node.{
  RaftNode, Clock, file_bytes, log_of, put_log, open_node, load_persisted_state,
  reset_election_deadline,
}
use neural_kv.Raft.Node.Handlers.{
  VoteIo, AppendEntriesIo, handle_request_vote, handle_append_entries,
}
use neural_kv.Raft.Node.Leader.{PeerIo, request_for, take_answer, confirm_answer}
use neural_kv.Raft.Node.Driver.{begin_election, finish_election, vote_answer}
use neural_kv.Raft.Node.Terms.{
  IsSaved, Later, Later-refl, Later-trans, Effect, Effect-sound, disk, saved_state,
}
use neural_kv.Raft.Node.Sections.{whole, handle_request_vote-Effect, handle_append_entries-Effect}
use neural_kv.Raft.Node.Votes.{granted_facts}
use neural_kv.Raft.Node.LeaderSections.{
  request_for-Same, take_answer-Effect, confirm_answer-Effect, vote_answer-Effect,
  begin_election-Effect, finish_election-Same,
}

-- The io of a handler of RequestVote whose writes are whole.
abbrev pub healthy : Clock → VoteIo
healthy clock = record { clock = clock; step_down = whole; vote = whole }

module _ (hash : List ℕ → ℕ) (local_node_id : ℕ) (peers : List PeerInfo) where
  pub data Step : RaftNode → RaftNode → Type 0 where
    vote_requested :
        {n : RaftNode} (req : RequestVoteRequest) (clock : Clock)
        → IsU64 req.term
        → IsU32 req.candidate_id
        → Step n (handle_request_vote req (healthy clock) n).1
    entries_received :
        {n : RaftNode} (req : AppendEntriesRequest) (io : AppendEntriesIo)
        → io.step_down ≡ whole
        → IsU64 req.term
        → Step n (handle_append_entries hash req io n).1
    election_begun :
        {n : RaftNode} (clock : Clock)
        → IsU64 (n.current_term + 1)
        → IsU32 local_node_id
        → Step n (begin_election local_node_id clock whole n)
    vote_answered :
        {n : RaftNode} (term : ℕ) (resp : RequestVoteResponse) (io : PeerIo)
        → io.step_down ≡ whole
        → IsU64 resp.term
        → Step n (vote_answer local_node_id term resp io n).1
    election_finished :
        {n : RaftNode} (now term votes : ℕ)
        → Step n (finish_election local_node_id peers now term votes n)
    request_built :
        {n : RaftNode} (peer_id : ℕ) (chosen : ℕ → List LogEntry)
        → Step n (request_for local_node_id peer_id chosen n).1
    entries_answered :
        {n : RaftNode} (peer_id : ℕ) (req : AppendEntriesRequest) (resp : AppendEntriesResponse)
        (io : PeerIo)
        → io.step_down ≡ whole
        → IsU64 resp.term
        → Step n (take_answer local_node_id hash peer_id req resp io n)
    contact_answered :
        {n : RaftNode} (term peer_id : ℕ) (resp : AppendEntriesResponse) (io : PeerIo)
        → io.step_down ≡ whole
        → IsU64 resp.term
        → Step n (confirm_answer local_node_id term peer_id resp io n).1
    entry_proposed :
        {n : RaftNode} (entry : LogEntry) (io : AppendIo)
        → Step n (put_log (append entry io (log_of n)).1 n)
    heartbeat_due : {n : RaftNode} (next : ℕ) → Step n (record n { next_heartbeat = next })
    restarted :
        {n n' : RaftNode} (wal_file : LogFile) (clock : Clock) (storage : DurableStorage)
        → open_node (disk n) wal_file clock storage ≡ some (ok n')
        → Step n n'

  pub data Run : RaftNode → RaftNode → Type 0 where
    done : {n : RaftNode} → Run n n
    then : {a b c : RaftNode} → Step a b → Run b c → Run a c

some_ok : {A : Type 0} {a b : A} → some (ok a) ≡ some (ok b) → a ≡ b
some_ok {b = b} e = ap (λ o. elim o [ some (ok a) ↦ a | _ ↦ b ]) e

disk_back : (n : RaftNode) (o : Option (List ℕ)) → n.state_file ≡ o → file_bytes (disk n) ≡ o
disk_back n none e = rw e refl
disk_back n (some f) e = rw e refl

-- The fields of a node that starts.
opened_fields :
    (file : LogFile) (s : PersistentState) (wal_file : LogFile) (clock : Clock)
    (storage : DurableStorage) (n' : RaftNode)
    → load_persisted_state file ≡ ok s
    → open_node file wal_file clock storage ≡ some (ok n')
    → (n'.current_term ≡ s.current_term)
      × (n'.voted_for ≡ s.voted_for)
      × (n'.state_file ≡ file_bytes file)
unfolding open_node reset_election_deadline
opened_fields file s wal_file clock storage n' loaded = elim (Option-cases (load wal_file)) [
  | inl missing ↦ rw (open_node, loaded, missing) (λ h. absurd (ground (arith, h)))
  | inr ((entries, status), there) ↦ elim (Bool-cases (is_ok status)) [
    | inr bad ↦ rw (open_node, loaded, there, bad) (λ h. absurd (ground (arith, h)))
    | inl good ↦
        rw (open_node, loaded, there, good)
          (λ h.
            let same_node = some_ok h in
            (
              sym (ap (λ (m : RaftNode). m.current_term) same_node),
              sym (ap (λ (m : RaftNode). m.voted_for) same_node),
              sym (ap (λ (m : RaftNode). m.state_file) same_node),
            ))
  ]
]

open_node-saved :
    (n n' : RaftNode) (wal_file : LogFile) (clock : Clock) (storage : DurableStorage)
    → IsSaved n
    → open_node (disk n) wal_file clock storage ≡ some (ok n')
    → Effect n n'
open_node-saved n n' wal_file clock storage saved h =
    let from_disk = disk_back n n.state_file refl in
    let fields = opened_fields (disk n) (saved_state n) wal_file clock storage n' saved.on_disk h in
    inl (record { term_same = fields.0; vote_same = fields.1; file_same = fields.2 ∙ from_disk })

module _ (hash : List ℕ → ℕ) (local_node_id : ℕ) (peers : List PeerInfo) where
  Step-Effect : {n n' : RaftNode} → Step hash local_node_id peers n n' → IsSaved n → Effect n n'
  Step-Effect (vote_requested req clock term id) saved =
      handle_request_vote-Effect req clock _ saved term id
  Step-Effect (entries_received req io good term) saved =
      handle_append_entries-Effect hash req io _ good term
  Step-Effect (election_begun clock term id) saved =
      begin_election-Effect local_node_id clock _ term id
  Step-Effect (vote_answered term resp io good fits) saved =
      vote_answer-Effect local_node_id term resp io _ good fits
  Step-Effect (election_finished now term votes) saved =
      inl (finish_election-Same local_node_id peers now term votes _)
  Step-Effect (request_built peer_id chosen) saved =
      inl (request_for-Same local_node_id peer_id chosen _)
  Step-Effect (entries_answered peer_id req resp io good fits) saved =
      take_answer-Effect local_node_id hash peer_id req resp io _ good fits
  Step-Effect (contact_answered term peer_id resp io good fits) saved =
      confirm_answer-Effect local_node_id term peer_id resp io _ good fits
  Step-Effect (entry_proposed entry io) saved =
      inl (record { term_same = refl; vote_same = refl; file_same = refl })
  Step-Effect (heartbeat_due next) saved =
      inl (record { term_same = refl; vote_same = refl; file_same = refl })
  Step-Effect (restarted wal_file clock storage opened) saved =
      open_node-saved _ _ wal_file clock storage saved opened

  -- Let raft/state.bin hold the term and the vote of a node. Then after every run of the locked
  -- sections, restarts included, whose writes of raft/state.bin are whole and whose incoming terms
  -- and ids fit their types, it holds the term and the vote again, the term has not fallen, and
  -- within one term a vote once given has stayed.
  pub run-IsSaved :
      {n n' : RaftNode} → Run hash local_node_id peers n n' → IsSaved n → IsSaved n' × Later n n'
  run-IsSaved {n} done saved = (saved, Later-refl n)
  run-IsSaved (then step rest) saved =
      let (saved', first) = Effect-sound (Step-Effect step saved) saved in
      let (saved'', later) = run-IsSaved rest saved' in (saved'', Later-trans first later)

  -- Let raft/state.bin hold the term and the vote of a node, and let its writes be whole and the
  -- terms and ids that come in fit their types. If the node grants a vote to a candidate, whose id
  -- is not 0, and after any run of its locked sections, restarts included, grants a vote in the
  -- same term again, it grants it to the same candidate.
  pub vote_once :
      (n n' : RaftNode) (req req' : RequestVoteRequest) (clock clock' : Clock)
      → IsSaved n
      → IsU64 req.term
      → IsU32 req.candidate_id
      → req.candidate_id ≢ 0
      → (handle_request_vote req (healthy clock) n).0.vote_granted ≡ true
      → Run hash local_node_id peers (handle_request_vote req (healthy clock) n).1 n'
      → (handle_request_vote req' (healthy clock') n').0.vote_granted ≡ true
      → (handle_request_vote req' (healthy clock') n').0.term
        ≡ (handle_request_vote req (healthy clock) n).0.term
      → req'.candidate_id ≡ req.candidate_id
  vote_once n n' req req' clock clock' saved term id real granted run granted' same_term =
      let (e1, e2, e3, e4, e5) = granted_facts req (healthy clock) n granted in
      let (f1, f2, f3, f4, f5) = granted_facts req' (healthy clock') n' granted' in
      let (saved', l) = Effect-sound (handle_request_vote-Effect req clock n saved term id) saved in
      let (saved'', later) = run-IsSaved run saved' in
      let level : (handle_request_vote req (healthy clock) n).1.current_term ≡ n'.current_term =
        omega (arith, later.term_le) in
      let kept = later.vote_kept level (λ z. real (sym e3 ∙ z)) ∙ e3 in
      f5 (omega arith) (λ z. real (sym kept ∙ z)) ∙ kept
