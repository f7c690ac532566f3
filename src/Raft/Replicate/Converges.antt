-- ===== src/Raft/Replicate/Converges.antt =====
-- `StartOnePeerAppend` (src/raft/raft.go) against a peer that answers with `HandleAppendEntries`
-- (src/raft/handler.go): the two logs end up equal, and the loop ends.
use sharded_raft_key_value_s.Prelude.{
  ℕ, zero, suc, ◌+◌, ◌-◌, ◌≤◌, ◌<◌, ◌≡◌, ◌≢◌, refl, sym, ap, ◌∙◌, inl, inr, nat_eq, Bool, true,
  false, not, ◌&&◌, Option, some, none, Outcome, ok, arith, length, Option-cases, if◌then◌else◌,
}
use sharded_raft_key_value_s.Prelude.Int.{
  pos, minus_one, ◌-ℤ◌, eqb_ℤ, eqb_ℤ_eq, eqb_ℤ_ne, dec_eq, ◌≤ℤ◌,
}
use sharded_raft_key_value_s.Prelude.Dict.{Dict, =?_refl, get_or, insert, get_or-insert}
use sharded_raft_key_value_s.Raft.Types.{Entry, AppendEntriesArgs, AppendEntriesReply}
use sharded_raft_key_value_s.Raft.Codec.{Codec}
use sharded_raft_key_value_s.Raft.Node.{Raft, persist}
use sharded_raft_key_value_s.Raft.Handler.{set_last_term}
use sharded_raft_key_value_s.Raft.Handler.Matching.{entry_at_le, lt_of_entry_at-none}
use sharded_raft_key_value_s.Raft.Leader.{is_leader_state}
use sharded_raft_key_value_s.Raft.Replicate.{
  may_send, append_loop, append_success, append_retry, react, start_one_peer_append, undisturbed,
}
use sharded_raft_key_value_s.Raft.Replicate.Request.{
  request_from, append_args-request_from, append_retry-request_from,
}
use sharded_raft_key_value_s.Raft.Indexed.{IsIndexed, entry_at, term_of, term_at}
use sharded_raft_key_value_s.Raft.Invariant.{IsValid}
use sharded_raft_key_value_s.Raft.Invariant.Replicating.{append_success-Kept}
use sharded_raft_key_value_s.Raft.Replicate.Delivery.{
  deliver, outcome, deliver-outcome, outcome-IsValid,
}
use sharded_raft_key_value_s.Raft.Replicate.Matches.{Matching, Matching-take, take-drop}

module _ {C : Type 0} ⦃codec : Codec C⦄ where
  -- the tests of the loop, but for the peer's answer
  abbrev pub leads : ℕ → Raft C → Bool
  leads server rf = is_leader_state rf.state && not rf.dead && may_send server rf

  -- The leader once the peer has taken the entries from some `j` on; what the loop changes before
  -- is only which peers it holds for alive.
  abbrev pub Acknowledged : ℕ → Raft C → Raft C → Type 0
  Acknowledged server rf rf' =
      (j : ℕ) × (p : Dict ℕ Bool) × (j ≤ length rf.log)
      × (append_success server (request_from j rf) (record rf { peer_alive = p }) ≡ ok rf')

  -- the loop succeeds, and leaves the peer with the leader's log
  abbrev pub Converged : ℕ → ℕ → ℕ → Raft C → Raft C → Type 0
  Converged n server k rf w =
      (rf' : Raft C) × (w' : Raft C) × (append_loop undisturbed deliver n server (request_from k rf)
          rf w
        ≡ ok (some true, rf', w'))
      × IsValid w'
      × (w'.log ≡ set_last_term rf.term rf.log)
      × Acknowledged server rf rf'

  -- the leader once the peer has answered
  abbrev heard : ℕ → Raft C → Raft C
  heard server rf = record rf { peer_alive = insert server true rf.peer_alive }

  heard-IsValid : (server : ℕ) (rf : Raft C) → IsValid rf → IsValid (heard server rf)
  heard-IsValid server rf v = record {
    indexed = v.indexed;
    bounded = v.bounded;
    numbered = v.numbered;
    committed = v.committed;
    applied = v.applied;
    leads = v.leads;
  }

  heard-leads :
      (server : ℕ) (rf : Raft C) → leads server rf ≡ true → leads server (heard server rf) ≡ true
  unfolding may_send
  heard-leads server rf h =
      ground (arith, get_or-insert server server true false rf.peer_alive, =?_refl server)

  -- an answer that is no success leads to a request from entry `j` on
  resent :
      (server k j : ℕ) (reply : AppendEntriesReply) (rf w : Raft C)
      (resend : AppendEntriesArgs C → Raft C → Raft C → Outcome (Option Bool × Raft C × Raft C))
      → IsIndexed 0 rf.log
      → j ≤ length rf.log
      → reply.success ≡ false
      → (if not (eqb_ℤ reply.last_index minus_one) then reply.last_index else pos k -ℤ pos 1)
        ≡ pos j
      → react server (request_from k rf) rf w resend (some reply)
        ≡ resend (request_from j rf) (heard server rf) w
  unfolding react append_retry insert
  resent server k j reply rf w resend i le failed next =
      rw (failed, append_retry-request_from server k j reply rf i le next) refl

  module _ (server k : ℕ) (rf w : Raft C) (v : IsValid rf) (vw : IsValid w) (le : w.term ≤ℤ rf.term)
      (lead : leads server rf ≡ true) (m : Matching rf.log w.log) (lk : k ≤ length rf.log) where
    abbrev after : Option (Entry C) → Raft C
    after o = persist (outcome rf w k v vw le o).1

    round :
        (n : ℕ) (o : Option (Entry C))
        → entry_at k w.log ≡ o
        → append_loop undisturbed deliver (suc n) server (request_from k rf) rf w
          ≡ react server
              (request_from k rf)
              rf
              (after o)
              (append_loop undisturbed deliver n server)
              (some (outcome rf w k v vw le o).0)
    unfolding append_loop
    round n o read = rw (lead, deliver-outcome rf w k v vw le o read) refl

    -- the loop goes on from a shorter prefix, and the peer still matches
    abbrev Shorter : ℕ → Option (Entry C) → Type 0
    Shorter n o =
        (j : ℕ) × (j < k)
        × (append_loop undisturbed deliver (suc n) server (request_from k rf) rf w
            ≡ append_loop undisturbed deliver n server (request_from j rf) (heard server rf)
                (after o))
        × Matching rf.log (after o).log

    goes-beyond : (n : ℕ) → entry_at k w.log ≡ none → Shorter n none
    unfolding persist
    goes-beyond n read =
        let short = lt_of_entry_at-none k w.log read in
        (
          length w.log,
          short,
          round n none read
              ∙ resent server k (length w.log) (outcome rf w k v vw le none).0 rf (after none)
                  (append_loop undisturbed deliver n server) v.indexed (omega arith) refl
                  (ground arith),
          m,
        )

    module _ (e : Entry C) (read : entry_at k w.log ≡ some e) where
      goes-back : (n : ℕ) → e.term ≢ term_at k rf.log → Shorter n (some e)
      unfolding persist
      goes-back n ne =
          let nz : k ≢ 0 = λ z. ne (
            ap term_of (sym read)
            ∙ ap (λ i. term_at i w.log) z
            ∙ sym (ap (λ i. term_at i rf.log) z)) in
          let test = eqb_ℤ_ne e.term (term_at k rf.log) ne in
          (
            k - 1,
            omega arith,
            round n (some e) read
                ∙ resent server k (k - 1) (outcome rf w k v vw le (some e)).0 rf (after (some e))
                    (append_loop undisturbed deliver n server) v.indexed (omega arith)
                    (rw test refl) (rw test (ground arith)),
            rw test (Matching-take (k - 1) rf.log w.log m),
          )

      succeeds : (n : ℕ) → e.term ≡ term_at k rf.log → Converged (suc n) server k rf w
      unfolding persist react
      succeeds n eq =
          let test = eqb_ℤ_eq e.term (term_at k rf.log) eq in
          let (rf', runs, valid, adv, disk) = append_success-Kept server (request_from k rf) rf v in
          let here : term_at k rf.log ≡ term_at k w.log = sym eq ∙ ap term_of (sym read) in
          let same = m k lk (entry_at_le k w.log e read) here in
          (
            rf',
            after (some e),
            round n (some e) read ∙ rw (test, runs) refl,
            (outcome-IsValid rf w k v vw le (some e) read).0,
            rw (test, ← same, take-drop k rf.log) refl,
            (k, rf.peer_alive, lk, runs),
          )

  converge :
      (server n k : ℕ) (rf w : Raft C)
      → IsValid rf
      → IsValid w
      → w.term ≤ℤ rf.term
      → leads server rf ≡ true
      → Matching rf.log w.log
      → k ≤ length rf.log
      → k < n
      → Converged n server k rf w
  converge server zero k rf w v vw le lead m lk lt = absurd (omega arith)
  converge server (suc n) k rf w v vw le lead m lk lt =
      let again : (o : Option (Entry C))
          → entry_at k w.log ≡ o
          → Shorter server k rf w v vw le lead m lk n o
          → Converged (suc n) server k rf w =
        λ o read s.
          let (j, shorter, runs, m') = s in
          let (v', t') = outcome-IsValid rf w k v vw le o read in
          let (rf', w', runs', valid, equal, acknowledged) =
            converge server n j (heard server rf) _ (heard-IsValid server rf v) v'
              (rw t' (omega arith)) (heard-leads server rf lead) m' (omega arith) (omega arith) in
          (rf', w', runs ∙ runs', valid, equal, acknowledged) in
      elim (Option-cases (entry_at k w.log)) [
        | inl read ↦ again none read (goes-beyond server k rf w v vw le lead m lk n read)
        | inr (e, read) ↦ elim (dec_eq e.term (term_at k rf.log)) [
          | yes eq ↦ succeeds server k rf w v vw le lead m lk e read n eq
          | no ne ↦ again (some e) read (goes-back server k rf w v vw le lead m lk e read n ne)
        ]
      ]

  module _ (server k : ℕ) (rf w : Raft C) (v : IsValid rf) (vw : IsValid w) (le : w.term ≤ℤ rf.term)
      (lead : leads server rf ≡ true) (m : Matching rf.log w.log)
      (known : get_or server (pos 0) rf.match_index ≡ pos k) (lk : k ≤ length rf.log)
      (top : set_last_term rf.term rf.log ≡ rf.log) where
    pub start_one_peer_append-Acknowledged :
        (rf' : Raft C) × (w' : Raft C) × (start_one_peer_append undisturbed deliver
            (k + 1)
            server
            rf
            w
          ≡ ok (some true, rf', w'))
        × IsValid w'
        × (w'.log ≡ rf.log)
        × Acknowledged server rf rf'
    unfolding start_one_peer_append
    start_one_peer_append-Acknowledged =
        let (rf', w', runs, valid, equal, acknowledged) =
          converge server (k + 1) k rf w v vw le lead m lk (omega arith) in
        let state : is_leader_state rf.state ≡ true = ground arith in
        (
          rf',
          w',
          rw (state, append_args-request_from server k rf v.indexed known lk, runs) refl,
          valid,
          equal ∙ top,
          acknowledged,
        )

  -- A live leader of the peer's term or a later one, whose other goroutines do nothing meanwhile,
  -- that holds the peer for alive and knows that it has the first k entries, k not beyond its
  -- log: if both peers are well-formed, their logs match, the leader's last entry is of its own
  -- term (or there is none), and every request is answered, StartOnePeerAppend succeeds in at
  -- most k + 1 rounds, and the peer is then well-formed and has the leader's log.
  pub start_one_peer_append-Converged :
      (server k : ℕ) (rf w : Raft C)
      → IsValid rf
      → IsValid w
      → w.term ≤ℤ rf.term
      → leads server rf ≡ true
      → Matching rf.log w.log
      → get_or server (pos 0) rf.match_index ≡ pos k
      → k ≤ length rf.log
      → set_last_term rf.term rf.log ≡ rf.log
      → (rf' : Raft C) × (w' : Raft C) × (start_one_peer_append undisturbed deliver
            (k + 1)
            server
            rf
            w
          ≡ ok (some true, rf', w'))
        × IsValid w'
        × (w'.log ≡ rf.log)
  start_one_peer_append-Converged server k rf w v vw le lead m known lk top =
      let (rf', w', runs, valid, equal, _) =
        start_one_peer_append-Acknowledged server k rf w v vw le lead m known lk top in
      (rf', w', runs, valid, equal)
