-- ===== src/Raft/Types.antt =====
-- src/raft/rpc.go: the constants and messages of the Raft layer. `C` is the dynamic type of the
-- `interface{}` commands; a nil command is `none`. `int` fields are integers.
use sharded_raft_key_value_s.Prelude.{Bool, Option, none, List}
use sharded_raft_key_value_s.Prelude.Int.{ℤ, pos}

-- `Leader`, `Cand`, `Follwer`
pub data State : Type 0 where
  leader cand follwer : State

-- `DidNotWin`, `Win`
pub data Election : Type 0 where
  did_not_win win : Election

-- `Connect`, `Disconnect`
pub data Link : Type 0 where
  connect disconnect : Link

-- `Append`, `CommitAndHeartBeat`, `HeartBeat`
pub data Job : Type 0 where
  append commit_and_heart_beat heart_beat : Job

module _ (C : Type 0) where
  pub record ApplyMsg : Type 0 where
    pub command : Option C
    pub command_valid : Bool
    pub command_index : ℤ

  pub record Entry : Type 0 where
    pub index : ℤ
    pub command : Option C
    pub term : ℤ
    pub id : ℤ

  pub record AppendEntriesArgs : Type 0 where
    pub job : Job
    pub term : ℤ
    pub leader_id : ℤ
    pub entries : List Entry
    pub prev_log_index : ℤ
    pub prev_log_term : ℤ
    pub leader_commit : ℤ

pub record AppendEntriesReply : Type 0 where
  pub last_index : ℤ
  pub term : ℤ
  pub success : Bool

pub record RequestVoteArgs : Type 0 where
  pub peer_id : ℤ
  pub term : ℤ
  pub last_log_index : ℤ
  pub last_log_term : ℤ

pub record RequestVoteReply : Type 0 where
  pub term : ℤ
  pub vote_granted : Bool
  pub state : State

-- `Entry{}`
abbrev pub zero_entry : {C : Type 0} → Entry C
zero_entry = record { index = pos 0; command = none; term = pos 0; id = pos 0 }
