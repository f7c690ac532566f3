-- ===== src/Kv/Menu/Words.antt =====
-- What the menus make of their input.
use sharded_raft_key_value_s.Prelude.{
  ◌≡◌, refl, ap, ◌∙◌, List, [], ◌∷◌, String, string_eq, ◌=?◌, arith, length, All, if◌then◌else◌,
}
use sharded_raft_key_value_s.Raft.Types.{Link, connect, disconnect}
use sharded_raft_key_value_s.Raft.Node.{Raft}
use sharded_raft_key_value_s.Raft.Handler.{set_network}
use sharded_raft_key_value_s.Kv.Types.{Op}
use sharded_raft_key_value_s.Kv.Menu.{
  scan, Request, put, append, get, incorrect, read_request, read_requests, command_of, obey,
  user_interface,
}

-- a request that the menu offers
abbrev pub IsOffered : Request → Type 0
IsOffered incorrect = ⊥
IsOffered _ = Unit

-- the words that a user types for it
abbrev pub words_of : Request → List String → List String
words_of (put key value) rest = "3" ∷ key ∷ value ∷ rest
words_of (append key value) rest = "1" ∷ key ∷ value ∷ rest
words_of (get key) rest = "2" ∷ key ∷ rest
words_of incorrect rest = rest

abbrev pub all_words : List Request → List String → List String
all_words [] rest = rest
all_words (r ∷ rs) rest = words_of r (all_words rs rest)

read_request-words_of :
    (r : Request) (rest : List String) → IsOffered r → read_request (words_of r rest) ≡ (r, rest)
unfolding read_request scan
read_request-words_of (put key value) rest h = refl
read_request-words_of (append key value) rest h = refl
read_request-words_of (get key) rest h = refl
read_request-words_of incorrect rest h = elim h [ ]

-- The words that a user types for any requests of the client's menu are read as these requests,
-- in their order, and no word more.
pub read_requests-all_words :
    (rs : List Request) (rest : List String)
    → All IsOffered rs
    → read_requests (length rs) (all_words rs rest) ≡ (rs, rest)
unfolding read_requests
read_requests-all_words [] rest h = refl
read_requests-all_words (r ∷ rs) rest (h, hs) =
    rw (read_request-words_of r (all_words rs rest) h, read_requests-all_words rs rest hs) refl

-- the last of the words that names the network decides
abbrev pub last_link : Link → List String → Link
last_link link [] = link
last_link link (word ∷ words) =
    last_link (if word =? "b" then connect else if word =? "c" then disconnect else link) words

obey-network :
    (word : String) (rf : Raft Op)
    → obey (command_of word) rf ≡ record rf {
      network = if word =? "b" then connect else if word =? "c" then disconnect else rf.network;
    }
unfolding obey command_of set_network
obey-network word rf = ground arith

-- A server whose user types some words is connected exactly if the last b or c among them is a b,
-- or there is none and it was; nothing else of its peer changes.
pub user_interface-last_link :
    (words : List String) (rf : Raft Op)
    → user_interface (length words) words rf ≡ record rf { network = last_link rf.network words }
unfolding user_interface scan
user_interface-last_link [] rf = refl
user_interface-last_link (word ∷ words) rf =
    ap (user_interface (length words) words) (obey-network word rf)
    ∙ user_interface-last_link words (record rf {
      network = if word =? "b" then connect else if word =? "c" then disconnect else rf.network;
    })
