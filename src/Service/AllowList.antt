-- ===== src/Service/AllowList.antt =====
-- examples/node/allowlist.go: the node-ids that may connect as children. Its mutex makes each method
-- one step.
pub mod Approval
use multi_region.Prelude.{
  Bool, true, false, Option, none, some, List, [], ◌∷◌, ◌++◌, Bytes, str, beq, if◌then◌else◌, Map,
  lookup, insert, delete, keys,
}
use multi_region.Server.{Context, AuthInfo, other_info, tls_info}

pub record ChildAllowList : Type 0 where
  pub allowed : Map Bool

pub add : Bytes → ChildAllowList → ChildAllowList
add node_id l = record l { allowed = insert node_id true l.allowed }

add_all : List Bytes → ChildAllowList → ChildAllowList
add_all [] l = l
add_all (id ∷ ids) l = add_all ids (add id l)

pub new_child_allow_list : List Bytes → ChildAllowList
unfolding add_all
new_child_allow_list initial = add_all initial (record { allowed = [] })

pub remove : Bytes → ChildAllowList → ChildAllowList
remove node_id l = record l { allowed = delete node_id l.allowed }

pub list : ChildAllowList → List Bytes
list l = keys l.allowed

-- A missing key reads as `false`.
pub contains : ChildAllowList → Bytes → Bool
contains l node_id = elim (lookup node_id l.allowed) [ none ↦ false | some b ↦ b ]

pub data Refusal : Type 0 where
  no_node_id : Refusal
  not_allowed : Bytes → Refusal
  no_peer_info : Refusal
  no_certificate : Refusal
  other_name : Bytes → Bytes → Refusal

-- The CommonName of the first certificate has to be the node-id.
check_names : Bytes → List Bytes → Option Refusal
check_names node_id [] = some no_certificate
check_names node_id (cn ∷ cns) = if beq cn node_id then none else some (other_name node_id cn)

check_info : Bytes → AuthInfo → Option Refusal
unfolding check_names
check_info node_id other_info = some no_certificate
check_info node_id (tls_info names) = check_names node_id names

check_peer : Bytes → Context → Option Refusal
unfolding check_info
check_peer node_id ctx = elim ctx.peer [
  | none ↦ some no_peer_info
  | some info ↦ check_info node_id info
]

check_known : Bytes → Option Refusal → Bool → Option Refusal
check_known node_id rest true = rest
check_known node_id rest false = some (not_allowed node_id)

pub authorize : ChildAllowList → Context → Bytes → Option Refusal
unfolding check_known check_peer
authorize l ctx [] = some no_node_id
authorize l ctx (b ∷ bs) = check_known (b ∷ bs) (check_peer (b ∷ bs) ctx) (contains l (b ∷ bs))

-- The text of the error; `quote` is what the verb `%q` of package fmt makes of a string.
reason : (Bytes → Bytes) → Refusal → Bytes
reason quote no_node_id = str "child did not send a node-id"
reason quote (not_allowed id) = str "node-id " ++ quote id ++ str " is not in the allowed list"
reason quote no_peer_info = str "no peer info on connection"
reason quote no_certificate = str "no client certificate presented"
reason quote (other_name id cn) =
    str "claimed node-id " ++ quote id ++ str " does not match certificate CommonName " ++ quote cn

-- The hook that `main` gives to WithAuthorizeChild.
pub authorize_hook : (Bytes → Bytes) → ChildAllowList → Context → Bytes → Option Bytes
unfolding reason
authorize_hook quote l ctx node_id = elim (authorize l ctx node_id) [
  | none ↦ none
  | some r ↦ some (reason quote r)
]
