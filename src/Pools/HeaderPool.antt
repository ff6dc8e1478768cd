-- ===== src/Pools/HeaderPool.antt =====
-- src/pools/header_entry.cpp and src/pools/header_pool.cpp: the forest of headers that are valid
-- and not in the candidate chain. The bimap is the list of its relations in the order of its right
-- view, a multiset of heights: a new relation goes behind those of the same key. Its left view is
-- the search by hash. BITCOIN_ASSERT is that of a release build; a dereference of left.end() is
-- the outcome `fault`. The mutex guards filter against writers and is not modelled.
pub mod Table
pub mod Writers
pub mod Branches
pub mod Links
pub mod Rounds
pub mod Pruning
pub mod Growth
use libbitcoin_blockchain.Prelude.{
  ℕ, zero, suc, ◌≡◌, Bool, true, false, not, ◌&&◌, ◌||◌, Option, none, some, List, [], ◌∷◌, ◌++◌,
  leb, ltb, ◌==◌, if◌then◌else◌, length, size_add, size_sub,
}
use libbitcoin_blockchain.System.{Header, Inventory, max_size_t}
use libbitcoin_blockchain.Pools.HeaderBranch
use libbitcoin_blockchain.Pools.HeaderBranch.{HeaderBranch}

pub record HeaderEntry : Type 0 where
  pub height : ℕ
  pub hash : ℕ
  pub header : Option Header
  pub children : List ℕ

unfoldable pub make_entry : Header → ℕ → HeaderEntry
make_entry header height = record {
  height = height;
  hash = header.hash;
  header = some header;
  children = [];
}

-- header_entry(hash)
unfoldable pub search_key : ℕ → HeaderEntry
search_key hash = record { height = 0; hash = hash; header = none; children = [] }

-- operator==, the identity of the left view
unfoldable pub same_entry : HeaderEntry → HeaderEntry → Bool
same_entry a b = a.hash == b.hash

unfoldable pub add_child_hash : HeaderEntry → Header → HeaderEntry
add_child_hash e child = record e { children = e.children ++ child.hash ∷ [] }

-- A relation of the bimap: the entry and its key in the right view.
pub record Node : Type 0 where
  pub entry : HeaderEntry
  pub key : ℕ

abbrev pub Nodes : Type 0
Nodes = List Node

pub record HeaderPool : Type 0 where
  pub maximum_depth : ℕ
  pub headers : Nodes

-- `reorganization_limit` of the settings, 0 for no limit
unfoldable pub make : ℕ → HeaderPool
make reorganization_limit = record {
  maximum_depth = if reorganization_limit == 0 then max_size_t else reorganization_limit;
  headers = [];
}

unfoldable pub size : HeaderPool → ℕ
size p = length p.headers

-- left.find(header_entry{ hash })
unfoldable pub find : ℕ → Nodes → Option Node
unfolding same_entry search_key
find hash [] = none
find hash (n ∷ rest) = if same_entry n.entry (search_key hash) then some n else find hash rest

abbrev pub is_found : Option Node → Bool
is_found none = false
is_found (some n) = true

unfoldable pub exists_hash : HeaderPool → ℕ → Bool
unfolding find
exists_hash p hash = is_found (find hash p.headers)

unfoldable pub exists : HeaderPool → Header → Bool
unfolding exists_hash
exists p header = exists_hash p header.hash

-- left.erase(it), for the relation that `find` gave
unfoldable pub erase : ℕ → Nodes → Nodes
unfolding same_entry search_key
erase hash [] = []
erase hash (n ∷ rest) = if same_entry n.entry (search_key hash) then rest else n ∷ erase hash rest

-- Behind the relations whose key is not greater.
unfoldable pub place : Node → Nodes → Nodes
place new [] = new ∷ []
place new (n ∷ rest) = if leb n.key new.key then n ∷ place new rest else new ∷ n ∷ rest

-- headers_.insert, which refuses a hash that is there
unfoldable pub insert : Node → Nodes → Nodes
unfolding place find
insert new nodes = if is_found (find new.entry.hash nodes) then nodes else place new nodes

-- it->first.add_child(header), for the relation that `find` gave
unfoldable pub adopt : ℕ → Header → Nodes → Nodes
unfolding same_entry search_key add_child_hash
adopt hash child [] = []
adopt hash child (n ∷ rest) =
    if same_entry n.entry (search_key hash)
    then record n { entry = add_child_hash n.entry child } ∷ rest
    else n ∷ adopt hash child rest

unfoldable pub add : HeaderPool → Header → ℕ → HeaderPool
unfolding find adopt insert make_entry
add p valid_header height =
    let entry = make_entry valid_header height in
    let parent = valid_header.previous_block_hash in
    if is_found (find parent p.headers)
    then record p {
      headers = insert (record { entry = entry; key = 0 }) (adopt parent valid_header p.headers);
    }
    else record p { headers = insert (record { entry = entry; key = height }) p.headers }

unfoldable pub add_all : HeaderPool → List Header → ℕ → HeaderPool
add_all p [] height = p
add_all p (header ∷ rest) height = add_all (add p header height) rest (size_add height 1)

-- The first loop of remove: the relations that stay, and the children of those that went.
unfoldable pub erase_accepted : List Header → Nodes → List ℕ → Nodes × List ℕ
unfolding find erase
erase_accepted [] nodes child_hashes = (nodes, child_hashes)
erase_accepted (header ∷ rest) nodes child_hashes = elim (find header.hash nodes) [
  | none ↦ erase_accepted rest nodes child_hashes
  | some n ↦ erase_accepted rest (erase header.hash nodes) (child_hashes ++ n.entry.children)
]

-- The erase and insert that give an entry its own height as key.
unfoldable pub replant : Node → Nodes → Nodes
unfolding erase insert
replant n nodes =
    insert (record { entry = n.entry; key = n.entry.height }) (erase n.entry.hash nodes)

-- The second loop of remove.
unfoldable pub root_children : List ℕ → Nodes → Nodes
unfolding find replant
root_children [] nodes = nodes
root_children (child ∷ rest) nodes = elim (find child nodes) [
  | none ↦ root_children rest nodes
  | some n ↦ root_children rest (replant n nodes)
]

unfoldable pub remove : HeaderPool → List Header → HeaderPool
unfolding erase_accepted root_children
remove p accepted_headers =
    let (nodes, child_hashes) = erase_accepted accepted_headers p.headers [] in
    record p { headers = root_children child_hashes nodes }

-- What prune ends in; `out_of_fuel` is the model's own.
pub data Pruned : Type 0 where
  pruned : Nodes → Pruned
  fault out_of_fuel : Pruned

-- One call of prune(hashes, minimum_height) up to its recursion: the loop over the hashes.
unfoldable pub prune_round : ℕ → List ℕ → Nodes → List ℕ → Option (Nodes × List ℕ)
unfolding find erase replant
prune_round minimum_height [] nodes child_hashes = some (nodes, child_hashes)
prune_round minimum_height (hash ∷ rest) nodes child_hashes = elim (find hash nodes) [
  | none ↦ none
  | some n ↦ elim (not (n.key == 0) || ltb n.entry.height minimum_height) [
    | true ↦ prune_round minimum_height rest (erase hash nodes) (child_hashes ++ n.entry.children)
    | false ↦ prune_round minimum_height rest (replant n nodes) child_hashes
  ]
]

-- prune(hashes, minimum_height), with fuel for its recursion on the children.
unfoldable pub prune_from : ℕ → ℕ → List ℕ → Nodes → Pruned
unfolding prune_round
prune_from zero minimum_height hashes nodes = out_of_fuel
prune_from (suc fuel) minimum_height hashes nodes =
    elim (prune_round minimum_height hashes nodes []) [
      | none ↦ fault
      | some (nodes', []) ↦ pruned nodes'
      | some (nodes', child ∷ children) ↦ prune_from fuel minimum_height (child ∷ children) nodes'
    ]

-- The scan of the right view for roots below the minimum height.
unfoldable pub expired_roots : ℕ → Nodes → List ℕ
expired_roots minimum_height [] = []
expired_roots minimum_height (n ∷ rest) =
    let others = expired_roots minimum_height rest in
    if not (n.key == 0) && ltb n.key minimum_height then n.entry.hash ∷ others else others

-- prune(top_height); `floor_subtract` is that of bc::system.
unfoldable pub prune : (ℕ → ℕ → ℕ) → ℕ → HeaderPool → ℕ → Pruned
unfolding expired_roots prune_from
prune floor_subtract fuel p top_height =
    let minimum_height = floor_subtract top_height p.maximum_depth in
    elim (expired_roots minimum_height p.headers) [
      | [] ↦ pruned p.headers
      | hash ∷ hashes ↦ prune_from fuel minimum_height (hash ∷ hashes) p.headers
    ]

unfoldable pub filter : HeaderPool → List Inventory → List Inventory
unfolding exists_hash
filter p [] = []
filter p (i ∷ rest) =
    let others = filter p rest in
    if not i.is_block_type then i ∷ others else if exists_hash p i.hash then others else i ∷ others

-- parent(header), null where it is not in the pool
abbrev entry_header : Option Node → Option Header
entry_header none = none
entry_header (some n) = n.entry.header

unfoldable pub parent : HeaderPool → Header → Option Header
unfolding find
parent p header = entry_header (find header.previous_block_hash p.headers)

-- height(hash); `none` is the dereference of left.end()
abbrev entry_height : Option Node → Option ℕ
entry_height none = none
entry_height (some n) = some n.entry.height

unfoldable pub height_of : HeaderPool → ℕ → Option ℕ
unfolding find
height_of p hash = entry_height (find hash p.headers)

-- The loop of get_branch: the trace and its root. It ends where `parent` is null.
pub data Trace : Type 0 where
  traced : HeaderBranch → Header → Trace
  unfinished : Trace

unfoldable pub trace_from : HeaderPool → ℕ → HeaderBranch → Header → Trace
unfolding parent
trace_from p zero trace header = unfinished
trace_from p (suc fuel) trace header =
    let trace' = (HeaderBranch.push trace header).0 in
    elim (parent p header) [
      | none ↦ traced trace' header
      | some next ↦ trace_from p fuel trace' next
    ]

-- What get_branch ends in; `undefined` is the dereference in `height`, and `out_of_fuel` the
-- model's own.
pub data Branch : Type 0 where
  branch : HeaderBranch → Branch
  undefined out_of_fuel : Branch

abbrev set_root : HeaderBranch → Option ℕ → Branch
set_root trace none = Branch.undefined
set_root trace (some height) = branch (HeaderBranch.set_fork_height trace (size_sub height 1))

abbrev ground_branch : HeaderPool → Trace → Branch
ground_branch p (traced trace root) =
    if ltb 1 (HeaderBranch.size trace) then set_root trace (height_of p root.hash) else branch trace
ground_branch p unfinished = Branch.out_of_fuel

unfoldable pub get_branch : HeaderPool → ℕ → Header → Branch
unfolding exists trace_from height_of HeaderBranch.size HeaderBranch.set_fork_height
    HeaderBranch.make
get_branch p fuel header =
    let grounded = ground_branch p (trace_from p fuel (HeaderBranch.make max_size_t) header) in
    if exists p header then branch (HeaderBranch.make max_size_t) else grounded
