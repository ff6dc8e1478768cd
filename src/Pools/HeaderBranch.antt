-- ===== src/Pools/HeaderBranch.antt =====
-- src/pools/header_branch.cpp: a chain of headers from a fork point up to a candidate header.
-- The list holds no null pointers: `push` is only ever given a header. A read past the end of the
-- vector, undefined in the source, is `fault`; an exception of safe_add or safe_subtract is `none`
-- in `index_of` and `height_at`, and `thrown` in a getter.
pub mod Linked
pub mod Heights
use libbitcoin_blockchain.Prelude.{
  ℕ, ◌≡◌, refl, Bool, true, false, Option, none, some, List, [], ◌∷◌, leb, ltb, ◌==◌, if◌then◌else◌,
  length, get_elem?, size_add, work_add,
}
use libbitcoin_blockchain.System.{Header, SafeMath, null_hash}

pub record HeaderBranch : Type 0 where
  pub height : ℕ
  pub headers : List Header

-- A getter with an out parameter.
pub data Read {ℓ} (A : Type ℓ) : Type ℓ where
  found : A → Read A
  absent thrown fault : Read A

unfoldable pub make : ℕ → HeaderBranch
make height = record { height = height; headers = [] }

unfoldable pub set_fork_height : HeaderBranch → ℕ → HeaderBranch
set_fork_height b height = record b { height = height }

unfoldable pub empty : HeaderBranch → Bool
empty b = elim b.headers [ [] ↦ true | _ ∷ _ ↦ false ]

unfoldable pub size : HeaderBranch → ℕ
size b = length b.headers

-- `empty() || linked(header)`; the front is read only where there is one.
unfoldable pub accepts : List Header → Header → Bool
accepts [] header = true
accepts (front ∷ rest) header = front.previous_block_hash == header.hash

unfoldable pub push : HeaderBranch → Header → HeaderBranch × Bool
unfolding accepts
push b header =
    if accepts b.headers header
    then (record b { headers = header ∷ b.headers }, true)
    else (b, false)

-- The last but one element, or null.
unfoldable pub second_last : List Header → Option Header
second_last [] = none
second_last (x ∷ []) = none
second_last (x ∷ y ∷ []) = some x
second_last (x ∷ y ∷ z ∷ rest) = second_last (y ∷ z ∷ rest)

unfoldable pub top_parent : HeaderBranch → Option Header
unfolding second_last
top_parent b = second_last b.headers

unfoldable pub last : List Header → Option Header
last [] = none
last (x ∷ []) = some x
last (x ∷ y ∷ rest) = last (y ∷ rest)

unfoldable pub top : HeaderBranch → Option Header
unfolding last
top b = last b.headers

unfoldable pub fork_height : HeaderBranch → ℕ
fork_height b = b.height

unfoldable pub top_height : HeaderBranch → ℕ
unfolding fork_height size
top_height b = size_add (fork_height b) (size b)

unfoldable pub fork_hash : HeaderBranch → ℕ
fork_hash b = elim b.headers [ [] ↦ null_hash | front ∷ _ ↦ front.previous_block_hash ]

-- The checkpoint { fork_hash(), fork_height() }.
unfoldable pub fork_point : HeaderBranch → ℕ × ℕ
unfolding fork_hash fork_height
fork_point b = (fork_hash b, fork_height b)

-- The loop of work(), from the running total; `proof` is header::proof on a header's bits.
unfoldable pub work_from : (ℕ → ℕ) → ℕ → List Header → ℕ
work_from proof total [] = total
work_from proof total (header ∷ rest) = work_from proof (work_add total (proof header.bits)) rest

unfoldable pub work : (ℕ → ℕ) → HeaderBranch → ℕ
unfolding work_from
work proof b = work_from proof 0 b.headers

module _ (math : SafeMath) where
  abbrev then_safe : Option ℕ → (ℕ → Option ℕ) → Option ℕ
  then_safe none f = none
  then_safe (some a) f = f a

  unfoldable pub index_of : HeaderBranch → ℕ → Option ℕ
  index_of b height =
      then_safe (math.safe_subtract height b.height) (λ above. math.safe_subtract above 1)

  unfoldable pub height_at : HeaderBranch → ℕ → Option ℕ
  height_at b index = then_safe (math.safe_add index b.height) (λ above. math.safe_add above 1)

  abbrev read_field : (Header → ℕ) → Option Header → Read ℕ
  read_field field none = fault
  read_field field (some header) = found (field header)

  abbrev read_index : (Header → ℕ) → List Header → Option ℕ → Read ℕ
  read_index field headers none = thrown
  read_index field headers (some index) = read_field field (get_elem? headers index)

  unfoldable pub get_bits : HeaderBranch → ℕ → Read ℕ
  unfolding index_of
  get_bits b height =
      if leb height b.height then absent else read_index (λ h. h.bits) b.headers (index_of b height)

  unfoldable pub get_version : HeaderBranch → ℕ → Read ℕ
  unfolding index_of
  get_version b height =
      if leb height b.height
      then absent
      else read_index (λ h. h.version) b.headers (index_of b height)

  unfoldable pub get_timestamp : HeaderBranch → ℕ → Read ℕ
  unfolding index_of
  get_timestamp b height =
      if leb height b.height
      then absent
      else read_index (λ h. h.timestamp) b.headers (index_of b height)

  unfoldable pub get_block_hash : HeaderBranch → ℕ → Read ℕ
  unfolding index_of
  get_block_hash b height =
      if leb height b.height then absent else read_index (λ h. h.hash) b.headers (index_of b height)
