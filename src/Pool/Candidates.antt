-- ===== src/Pool/Candidates.antt =====
-- The order in which candidates are tried: `selectionIndicesLocked` and `OrderCandidates` of
-- accounts.go, `channelCandidatesLocked` of channel.go.
pub mod Order
use aistudio2api.Prelude.{
  ℕ, suc, ◌+◌, ◌≡◌, Bool, true, false, not, ◌&&◌, ◌||◌, if◌then◌else◌, ◌==◌, ltb, leb, Option, none,
  some, List, ◌∷◌, [], ◌++◌, any, keep, map, length, take, drop, find_index, get_elem?, Text, codes,
  str_eq, str_lt, is_empty, trim_space, lookup, lookup_or, sort_stable, rotate,
}
use aistudio2api.Pool.Types.{
  Channel, unset, channel_eq, Account, Selection, Pool, Error, no_eligible_account,
  resource_not_found, resource_bound, Result, ok, err,
}
use aistudio2api.Pool.Cooldown.{selection_access_scope}
use aistudio2api.Pool.Channels.{deref, selection_channels}

-- p.accounts[index].ID
abbrev pub pointer_id : Pool → Option (Option ℕ) → Text
pointer_id p none = codes ""
pointer_id p (some pointer) = elim (deref p pointer) [ none ↦ codes "" | some a ↦ a.id ]

unfoldable pub id_at : Pool → ℕ → Text
id_at p index = pointer_id p (get_elem? p.accounts index)

-- The set of the trimmed ids that are not empty.
abbrev allow : List Text → Text → Bool
allow ids id = any (λ given. not (is_empty (trim_space given)) && str_eq (trim_space given) id) ids

abbrev pub is_allowed : Option (List Text) → Text → Bool
is_allowed none id = true
is_allowed (some ids) id = allow ids id

-- The first index from `index` on whose account has the id.
index_of : Pool → Text → ℕ → List (Option ℕ) → Option ℕ
index_of p id index [] = none
index_of p id index (pointer ∷ pointers) =
    let rest = index_of p id (suc index) pointers in
    elim (deref p pointer) [ none ↦ rest | some a ↦ if str_eq a.id id then some index else rest ]

-- The indices from `index` on of the accounts that are allowed.
unfoldable pub allowed_indices : Pool → Option (List Text) → ℕ → List (Option ℕ) → List ℕ
allowed_indices p allowed index [] = []
allowed_indices p allowed index (pointer ∷ pointers) =
    let rest = allowed_indices p allowed (suc index) pointers in
    elim (deref p pointer) [
      | none ↦ rest
      | some a ↦ if is_allowed allowed a.id then index ∷ rest else rest
    ]

abbrev pub round_robin : Text
round_robin = codes "round-robin"

pinned_index : Pool → Selection → Text → Result (List ℕ)
pinned_index p s account_id = elim (index_of p account_id 0 p.accounts) [
  | none ↦ err no_eligible_account
  | some index ↦
      if is_allowed s.allowed_account_ids account_id
      then ok (index ∷ [])
      else err no_eligible_account
]

unfoldable pub sorted_indices : Pool → Selection → List ℕ
sorted_indices p s =
    sort_stable (λ left right. str_lt (id_at p left) (id_at p right))
      (allowed_indices p s.allowed_account_ids 0 p.accounts)

unfoldable pub free_indices : Pool → Selection → List ℕ
free_indices p s =
    let indices = sorted_indices p s in
    if str_eq p.routing_strategy round_robin
    then (let last = lookup_or (codes "") (selection_access_scope s) p.last_picked in
        rotate (find_index (λ index. str_lt last (id_at p index)) indices) indices)
    else indices

-- The account that the selection must use: the owner of its resource, or the one it names.
unfoldable pub pinned_account : Pool → Selection → Result Text
pinned_account p s =
    let account_id = trim_space s.account_id in
    if is_empty s.resource_id then ok account_id else (elim (lookup s.resource_id p.resources) [
      | none ↦ err resource_not_found
      | some owner ↦
          if not (is_empty account_id) && not (str_eq account_id owner)
          then err (resource_bound owner)
          else ok owner
    ])

unfoldable pub selection_indices : Pool → Selection → Result (List ℕ)
unfolding pinned_account pinned_index free_indices sorted_indices index_of allowed_indices
    sort_stable
selection_indices p s = elim (pinned_account p s) [
  | err e ↦ err e
  | ok account_id ↦
      if not (is_empty account_id) then pinned_index p s account_id else ok (free_indices p s)
]

unfoldable pub order_candidates : Pool → List Text → Text → List Text
order_candidates p [] scope = []
order_candidates p (id ∷ ids) scope = elim (selection_indices p only) [
  | err e ↦ []
  | ok indices ↦ map (id_at p) indices
]
  where
    only : Selection
    only = record {
      model_id = codes "";
      model_access_scope = scope;
      method = codes "";
      capability = codes "";
      account_id = codes "";
      resource_id = codes "";
      allowed_account_ids = some (id ∷ ids);
      playground_only = false;
      channel = unset;
    }

pub record Candidate : Type 0 where
  pub index : ℕ
  pub channel : Channel

-- slices.Index plus one, so that its -1 is 0.
rank : List Channel → Channel → ℕ
rank channels channel =
    let i = find_index (λ c. channel_eq c channel) channels in
    if ltb i (length channels) then suc i else 0

pairs : List Channel → List ℕ → List Candidate
pairs channels [] = []
pairs channels (index ∷ indices) =
    map (λ channel. record { index = index; channel = channel }) channels ++ pairs channels indices

candidate_less : Pool → List Channel → Candidate → Candidate → Bool
candidate_less p channels left right =
    if not (str_eq (id_at p left.index) (id_at p right.index))
    then str_lt (id_at p left.index) (id_at p right.index)
    else ltb (rank channels left.channel) (rank channels right.channel)

-- Whether a candidate stands behind the combination that was picked last.
after_last : Pool → List Channel → Text → Channel → Candidate → Bool
after_last p channels last_account last_channel c =
    if not (str_eq (id_at p c.index) last_account)
    then str_lt last_account (id_at p c.index)
    else not (channel_eq last_channel unset)
      && ltb (rank channels last_channel) (rank channels c.channel)

unfoldable pub channel_candidates : Pool → List ℕ → Selection → List Candidate
unfolding candidate_less after_last rank pairs sort_stable
channel_candidates p indices s =
    let channels = selection_channels p s in
    let candidates = sort_stable (candidate_less p channels) (pairs channels indices) in
    let key = selection_access_scope s in
    if not (str_eq p.routing_strategy round_robin)
      || (leb (length indices) 1 && leb (length channels) 1)
    then candidates
    else rotate
        (find_index
          (after_last p channels (lookup_or (codes "") key p.last_picked)
            (lookup_or unset key p.last_picked_channel))
          candidates)
        candidates
