-- ===== src/Pool/Membership/Tests.antt =====
-- The indexes of a pool that two accounts join and one leaves.
use aistudio2api.Prelude.{ℕ, refl, none, some, List, ◌∷◌, [], Text, codes, lookup, ◌≡◌, false}
use aistudio2api.Pool.Types.{RuntimeState, Pool, ok}
use aistudio2api.Pool.Samples.{idle, two_accounts, blank_runtime}
use aistudio2api.Pool.Membership.{joined, add, end_remove, with_file}
use aistudio2api.Pool.Membership.Indexes.{IsIndexed}
use aistudio2api.Pool.Membership.Steps.{none_yet, then_one, added, ended, MemberSteps-IsIndexed}

abbrev empty_pool : Pool
empty_pool = record two_accounts { store = []; accounts = []; by_id = []; resources = [] }

empty-IsIndexed : IsIndexed empty_pool
unfolding lookup
empty-IsIndexed = record {
  named = λ id address h. absurd (cc h);
  listed = λ k id h. absurd (cc h);
  held = λ k id a c has. absurd (cc c.1);
}

abbrev state : RuntimeState
state = record blank_runtime {
  resources = (codes "v", record { kind = codes "video"; created_at = 1; video = none }) ∷ [];
}

abbrev with_a : Pool
with_a = joined empty_pool (with_file (idle (codes "a")) (some state))

adds_a : add empty_pool (idle (codes "a")) (ok (some state)) ≡ ok with_a
unfolding add aistudio2api.Prelude.trim_space aistudio2api.Prelude.lookup
adds_a = refl

abbrev with_both : Pool
with_both = joined with_a (idle (codes "b"))

adds_b : add with_a (idle (codes "b")) (ok none) ≡ ok with_both
unfolding add aistudio2api.Prelude.trim_space aistudio2api.Prelude.insert
    aistudio2api.Prelude.str_eq
adds_b = refl

MemberSteps-IsIndexed_example : IsIndexed (end_remove with_both (codes "a"))
MemberSteps-IsIndexed_example =
    MemberSteps-IsIndexed empty_pool (end_remove with_both (codes "a")) empty-IsIndexed (
      then_one
        (then_one (then_one none_yet (added (idle (codes "a")) (ok (some state)) adds_a))
          (added (idle (codes "b")) (ok none) adds_b))
        (ended (codes "a")))
