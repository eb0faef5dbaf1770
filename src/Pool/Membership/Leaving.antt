-- ===== src/Pool/Membership/Leaving.antt =====
-- The two indexes when an account leaves.
use aistudio2api.Prelude.{
  ℕ, ◌≡◌, inl, inr, refl, sym, subst, ◌∙◌, true, false, ◌||◌, ltb, Bool-cases, Option-cases,
  ℕ_discrete, some, set, get_elem?, get_elem?-set_self, get_elem?-set_ne, Text, str_eq, str_eq_iff,
  trim_space, lookup, erase, lookup-erase, arith,
}
use aistudio2api.Pool.Types.{RuntimeState, Account, Pool, ok}
use aistudio2api.Pool.Leases.{notify, put}
use aistudio2api.Pool.Resources.{keys, drop_owned, owned_by}
use aistudio2api.Pool.Resources.Index.{
  is_key, drop_owned_other, drop_owned_gone, lookup-key, owned-lookup,
}
use aistudio2api.Pool.Membership.{begin_remove, cancel_remove, end_remove}
use aistudio2api.Pool.Membership.Indexes.{IsIndexed}

-- An account that is replaced by one with its id and its runtime state.
put-IsIndexed :
    (p : Pool) (address : ℕ) (a b : Account)
    → get_elem? p.store address ≡ some a
    → b.id ≡ a.id
    → b.runtime ≡ a.runtime
    → IsIndexed p
    → IsIndexed (notify (put p address b))
put-IsIndexed p address a b e i r v = record {
  named =
      λ id j h. let (c, f, n) = v.named id j h in let (d, g, m, s) = forth j c f in (d, g, m ∙ n);
  listed = λ k id h.
      let (c, (j, at, f), has) = v.listed k id h in
      let (d, g, m, s) = forth j c f in (d, (j, at, g), rw s has);
  held = λ k id d x has.
      let (j, at, g) = x in
      let (c, f, s) = back j d g in
      v.held k id c (j, at, f)
        (subst (λ (t : RuntimeState). is_key k (keys t.resources) ≡ true) s has);
}
  where
    forth :
        (j : ℕ) (c : Account)
        → get_elem? p.store j ≡ some c
        → (d : Account) × (get_elem? (set p.store address b) j ≡ some d)
          × (d.id ≡ c.id)
          × (d.runtime ≡ c.runtime)
    forth j c f = elim (ℕ_discrete address j) [
      | yes hit ↦
          let same : c ≡ a = ground (arith) in
          (b, rw (← hit) (get_elem?-set_self p.store address b a e), rw same i, rw same r)
      | no miss ↦ (c, get_elem?-set_ne p.store address j b miss ∙ f, refl, refl)
    ]

    back :
        (j : ℕ) (d : Account)
        → get_elem? (set p.store address b) j ≡ some d
        → (c : Account) × (get_elem? p.store j ≡ some c) × (d.runtime ≡ c.runtime)
    back j d g = elim (ℕ_discrete address j) [
      | yes hit ↦
          let same : d ≡ b = ground (arith, get_elem?-set_self p.store address b a e) in
          (a, rw (← hit) e, rw same r)
      | no miss ↦ (d, sym (get_elem?-set_ne p.store address j b miss) ∙ g, refl)
    ]

pub begin_remove-IsIndexed :
    (p : Pool) (id : Text) (q : Pool) (address : ℕ)
    → begin_remove p id ≡ ok (q, address)
    → IsIndexed p
    → IsIndexed q
unfolding begin_remove
begin_remove-IsIndexed p id q address h v = elim (Option-cases (lookup (trim_space id) p.by_id)) [
  | inl gone ↦ absurd (ground (arith, h, gone))
  | inr (i, at) ↦ elim (Option-cases (get_elem? p.store i)) [
    | inl gone ↦ absurd (ground (arith, h, at, gone))
    | inr (a, e) ↦
        elim (Bool-cases (a.exclusive || (ltb 0 a.exclusive_waiters || ltb 0 a.active))) [
          | inl busy ↦ absurd (ground (arith, h, at, e, busy))
          | inr idle ↦
              let same : notify (put p i (record a { exclusive = true })) ≡ q =
                ground (arith, h, at, e, idle) in
              subst IsIndexed same
                (put-IsIndexed p i a (record a { exclusive = true }) e refl refl v)
        ]
  ]
]

pub cancel_remove-IsIndexed :
    (p : Pool) (address : ℕ) → IsIndexed p → IsIndexed (cancel_remove p address)
unfolding cancel_remove
cancel_remove-IsIndexed p address v = elim (Option-cases (get_elem? p.store address)) [
  | inl gone ↦ rw (gone, cancel_remove) v
  | inr (a, e) ↦
      rw (e, cancel_remove)
        (put-IsIndexed p address a (record a { exclusive = false }) e refl refl v)
]

pub end_remove-IsIndexed : (p : Pool) (id : Text) → IsIndexed p → IsIndexed (end_remove p id)
unfolding end_remove
end_remove-IsIndexed p account_id v = record {
  named = λ id address h.
      v.named id address (ground (arith, lookup-erase (trim_space account_id) id p.by_id));
  listed = λ k id h.
      let (other, at) = kept k id h in
      let (a, (address, e, f), has) = v.listed k id at in
      (a, (address, ground (arith, lookup-erase gone id p.by_id, e, other), f), has);
  held = λ k id a c has.
      let (address, e, f) = c in
      let (other, there) = left id address e in
      let indexed = v.held k id a (address, there, f) has in
      drop_owned_other gone k p.resources (keys p.resources) p.resources
        (ground (arith, indexed, str_eq_iff id gone, str_eq_iff gone id))
      ∙ indexed;
}
  where
    gone : Text
    gone = trim_space account_id

    left :
        (id : Text) (address : ℕ)
        → lookup id (erase gone p.by_id) ≡ some address
        → (str_eq gone id ≡ false) × (lookup id p.by_id ≡ some address)
    left id address h = (
      ground (arith, lookup-erase gone id p.by_id, h),
      ground (arith, lookup-erase gone id p.by_id, h),
    )

    kept :
        (k id : Text)
        → lookup k (drop_owned gone p.resources (keys p.resources) p.resources) ≡ some id
        → (str_eq gone id ≡ false) × (lookup k p.resources ≡ some id)
    kept k id h = elim (Bool-cases (owned_by gone p.resources k)) [
      | inl mine ↦ absurd (
          ground (
            arith,
            h,
            drop_owned_gone gone k p.resources (keys p.resources) p.resources mine
                (inr (lookup-key k gone p.resources (owned-lookup gone p.resources k mine))),
          ))
      | inr alien ↦
          let at : lookup k p.resources ≡ some id =
            sym (drop_owned_other gone k p.resources (keys p.resources) p.resources alien) ∙ h in
          (ground (arith, alien, at, str_eq_iff id gone, str_eq_iff gone id), at)
    ]
