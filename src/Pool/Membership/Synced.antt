-- ===== src/Pool/Membership/Synced.antt =====
-- The indexes after the sync of an account's runtime state.
use aistudio2api.Prelude.{
  ℕ, ◌≡◌, ◌≢◌, inl, inr, sym, ap, subst, ◌∙◌, Bool, true, false, Bool-cases, ℕ_discrete, some, List,
  set, get_elem?, get_elem?-set_self, get_elem?-set_ne, Text, str_eq, str_eq_iff, Assoc, lookup,
  arith,
}
use aistudio2api.Pool.Types.{RuntimeState, Account, Pool, ok}
use aistudio2api.Pool.Resources.{keys, claim, drop_owned, owned_by}
use aistudio2api.Pool.Resources.Index.{
  is_key, claim_other, claim_key, drop_owned_other, drop_owned_gone, lookup-key, owned-lookup,
  owned_some,
}
use aistudio2api.Pool.Resources.{sync_account_runtime}
use aistudio2api.Pool.Resources.Index.{foreign_owner-none, owned_claimed}
use aistudio2api.Pool.Resources.Slots.{renewed, IsSynced, sync-IsSynced}
use aistudio2api.Pool.Membership.Indexes.{IsIndexed}

synced-IsIndexed :
    (p : Pool) (address : ℕ) (a : Account) (r : RuntimeState) (q : Pool)
    → get_elem? p.store address ≡ some a
    → lookup a.id p.by_id ≡ some address
    → IsSynced p address a r q
    → IsIndexed p
    → IsIndexed q
synced-IsIndexed p address a r q e n (free, st, ids, res) v = record {
  named = λ id j h.
      let (c, f, m) = v.named id j (sym (ap (lookup id) ids) ∙ h) in
      elim (ℕ_discrete address j) [
        | yes hit ↦
            let same : c ≡ a = ground (arith, e, f, hit) in
            (
              renewed a r,
              rw (st, ← hit) (get_elem?-set_self p.store address (renewed a r) a e),
              rw (← same) m,
            )
        | no miss ↦ (c, rw st (get_elem?-set_ne p.store address j (renewed a r) miss ∙ f), m)
      ];
  listed = λ k id h.
      let there : lookup k after ≡ some id = sym (ap (lookup k) res) ∙ h in
      elim (Bool-cases (str_eq id a.id)) [
        | inl own ↦
            let same : id ≡ a.id = (str_eq_iff id a.id).0 own in
            (
              renewed a r,
              (
                address,
                rw (ids, same) n,
                rw st (get_elem?-set_self p.store address (renewed a r) a e),
              ),
              sym (owned_claimed a.id k p.resources (keys r.resources))
                  ∙ owned_some a.id after k (there ∙ ap some same),
            )
        | inr other ↦
            let (c, (j, at, f), has) = v.listed k id (unchanged k id other there) in
            let (d, g, m) = v.named id j at in
            let miss : address ≢ j =
              λ hit. ground (arith, e, f, g, m, hit, other, str_eq_iff id a.id) in
            (
              c,
              (j, rw ids at, rw st (get_elem?-set_ne p.store address j (renewed a r) miss ∙ f)),
              has,
            )
      ];
  held = λ k id d x has.
      let (j, at', g') = x in
      let at : lookup id p.by_id ≡ some j = sym (ap (lookup id) ids) ∙ at' in
      let g : get_elem? (set p.store address (renewed a r)) j ≡ some d =
        sym (ap (λ (s : List Account). get_elem? s j) st) ∙ g' in
      let (c, f, m) = v.named id j at in
      ap (lookup k) res ∙ elim (ℕ_discrete address j) [
        | yes hit ↦
            let own : d ≡ renewed a r =
              ground (arith, get_elem?-set_self p.store address (renewed a r) a e, g, hit) in
            let same : c ≡ a = ground (arith, e, f, hit) in
            claim_key a.id k (keys r.resources) _
              (subst (λ (t : Account). is_key k (keys t.runtime.resources) ≡ true) own has)
            ∙ ap some (rw (← same) m)
        | no miss ↦
            let there : get_elem? p.store j ≡ some d =
              sym (get_elem?-set_ne p.store address j (renewed a r) miss) ∙ g in
            let indexed = v.held k id d (j, at, there) has in
            let other : id ≢ a.id = λ same. miss (ground (arith, n, at, same)) in
            let not_own : owned_by a.id p.resources k ≡ false =
              ground (arith, indexed, other, str_eq_iff id a.id) in
            claim_other a.id k (keys r.resources) _
              (foreign_owner-none p.resources a.id k id (keys r.resources) free indexed other)
            ∙ drop_owned_other a.id k p.resources (keys p.resources) p.resources not_own
            ∙ indexed
      ];
}
  where
    after : Assoc Text
    after =
        claim a.id (keys r.resources) (drop_owned a.id p.resources (keys p.resources) p.resources)

    unchanged :
        (k id : Text)
        → str_eq id a.id ≡ false
        → lookup k after ≡ some id
        → lookup k p.resources ≡ some id
    unchanged k id other h = elim (Bool-cases (is_key k (keys r.resources))) [
      | inl mine ↦ absurd (
          ground (
            arith,
            h,
            other,
            str_eq_iff id a.id,
            claim_key a.id k (keys r.resources)
                (drop_owned a.id p.resources (keys p.resources) p.resources) mine,
          ))
      | inr alien ↦
          let kept : lookup k (drop_owned a.id p.resources (keys p.resources) p.resources)
              ≡ some id =
            sym (
              claim_other a.id k (keys r.resources)
                (drop_owned a.id p.resources (keys p.resources) p.resources) alien)
            ∙ h in
          elim (Bool-cases (owned_by a.id p.resources k)) [
            | inl own ↦ absurd (
                ground (
                  arith,
                  kept,
                  drop_owned_gone a.id k p.resources (keys p.resources) p.resources own
                      (inr (lookup-key k a.id p.resources (owned-lookup a.id p.resources k own))),
                ))
            | inr not_own ↦
                sym (drop_owned_other a.id k p.resources (keys p.resources) p.resources not_own)
                ∙ kept
          ]
    ]

pub sync-IsIndexed :
    (p : Pool) (address : ℕ) (a : Account) (r : RuntimeState) (q : Pool) (changed : Bool)
    → get_elem? p.store address ≡ some a
    → lookup a.id p.by_id ≡ some address
    → sync_account_runtime p address a r ≡ ok (q, changed)
    → IsIndexed p
    → IsIndexed q
sync-IsIndexed p address a r q changed e n h v = elim (sync-IsSynced p address a r q changed h) [
  | inl same ↦ rw same v
  | inr moved ↦ synced-IsIndexed p address a r q e n moved v
]
