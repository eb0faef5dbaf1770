-- ===== src/Pool/Equality.antt =====
-- reflect.DeepEqual on the runtime state of an account; maps are equal if every key of either reads
-- alike in both. (A nil map and an empty one are the same here.)
use aistudio2api.Prelude.{
  Bool, true, false, not, ◌&&◌, ◌==◌, Option, none, some, any, str_eq, Assoc, lookup,
}
use aistudio2api.Pool.Types.{
  BenefitTier, free, pro, ultra, plus, unrecognised, VideoResourceMetadata, ResourceBinding,
  ModelAccess, RuntimeState,
}

abbrev option_eq {ℓ} : {A : Type ℓ} → (A → A → Bool) → Option A → Option A → Bool
option_eq eq none none = true
option_eq eq none (some b) = false
option_eq eq (some a) none = false
option_eq eq (some a) (some b) = eq a b

abbrev bool_eq : Bool → Bool → Bool
bool_eq true b = b
bool_eq false b = not b

unfoldable pub tier_eq : BenefitTier → BenefitTier → Bool
tier_eq free free = true
tier_eq pro pro = true
tier_eq ultra ultra = true
tier_eq plus plus = true
tier_eq (unrecognised m) (unrecognised n) = m == n
tier_eq _ _ = false

map_eq {ℓ} : {V : Type ℓ} → (V → V → Bool) → Assoc V → Assoc V → Bool
map_eq eq m n =
    not (any (λ e. not (option_eq eq (lookup e.0 m) (lookup e.0 n))) m)
    && not (any (λ e. not (option_eq eq (lookup e.0 m) (lookup e.0 n))) n)

video_eq : VideoResourceMetadata → VideoResourceMetadata → Bool
video_eq v w = str_eq v.model w.model && str_eq v.seconds w.seconds && str_eq v.size w.size

binding_eq : ResourceBinding → ResourceBinding → Bool
binding_eq b c =
    str_eq b.kind c.kind && b.created_at == c.created_at && option_eq video_eq b.video c.video

unfoldable pub runtime_eq : RuntimeState → RuntimeState → Bool
unfolding map_eq binding_eq video_eq
runtime_eq r s =
    map_eq (λ c d. c.until == d.until && str_eq c.reason d.reason) r.cooldowns s.cooldowns
    && map_eq binding_eq r.resources s.resources
    && map_eq
        (λ (a : ModelAccess) (b : ModelAccess).
          bool_eq a.verified b.verified && a.checked_at == b.checked_at)
        r.model_access s.model_access
    && tier_eq r.benefit_tier s.benefit_tier
    && str_eq r.catalog_fingerprint s.catalog_fingerprint
