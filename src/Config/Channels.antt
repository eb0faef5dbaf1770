-- ===== src/Config/Channels.antt =====
-- The lists of upstream channels that are accepted.
use aistudio2api.Prelude.{
  ◌≡◌, ◌⊎◌, inl, inr, ap, ◌≢◌, true, false, none, List, ◌∷◌, [], any, Text, codes, str_eq,
  str_eq_iff, arith,
}
use aistudio2api.Config.{known, validate_channels, validate_upstream_channels}

abbrev pub playground : Text
playground = codes "playground"

abbrev pub build : Text
build = codes "build"

-- The lists of channels that are accepted.
abbrev pub AreChannels : List Text → Type 0
AreChannels cs =
    (cs ≡ playground ∷ [])
    ⊎ ((cs ≡ build ∷ []) ⊎ ((cs ≡ playground ∷ build ∷ []) ⊎ (cs ≡ build ∷ playground ∷ [])))

known_lem : (c : Text) → known c ≡ true → (c ≡ playground) ⊎ (c ≡ build)
known_lem c h = ground (arith, h, str_eq_iff c playground, str_eq_iff c build)

pair_lem :
    (c d p b : Text)
    → (c ≡ p) ⊎ (c ≡ b)
    → (d ≡ p) ⊎ (d ≡ b)
    → str_eq d c ≡ false
    → (c ∷ d ∷ [] ≡ p ∷ b ∷ []) ⊎ (c ∷ d ∷ [] ≡ b ∷ p ∷ [])
pair_lem c d p b hc hd apart = ground (arith, hc, hd, apart, str_eq_iff d c)

no_third :
    (c d e p b : Text)
    → (c ≡ p) ⊎ (c ≡ b)
    → (d ≡ p) ⊎ (d ≡ b)
    → (e ≡ p) ⊎ (e ≡ b)
    → str_eq d c ≡ false
    → str_eq e d ≡ false
    → str_eq e c ≢ false
no_third c d e p b hc hd he dc ed ec =
    ground (arith, hc, hd, he, dc, ed, ec, str_eq_iff d c, str_eq_iff e d, str_eq_iff e c)

channels_step :
    (c : Text) (seen cs : List Text)
    → validate_channels seen (c ∷ cs) ≡ none
    → (known c ≡ true) × (any (str_eq c) seen ≡ false) × (validate_channels (c ∷ seen) cs ≡ none)
unfolding validate_channels
channels_step c seen cs h = ground (arith, h)

pub validate_upstream_channels-AreChannels :
    (cs : List Text) → validate_upstream_channels cs ≡ none → AreChannels cs
unfolding validate_upstream_channels
validate_upstream_channels-AreChannels [] h = absurd (ground arith)
validate_upstream_channels-AreChannels (c ∷ []) h =
    let (k, new, rest) = channels_step c [] [] h in
    elim (known_lem c k) [
      | inl p ↦ inl (ap (λ x. x ∷ []) p)
      | inr b ↦ inr (inl (ap (λ x. x ∷ []) b))
    ]
validate_upstream_channels-AreChannels (c ∷ d ∷ []) h =
    let (k, new, rest) = channels_step c [] (d ∷ []) h in
    let (k', new', rest') = channels_step d (c ∷ []) [] rest in
    inr
      (inr (pair_lem c d playground build (known_lem c k) (known_lem d k') (ground (arith, new'))))
validate_upstream_channels-AreChannels (c ∷ d ∷ e ∷ cs) h =
    let (k, new, rest) = channels_step c [] (d ∷ e ∷ cs) h in
    let (k', new', rest') = channels_step d (c ∷ []) (e ∷ cs) rest in
    let (k'', new'', rest'') = channels_step e (d ∷ c ∷ []) cs rest' in
    absurd (
      no_third c d e playground build (known_lem c k) (known_lem d k') (known_lem e k'')
        (ground (arith, new')) (ground (arith, new'')) (ground (arith, new'')))
